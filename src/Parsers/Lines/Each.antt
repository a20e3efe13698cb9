-- ===== src/Parsers/Lines/Each.antt =====
-- The loop over the lines: what holds of the body of every push holds of every message.
use distill_portal.Prelude.{
  ℕ, suc, Text, Bool, true, false, Option, none, some, List, [], ◌∷◌, ◌++◌, All, All-append, ◌≡◌,
  refl, arith, split_lines,
}
use distill_portal.Json.{Json, null, bool, num, str, arr, obj, Fields, Runtime}
use distill_portal.Parsers.{Message}
use distill_portal.Parsers.Pushes.{
  Body, Push, message, warn, warn_last, Output, empty_output, line_message, apply_push,
  apply_pushes,
}
use distill_portal.Parsers.Lines.{
  LineRead, skipped, rejected, object, parsed_line, read_line, Handler, handle_line, is_nil,
  walk_lines, walk_text,
}

-- The bodies that a list of pushes pushes.
abbrev pub Bodies : (Body → Type 0) → List Push → Type 0
Bodies P [] = Unit
Bodies P (message b ∷ ps) = P b × Bodies P ps
Bodies P (_ ∷ ps) = Bodies P ps

pub Bodies-append :
    (P : Body → Type 0) (ps qs : List Push) → Bodies P ps → Bodies P qs → Bodies P (ps ++ qs)
Bodies-append P [] qs h k = k
Bodies-append P (message b ∷ ps) qs (h, hs) k = (h, Bodies-append P ps qs hs k)
Bodies-append P (warn _ _ _ ∷ ps) qs h k = Bodies-append P ps qs h k
Bodies-append P (warn_last _ _ _ ∷ ps) qs h k = Bodies-append P ps qs h k

pub Bodies-mono :
    {P Q : Body → Type 0} (ps : List Push) → ((b : Body) → P b → Q b) → Bodies P ps → Bodies Q ps
Bodies-mono [] f h = tt
Bodies-mono (message b ∷ ps) f (h, hs) = (f b h, Bodies-mono ps f hs)
Bodies-mono (warn _ _ _ ∷ ps) f h = Bodies-mono ps f h
Bodies-mono (warn_last _ _ _ ∷ ps) f h = Bodies-mono ps f h

object_of_json : (v : Option Json) (r : Fields) → parsed_line v ≡ object r → v ≡ some (obj r)
object_of_json none r h = cc
object_of_json (some (obj q)) r h = ground arith
object_of_json (some null) r h = cc
object_of_json (some (bool b)) r h = cc
object_of_json (some (num n)) r h = cc
object_of_json (some (str t)) r h = cc
object_of_json (some (arr vs)) r h = cc

read_line-object :
    (rt : Runtime) (last : Bool) (raw : Text) (r : Fields)
    → read_line rt last raw ≡ object r
    → rt.parse_json raw ≡ some (obj r)
unfolding read_line
read_line-object rt true [] r h = cc
read_line-object rt false [] r h = cc
read_line-object rt true (c ∷ raw) r h = object_of_json (rt.parse_json (c ∷ raw)) r h
read_line-object rt false (c ∷ raw) r h = object_of_json (rt.parse_json (c ∷ raw)) r h

-- What holds of the bodies for every line holds of the messages of the whole text.
module _ {S : Type 0} (rt : Runtime) (handle : Handler S) (Q : Message → Type 0)
    (each : (s : S) (ordinal : ℕ) (raw : Text) (r : Fields)
      → rt.parse_json raw ≡ some (obj r)
      → Bodies (λ b. (i : ℕ) → Q (line_message ordinal raw i b)) (handle s ordinal raw r).0) where
  All-apply_pushes :
      (ordinal : ℕ) (raw : Text) (ps : List Push) (out : Output)
      → Bodies (λ b. (i : ℕ) → Q (line_message ordinal raw i b)) ps
      → All Q out.messages
      → All Q (apply_pushes ordinal raw ps out).messages
  unfolding apply_pushes
  All-apply_pushes ordinal raw [] out h k = k
  All-apply_pushes ordinal raw (message b ∷ ps) out (h, hs) k =
      All-apply_pushes ordinal raw ps (apply_push ordinal raw (message b) out) hs (
        All-append Q out.messages (line_message ordinal raw out.next_message_index b ∷ []) k
          (h out.next_message_index, tt))
  All-apply_pushes ordinal raw (warn a b c ∷ ps) out h k =
      All-apply_pushes ordinal raw ps (apply_push ordinal raw (warn a b c) out) h k
  All-apply_pushes ordinal raw (warn_last a b c ∷ ps) out h k =
      All-apply_pushes ordinal raw ps (apply_push ordinal raw (warn_last a b c) out) h k

  Bodies-handle_line :
      (s : S) (ordinal : ℕ) (raw : Text) (l : LineRead)
      → ((r : Fields) → l ≡ object r → rt.parse_json raw ≡ some (obj r))
      → Bodies
          (λ b. (i : ℕ) → Q (line_message ordinal raw i b))
          (handle_line rt handle s ordinal raw l).0
  unfolding handle_line
  Bodies-handle_line s ordinal raw skipped h = tt
  Bodies-handle_line s ordinal raw (rejected reason) h = tt
  Bodies-handle_line s ordinal raw (object r) h = each s ordinal raw r (h r refl)

  All-walk_lines :
      (ordinal : ℕ) (lines : List Text) (s : S) (out : Output)
      → All Q out.messages
      → All Q (walk_lines rt handle ordinal lines (s, out)).1.messages
  unfolding walk_lines
  All-walk_lines ordinal [] s out k = k
  All-walk_lines ordinal (raw ∷ lines) s out k =
      let l = read_line rt (is_nil lines) raw in
      let (ps, s') = handle_line rt handle s ordinal raw l in
      All-walk_lines (suc ordinal) lines s' (apply_pushes ordinal raw ps out) (
        All-apply_pushes ordinal raw ps out
          (Bodies-handle_line s ordinal raw l (read_line-object rt (is_nil lines) raw)) k)

  pub All-walk_text : (s : S) (text : Text) → All Q (walk_text rt handle s text).1.messages
  unfolding walk_text
  All-walk_text s text = All-walk_lines 0 (split_lines text) s empty_output tt
