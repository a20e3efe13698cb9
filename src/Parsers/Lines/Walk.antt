-- ===== src/Parsers/Lines/Walk.antt =====
-- The loop over the lines: well-formed arrays for any parser whose pushes are anchored, and the lines
-- of the messages for one that pushes one message for each record.
use distill_portal.Prelude.{
  ℕ, suc, ◌+◌, Text, none, List, [], ◌∷◌, length, drop, get_of_drop, ◌≡◌, refl, zero, sym, ap, ◌∙◌,
  map, ◌++◌, arith, split_lines,
}
use mathlib.Core.List.{append-nil, append_assoc, map-append}
use distill_portal.Parsers.{Message}
use distill_portal.Json.{Fields, Runtime}
use distill_portal.Parsers.Pushes.{
  Push, message, warn, warn_last, Output, empty_output, apply_push, apply_pushes,
}
use distill_portal.Parsers.Pushes.Anchored.{IsAnchored}
use distill_portal.Parsers.Pushes.Outputs.{
  IsWellFormed, IsWellFormed-mono, apply_pushes-IsWellFormed,
}
use distill_portal.Parsers.Lines.{
  LineRead, skipped, rejected, object, read_line, Handler, handle_line, is_nil, walk_lines,
  walk_text,
}

-- Every record's pushes are anchored.
abbrev pub AnchorsAll : {S : Type 0} → Handler S → Type 0
AnchorsAll {S} handle =
    (s : S) (ordinal : ℕ) (raw : Text) (r : Fields) → IsAnchored none (handle s ordinal raw r).0

-- How many messages a list of pushes pushes.
abbrev pub messages_in : List Push → ℕ
messages_in [] = 0
messages_in (message b ∷ ps) = suc (messages_in ps)
messages_in (_ ∷ ps) = messages_in ps

-- The lines that hold a JSON object, each with its ordinal; the first of them has the ordinal given.
abbrev pub object_line : LineRead → ℕ → Text → List (ℕ × Text)
object_line (object r) ordinal raw = (ordinal, raw) ∷ []
object_line _ ordinal raw = []

pub object_lines : Runtime → ℕ → List Text → List (ℕ × Text)
object_lines rt ordinal [] = []
object_lines rt ordinal (raw ∷ lines) =
    object_line (read_line rt (is_nil lines) raw) ordinal raw ++ object_lines rt (suc ordinal) lines

-- The line that a message names and carries.
abbrev pub line_of : Message → ℕ × Text
line_of m = (m.line_ordinal, m.raw)

abbrev lines_of : Output → List (ℕ × Text)
lines_of out = map line_of out.messages

abbrev repeat {ℓ} : {A : Type ℓ} → ℕ → A → List A
repeat zero x = []
repeat (suc n) x = x ∷ repeat n x

lines_of-apply_pushes :
    (ordinal : ℕ) (raw : Text) (ps : List Push) (out : Output)
    → lines_of (apply_pushes ordinal raw ps out)
      ≡ lines_of out ++ repeat (messages_in ps) (ordinal, raw)
unfolding apply_pushes
lines_of-apply_pushes ordinal raw [] out = sym (append-nil (lines_of out))
lines_of-apply_pushes ordinal raw (message b ∷ ps) out =
    let rest = repeat (messages_in ps) (ordinal, raw) in
    lines_of-apply_pushes ordinal raw ps (apply_push ordinal raw (message b) out)
    ∙ ap (λ ls. ls ++ rest) (map-append line_of _ _)
    ∙ append_assoc (lines_of out) ((ordinal, raw) ∷ []) rest
lines_of-apply_pushes ordinal raw (warn a b c ∷ ps) out =
    lines_of-apply_pushes ordinal raw ps (apply_push ordinal raw (warn a b c) out)
lines_of-apply_pushes ordinal raw (warn_last a b c ∷ ps) out =
    lines_of-apply_pushes ordinal raw ps (apply_push ordinal raw (warn_last a b c) out)

module _ {S : Type 0} (rt : Runtime) (handle : Handler S) where
  module _ (anchors : AnchorsAll handle) where
    handle_line-IsAnchored :
        (s : S) (ordinal : ℕ) (raw : Text) (r : LineRead)
        → IsAnchored none (handle_line rt handle s ordinal raw r).0
    unfolding handle_line
    handle_line-IsAnchored s ordinal raw skipped = tt
    handle_line-IsAnchored s ordinal raw (rejected reason) = tt
    handle_line-IsAnchored s ordinal raw (object r) = anchors s ordinal raw r

    walk_lines-IsWellFormed :
        (all : List Text) (ordinal : ℕ) (lines : List Text) (s : S) (out : Output)
        → drop ordinal all ≡ lines
        → IsWellFormed all ordinal out
        → IsWellFormed all (ordinal + length lines) (walk_lines rt handle ordinal lines (s, out)).1
    unfolding walk_lines
    walk_lines-IsWellFormed all ordinal [] s out e h =
        IsWellFormed-mono all ordinal (ordinal + 0) out (omega arith) h
    walk_lines-IsWellFormed all ordinal (raw ∷ lines) s out e h =
        let (at, rest) = get_of_drop ordinal all raw lines e in
        let r = read_line rt (is_nil lines) raw in
        let (ps, s') = handle_line rt handle s ordinal raw r in
        let out' = apply_pushes ordinal raw ps out in
        let h' : IsWellFormed all ordinal out' =
          apply_pushes-IsWellFormed all ordinal raw at none ps out
            (handle_line-IsAnchored s ordinal raw r) (λ k n. absurd (ground arith)) h in
        let later =
          walk_lines-IsWellFormed all (suc ordinal) lines s' out' rest
            (IsWellFormed-mono all ordinal (suc ordinal) out' (omega arith) h') in
        IsWellFormed-mono all (suc ordinal + length lines) (ordinal + suc (length lines)) _
          (omega arith) later

    pub walk_text-IsWellFormed :
        (s : S) (text : Text)
        → IsWellFormed (split_lines text) (length (split_lines text)) (walk_text rt handle s text).1
    unfolding walk_text
    walk_text-IsWellFormed s text =
        let lines = split_lines text in
        IsWellFormed-mono lines (0 + length lines) (length lines) _ (omega arith) (
          walk_lines-IsWellFormed lines 0 lines s empty_output refl (record {
            counted = refl;
            numbered = tt;
            ordered = tt;
            below = tt;
            of_line = tt;
            shaped = tt;
            pointing = tt;
          }))

  module _
      (single : (s : S) (ordinal : ℕ) (raw : Text) (r : Fields)
        → messages_in (handle s ordinal raw r).0 ≡ 1) where
    repeat-handle_line :
        (s : S) (ordinal : ℕ) (raw : Text) (r : LineRead)
        → repeat (messages_in (handle_line rt handle s ordinal raw r).0) (ordinal, raw)
          ≡ object_line r ordinal raw
    unfolding handle_line
    repeat-handle_line s ordinal raw skipped = refl
    repeat-handle_line s ordinal raw (rejected reason) = refl
    repeat-handle_line s ordinal raw (object r) = rw (single s ordinal raw r) refl

    lines_of-walk_lines :
        (ordinal : ℕ) (lines : List Text) (s : S) (out : Output)
        → lines_of (walk_lines rt handle ordinal lines (s, out)).1
          ≡ lines_of out ++ object_lines rt ordinal lines
    unfolding walk_lines object_lines
    lines_of-walk_lines ordinal [] s out = sym (append-nil (lines_of out))
    lines_of-walk_lines ordinal (raw ∷ lines) s out =
        let r = read_line rt (is_nil lines) raw in
        let (ps, s') = handle_line rt handle s ordinal raw r in
        let later = object_lines rt (suc ordinal) lines in
        lines_of-walk_lines (suc ordinal) lines s' (apply_pushes ordinal raw ps out)
        ∙ ap (λ ls. ls ++ later)
            (lines_of-apply_pushes ordinal raw ps out
              ∙ ap (λ ls. lines_of out ++ ls) (repeat-handle_line s ordinal raw r))
        ∙ append_assoc (lines_of out) (object_line r ordinal raw) later

    pub lines_of-walk_text :
        (s : S) (text : Text)
        → map line_of (walk_text rt handle s text).1.messages ≡ object_lines rt 0 (split_lines text)
    unfolding walk_text
    lines_of-walk_text s text = lines_of-walk_lines 0 (split_lines text) s empty_output
