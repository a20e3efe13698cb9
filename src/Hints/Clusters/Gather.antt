-- ===== src/Hints/Clusters/Gather.antt =====
-- renderHints.ts: the messages that a view finds in the hints, from those that it finds in the hints of
-- one message.
use distill_portal.Prelude.{
  ℕ, Bool, true, false, Option, none, some, List, [], ◌∷◌, ◌++◌, map, filter, ◌≡◌, refl, sym, ap,
  ◌∙◌, inl, inr, arith, Bool-cases, if◌then◌else◌, ◌&&◌,
}
use mathlib.Core.List.{append_assoc}
use distill_portal.Parsers.{
  Message, MessageKind, user, assistant, tool_use, tool_result, system, unknown, boundary, metadata,
}
use distill_portal.Hints.{RenderHint, InlineWarning}
use distill_portal.Hints.Failure.{is_tool_result}
use distill_portal.Hints.Messages.{is_tool_use, pair_with, is_pair, message_hints, emit_hints}
use distill_portal.Hints.Clusters.Flat.{unfolded, unfold_all}

-- A view gives the messages that it finds in a hint.
abbrev pub gather : (RenderHint → List ℕ) → List RenderHint → List ℕ
gather view [] = []
gather view (h ∷ hs) = view h ++ gather view hs

abbrev pub row_if : Bool → ℕ → List ℕ
row_if true i = i ∷ []
row_if false i = []

abbrev pub index_of : Message → ℕ
index_of m = m.message_index

module _ (view : RenderHint → List ℕ) where
  gather-append :
      (xs ys : List RenderHint) → gather view (xs ++ ys) ≡ gather view xs ++ gather view ys
  gather-append [] ys = refl
  gather-append (x ∷ xs) ys =
      ap (λ is. view x ++ is) (gather-append xs ys)
      ∙ sym (append_assoc (view x) (gather view xs) (gather view ys))

  pub gather-unfold_all :
      (one : (h : RenderHint) → gather view (unfolded h) ≡ view h) (hs : List RenderHint)
      → gather view (unfold_all hs) ≡ gather view hs
  gather-unfold_all one [] = refl
  gather-unfold_all one (h ∷ hs) =
      gather-append (unfolded h) (unfold_all hs) ∙ rw (one h, gather-unfold_all one hs) refl

-- Only a tool call has a partner, a tool result.
pub is_pair-pair_with :
    (m : Message) (ms : List Message) → is_pair (pair_with m ms) ≡ true → m.kind ≡ tool_use
is_pair-pair_with m [] h = cc
is_pair-pair_with m (n ∷ ms) h = of_kind m.kind (is_tool_result n.kind) h
  where
    of_kind :
        (k : MessageKind) (b : Bool)
        → is_pair (if is_tool_use k && b then some n.message_index else none) ≡ true
        → k ≡ tool_use
    of_kind tool_use b h = refl
    of_kind user b h = cc
    of_kind assistant b h = cc
    of_kind tool_result b h = cc
    of_kind system b h = cc
    of_kind unknown b h = cc
    of_kind boundary b h = cc
    of_kind metadata b h = cc

pair_with-some :
    (m n : Message) (ms : List Message)
    → is_pair (pair_with m (n ∷ ms)) ≡ true
    → (pair_with m (n ∷ ms) ≡ some n.message_index) × (is_tool_result n.kind ≡ true)
pair_with-some m n ms h = ground arith

pair_with-result :
    (n : Message) (ms : List Message) → is_tool_result n.kind ≡ true → pair_with n ms ≡ none
pair_with-result n [] h = refl
pair_with-result n (x ∷ ms) h = ground arith

is_pair-none : (p : Option ℕ) → is_pair p ≡ false → p ≡ none
is_pair-none none h = refl
is_pair-none (some i) h = cc

-- What the view finds in the hints of one message: the message, where it is kept, and the partner.
module _ (view : RenderHint → List ℕ) (inline : ℕ → List InlineWarning) (keep : Message → Bool)
    (partner_row : Option ℕ → List ℕ) (no_partner : partner_row none ≡ [])
    (of_result : (n : Message)
      → is_tool_result n.kind ≡ true
      → partner_row (some n.message_index) ≡ row_if (keep n) n.message_index)
    (of_message : (m : Message) (partner : Option ℕ)
      → (is_pair partner ≡ true → m.kind ≡ tool_use)
      → gather view (message_hints inline m partner)
        ≡ row_if (keep m) m.message_index ++ partner_row partner) where
  abbrev rows : List Message → List ℕ
  rows ms = map index_of (filter keep ms)

  rows-cons :
      (m : Message) (ms : List Message) → rows (m ∷ ms) ≡ row_if (keep m) m.message_index ++ rows ms
  rows-cons m ms = ground arith

  first_then_rest :
      (m : Message) (ms : List Message)
      → gather view (emit_hints inline false (m ∷ ms))
        ≡ row_if (keep m) m.message_index
          ++ (partner_row (pair_with m ms)
              ++ gather view (emit_hints inline (is_pair (pair_with m ms)) ms))
  unfolding emit_hints
  first_then_rest m ms =
      let p = pair_with m ms in
      let rest = gather view (emit_hints inline (is_pair p) ms) in
      gather-append view (message_hints inline m p) (emit_hints inline (is_pair p) ms)
      ∙ ap (λ is. is ++ rest) (of_message m p (is_pair-pair_with m ms))
      ∙ append_assoc (row_if (keep m) m.message_index) (partner_row p) rest

  consumed_then_rest :
      (n : Message) (ms : List Message)
      → is_tool_result n.kind ≡ true
      → emit_hints inline true (n ∷ ms) ≡ emit_hints inline false ms
  unfolding emit_hints
  consumed_then_rest n ms h = rw (pair_with-result n ms h) refl

  pub gather-emit_hints : (ms : List Message) → gather view (emit_hints inline false ms) ≡ rows ms
  gather-emit_hints [] = unfold emit_hints in refl
  gather-emit_hints (m ∷ []) =
      first_then_rest m [] ∙ unfold emit_hints in rw no_partner (sym (rows-cons m []))
  gather-emit_hints (m ∷ n ∷ ms) = elim (Bool-cases (is_pair (pair_with m (n ∷ ms)))) [
    | inl e ↦
        let (p, result) = pair_with-some m n ms e in
        first_then_rest m (n ∷ ms)
        ∙ ap (λ is. row_if (keep m) m.message_index ++ is)
            (rw (p, consumed_then_rest n ms result, gather-emit_hints ms)
              (ap (λ is. is ++ rows ms) (of_result n result) ∙ sym (rows-cons n ms)))
        ∙ sym (rows-cons m (n ∷ ms))
    | inr e ↦
        let p = is_pair-none (pair_with m (n ∷ ms)) e in
        first_then_rest m (n ∷ ms)
        ∙ ap (λ is. row_if (keep m) m.message_index ++ is)
            (rw (p, no_partner) (gather-emit_hints (n ∷ ms)))
        ∙ sym (rows-cons m (n ∷ ms))
  ]
