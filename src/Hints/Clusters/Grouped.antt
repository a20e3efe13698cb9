-- ===== src/Hints/Clusters/Grouped.antt =====
-- renderHints.ts: grouping and clustering fold hints away and change nothing else.
use distill_portal.Prelude.{
  ℕ, Text, trim, Bool, true, false, Option, none, some, List, [], ◌∷◌, ◌++◌, map, length, leb, All,
  All-append, ◌≡◌, refl, sym, ap, ◌∙◌, inl, inr, arith, Bool-cases, Option-cases,
}
use distill_portal.Parsers.{
  Message, MessageKind, user, assistant, tool_use, tool_result, system, unknown, boundary, metadata,
  ParseWarning,
}
use distill_portal.Hints.{RenderHint, standalone, lifecycle, InlineWarning, TaskLifecycle}
use distill_portal.Hints.Messages.{
  pair_with, is_pair, is_empty, routed_hint, suppressed_hints, spoken_hints, stamped_hint,
  system_hint, message_hints, emit_hints, hints_of_messages, inline_at, task_lifecycle_of,
  kind_hints,
}
use distill_portal.Hints.Groups.{
  Bufferable, call, text, bufferable, unbuffered, member_of, calls, head_of, head_index,
  flush_group, group_from, group_lifecycles, group_threshold,
}
use distill_portal.Hints.Groups.Buffer.{
  IsEntry, bufferable-IsEntry, group_from-some, group_from-none,
}
use distill_portal.Hints.Clusters.{render_hints}
use distill_portal.Hints.Clusters.Flat.{
  unfolded, unfold_all, unfold_all-append, IsFlat, unfold_all-cluster_metadata,
}
use mathlib.Core.List.{append-nil, append_assoc, map-append}

unfolded-member_of :
    (head : ℕ) (b : Bufferable) → IsEntry b → unfolded (member_of head b) ≡ unbuffered b ∷ []
unfolded-member_of head (call h) e = refl
unfolded-member_of head (text h) e = ground arith

unfold_all-members :
    (head : ℕ) (bs : List Bufferable)
    → All IsEntry bs
    → unfold_all (map (member_of head) bs) ≡ map unbuffered bs
unfold_all-members head [] es = refl
unfold_all-members head (b ∷ bs) (e, es) =
    rw (unfolded-member_of head b e, unfold_all-members head bs es) refl

unfold_all-unbuffered : (bs : List Bufferable) → unfold_all (map unbuffered bs) ≡ map unbuffered bs
unfold_all-unbuffered [] = refl
unfold_all-unbuffered (call h ∷ bs) = ap (λ xs. lifecycle h ∷ xs) (unfold_all-unbuffered bs)
unfold_all-unbuffered (text h ∷ bs) = ap (λ xs. standalone h ∷ xs) (unfold_all-unbuffered bs)

module _ (lower : Text → Text) (messages : List Message) where
  unfold_all-flush_group :
      (bs : List Bufferable)
      → All IsEntry bs
      → unfold_all (flush_group lower messages bs) ≡ map unbuffered bs
  unfolding flush_group head_of
  unfold_all-flush_group bs es = elim (Bool-cases (leb group_threshold (length (calls bs)))) [
    | inl e ↦ rw e (unfold_all-members (head_index (calls bs)) bs es)
    | inr e ↦ rw e (unfold_all-unbuffered bs)
  ]

  pub unfold_all-group_from :
      (bs : List Bufferable) (hs : List RenderHint)
      → All IsEntry bs
      → All IsFlat hs
      → unfold_all (group_from lower messages bs hs) ≡ map unbuffered bs ++ hs
  unfold_all-group_from bs [] es fs =
      unfold group_from in unfold_all-flush_group bs es ∙ sym (append-nil (map unbuffered bs))
  unfold_all-group_from bs (h ∷ hs) es (f, fs) = elim (Option-cases (bufferable messages h)) [
    | inl e ↦
        ap unfold_all (group_from-none lower messages bs h hs e)
        ∙ unfold_all-append (flush_group lower messages bs) (h ∷ group_from lower messages [] hs)
        ∙ rw (unfold_all-flush_group bs es, f, unfold_all-group_from [] hs tt fs) refl
    | inr (b, e) ↦
        let (same, entry) = bufferable-IsEntry messages h b e in
        ap unfold_all (group_from-some lower messages bs h hs b e)
        ∙ unfold_all-group_from (bs ++ b ∷ []) hs (All-append IsEntry bs (b ∷ []) es (entry, tt)) fs
        ∙ rw (same, map-append) (append_assoc (map unbuffered bs) (unbuffered b ∷ []) hs)
  ]

routed_hint-IsFlat : (i : ℕ) (ws : List InlineWarning) → IsFlat (routed_hint i ws)
unfolding routed_hint
routed_hint-IsFlat i ws = ground arith

stamped_hint-IsFlat :
    (task : Option TaskLifecycle) (i : ℕ) (ws : List InlineWarning)
    → IsFlat (stamped_hint task i ws)
stamped_hint-IsFlat none i ws = routed_hint-IsFlat i ws
stamped_hint-IsFlat (some task) i ws = refl

spoken_hints-IsFlat : (m : Message) (ws : List InlineWarning) → All IsFlat (spoken_hints m ws)
unfolding spoken_hints
spoken_hints-IsFlat m ws = elim (Bool-cases (is_empty (trim m.text))) [
  | inl e ↦ rw e (suppressed m.message_index ws)
  | inr e ↦ rw e (routed_hint-IsFlat m.message_index ws, tt)
]
  where
    suppressed : (i : ℕ) (ws : List InlineWarning) → All IsFlat (suppressed_hints i ws)
    suppressed i [] = tt
    suppressed i (w ∷ ws) = (refl, tt)

module _ (inline : ℕ → List InlineWarning) where
  kind_hints-IsFlat :
      (k : MessageKind) (m : Message) (partner : Option ℕ)
      → All IsFlat (kind_hints inline k m partner)
  unfolding system_hint
  kind_hints-IsFlat boundary m partner = (refl, tt)
  kind_hints-IsFlat metadata m partner = (refl, tt)
  kind_hints-IsFlat tool_use m partner = (refl, tt)
  kind_hints-IsFlat tool_result m partner = (refl, tt)
  kind_hints-IsFlat user m partner = spoken_hints-IsFlat m (inline m.message_index)
  kind_hints-IsFlat assistant m partner = spoken_hints-IsFlat m (inline m.message_index)
  kind_hints-IsFlat system m partner =
      (stamped_hint-IsFlat (task_lifecycle_of m.text) m.message_index (inline m.message_index), tt)
  kind_hints-IsFlat unknown m partner =
      (routed_hint-IsFlat m.message_index (inline m.message_index), tt)

  pub emit_hints-IsFlat :
      (consumed : Bool) (ms : List Message) → All IsFlat (emit_hints inline consumed ms)
  unfolding emit_hints message_hints
  emit_hints-IsFlat consumed [] = tt
  emit_hints-IsFlat true (m ∷ ms) = emit_hints-IsFlat (is_pair (pair_with m ms)) ms
  emit_hints-IsFlat false (m ∷ ms) =
      All-append IsFlat (message_hints inline m (pair_with m ms))
        (emit_hints inline (is_pair (pair_with m ms)) ms)
        (kind_hints-IsFlat m.kind m (pair_with m ms))
        (emit_hints-IsFlat (is_pair (pair_with m ms)) ms)

-- Grouping tool calls and clustering metadata lose nothing and move nothing: without the heads, and
-- with each member as a hint of its own again, the hints of a session are those that its messages
-- have before the two passes, in the same order.
pub unfold_all-render_hints :
    (lower : Text → Text) (messages : List Message) (warnings : List ParseWarning)
    → unfold_all (render_hints lower messages warnings) ≡ hints_of_messages messages warnings
unfolding render_hints group_lifecycles hints_of_messages
unfold_all-render_hints lower messages warnings =
    let inline = inline_at warnings (length messages) in
    let hints = emit_hints inline false messages in
    unfold_all-cluster_metadata (group_from lower messages [] hints)
    ∙ unfold_all-group_from lower messages [] hints tt (emit_hints-IsFlat inline false messages)
