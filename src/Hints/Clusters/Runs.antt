-- ===== src/Hints/Clusters/Runs.antt =====
-- renderHints.ts: where the clusters of metadata of a session begin and end.
use distill_portal.Prelude.{
  ℕ, ◌≤◌, Text, Bool, true, false, none, List, [], ◌∷◌, ◌++◌, map, length, leb, ltb, All,
  All-append, All-map, All-mono, ◌≡◌, refl, inl, inr, arith, Bool-cases, Option-cases,
}
use mathlib.Core.Path.{subst}
use mathlib.Core.List.{append-nil}
use distill_portal.Parsers.{Message, ParseWarning}
use distill_portal.Hints.{
  RenderHint, standalone, lifecycle, group_head, group_member, group_text_member, boundary_hint,
  warning_only_hint, metadata_hint, metadata_cluster_head, metadata_cluster_member, MetadataRow,
}
use distill_portal.Hints.Messages.{hints_of_messages, inline_at}
use distill_portal.Hints.Groups.{
  Bufferable, call, text, bufferable, unbuffered, member_of, calls, head_of, head_index,
  flush_group, group_from, group_lifecycles, group_threshold,
}
use distill_portal.Hints.Groups.Buffer.{group_from-some, group_from-none}
use distill_portal.Hints.Groups.Runs.{is_folded}
use distill_portal.Hints.Clusters.{
  flush_cluster, cluster_from, cluster_metadata, metadata_row, render_hints, first_index, row_index,
  row_hint, metadata_collapse_threshold,
}
use distill_portal.Hints.Clusters.Flat.{IsFlat, cluster_from-some, cluster_from-none}
use distill_portal.Hints.Clusters.Grouped.{emit_hints-IsFlat}

abbrev pub is_clustered : RenderHint → Bool
is_clustered (metadata_cluster_head is hs) = true
is_clustered (metadata_cluster_member head r) = true
is_clustered _ = false

-- A run of metadata rows, which does not come right after another one, is one row on its own, or one
-- cluster of two rows or more; the Boolean says that a run has just ended.
pub data IsClustered : Bool → List RenderHint → Type 0 where
  end : {b : Bool} → IsClustered b []
  other :
      {b : Bool} {h : RenderHint} {hs : List RenderHint}
      → metadata_row h ≡ none
      → is_clustered h ≡ false
      → IsClustered false hs
      → IsClustered b (h ∷ hs)
  lone :
      {b : Bool} {r : MetadataRow} {hs : List RenderHint}
      → b ≡ false
      → IsClustered true hs
      → IsClustered b (metadata_hint r ∷ hs)
  cluster :
      {b : Bool} {out hs : List RenderHint} (rows : List MetadataRow)
      → b ≡ false
      → 2 ≤ length rows
      → out
        ≡ metadata_cluster_head (map row_index rows) (map row_hint rows)
          ∷ (map (metadata_cluster_member (first_index rows)) rows ++ hs)
      → IsClustered true hs
      → IsClustered b out

lone_run :
    (rs : List MetadataRow) (hs : List RenderHint)
    → length rs ≤ 1
    → ((b : Bool) → IsClustered b hs)
    → IsClustered false (map metadata_hint rs ++ hs)
lone_run [] hs h rest = rest false
lone_run (r ∷ []) hs h rest = lone refl (rest true)
lone_run (r ∷ q ∷ rs) hs h rest = absurd (omega arith)

flush_cluster-IsClustered :
    (rs : List MetadataRow) (hs : List RenderHint)
    → ((b : Bool) → IsClustered b hs)
    → IsClustered false (flush_cluster rs ++ hs)
unfolding flush_cluster
flush_cluster-IsClustered rs hs rest =
    elim (Bool-cases (ltb (length rs) metadata_collapse_threshold)) [
      | inl e ↦ rw e (lone_run rs hs (ground arith) rest)
      | inr e ↦ rw e (cluster rs refl (ground arith) refl (rest true))
    ]

cluster_from-IsClustered :
    (rs : List MetadataRow) (hs : List RenderHint)
    → All (λ h. is_clustered h ≡ false) hs
    → IsClustered false (cluster_from rs hs)
cluster_from-IsClustered rs [] fs =
    unfold cluster_from in
    subst (IsClustered false) (append-nil (flush_cluster rs))
      (flush_cluster-IsClustered rs [] (λ b. end))
cluster_from-IsClustered rs (h ∷ hs) (f, fs) = elim (Option-cases (metadata_row h)) [
  | inl e ↦ rw (cluster_from-none rs h hs e) (
      flush_cluster-IsClustered rs (h ∷ cluster_from [] hs)
        (λ b. other e f (cluster_from-IsClustered [] hs fs)))
  | inr (r, e) ↦ rw (cluster_from-some rs h hs r e) (cluster_from-IsClustered (rs ++ r ∷ []) hs fs)
]

-- The first two passes leave no cluster.
abbrev IsPlain : RenderHint → Type 0
IsPlain h = (is_clustered h ≡ false) × (is_folded h ≡ false)

IsFlat-IsPlain : (h : RenderHint) → IsFlat h → IsPlain h
IsFlat-IsPlain (group_head h) f = cc
IsFlat-IsPlain (group_member i h) f = ground arith
IsFlat-IsPlain (group_text_member i j ws) f = ground arith
IsFlat-IsPlain (metadata_cluster_head is ms) f = cc
IsFlat-IsPlain (metadata_cluster_member i q) f = ground arith
IsFlat-IsPlain (standalone h) f = (refl, refl)
IsFlat-IsPlain (lifecycle h) f = (refl, refl)
IsFlat-IsPlain (boundary_hint i) f = (refl, refl)
IsFlat-IsPlain (warning_only_hint i ws) f = (refl, refl)
IsFlat-IsPlain (metadata_hint r) f = (refl, refl)

abbrev IsUnclustered : RenderHint → Type 0
IsUnclustered h = is_clustered h ≡ false

hints_of_messages-IsPlain :
    (messages : List Message) (warnings : List ParseWarning)
    → All IsPlain (hints_of_messages messages warnings)
unfolding hints_of_messages
hints_of_messages-IsPlain messages warnings =
    All-mono IsFlat IsPlain _ IsFlat-IsPlain
      (emit_hints-IsFlat (inline_at warnings (length messages)) false messages)

members-IsUnclustered : (head : ℕ) (b : Bufferable) → IsUnclustered (member_of head b)
members-IsUnclustered head (call h) = refl
members-IsUnclustered head (text h) = refl

unbuffered-IsUnclustered : (b : Bufferable) → IsUnclustered (unbuffered b)
unbuffered-IsUnclustered (call h) = refl
unbuffered-IsUnclustered (text h) = refl

module _ (lower : Text → Text) (messages : List Message) where
  flush_group-IsUnclustered :
      (bs : List Bufferable) → All IsUnclustered (flush_group lower messages bs)
  unfolding flush_group head_of
  flush_group-IsUnclustered bs = elim (Bool-cases (leb group_threshold (length (calls bs)))) [
    | inl e ↦ rw e (
      refl,
      All-map IsUnclustered (member_of (head_index (calls bs))) bs
          (members-IsUnclustered (head_index (calls bs))),
    )
    | inr e ↦ rw e (All-map IsUnclustered unbuffered bs unbuffered-IsUnclustered)
  ]

  group_from-IsUnclustered :
      (bs : List Bufferable) (hs : List RenderHint)
      → All IsUnclustered hs
      → All IsUnclustered (group_from lower messages bs hs)
  group_from-IsUnclustered bs [] us = unfold group_from in flush_group-IsUnclustered bs
  group_from-IsUnclustered bs (h ∷ hs) (u, us) = elim (Option-cases (bufferable messages h)) [
    | inl e ↦ rw (group_from-none lower messages bs h hs e) (
        All-append IsUnclustered (flush_group lower messages bs)
          (h ∷ group_from lower messages [] hs) (flush_group-IsUnclustered bs)
          (u, group_from-IsUnclustered [] hs us))
    | inr (b, e) ↦
        rw (group_from-some lower messages bs h hs b e)
          (group_from-IsUnclustered (bs ++ b ∷ []) hs us)
  ]

  module _ (warnings : List ParseWarning) where
    -- In what a session shows, neighbouring metadata rows are in one cluster, headed by the indices and the
    -- texts of all of them; a row stands on its own only between hints of other kinds.
    pub render_hints-IsClustered : IsClustered false (render_hints lower messages warnings)
    unfolding render_hints cluster_metadata group_lifecycles
    render_hints-IsClustered =
        cluster_from-IsClustered []
          (group_from lower messages [] (hints_of_messages messages warnings))
          (group_from-IsUnclustered [] (hints_of_messages messages warnings) (
            All-mono IsPlain IsUnclustered _ (λ h p. p.0)
              (hints_of_messages-IsPlain messages warnings)))
