-- ===== src/Hints/Groups/Buffer.antt =====
-- renderHints.ts: what a hint leaves in the buffer of `groupLifecycles`.
use distill_portal.Prelude.{Text, none, some, List, [], ◌∷◌, ◌++◌, ◌≡◌, arith}
use distill_portal.Parsers.{Message}
use distill_portal.Hints.{
  RenderHint, standalone, lifecycle, group_head, group_member, group_text_member, boundary_hint,
  warning_only_hint, metadata_hint, metadata_cluster_head, metadata_cluster_member,
}
use distill_portal.Hints.Groups.{
  Bufferable, call, text, bufferable, unbuffered, is_passthrough_standalone, flush_group,
  group_from,
}

-- Text is buffered only without a stamp, which a member has no room for.
abbrev pub IsEntry : Bufferable → Type 0
IsEntry (call h) = Unit
IsEntry (text h) = h.task_lifecycle ≡ none

module _ (messages : List Message) where
  pub bufferable-IsEntry :
      (h : RenderHint) (b : Bufferable)
      → bufferable messages h ≡ some b
      → (h ≡ unbuffered b) × IsEntry b
  unfolding bufferable is_passthrough_standalone
  bufferable-IsEntry (lifecycle h) (call b) e = ground arith
  bufferable-IsEntry (standalone h) (text b) e = ground arith
  bufferable-IsEntry (lifecycle h) (text b) e = ground arith
  bufferable-IsEntry (standalone h) (call b) e = ground arith
  bufferable-IsEntry (group_head h) b e = cc
  bufferable-IsEntry (group_member i h) b e = cc
  bufferable-IsEntry (group_text_member i j ws) b e = cc
  bufferable-IsEntry (boundary_hint i) b e = cc
  bufferable-IsEntry (warning_only_hint i ws) b e = cc
  bufferable-IsEntry (metadata_hint r) b e = cc
  bufferable-IsEntry (metadata_cluster_head is ms) b e = cc
  bufferable-IsEntry (metadata_cluster_member i q) b e = cc

module _ (lower : Text → Text) (messages : List Message) where
  pub group_from-some :
      (bs : List Bufferable) (h : RenderHint) (hs : List RenderHint) (b : Bufferable)
      → bufferable messages h ≡ some b
      → group_from lower messages bs (h ∷ hs) ≡ group_from lower messages (bs ++ b ∷ []) hs
  unfolding group_from
  group_from-some bs h hs b e = ground arith

  pub group_from-none :
      (bs : List Bufferable) (h : RenderHint) (hs : List RenderHint)
      → bufferable messages h ≡ none
      → group_from lower messages bs (h ∷ hs)
        ≡ flush_group lower messages bs ++ (h ∷ group_from lower messages [] hs)
  unfolding group_from
  group_from-none bs h hs e = ground arith
