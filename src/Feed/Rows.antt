-- ===== src/Feed/Rows.antt =====
-- useOperationsFeed.ts: the rows of the operations, and the place where a reconnect resumes.
use distill_portal.Prelude.{
  ℕ, ◌≤◌, Text, text_eq, Bool, true, false, Option, none, some, List, [], ◌∷◌, dict_get, dict_set,
  dict_get-dict_set, if◌then◌else◌, All, ◌≡◌, refl, ap, ◌∙◌, arith,
}
use mathlib.Core.List.{Memᴰ}
use distill_portal.Feed.{FeedState, OperationTransitionEvent, handle_frame}
use distill_portal.Feed.Steps.{
  FeedEvent, snapshot, transition, resync_settles, fallback_settles, response, step, add_operations,
  build_operations_map, on_snapshot, on_transition, on_resync, on_fallback,
}

-- A frame of either kind, `true` for a snapshot.
abbrev pub Frame : Type 0 → Type 0
Frame Op = Bool × OperationTransitionEvent Op

abbrev frame_event : {Op : Type 0} → Frame Op → FeedEvent Op
frame_event (true, f) = snapshot (some f)
frame_event (false, f) = transition (some f)

module _ {Op : Type 0} (op_id : Op → Text) where
  -- The last operation of a list with an id, if any, otherwise the one given.
  abbrev pub latest : Text → Option Op → List Op → Option Op
  latest id seen [] = seen
  latest id seen (op ∷ ops) = latest id (if text_eq (op_id op) id then some op else seen) ops

  abbrev pub carried : List (Frame Op) → List Op
  carried [] = []
  carried ((b, f) ∷ fs) = f.operation ∷ carried fs

  -- The sequence numbers of the transitions.
  abbrev pub seqs : List (Frame Op) → List ℕ
  seqs [] = []
  seqs ((true, f) ∷ fs) = seqs fs
  seqs ((false, f) ∷ fs) = f.seq ∷ seqs fs

  module _ (base : Text) where
    unfoldable pub feed : List (Frame Op) → FeedState Op → FeedState Op
    unfolding step
    feed [] s = s
    feed (f ∷ fs) s = feed fs (step op_id base (frame_event f) s)

    get-add_operations :
        (id : Text) (ops : List Op) (m : List (Text × Op))
        → dict_get id (add_operations op_id base ops m) ≡ latest id (dict_get id m) ops
    unfolding add_operations
    get-add_operations id [] m = refl
    get-add_operations id (op ∷ ops) m =
        get-add_operations id ops (dict_set (op_id op) op m)
        ∙ ap (λ seen. latest id seen ops) (dict_get-dict_set (op_id op) id op m)

    step_frame :
        (f : Frame Op) (s : FeedState Op)
        → s.mounted ≡ true
        → ((step op_id base (frame_event f) s).mounted ≡ true)
          × ((step op_id base (frame_event f) s).operations
              ≡ dict_set (op_id f.1.operation) f.1.operation s.operations)
    unfolding step on_snapshot on_transition handle_frame
    step_frame (true, f) s m = ground arith
    step_frame (false, f) s m = ground arith

    -- While the hook is mounted, the row of an id after any frames is the operation of the last
    -- frame with that id, and the row from before where no frame has it.
    pub get-feed :
        (fs : List (Frame Op)) (s : FeedState Op) (id : Text)
        → s.mounted ≡ true
        → dict_get id (feed fs s).operations ≡ latest id (dict_get id s.operations) (carried fs)
    unfolding feed
    get-feed [] s id m = refl
    get-feed (f ∷ fs) s id m =
        let (m', rows) = step_frame f s m in
        get-feed fs (step op_id base (frame_event f) s) id m'
        ∙ ap (λ seen. latest id seen (carried fs))
            (ap (dict_get id) rows
              ∙ dict_get-dict_set (op_id f.1.operation) id f.1.operation s.operations)

    -- A response to a poll or a resync replaces the rows of a mounted hook: the row of an id is then
    -- the last operation of the response with that id, and there is no other row.
    pub get-response :
        (c : ℕ) (ops : List Op) (s : FeedState Op) (id : Text)
        → s.mounted ≡ true
        → (dict_get id (step op_id base (fallback_settles c (response ops)) s).operations
            ≡ latest id none ops)
          × (dict_get id (step op_id base (resync_settles c (response ops)) s).operations
              ≡ latest id none ops)
    unfolding step on_fallback on_resync build_operations_map dict_get
    get-response c ops s id m = let e = get-add_operations id ops [] in (rw m e, rw m e)

    -- `q` is the largest of the numbers.
    abbrev pub IsLargest : ℕ → List ℕ → Type 0
    IsLargest q ns = All (λ n. n ≤ q) ns × Memᴰ q ns
