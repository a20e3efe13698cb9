-- ===== src/Feed/Steps.antt =====
-- useOperationsFeed.ts: the browser's events, when each can happen, and its handler.
use distill_portal.Prelude.{
  ℕ, ◌==◌, Text, Bool, true, false, not, Option, none, some, List, [], ◌∷◌, dict_set, ltb,
  if◌then◌else◌, ◌≡◌,
}
use distill_portal.Feed.{
  FeedState, OperationTransitionEvent, streaming, initial, tick, handle_frame, handle_resync,
  handle_error, connect, mount, unmount, later_seq,
}

-- How a request for the list of operations ends.
pub data Settled (Op : Type 0) : Type 0 where
  response : List Op → Settled Op
  aborted failed : Settled Op

-- A frame is none where its data is no event.
pub data FeedEvent (Op : Type 0) : Type 0 where
  mounts unmounts resync source_error reconnect_fires poll_fires : FeedEvent Op
  snapshot transition : Option (OperationTransitionEvent Op) → FeedEvent Op
  fallback_settles resync_settles : ℕ → Settled Op → FeedEvent Op

abbrev pub is_some {ℓ} : {A : Type ℓ} → Option A → Bool
is_some none = false
is_some (some a) = true

-- `if (ref.current === controller) ref.current = null`.
abbrev pub released : ℕ → Option ℕ → Option ℕ
released controller none = none
released controller (some c) = if c == controller then none else some c

module _ {Op : Type 0} (op_id : Op → Text) (base : Text) where
  -- The source, the timers and the requests whose events can still come.
  abbrev pub can_happen : FeedEvent Op → FeedState Op → Bool
  can_happen mounts s = not s.mounted
  can_happen unmounts s = s.mounted
  can_happen resync s = is_some s.event_source
  can_happen source_error s = is_some s.event_source
  can_happen reconnect_fires s = is_some s.reconnect_timer
  can_happen poll_fires s = s.poll_interval
  can_happen (snapshot f) s = is_some s.event_source
  can_happen (transition f) s = is_some s.event_source
  can_happen (fallback_settles c r) s = ltb c s.controllers
  can_happen (resync_settles c r) s = ltb c s.controllers

  abbrev set_operation : Op → List (Text × Op) → List (Text × Op)
  set_operation op operations = dict_set (op_id op) op operations

  unfoldable pub add_operations : List Op → List (Text × Op) → List (Text × Op)
  unfolding dict_set
  add_operations [] m = m
  add_operations (op ∷ ops) m = add_operations ops (set_operation op m)

  unfoldable pub build_operations_map : List Op → List (Text × Op)
  unfolding add_operations
  build_operations_map ops = add_operations ops []

  unfoldable pub on_snapshot : Option (OperationTransitionEvent Op) → FeedState Op → FeedState Op
  unfolding handle_frame dict_set
  on_snapshot none s = s
  on_snapshot (some f) s =
      handle_frame (record s { operations = set_operation f.operation s.operations })

  unfoldable pub on_transition : Option (OperationTransitionEvent Op) → FeedState Op → FeedState Op
  unfolding handle_frame dict_set
  on_transition none s = s
  on_transition (some f) s = handle_frame (record s {
    operations = set_operation f.operation s.operations;
    last_event_seq = later_seq s.last_event_seq f.seq;
    last_event_seq_ref = later_seq s.last_event_seq_ref f.seq;
  })

  unfoldable pub on_fallback : ℕ → Settled Op → FeedState Op → FeedState Op
  unfolding build_operations_map
  on_fallback c (response ops) s =
      record (if s.mounted then record s { operations = build_operations_map ops } else s) {
        fallback_abort = released c s.fallback_abort;
      }
  on_fallback c _ s = record s { fallback_abort = released c s.fallback_abort }

  unfoldable pub on_resync : ℕ → Settled Op → FeedState Op → FeedState Op
  unfolding build_operations_map
  on_resync c (response ops) s =
      record (if s.mounted
        then record s { operations = build_operations_map ops; status = streaming }
        else s) { resync_abort = released c s.resync_abort }
  on_resync c _ s = record s { resync_abort = released c s.resync_abort }

  -- The listeners and the timers do nothing once the hook is unmounted.
  unfoldable pub step : FeedEvent Op → FeedState Op → FeedState Op
  unfolding mount unmount connect tick handle_resync handle_error on_snapshot on_transition
      on_fallback on_resync
  step mounts s = mount base s
  step unmounts s = unmount s
  step resync s = if s.mounted then handle_resync s else s
  step source_error s = if s.mounted then handle_error s else s
  step reconnect_fires s =
      let fired = record s { reconnect_timer = none } in
      if s.mounted then connect base fired else fired
  step poll_fires s = tick s
  step (snapshot f) s = if s.mounted then on_snapshot f s else s
  step (transition f) s = if s.mounted then on_transition f s else s
  step (fallback_settles c r) s = on_fallback c r s
  step (resync_settles c r) s = on_resync c r s

  -- The states after events that can happen.
  pub data IsReachable : FeedState Op → Type 0 where
    start : IsReachable initial
    next :
        {s : FeedState Op} (e : FeedEvent Op)
        → can_happen e s ≡ true
        → IsReachable s
        → IsReachable (step e s)
