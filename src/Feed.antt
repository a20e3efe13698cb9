-- ===== src/Feed.antt =====
-- apps/frontend/src/features/operations/useOperationsFeed.ts: the state that the hook keeps, and what
-- the browser's events do to it. An abort controller is a number, counted up; a settled fetch names
-- its controller.
pub mod Steps
pub mod Sound
pub mod Invariant
pub mod Outage
pub mod Rows
use distill_portal.Prelude.{
  ◌==◌, ℕ, zero, suc, ◌-◌, min, length, Text, lit, includes, decimal, Bool, true, false, Option,
  none, some, List, [], ◌∷◌, ◌++◌, dict_set, ltb, leb, not, ◌&&◌, if◌then◌else◌,
}

pub data FeedStatus : Type 0 where
  connecting streaming polling reconnecting : FeedStatus

-- An operation is opaque but for its id.
pub record OperationTransitionEvent (Op : Type 0) : Type 0 where
  pub operation : Op
  pub seq : ℕ

-- The state variables and the refs of the hook; `event_source` is the address of the open source.
pub record FeedState (Op : Type 0) : Type 0 where
  pub operations : List (Text × Op)
  pub status : FeedStatus
  pub last_event_seq : Option ℕ
  pub event_source : Option Text
  pub reconnect_timer : Option ℕ
  pub poll_interval : Bool
  pub fallback_abort : Option ℕ
  pub resync_abort : Option ℕ
  pub failure_count : ℕ
  pub mounted : Bool
  pub last_event_seq_ref : Option ℕ
  pub controllers : ℕ

abbrev pub backoff_ladder_ms : List ℕ
backoff_ladder_ms = 1000 ∷ 2000 ∷ 5000 ∷ 10000 ∷ 30000 ∷ []

-- `xs[i]`, for an index in range.
abbrev elem_at : List ℕ → ℕ → ℕ
elem_at [] i = 0
elem_at (x ∷ xs) zero = x
elem_at (x ∷ xs) (suc i) = elem_at xs i

unfoldable pub backoff_delay_ms : ℕ → ℕ
backoff_delay_ms failure_index =
    elem_at backoff_ladder_ms (min failure_index (length backoff_ladder_ms - 1))

abbrev pub polling_activation_threshold : ℕ
polling_activation_threshold = length backoff_ladder_ms

unfoldable pub build_sse_url : Text → Option ℕ → Text
unfolding includes lit decimal
build_sse_url base none = base
build_sse_url base (some seq) =
    let sep = if includes base (lit "?") then lit "&" else lit "?" in
    base ++ sep ++ lit "last_event_id=" ++ decimal seq

-- The larger sequence number.
abbrev pub later_seq : Option ℕ → ℕ → Option ℕ
later_seq none seq = some seq
later_seq (some prev) seq = if ltb prev seq then some seq else some prev

module _ {Op : Type 0} where
  abbrev pub initial : FeedState Op
  initial = record {
    operations = [];
    status = connecting;
    last_event_seq = none;
    event_source = none;
    reconnect_timer = none;
    poll_interval = false;
    fallback_abort = none;
    resync_abort = none;
    failure_count = 0;
    mounted = false;
    last_event_seq_ref = none;
    controllers = 0;
  }

  abbrev pub stop_polling : FeedState Op → FeedState Op
  stop_polling s = record s { poll_interval = false; fallback_abort = none }

  abbrev pub cancel_reconnect_timer : FeedState Op → FeedState Op
  cancel_reconnect_timer s = record s { reconnect_timer = none }

  abbrev pub cancel_resync_fetch : FeedState Op → FeedState Op
  cancel_resync_fetch s = record s { resync_abort = none }

  abbrev pub close_event_source : FeedState Op → FeedState Op
  close_event_source s = record s { event_source = none }

  -- A poll: the request of the one before is aborted.
  unfoldable pub tick : FeedState Op → FeedState Op
  tick s =
      if s.mounted
      then record s { fallback_abort = some s.controllers; controllers = suc s.controllers }
      else s

  unfoldable pub start_polling_loop : FeedState Op → FeedState Op
  unfolding tick
  start_polling_loop s = if s.poll_interval then s else record (tick s) { poll_interval = true }

  -- `handleSnapshotFrame` and `handleTransitionFrame`, which do the same.
  unfoldable pub handle_frame : FeedState Op → FeedState Op
  handle_frame s = record (stop_polling s) { failure_count = 0; status = streaming }

  -- `handleResync` up to its request.
  unfoldable pub handle_resync : FeedState Op → FeedState Op
  handle_resync s = record (cancel_resync_fetch s) {
    resync_abort = some s.controllers;
    controllers = suc s.controllers;
    operations = [];
    last_event_seq = none;
    last_event_seq_ref = none;
  }

  -- The status and the polling loop after a failure.
  unfoldable pub degrade : ℕ → FeedState Op → FeedState Op
  unfolding start_polling_loop
  degrade failure_index s =
      if leb polling_activation_threshold failure_index && not s.poll_interval
      then start_polling_loop (record s { status = polling })
      else if not s.poll_interval
      then record s { status = reconnecting }
      else s

  unfoldable pub handle_error : FeedState Op → FeedState Op
  unfolding degrade backoff_delay_ms
  handle_error s =
      let closed = record (close_event_source s) { failure_count = suc s.failure_count } in
      record (cancel_reconnect_timer (degrade s.failure_count closed)) {
        reconnect_timer = some (backoff_delay_ms s.failure_count);
      }

  unfoldable pub connect : Text → FeedState Op → FeedState Op
  unfolding build_sse_url
  connect base s = record (close_event_source s) {
    event_source = some (build_sse_url base s.last_event_seq_ref);
  }

  unfoldable pub mount : Text → FeedState Op → FeedState Op
  unfolding connect
  mount base s = connect base (record s { mounted = true; status = connecting })

  unfoldable pub unmount : FeedState Op → FeedState Op
  unmount s =
      close_event_source
        (cancel_resync_fetch (stop_polling (cancel_reconnect_timer (record s { mounted = false }))))

-- How a request fails: with a status of the backend (`ApiError`), or otherwise.
pub data Failure (E : Type 0) : Type 0 where
  api_error : ℕ → Failure E
  other_error : E → Failure E

-- `cancelOperation`, from how its request fails, if it does, to what it throws: a conflict means that the
-- operation has ended already.
unfoldable pub cancel_operation : {E : Type 0} → Option (Failure E) → Option (Failure E)
cancel_operation none = none
cancel_operation (some (api_error status)) = if status == 409 then none else some (api_error status)
cancel_operation (some (other_error e)) = some (other_error e)
