-- ===== src/Feed/Invariant.antt =====
-- useOperationsFeed.ts: the invariant of the hook's state, event by event.
use distill_portal.Prelude.{ℕ, Text, true, Option, none, some, ◌≡◌, refl, arith, List, ap}
use distill_portal.Feed.{
  FeedState, FeedStatus, OperationTransitionEvent, streaming, later_seq, polling,
}
use distill_portal.Feed.Steps.{
  FeedEvent, mounts, unmounts, resync, source_error, reconnect_fires, poll_fires, snapshot,
  transition, fallback_settles, resync_settles, Settled, response, aborted, failed, is_some,
  released, can_happen, step, on_snapshot, on_transition, on_fallback, on_resync, IsReachable,
  start, next,
}
use distill_portal.Feed.Sound.{
  IsSound, handle_error-IsSound, frame-IsSound, handle_resync-IsSound, tick-IsSound, IsSound-if,
  unmount-IsSound, mount-IsSound, connect-IsSound, settle-IsSound,
}

released-some : (c : ℕ) (f : Option ℕ) → is_some (released c f) ≡ true → is_some f ≡ true
released-some c f h = ground arith

released-none : (c : ℕ) (f : Option ℕ) → f ≡ none → released c f ≡ none
released-none c f h = ground arith

module _ {Op : Type 0} where
  module _ (op_id : Op → Text) (base : Text) where
    fallback-IsSound :
        (s : FeedState Op) (ops : List (Text × Op)) (c : ℕ)
        → IsSound s
        → IsSound (record s { operations = ops; fallback_abort = released c s.fallback_abort })
    fallback-IsSound s ops c h =
        settle-IsSound s ops s.status (released c s.fallback_abort) s.resync_abort (λ e. e)
          (released-some c s.fallback_abort) (released-none c s.fallback_abort) (λ e. e) h

    on_fallback-IsSound :
        (c : ℕ) (r : Settled Op) (s : FeedState Op)
        → IsSound s
        → IsSound (on_fallback op_id base c r s)
    unfolding on_fallback
    on_fallback-IsSound c (response ops) s h =
        IsSound-if (λ u. record u { fallback_abort = released c s.fallback_abort }) s.mounted _ s
          (λ m. fallback-IsSound s _ c h) (λ m. fallback-IsSound s s.operations c h)
    on_fallback-IsSound c aborted s h = fallback-IsSound s s.operations c h
    on_fallback-IsSound c failed s h = fallback-IsSound s s.operations c h

    resync-IsSound :
        (s : FeedState Op) (ops : List (Text × Op)) (status : FeedStatus) (c : ℕ)
        → (status ≡ polling → s.status ≡ polling)
        → IsSound s
        → IsSound (record s {
          operations = ops;
          status = status;
          resync_abort = released c s.resync_abort;
        })
    resync-IsSound s ops status c st h =
        settle-IsSound s ops status s.fallback_abort (released c s.resync_abort) st (λ e. e)
          (λ e. e) (released-none c s.resync_abort) h

    on_resync-IsSound :
        (c : ℕ) (r : Settled Op) (s : FeedState Op)
        → IsSound s
        → IsSound (on_resync op_id base c r s)
    unfolding on_resync
    on_resync-IsSound c (response ops) s h =
        IsSound-if (λ u. record u { resync_abort = released c s.resync_abort }) s.mounted _ s
          (λ m. resync-IsSound s _ streaming c (λ e. absurd (ground arith)) h)
          (λ m. resync-IsSound s s.operations s.status c (λ e. e) h)
    on_resync-IsSound c aborted s h = resync-IsSound s s.operations s.status c (λ e. e) h
    on_resync-IsSound c failed s h = resync-IsSound s s.operations s.status c (λ e. e) h

    on_snapshot-IsSound :
        (f : Option (OperationTransitionEvent Op)) (s : FeedState Op)
        → s.mounted ≡ true
        → is_some s.event_source ≡ true
        → IsSound s
        → IsSound (on_snapshot op_id base f s)
    unfolding on_snapshot
    on_snapshot-IsSound none s m o h = h
    on_snapshot-IsSound (some f) s m o h =
        frame-IsSound s _ s.last_event_seq s.last_event_seq_ref h.mirrored m o h

    on_transition-IsSound :
        (f : Option (OperationTransitionEvent Op)) (s : FeedState Op)
        → s.mounted ≡ true
        → is_some s.event_source ≡ true
        → IsSound s
        → IsSound (on_transition op_id base f s)
    unfolding on_transition
    on_transition-IsSound none s m o h = h
    on_transition-IsSound (some f) s m o h =
        frame-IsSound s _ _ _ (ap (λ q. later_seq q f.seq) h.mirrored) m o h

    step-IsSound :
        (e : FeedEvent Op) (s : FeedState Op)
        → can_happen op_id base e s ≡ true
        → IsSound s
        → IsSound (step op_id base e s)
    unfolding step
    step-IsSound mounts s ok h = mount-IsSound base s (ground arith) h
    step-IsSound unmounts s ok h = unmount-IsSound s h
    step-IsSound resync s ok h =
        IsSound-if (λ u. u) s.mounted _ s (λ m. handle_resync-IsSound s m h) (λ m. h)
    step-IsSound source_error s ok h =
        IsSound-if (λ u. u) s.mounted _ s (λ m. handle_error-IsSound s m h) (λ m. h)
    step-IsSound reconnect_fires s ok h =
        IsSound-if (λ u. u) s.mounted _ _ (λ m. connect-IsSound base s ok m h)
          (λ m. absurd (ground (arith, (h.torn_down m).no_timer)))
    step-IsSound poll_fires s ok h = tick-IsSound s ok h
    step-IsSound (snapshot f) s ok h =
        IsSound-if (λ u. u) s.mounted _ s (λ m. on_snapshot-IsSound f s m ok h) (λ m. h)
    step-IsSound (transition f) s ok h =
        IsSound-if (λ u. u) s.mounted _ s (λ m. on_transition-IsSound f s m ok h) (λ m. h)
    step-IsSound (fallback_settles c r) s ok h = on_fallback-IsSound c r s h
    step-IsSound (resync_settles c r) s ok h = on_resync-IsSound c r s h

    -- After any events: the state and the ref of the last sequence number agree; an unmounted hook
    -- holds no source, timer, polling loop or request; a mounted one has either an open source or a
    -- reconnect scheduled, never both; a scheduled reconnect waits as the ladder says for the
    -- failures so far; polling runs only from the sixth failure in a row on, and only then is a poll
    -- in flight; and a mounted hook shows "polling" only while it polls.
    pub IsReachable-IsSound : (s : FeedState Op) → IsReachable op_id base s → IsSound s
    IsReachable-IsSound s start = record {
      mirrored = refl;
      torn_down = λ e. record {
        no_source = refl;
        no_timer = refl;
        no_poll = refl;
        no_fallback = refl;
        no_resync = refl;
      };
      connected = λ e. absurd (ground arith);
      paced = λ d e. absurd (ground arith);
      polls_late = λ e. absurd (ground arith);
      fetches = λ e. absurd (ground arith);
      shown = λ e k. absurd (ground arith);
    }
    IsReachable-IsSound s (next {s = before} e ok r) =
        step-IsSound e before ok (IsReachable-IsSound before r)
