-- ===== src/Feed/Sound.antt =====
-- useOperationsFeed.ts: the invariant of the hook's state, handler by handler.
use distill_portal.Prelude.{
  ℕ, ◌-◌, ◌≤◌, ◌<◌, Text, Bool, true, false, not, Option, none, some, ◌≡◌, refl, arith, List,
  if◌then◌else◌,
}
use distill_portal.Feed.{
  FeedState, FeedStatus, polling, mount, unmount, connect, tick, handle_frame, handle_resync,
  handle_error, backoff_delay_ms, degrade, start_polling_loop,
}
use distill_portal.Feed.Steps.{is_some}

module _ {Op : Type 0} where
  -- Nothing is left that could call back.
  pub record IsTornDown (s : FeedState Op) : Type 0 where
    pub no_source : s.event_source ≡ none
    pub no_timer : s.reconnect_timer ≡ none
    pub no_poll : s.poll_interval ≡ false
    pub no_fallback : s.fallback_abort ≡ none
    pub no_resync : s.resync_abort ≡ none

  pub record IsSound (s : FeedState Op) : Type 0 where
    pub mirrored : s.last_event_seq ≡ s.last_event_seq_ref
    pub torn_down : s.mounted ≡ false → IsTornDown s
    pub connected : s.mounted ≡ true → is_some s.event_source ≡ not (is_some s.reconnect_timer)
    pub paced :
        (delay : ℕ)
        → s.reconnect_timer ≡ some delay
        → (0 < s.failure_count) × (delay ≡ backoff_delay_ms (s.failure_count - 1))
    pub polls_late : s.poll_interval ≡ true → 6 ≤ s.failure_count
    pub fetches : is_some s.fallback_abort ≡ true → s.poll_interval ≡ true
    pub shown : s.mounted ≡ true → s.status ≡ polling → s.poll_interval ≡ true

  pub handle_error-IsSound :
      (s : FeedState Op) → s.mounted ≡ true → IsSound s → IsSound (handle_error s)
  unfolding handle_error degrade start_polling_loop tick
  handle_error-IsSound s m h = record {
    mirrored = ground (arith, h.mirrored);
    torn_down = λ e. absurd (ground arith);
    connected = λ e. ground arith;
    paced = λ d e. ground arith;
    polls_late = λ e. ground (arith, h.polls_late);
    fetches = λ e. ground (arith, h.fetches);
    shown = λ m' e. ground (arith, h.shown);
  }

  -- While the source is open no reconnect is scheduled, so a frame may reset the count of failures.
  no_timer_while_open :
      (s : FeedState Op)
      → s.mounted ≡ true
      → is_some s.event_source ≡ true
      → IsSound s
      → is_some s.reconnect_timer ≡ false
  no_timer_while_open s m o h = ground (arith, h.connected m)

  pub frame-IsSound :
      (s : FeedState Op) (ops : List (Text × Op)) (seq seq' : Option ℕ)
      → seq ≡ seq'
      → s.mounted ≡ true
      → is_some s.event_source ≡ true
      → IsSound s
      → IsSound (
          handle_frame
            (record s { operations = ops; last_event_seq = seq; last_event_seq_ref = seq' }))
  unfolding handle_frame
  frame-IsSound s ops seq seq' same m o h = record {
    mirrored = same;
    torn_down = λ e. absurd (ground arith);
    connected = h.connected;
    paced = λ d e. absurd (ground (arith, no_timer_while_open s m o h));
    polls_late = λ e. absurd (ground arith);
    fetches = λ e. absurd (ground arith);
    shown = λ e k. absurd (ground arith);
  }

  pub handle_resync-IsSound :
      (s : FeedState Op) → s.mounted ≡ true → IsSound s → IsSound (handle_resync s)
  unfolding handle_resync
  handle_resync-IsSound s m h = record {
    mirrored = refl;
    torn_down = λ e. absurd (ground arith);
    connected = h.connected;
    paced = h.paced;
    polls_late = h.polls_late;
    fetches = h.fetches;
    shown = h.shown;
  }

  pub IsSound-if :
      (g : FeedState Op → FeedState Op) (b : Bool) (s t : FeedState Op)
      → (b ≡ true → IsSound (g s))
      → (b ≡ false → IsSound (g t))
      → IsSound (g (if b then s else t))
  IsSound-if g true s t h k = h refl
  IsSound-if g false s t h k = k refl

  pub tick-IsSound : (s : FeedState Op) → s.poll_interval ≡ true → IsSound s → IsSound (tick s)
  unfolding tick
  tick-IsSound s p h =
      IsSound-if (λ u. u) s.mounted _ s
        (λ m. record {
          mirrored = h.mirrored;
          torn_down = λ e. absurd (ground arith);
          connected = h.connected;
          paced = h.paced;
          polls_late = h.polls_late;
          fetches = λ e. p;
          shown = h.shown;
        })
        (λ m. h)

  pub unmount-IsSound : (s : FeedState Op) → IsSound s → IsSound (unmount s)
  unfolding unmount
  unmount-IsSound s h = record {
    mirrored = h.mirrored;
    torn_down = λ e. record {
      no_source = refl;
      no_timer = refl;
      no_poll = refl;
      no_fallback = refl;
      no_resync = refl;
    };
    connected = λ e. absurd (ground arith);
    paced = λ d e. absurd (ground arith);
    polls_late = λ e. absurd (ground arith);
    fetches = λ e. absurd (ground arith);
    shown = λ e. absurd (ground arith);
  }

  pub mount-IsSound :
      (base : Text) (s : FeedState Op) → s.mounted ≡ false → IsSound s → IsSound (mount base s)
  unfolding mount connect
  mount-IsSound base s m h = record {
    mirrored = h.mirrored;
    torn_down = λ e. absurd (ground arith);
    connected = λ e. rw (h.torn_down m).no_timer refl;
    paced = h.paced;
    polls_late = h.polls_late;
    fetches = h.fetches;
    shown = λ e k. absurd (ground arith);
  }

  pub connect-IsSound :
      (base : Text) (s : FeedState Op)
      → is_some s.reconnect_timer ≡ true
      → s.mounted ≡ true
      → IsSound s
      → IsSound (connect base (record s { reconnect_timer = none }))
  unfolding connect
  connect-IsSound base s armed m h = record {
    mirrored = h.mirrored;
    torn_down = λ e. absurd (ground arith);
    connected = λ e. refl;
    paced = λ d e. absurd (ground arith);
    polls_late = h.polls_late;
    fetches = h.fetches;
    shown = h.shown;
  }

  -- A response changes the rows, and the status where a resync is answered; and its controller is
  -- released.
  pub settle-IsSound :
      (s : FeedState Op) (ops : List (Text × Op)) (status : FeedStatus) (f r : Option ℕ)
      → (status ≡ polling → s.status ≡ polling)
      → (is_some f ≡ true → is_some s.fallback_abort ≡ true)
      → (s.fallback_abort ≡ none → f ≡ none)
      → (s.resync_abort ≡ none → r ≡ none)
      → IsSound s
      → IsSound
          (record s { operations = ops; status = status; fallback_abort = f; resync_abort = r })
  settle-IsSound s ops status f r st fs fn rn h = record {
    mirrored = h.mirrored;
    torn_down = λ e.
        let t = h.torn_down e in
        record {
          no_source = t.no_source;
          no_timer = t.no_timer;
          no_poll = t.no_poll;
          no_fallback = fn t.no_fallback;
          no_resync = rn t.no_resync;
        };
    connected = h.connected;
    paced = h.paced;
    polls_late = h.polls_late;
    fetches = λ e. h.fetches (fs e);
    shown = λ m k. h.shown m (st k);
  }
