-- ===== src/Tests/Feed.antt =====
-- The theorems on the operations feed and the toasts at concrete states.
use distill_portal.Prelude.{Text, true, false, none, some, List, [], ◌∷◌, dict_get, ◌≡◌, refl, ◌+◌}
use distill_portal.Toasts.{Toast, ToastAction, info, push, dismiss, empty_queue, run_toasts}
use distill_portal.Toasts.Laws.{IsQueue, run_toasts-IsQueue}
use distill_portal.Feed.{FeedState, streaming, initial, backoff_delay_ms, mount, connect}
use distill_portal.Feed.Steps.{
  mounts, source_error, resync, resync_settles, fallback_settles, response, step, start, next,
}
use distill_portal.Feed.Sound.{IsSound}
use distill_portal.Feed.Invariant.{IsReachable-IsSound}
use distill_portal.Feed.Outage.{lost, IsLost, lost-IsLost, resync-keeps_polling}
use distill_portal.Feed.Rows.{Frame, latest, carried, feed, get-feed, get-response}

abbrev toast : Toast Unit
toast = record { kind = info; title = []; message = none; extras = tt }

abbrev actions : List (ToastAction Unit)
actions = push toast ∷ push toast ∷ dismiss (1 ∷ []) ∷ []

run_toasts-IsQueue_example : IsQueue 1 (run_toasts 1 actions empty_queue)
run_toasts-IsQueue_example = run_toasts-IsQueue 1 actions

-- An operation is its id here.
abbrev op_id : Text → Text
op_id s = s

abbrev base : Text
base = 101 ∷ []

abbrev feed_up : FeedState Text
feed_up = record initial {
  event_source = some base;
  mounted = true;
  last_event_seq = some 4;
  last_event_seq_ref = some 4;
}

abbrev frames : List (Frame Text)
frames =
    (false, record { operation = 97 ∷ []; seq = 9 })
    ∷ (true, record { operation = 98 ∷ []; seq = 3 })
    ∷ []

IsReachable-IsSound_example :
    IsSound (step op_id base source_error (step op_id base mounts initial))
IsReachable-IsSound_example =
    IsReachable-IsSound op_id base (step op_id base source_error (step op_id base mounts initial)) (
      next {s = step op_id base mounts initial} source_error (unfold step mount connect in refl)
        (next mounts refl start))

lost-IsLost_example : IsLost op_id base 5 (lost op_id base 5 feed_up)
lost-IsLost_example = lost-IsLost op_id base 5 feed_up refl refl refl

-- The five delays before the polling starts add up to the 48 seconds of the source's comment.
outage_ms :
    backoff_delay_ms 0
      + backoff_delay_ms 1
      + backoff_delay_ms 2
      + backoff_delay_ms 3
      + backoff_delay_ms 4
    ≡ 48000
unfolding backoff_delay_ms
outage_ms = refl

abbrev polling_feed : FeedState Text
polling_feed = record feed_up { poll_interval = true; failure_count = 6 }

resync-keeps_polling_example :
    let shown =
      step op_id base
        (resync_settles 0 (response ((97 ∷ []) ∷ [])))
        (step op_id base resync polling_feed) in
    let failed = step op_id base source_error shown in
    (shown.status ≡ streaming)
    × (shown.poll_interval ≡ true)
    × (failed.status ≡ streaming)
    × (failed.poll_interval ≡ true)
    × (failed.event_source ≡ none)
resync-keeps_polling_example =
    resync-keeps_polling op_id base polling_feed 0 ((97 ∷ []) ∷ []) refl refl

get-feed_example :
    dict_get (97 ∷ []) (feed op_id base frames feed_up).operations
    ≡ latest op_id (97 ∷ []) (dict_get (97 ∷ []) []) (carried op_id frames)
get-feed_example = get-feed op_id base frames feed_up (97 ∷ []) refl

get-response_example :
    (dict_get
        (97 ∷ [])
        (step op_id base (fallback_settles 0 (response ((97 ∷ []) ∷ []))) feed_up).operations
      ≡ latest op_id (97 ∷ []) none ((97 ∷ []) ∷ []))
    × (dict_get
          (97 ∷ [])
          (step op_id base (resync_settles 0 (response ((97 ∷ []) ∷ []))) feed_up).operations
        ≡ latest op_id (97 ∷ []) none ((97 ∷ []) ∷ []))
get-response_example = get-response op_id base 0 ((97 ∷ []) ∷ []) feed_up (97 ∷ []) refl
