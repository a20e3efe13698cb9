-- ===== src/Feed/Outage.antt =====
-- useOperationsFeed.ts: an outage, and a resync during one.
use distill_portal.Prelude.{
  ℕ, zero, suc, ◌≤◌, Text, Bool, true, false, none, some, List, leb, if◌then◌else◌, ◌≡◌, ◌∙◌, arith,
}
use distill_portal.Feed.{
  FeedState, streaming, polling, reconnecting, backoff_delay_ms, handle_error, handle_resync,
  degrade, start_polling_loop, tick, connect,
}
use distill_portal.Feed.Steps.{
  source_error, reconnect_fires, resync, resync_settles, response, step, on_resync,
}

module _ {Op : Type 0} (op_id : Op → Text) (base : Text) where
  -- A failure, and n more after a retry each.
  unfoldable pub lost : ℕ → FeedState Op → FeedState Op
  unfolding step
  lost zero s = step op_id base source_error s
  lost (suc n) s = step op_id base source_error (step op_id base reconnect_fires (lost n s))

  -- A mounted state after `n + 1` failures in a row.
  pub record IsLost (n : ℕ) (s : FeedState Op) : Type 0 where
    pub mounted : s.mounted ≡ true
    pub failures : s.failure_count ≡ suc n
    pub delay : s.reconnect_timer ≡ some (backoff_delay_ms n)
    pub closed : s.event_source ≡ none
    pub polls : s.poll_interval ≡ leb 5 n
    pub status : s.status ≡ (if leb 5 n then polling else reconnecting)

  handle_error-IsLost :
      (n : ℕ) (s : FeedState Op)
      → s.mounted ≡ true
      → s.failure_count ≡ n
      → s.poll_interval ≡ leb 6 n
      → (6 ≤ n → s.status ≡ polling)
      → IsLost n (handle_error s)
  unfolding handle_error degrade start_polling_loop tick
  handle_error-IsLost n s m f p st = record {
    mounted = ground arith;
    failures = ground arith;
    delay = ground arith;
    closed = ground arith;
    polls = ground arith;
    status = ground arith;
  }

  IsLost-if :
      (n : ℕ) (b : Bool) (s t : FeedState Op)
      → b ≡ true
      → IsLost n s
      → IsLost n (if b then s else t)
  IsLost-if n true s t e h = h
  IsLost-if n false s t e h = absurd (ground arith)

  step_error-IsLost :
      (n : ℕ) (s : FeedState Op)
      → s.mounted ≡ true
      → s.failure_count ≡ n
      → s.poll_interval ≡ leb 6 n
      → (6 ≤ n → s.status ≡ polling)
      → IsLost n (step op_id base source_error s)
  unfolding step
  step_error-IsLost n s m f p st = IsLost-if n s.mounted _ s m (handle_error-IsLost n s m f p st)

  retry_lem :
      (s : FeedState Op)
      → s.mounted ≡ true
      → let t = step op_id base reconnect_fires s in
        (t.mounted ≡ true)
        × (t.failure_count ≡ s.failure_count)
        × (t.poll_interval ≡ s.poll_interval)
        × (t.status ≡ s.status)
  unfolding step connect
  retry_lem s m = ground arith

  -- From a mounted feed without failures that does not poll: after n + 1 failures in a row, with a
  -- retry between each two, the source is closed and the next retry waits for the n-th delay of the
  -- ladder; the feed polls from the sixth failure on, and shows "polling" then and "reconnecting"
  -- before.
  pub lost-IsLost :
      (n : ℕ) (s : FeedState Op)
      → s.mounted ≡ true
      → s.failure_count ≡ 0
      → s.poll_interval ≡ false
      → IsLost n (lost n s)
  unfolding lost
  lost-IsLost zero s m f p = step_error-IsLost zero s m f p (λ h. absurd (omega arith))
  lost-IsLost (suc n) s m f p =
      let h = lost-IsLost n s m f p in
      let (m', f', p', st) = retry_lem (lost n s) h.mounted in
      step_error-IsLost (suc n) (step op_id base reconnect_fires (lost n s)) m' (f' ∙ h.failures)
        (ground (arith, p', h.polls)) (λ le. ground (arith, st, h.status))

  -- A resync that is answered while the feed polls ends in the status "streaming" with the polling
  -- still on; and a failure after it leaves that status, though the source is closed by then.
  pub resync-keeps_polling :
      (s : FeedState Op) (c : ℕ) (ops : List Op)
      → s.mounted ≡ true
      → s.poll_interval ≡ true
      → let shown = step op_id base (resync_settles c (response ops)) (step op_id base resync s) in
        let failed = step op_id base source_error shown in
        (shown.status ≡ streaming)
        × (shown.poll_interval ≡ true)
        × (failed.status ≡ streaming)
        × (failed.poll_interval ≡ true)
        × (failed.event_source ≡ none)
  unfolding step handle_resync on_resync handle_error degrade start_polling_loop tick
  resync-keeps_polling s c ops m p = ground arith
