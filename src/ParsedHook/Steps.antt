-- ===== src/ParsedHook/Steps.antt =====
-- useParsedSession.ts: the consumers, and what can happen to them and to the fetches.
use distill_portal.Prelude.{
  update, ℕ, ◌+◌, Text, text_eq, Bool, true, false, not, ◌&&◌, ◌||◌, Option, none, some, List, [],
  ◌∷◌, ◌==◌, if◌then◌else◌,
}
use distill_portal.Contracts.{Tool, tool_eq}
use distill_portal.Sessions.Rows.{SessionRow}
use distill_portal.Json.{Runtime}
use distill_portal.Stream.{StreamResult}
use distill_portal.ParsedHook.{
  HookState, error, Outcome, resolved, rejected, Fetch, Shared, Run, Hook, key_of, shown_state,
  bump_cache_epoch, derive_initial_state, run_effect, cleanup, store_result, parsed_of,
  drop_settled,
}

-- How `streamRawText` ends.
pub data Settled (X : Type 0) : Type 0 where
  streamed : StreamResult → Settled X
  threw : X → Settled X

-- Consumers and fetches are named by their numbers.
pub data HookEvent (X : Type 0) : Type 0 where
  mounts selects : ℕ → Option SessionRow → HookEvent X
  effect_runs unmounts retries sibling_handles : ℕ → HookEvent X
  settles : ℕ → Settled X → HookEvent X
  originator_handles : ℕ → HookEvent X
  bumps : HookEvent X

pub record System (X : Type 0) (E : Type 0) : Type 0 where
  pub shared : Shared X
  pub hooks : ℕ → Option (Hook E)

-- The dependencies of the effect besides the nonce.
abbrev pub uid_of : Option SessionRow → Option Text
uid_of none = none
uid_of (some row) = row.stored_session_uid

abbrev pub tool_of : Option SessionRow → Option Tool
tool_of none = none
tool_of (some row) = some row.tool

abbrev pub same_uid : Option Text → Option Text → Bool
same_uid none none = true
same_uid (some a) (some b) = text_eq a b
same_uid _ _ = false

abbrev pub same_tool : Option Tool → Option Tool → Bool
same_tool none none = true
same_tool (some a) (some b) = tool_eq a b
same_tool _ _ = false

unfoldable pub same_deps : Option SessionRow → Option SessionRow → Bool
unfolding text_eq
same_deps a b = same_uid (uid_of a) (uid_of b) && same_tool (tool_of a) (tool_of b)

-- The originator's callback finds the hook in place unless its cleanup has run.
abbrev pub waits_for : ℕ → Option Run → Bool
waits_for p none = false
waits_for p (some run) = run.is_originator && (run.promise == p)

module _ {E : Type 0} where
  unfoldable pub select : Option SessionRow → Hook E → Hook E
  unfolding same_deps
  select row h = record h { row = row; effect_due = h.effect_due || not (same_deps h.row row) }

  unfoldable pub retry : Hook E → Hook E
  retry h = elim h.state [
    | error e ↦ record h { retry_nonce = h.retry_nonce + 1; effect_due = true }
    | _ ↦ h
  ]

module _ {X : Type 0} {E : Type 0} where
  abbrev pub initial : System X E
  initial = record {
    shared = record {
      cache = [];
      in_flight = [];
      in_flight_controllers = [];
      cache_epoch = 0;
      aborted = λ p. false;
      fetches = λ p. none;
      next_fetch = 0;
    };
    hooks = λ i. none;
  }

  abbrev pub with_hook : ℕ → Hook E → System X E → System X E
  with_hook i h s = record s { hooks = update i (some h) s.hooks }

  -- The first render of a consumer.
  unfoldable pub mount : ℕ → Option SessionRow → System X E → System X E
  unfolding derive_initial_state
  mount i row s =
      let first = derive_initial_state row s.shared in
      record {
        shared = first.0;
        hooks =
            update i
              (some (record {
                row = row;
                state = first.1;
                retry_nonce = 0;
                run = none;
                effect_due = true;
              }))
              s.hooks;
      }

  abbrev pub mount_free : ℕ → Option SessionRow → Option (Hook E) → System X E → System X E
  mount_free i row none s = mount i row s
  mount_free i row (some h) s = s

  unfoldable pub on_effect : ℕ → Hook E → System X E → System X E
  unfolding run_effect
  on_effect i h s =
      let after = run_effect i h.row h.retry_nonce (cleanup h.run s.shared) in
      record {
        shared = after.0;
        hooks =
            update i (some (record h { state = after.1; run = after.2; effect_due = false }))
              s.hooks;
      }

  abbrev pub on_hook : ℕ → (Hook E → System X E) → System X E → System X E
  on_hook i f s = elim (s.hooks i) [ some h ↦ f h | none ↦ s ]

module _ {X : Type 0} (rt : Runtime) where
  -- The end of a fetch, before its callbacks.
  unfoldable pub on_settled : ℕ → Fetch X → Settled X → Shared X → Shared X
  unfolding store_result
  on_settled p f (streamed r) w =
      let parsed = parsed_of rt f.tool r in
      let stored = store_result f parsed w in
      record stored {
        fetches = update p (some (record f { outcome = some (resolved parsed) })) w.fetches;
      }
  on_settled p f (threw x) w = record w {
    fetches = update p (some (record f { outcome = some (rejected x) })) w.fetches;
  }

module _ {X : Type 0} {E : Type 0} (is_abort_error : X → Bool) (as_error : X → E) where
  -- What the originator shows, in the epoch `now`.
  unfoldable pub originator_state : ℕ → Fetch X → Outcome X → HookState E → HookState E
  unfolding shown_state
  originator_state now f (resolved parsed) state =
      if now == f.epoch_at_start then shown_state parsed else state
  originator_state now f (rejected x) state = if is_abort_error x then state else error (as_error x)

  abbrev pub told : ℕ → ℕ → Fetch X → Outcome X → Option (Hook E) → Option (Hook E)
  told now p f o none = none
  told now p f o (some h) =
      if waits_for p h.run
      then some (record h { state = originator_state now f o h.state })
      else some h

  unfoldable pub on_originator : ℕ → Fetch X → Outcome X → System X E → System X E
  unfolding drop_settled originator_state
  on_originator p f o s =
      let w = drop_settled (key_of f) p s.shared in
      record {
        shared = record w { fetches = update p (some (record f { handled = true })) w.fetches };
        hooks = update f.owner (told w.cache_epoch p f o (s.hooks f.owner)) s.hooks;
      }

  -- The callbacks of a consumer that has coalesced.
  unfoldable pub on_sibling : ℕ → Run → Outcome X → Hook E → Hook E
  unfolding shown_state
  on_sibling now run (resolved parsed) h = record h {
    state = if now == run.epoch then shown_state parsed else h.state;
    run = none;
  }
  on_sibling now run (rejected x) h =
      if is_abort_error x
      then record h { retry_nonce = h.retry_nonce + 1; effect_due = true; run = none }
      else record h { state = error (as_error x); run = none }

  abbrev pub sibling_answer : ℕ → Hook E → Run → Option (Fetch X) → System X E → System X E
  sibling_answer i h run none s = s
  sibling_answer i h run (some f) s = elim f.outcome [
    | none ↦ s
    | some o ↦
        if f.handled && not run.is_originator
        then with_hook i (on_sibling s.shared.cache_epoch run o h) s
        else s
  ]

  abbrev pub sibling_waits : ℕ → Hook E → Option Run → System X E → System X E
  sibling_waits i h none s = s
  sibling_waits i h (some run) s = sibling_answer i h run (s.shared.fetches run.promise) s

  abbrev pub handle_outcome : ℕ → Fetch X → Option (Outcome X) → System X E → System X E
  handle_outcome p f none s = s
  handle_outcome p f (some o) s = if f.handled then s else on_originator p f o s

  abbrev pub handle_fetch : ℕ → Option (Fetch X) → System X E → System X E
  handle_fetch p none s = s
  handle_fetch p (some f) s = handle_outcome p f f.outcome s

module _ {X : Type 0} {E : Type 0} (rt : Runtime) (is_abort_error : X → Bool)
    (as_error : X → E) where
  abbrev pub settle_fetch : ℕ → Settled X → Option (Fetch X) → System X E → System X E
  settle_fetch p r none s = s
  settle_fetch p r (some f) s = elim f.outcome [
    | some o ↦ s
    | none ↦ record s { shared = on_settled rt p f r s.shared }
  ]

  -- An event that cannot happen changes nothing.
  unfoldable pub step : HookEvent X → System X E → System X E
  unfolding mount select on_effect retry on_settled on_originator on_sibling bump_cache_epoch
  step (mounts i row) s = mount_free i row (s.hooks i) s
  step (selects i row) s = on_hook i (λ h. with_hook i (select row h) s) s
  step (effect_runs i) s = on_hook i (λ h. if h.effect_due then on_effect i h s else s) s
  step (unmounts i) s =
      on_hook i (λ h. record { shared = cleanup h.run s.shared; hooks = update i none s.hooks }) s
  step (retries i) s = on_hook i (λ h. with_hook i (retry h) s) s
  step (sibling_handles i) s = on_hook i (λ h. sibling_waits is_abort_error as_error i h h.run s) s
  step (settles p r) s = settle_fetch p r (s.shared.fetches p) s
  step (originator_handles p) s = handle_fetch is_abort_error as_error p (s.shared.fetches p) s
  step bumps s = record s { shared = bump_cache_epoch s.shared }

  unfoldable pub run_events : List (HookEvent X) → System X E → System X E
  unfolding step
  run_events [] s = s
  run_events (e ∷ es) s = run_events es (step e s)
