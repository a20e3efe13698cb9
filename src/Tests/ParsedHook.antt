-- ===== src/Tests/ParsedHook.antt =====
-- The theorems on the parsed session of a row at concrete events.
use distill_portal.Prelude.{
  ℕ, Text, text_eq, Bool, true, false, none, some, List, [], ◌∷◌, ◌≡◌, refl, arith,
}
use distill_portal.Contracts.{claude_code}
use distill_portal.ParsedHook.{Hook, loading, Fetch, touch}
use distill_portal.ParsedHook.Steps.{
  HookEvent, mounts, selects, effect_runs, settles, originator_handles, bumps, streamed, threw,
  System, initial, step, run_events, same_deps,
}
use distill_portal.ParsedHook.Entries.{has_key}
use distill_portal.ParsedHook.Sound.{IsSound}
use distill_portal.ParsedHook.Events.{run_events-IsSound}
use distill_portal.ParsedHook.Fresh.{Stays}
use distill_portal.ParsedHook.Showing.{step-Stays}
use distill_portal.ParsedHook.Recency.{store_all, has_key-store_all-touch}
use distill_portal.ParsedHook.Rescan.{rescan-keeps_loading}
use distill_portal.Tests.Data.{row_a, two_lines, codex_runtime}

-- An error is its text here, and the empty one is an abort.
abbrev is_abort : Text → Bool
is_abort [] = true
is_abort (c ∷ s) = false

abbrev as_text : Text → Text
as_text s = s

-- A consumer selects a row, a second one coalesces, and the answer comes in.
abbrev answered : List (HookEvent Text)
answered =
    mounts 0 (some row_a)
    ∷ effect_runs 0
    ∷ mounts 1 (some row_a)
    ∷ effect_runs 1
    ∷ settles 0 (streamed (record { text = two_lines; total_bytes = 12; truncated = false }))
    ∷ []

abbrev reached : System Text Text
reached = run_events codex_runtime is_abort as_text answered initial

run_events-IsSound_example : IsSound reached
run_events-IsSound_example = run_events-IsSound codex_runtime is_abort as_text answered

step-Stays_example :
    Stays reached.shared
      (reached.hooks 0)
      ((step codex_runtime is_abort as_text (originator_handles 0) reached).hooks 0)
step-Stays_example =
    step-Stays codex_runtime is_abort as_text (originator_handles 0) reached 0
      (run_events-IsSound codex_runtime is_abort as_text answered)

abbrev four : List (Text × ℕ)
four = (1 ∷ [], 1) ∷ (2 ∷ [], 2) ∷ (3 ∷ [], 3) ∷ (4 ∷ [], 4) ∷ []

abbrev full : List (Text × ℕ)
full = (0 ∷ [], 0) ∷ (5 ∷ [], 5) ∷ (6 ∷ [], 6) ∷ (7 ∷ [], 7) ∷ (8 ∷ [], 8) ∷ []

has_key-store_all-touch_example : has_key (0 ∷ []) (store_all four (touch (0 ∷ []) 0 full)) ≡ true
unfolding text_eq
has_key-store_all-touch_example =
    has_key-store_all-touch (0 ∷ []) 0 four full (refl, (refl, (refl, (refl, (refl, tt)))))
      (omega arith)

-- A consumer that has started its fetch.
abbrev loading_system : System Text Text
loading_system =
    run_events codex_runtime is_abort as_text (mounts 0 (some row_a) ∷ effect_runs 0 ∷ []) initial

abbrev loading_hook : Hook Text
loading_hook = record {
  row = some row_a;
  state = loading;
  retry_nonce = 0;
  run = some (record { promise = 0; is_originator = true; epoch = 0 });
  effect_due = false;
}

abbrev loading_fetch : Fetch Text
loading_fetch = record {
  stored_session_uid = 97 ∷ [];
  tool = claude_code;
  owner = 0;
  epoch_at_start = 0;
  outcome = none;
  handled = false;
}

rescan-keeps_loading_example :
    let after =
      run_events codex_runtime is_abort as_text
        (bumps ∷ settles 0 (threw []) ∷ originator_handles 0 ∷ selects 0 (some row_a) ∷ [])
        loading_system in
    (g : Hook Text) × (after.hooks 0 ≡ some g) × (g.state ≡ loading) × (g.effect_due ≡ false)
unfolding run_events same_deps
rescan-keeps_loading_example =
    rescan-keeps_loading codex_runtime is_abort as_text 0 loading_system loading_hook 0
      loading_fetch (threw []) (some row_a)
      (record {
        mounted = refl;
        waiting = refl;
        loads = refl;
        settled = refl;
        known = refl;
        owned = refl;
        pending = refl;
        fresh = refl;
        started = omega arith;
      })
      refl refl
