-- ===== src/ParsedHook/Arrivals.antt =====
-- useParsedSession.ts: what an effect or a first render shows comes from the present epoch.
use distill_portal.Prelude.{
  ℕ, zero, suc, Text, Option, none, some, ◌≡◌, sym, inl, inr, Option-cases, dict_get,
}
use mathlib.Core.Path.{subst}
use distill_portal.Contracts.{Tool}
use distill_portal.Sessions.Rows.{SessionRow}
use distill_portal.Parsers.Dispatch.{ParsedSession}
use distill_portal.ParsedHook.{
  HookState, resolved, Fetch, Shared, make_key, shown_state, run_effect, joined_or_started,
  looked_up, effect_for, effect_uid, initial_for, initial_uid, derive_initial_state,
}
use distill_portal.ParsedHook.Entries.{All-dict_get}
use distill_portal.ParsedHook.Maps.{IsCached, IsShared}
use distill_portal.ParsedHook.Consumers.{parsed_in, parsed_in-shown_state}

-- A result of a fetch that started in the present epoch.
pub record IsFresh {X : Type 0} (w : Shared X) (v : ParsedSession) : Type 0 where
  pub promise : ℕ
  pub fetch : Fetch X
  pub known : w.fetches promise ≡ some fetch
  pub result : fetch.outcome ≡ some (resolved v)
  pub current : fetch.epoch_at_start ≡ w.cache_epoch

module _ {X : Type 0} where
  cached-IsFresh :
      (w : Shared X) (key : Text) (hit : ParsedSession)
      → IsShared w
      → dict_get key w.cache ≡ some hit
      → IsFresh w hit
  cached-IsFresh w key hit s found =
      let c =
        All-dict_get (λ c. IsCached w.fetches w.cache_epoch c.0 c.1) key hit w.cache s.cached
          found in
      record {
        promise = c.promise;
        fetch = c.fetch;
        known = c.known;
        result = c.result;
        current = c.current;
      }

module _ {X : Type 0} (E : Type 0) where
  abbrev pub Arrives : Shared X → HookState E → Type 0
  Arrives w state = (v : ParsedSession) → parsed_in state ≡ some v → IsFresh w v

  hit-Arrives :
      (w : Shared X) (key : Text) (hit : ParsedSession)
      → IsShared w
      → dict_get key w.cache ≡ some hit
      → Arrives w (shown_state hit)
  hit-Arrives w key hit s found v e =
      subst (IsFresh w) (parsed_in-shown_state E hit v e) (cached-IsFresh w key hit s found)

  effect_for-Arrives :
      (i : ℕ) (uid : Text) (tool : Tool) (nonce : ℕ) (w : Shared X)
      → IsShared w
      → Arrives w (effect_for {E = E} i uid tool nonce w).1
  effect_for-Arrives i uid tool (suc n) w s = λ v e. cc
  effect_for-Arrives i uid tool zero w s =
      elim (Option-cases (dict_get (make_key uid tool) w.cache)) [
        | inr (hit, found) ↦
            subst (λ o. Arrives w (looked_up {E = E} i uid tool w o).1) (sym found)
              (hit-Arrives w (make_key uid tool) hit s found)
        | inl missing ↦
            subst (λ o. Arrives w (looked_up {E = E} i uid tool w o).1) (sym missing)
              (joined (dict_get (make_key uid tool) w.in_flight))
      ]
    where
      joined : (o : Option ℕ) → Arrives w (joined_or_started {E = E} i uid tool w o).1
      joined none v e = cc
      joined (some p) v e = cc

  pub run_effect-Arrives :
      (i : ℕ) (row : Option SessionRow) (nonce : ℕ) (w : Shared X)
      → IsShared w
      → Arrives w (run_effect {E = E} i row nonce w).1
  unfolding run_effect
  run_effect-Arrives i none nonce w s = λ v e. cc
  run_effect-Arrives i (some row) nonce w s = by_uid row.stored_session_uid
    where
      by_uid : (o : Option Text) → Arrives w (effect_uid {E = E} i o row.tool nonce w).1
      by_uid none = λ v e. cc
      by_uid (some uid) = effect_for-Arrives i uid row.tool nonce w s

  pub derive_initial_state-Arrives :
      (row : Option SessionRow) (w : Shared X)
      → IsShared w
      → Arrives w (derive_initial_state {E = E} row w).1
  unfolding derive_initial_state
  derive_initial_state-Arrives none w s = λ v e. cc
  derive_initial_state-Arrives (some row) w s = by_uid row.stored_session_uid
    where
      by_uid : (o : Option Text) → Arrives w (initial_uid {E = E} o row.tool w).1
      by_uid none = λ v e. cc
      by_uid (some uid) = elim (Option-cases (dict_get (make_key uid row.tool) w.cache)) [
        | inr (hit, found) ↦
            rw (found, initial_for) (hit-Arrives w (make_key uid row.tool) hit s found)
        | inl missing ↦ rw (missing, initial_for) (λ v e. cc)
      ]
