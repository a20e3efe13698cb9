-- ===== src/ParsedHook/Effects.antt =====
-- useParsedSession.ts: what an effect leaves behind, in the shared maps and for its consumer.
use distill_portal.Prelude.{
  ℕ, zero, suc, Text, Bool, true, false, Option, none, some, ◌≡◌, refl, sym, ap, ◌∙◌, inl, inr,
  arith, Option-cases, dict_get, ==_iff,
}
use mathlib.Core.Path.{subst}
use mathlib.Core.Option.{some-injective}
use distill_portal.Sessions.Rows.{SessionRow}
use distill_portal.Parsers.Dispatch.{ParsedSession}
use distill_portal.ParsedHook.{
  HookState, idle, no_raw, loading, Fetch, Shared, Run, make_key, shown_state, touch, fresh_fetch,
  started, joined_or_started, looked_up, effect_for, effect_uid, run_effect, initial_for,
  initial_uid, derive_initial_state,
}
use distill_portal.ParsedHook.Entries.{All-dict_get}
use distill_portal.ParsedHook.Maps.{
  Grows, Grows-refl, IsCached, IsPending, IsShared, touch-IsShared, fresh_fetch-Grows,
  fresh_fetch-IsShared,
}
use distill_portal.ParsedHook.Consumers.{
  parsed_in, parsed_in-shown_state, IsWaiting, IsShown, Cached-IsShown, Pending-IsWaiting,
}

module _ {X : Type 0} {E : Type 0} where
  abbrev Shows : (ℕ → Option (Fetch X)) → Option SessionRow → Bool → HookState E → Type 0
  Shows fs row due state =
      (v : ParsedSession)
      → parsed_in state ≡ some v
      → (state ≡ shown_state v) × IsShown fs row due v

  -- The maps stay sound, and what the consumer waits for and shows is of its row.
  pub record IsEffect (w : Shared X) (row : Option SessionRow) (due : Bool)
      (after : Shared X × HookState E × Option Run) : Type 0 where
    pub shared : IsShared after.0
    pub grows : Grows w.fetches after.0.fetches
    pub waits : (r : Run) → after.2 ≡ some r → IsWaiting after.0.fetches row due r
    pub shows : Shows after.0.fetches row due after.1

  quiet-IsEffect :
      (w : Shared X) (row : Option SessionRow) (due : Bool) (state : HookState E)
      → IsShared w
      → parsed_in state ≡ none
      → IsEffect w row due (w, state, none)
  quiet-IsEffect w row due state s e = record {
    shared = s;
    grows = Grows-refl w.fetches;
    waits = λ r h. cc;
    shows = λ v h. absurd (ground arith);
  }

  hit-IsEffect :
      (w : Shared X) (row : SessionRow) (uid : Text) (due : Bool) (hit : ParsedSession)
      → IsShared w
      → row.stored_session_uid ≡ some uid
      → dict_get (make_key uid row.tool) w.cache ≡ some hit
      → IsEffect w
          (some row)
          due
          (record w { cache = touch (make_key uid row.tool) hit w.cache }, shown_state hit, none)
  hit-IsEffect w row uid due hit s e found = record {
    shared = touch-IsShared w (make_key uid row.tool) hit found s;
    grows = Grows-refl w.fetches;
    waits = λ r h. cc;
    shows = λ v h.
        let same = parsed_in-shown_state E hit v h in
        (
          ap shown_state same,
          Cached-IsShown row uid due v e (
              All-dict_get (λ c. IsCached w.fetches w.cache_epoch c.0 c.1) (make_key uid row.tool) v
                w.cache s.cached (found ∙ ap some same)),
        );
  }

  started-IsEffect :
      (i : ℕ) (w : Shared X) (row : SessionRow) (uid : Text)
      → IsShared w
      → row.stored_session_uid ≡ some uid
      → IsEffect w (some row) false (started (fresh_fetch i uid row.tool w))
  started-IsEffect i w row uid s e = record {
    shared = fresh_fetch-IsShared i uid row.tool w s;
    grows = fresh_fetch-Grows i uid row.tool w s;
    waits = λ r h.
        unfold fresh_fetch in
        subst (IsWaiting _ (some row) false) (some-injective _ _ h) (record {
          fetch = record {
            stored_session_uid = uid;
            tool = row.tool;
            owner = i;
            epoch_at_start = w.cache_epoch;
            outcome = none;
            handled = false;
          };
          known = rw ((==_iff w.next_fetch w.next_fetch).1 refl) refl;
          same_epoch = refl;
          for_row = λ d. (e, refl);
        });
    shows = λ v h. cc;
  }

  joined-IsEffect :
      (w : Shared X) (row : SessionRow) (uid : Text) (p : ℕ)
      → IsShared w
      → row.stored_session_uid ≡ some uid
      → dict_get (make_key uid row.tool) w.in_flight ≡ some p
      → IsEffect w
          (some row)
          false
          (w, loading, some (record { promise = p; is_originator = false; epoch = w.cache_epoch }))
  joined-IsEffect w row uid p s e found = record {
    shared = s;
    grows = Grows-refl w.fetches;
    waits = λ r h. subst (IsWaiting w.fetches (some row) false) (some-injective _ _ h) (
        Pending-IsWaiting row uid p false e (
          All-dict_get (λ c. IsPending w.fetches w.cache_epoch c.0 c.1) (make_key uid row.tool) p
            w.in_flight s.pending found));
    shows = λ v h. cc;
  }

  effect_for-IsEffect :
      (i : ℕ) (w : Shared X) (row : SessionRow) (uid : Text) (nonce : ℕ)
      → IsShared w
      → row.stored_session_uid ≡ some uid
      → IsEffect w (some row) false (effect_for i uid row.tool nonce w)
  effect_for-IsEffect i w row uid (suc n) s e = started-IsEffect i w row uid s e
  effect_for-IsEffect i w row uid zero s e =
      elim (Option-cases (dict_get (make_key uid row.tool) w.cache)) [
        | inr (hit, found) ↦
            subst (λ o. IsEffect w (some row) false (looked_up i uid row.tool w o)) (sym found)
              (hit-IsEffect w row uid false hit s e found)
        | inl missing ↦
            subst (λ o. IsEffect w (some row) false (looked_up i uid row.tool w o)) (sym missing)
              (elim (Option-cases (dict_get (make_key uid row.tool) w.in_flight)) [
                | inr (p, found) ↦
                    subst (λ o. IsEffect w (some row) false (joined_or_started i uid row.tool w o))
                      (sym found) (joined-IsEffect w row uid p s e found)
                | inl missing' ↦
                    subst (λ o. IsEffect w (some row) false (joined_or_started i uid row.tool w o))
                      (sym missing') (started-IsEffect i w row uid s e)
              ])
      ]

  pub run_effect-IsEffect :
      (i : ℕ) (row : Option SessionRow) (nonce : ℕ) (w : Shared X)
      → IsShared w
      → IsEffect w row false (run_effect i row nonce w)
  unfolding run_effect
  run_effect-IsEffect i none nonce w s = quiet-IsEffect w none false idle s refl
  run_effect-IsEffect i (some row) nonce w s = elim (Option-cases row.stored_session_uid) [
    | inl e ↦
        subst (λ o. IsEffect w (some row) false (effect_uid i o row.tool nonce w)) (sym e)
          (quiet-IsEffect w (some row) false no_raw s refl)
    | inr (uid, e) ↦
        subst (λ o. IsEffect w (some row) false (effect_uid i o row.tool nonce w)) (sym e)
          (effect_for-IsEffect i w row uid nonce s e)
  ]

  abbrev no_run : Shared X × HookState E → Shared X × HookState E × Option Run
  no_run (w, state) = (w, state, none)

  initial_for-IsEffect :
      (w : Shared X) (row : SessionRow) (uid : Text)
      → IsShared w
      → row.stored_session_uid ≡ some uid
      → IsEffect w (some row) true (no_run (initial_for uid row.tool w))
  initial_for-IsEffect w row uid s e =
      elim (Option-cases (dict_get (make_key uid row.tool) w.cache)) [
        | inr (hit, found) ↦ rw (found, initial_for) (hit-IsEffect w row uid true hit s e found)
        | inl missing ↦ rw (missing, initial_for) (quiet-IsEffect w (some row) true loading s refl)
      ]

  pub derive_initial_state-IsEffect :
      (row : Option SessionRow) (w : Shared X)
      → IsShared w
      → IsEffect w row true (no_run (derive_initial_state row w))
  unfolding derive_initial_state
  derive_initial_state-IsEffect none w s = quiet-IsEffect w none true idle s refl
  derive_initial_state-IsEffect (some row) w s = elim (Option-cases row.stored_session_uid) [
    | inl e ↦
        subst (λ o. IsEffect w (some row) true (no_run (initial_uid o row.tool w))) (sym e)
          (quiet-IsEffect w (some row) true no_raw s refl)
    | inr (uid, e) ↦
        subst (λ o. IsEffect w (some row) true (no_run (initial_uid o row.tool w))) (sym e)
          (initial_for-IsEffect w row uid s e)
  ]
