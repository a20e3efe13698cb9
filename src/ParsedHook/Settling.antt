-- ===== src/ParsedHook/Settling.antt =====
-- useParsedSession.ts: a fetch that settles keeps what holds of the shared maps.
use distill_portal.Prelude.{
  update, ℕ, ◌≤◌, Text, true, Option, none, some, ◌≡◌, ◌≢◌, refl, sym, ap, ◌∙◌, inl, inr, arith,
  Bool-cases, dict_get, dict_set, dict_delete, ◌==◌, ==_iff,
}
use mathlib.Core.Option.{some-injective}
use distill_portal.Json.{Runtime}
use distill_portal.Parsers.Dispatch.{ParsedSession}
use distill_portal.ParsedHook.{
  Outcome, resolved, rejected, Fetch, Shared, key_of, store_result, parsed_of, drop_settled,
  is_promise,
}
use distill_portal.ParsedHook.Entries.{
  Distinct-dict_set, Distinct-evict, length-evict, All-dict_set, All-dict_delete, All-evict,
}
use distill_portal.ParsedHook.Maps.{
  Grows, Grows-update, IsShared, AllCached-Grows, AllPending-Grows,
}
use distill_portal.ParsedHook.Steps.{Settled, streamed, threw, on_settled}

module _ {X : Type 0} where
  -- The fetch of a promise goes on, in the maps that stay.
  module _ (w : Shared X) (p : ℕ) (g : Fetch X) (known : w.fetches p ≢ none) (s : IsShared w) where
    advanced_unused : (q : ℕ) → w.next_fetch ≤ q → update p (some g) w.fetches q ≡ none
    advanced_unused q h = elim (Bool-cases (q == p)) [
      | inl e ↦ absurd (known (s.unused p (ground arith)))
      | inr e ↦ rw e (s.unused q h)
    ]

    pub advanced-IsShared :
        Grows w.fetches (update p (some g) w.fetches)
        → IsShared (record w { fetches = update p (some g) w.fetches })
    advanced-IsShared grows = record {
      bounded = s.bounded;
      distinct = s.distinct;
      cached = AllCached-Grows w.cache_epoch w.cache grows s.cached;
      pending = AllPending-Grows w.cache_epoch w.in_flight grows s.pending;
      mirrored = s.mirrored;
      unused = advanced_unused;
    }

  pub drop_settled-IsShared :
      (key : Text) (p : ℕ) (w : Shared X) → IsShared w → IsShared (drop_settled key p w)
  unfolding drop_settled
  drop_settled-IsShared key p w s = elim (Bool-cases (is_promise p (dict_get key w.in_flight))) [
    | inl e ↦ rw e (record {
      bounded = s.bounded;
      distinct = s.distinct;
      cached = s.cached;
      pending = All-dict_delete _ key w.in_flight s.pending;
      mirrored = ap (dict_delete key) s.mirrored;
      unused = s.unused;
    })
    | inr e ↦ rw e s
  ]

  none-some : {o : Option (Outcome X)} {a : Outcome X} → o ≡ none → o ≡ some a → ⊥
  none-some e h = cc

  -- A fetch comes to its result.
  module _ (p : ℕ) (f : Fetch X) (o : Outcome X) (w : Shared X) (s : IsShared w)
      (known : w.fetches p ≡ some f) (pending : f.outcome ≡ none) where
    abbrev pub with_outcome : Fetch X
    with_outcome = record f { outcome = some o }

    pub outcome-Grows : Grows w.fetches (update p (some with_outcome) w.fetches)
    outcome-Grows = Grows-update w.fetches p with_outcome (λ g e.
        let same : g ≡ f = some-injective _ _ (sym e ∙ known) in
        record {
          same_uid = ap (λ h. h.stored_session_uid) (sym same);
          same_tool = ap (λ h. h.tool) (sym same);
          same_owner = ap (λ h. h.owner) (sym same);
          same_epoch = ap (λ h. h.epoch_at_start) (sym same);
          same_outcome = λ o e'. absurd (none-some pending (ap (λ h. h.outcome) (sym same) ∙ e'));
        })

    pub outcome-IsShared : IsShared (record w { fetches = update p (some with_outcome) w.fetches })
    outcome-IsShared = advanced-IsShared w p with_outcome (λ e. cc) s outcome-Grows

    -- The cache takes the result in the epoch of the fetch.
    pub stored-IsShared :
        (v : ParsedSession)
        → o ≡ resolved v
        → IsShared
            (record (store_result f v w) { fetches = update p (some with_outcome) w.fetches })
    unfolding store_result
    stored-IsShared v e = elim (Bool-cases (w.cache_epoch == f.epoch_at_start)) [
      | inr late ↦ rw late outcome-IsShared
      | inl current ↦ rw current (record {
        bounded = length-evict (dict_set (key_of f) v w.cache);
        distinct =
            Distinct-evict (dict_set (key_of f) v w.cache)
              (Distinct-dict_set (key_of f) v w.cache s.distinct);
        cached = All-evict _ (dict_set (key_of f) v w.cache) (
            All-dict_set _ (key_of f) v w.cache
              (record {
                promise = p;
                fetch = with_outcome;
                known = rw ((==_iff p p).1 refl) refl;
                keyed = refl;
                current = sym ((==_iff w.cache_epoch f.epoch_at_start).0 current);
                result = ap some e;
              })
              outcome-IsShared.cached);
        pending = outcome-IsShared.pending;
        mirrored = s.mirrored;
        unused = outcome-IsShared.unused;
      })
    ]

  -- The callbacks of its consumer have run.
  module _ (p : ℕ) (f : Fetch X) (w : Shared X) (s : IsShared w)
      (known : w.fetches p ≡ some f) where
    pub handled-Grows : Grows w.fetches (update p (some (record f { handled = true })) w.fetches)
    handled-Grows =
        Grows-update w.fetches p (record f { handled = true })
          (λ g e.
            let same : g ≡ f = some-injective _ _ (sym e ∙ known) in
            record {
              same_uid = ap (λ h. h.stored_session_uid) (sym same);
              same_tool = ap (λ h. h.tool) (sym same);
              same_owner = ap (λ h. h.owner) (sym same);
              same_epoch = ap (λ h. h.epoch_at_start) (sym same);
              same_outcome = λ o e'. ap (λ h. h.outcome) (sym same) ∙ e';
            })

    pub handled-IsShared :
        IsShared (record w { fetches = update p (some (record f { handled = true })) w.fetches })
    handled-IsShared = advanced-IsShared w p (record f { handled = true }) (λ e. cc) s handled-Grows

module _ {X : Type 0} (rt : Runtime) where
  pub on_settled-IsShared :
      (p : ℕ) (f : Fetch X) (r : Settled X) (w : Shared X)
      → IsShared w
      → w.fetches p ≡ some f
      → f.outcome ≡ none
      → IsShared (on_settled rt p f r w)
  unfolding on_settled
  on_settled-IsShared p f (streamed r) w s k n =
      stored-IsShared p f (resolved (parsed_of rt f.tool r)) w s k n (parsed_of rt f.tool r) refl
  on_settled-IsShared p f (threw x) w s k n = outcome-IsShared p f (rejected x) w s k n

  pub on_settled-Grows :
      (p : ℕ) (f : Fetch X) (r : Settled X) (w : Shared X)
      → IsShared w
      → w.fetches p ≡ some f
      → f.outcome ≡ none
      → Grows w.fetches (on_settled rt p f r w).fetches
  unfolding on_settled
  on_settled-Grows p f (streamed r) w s k n =
      outcome-Grows p f (resolved (parsed_of rt f.tool r)) w s k n
  on_settled-Grows p f (threw x) w s k n = outcome-Grows p f (rejected x) w s k n
