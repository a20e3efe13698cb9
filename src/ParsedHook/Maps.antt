-- ===== src/ParsedHook/Maps.antt =====
-- useParsedSession.ts: what holds of the shared maps, and that the operations on them keep it.
use distill_portal.Prelude.{
  update, ℕ, ◌≤◌, Text, false, Option, none, some, List, length, All, All-mono, ◌≡◌, refl, ap, ◌∙◌,
  inl, inr, arith, Bool-cases, dict_get, dict_set, dict_delete, ◌==◌, ==_iff,
}
use mathlib.Core.Path.{subst}
use distill_portal.Contracts.{Tool}
use distill_portal.Parsers.Dispatch.{ParsedSession}
use distill_portal.ParsedHook.{
  Outcome, resolved, Fetch, Shared, key_of, make_key, touch, use_parsed_session_cache_max,
  bump_cache_epoch, fresh_fetch,
}
use distill_portal.ParsedHook.Entries.{
  Distinct, Distinct-dict_set, Distinct-dict_delete, length-touch, All-dict_set, All-dict_delete,
  All-dict_get,
}

module _ {X : Type 0} where
  -- A fetch keeps its session, its owner and its epoch, and a result once it has one.
  pub record IsLater (f g : Fetch X) : Type 0 where
    pub same_uid : g.stored_session_uid ≡ f.stored_session_uid
    pub same_tool : g.tool ≡ f.tool
    pub same_owner : g.owner ≡ f.owner
    pub same_epoch : g.epoch_at_start ≡ f.epoch_at_start
    pub same_outcome : (o : Outcome X) → f.outcome ≡ some o → g.outcome ≡ some o

  abbrev pub Grows : (ℕ → Option (Fetch X)) → (ℕ → Option (Fetch X)) → Type 0
  Grows fs gs =
      (p : ℕ) (f : Fetch X) → fs p ≡ some f → (g : Fetch X) × (gs p ≡ some g) × IsLater f g

  pub IsLater-refl : (f : Fetch X) → IsLater f f
  IsLater-refl f = record {
    same_uid = refl;
    same_tool = refl;
    same_owner = refl;
    same_epoch = refl;
    same_outcome = λ o e. e;
  }

  pub Grows-refl : (fs : ℕ → Option (Fetch X)) → Grows fs fs
  Grows-refl fs p f e = (f, e, IsLater-refl f)

  -- One fetch goes on.
  pub Grows-update :
      (fs : ℕ → Option (Fetch X)) (p : ℕ) (g : Fetch X)
      → ((f : Fetch X) → fs p ≡ some f → IsLater f g)
      → Grows fs (update p (some g) fs)
  Grows-update fs p g later q f e = elim (Bool-cases (q == p)) [
    | inl same ↦ (g, rw same refl, later f (subst (λ i. fs i ≡ some f) ((==_iff q p).0 same) e))
    | inr other ↦ (f, rw other e, IsLater-refl f)
  ]

  -- A cached session is the result of a fetch of its key that started in the epoch.
  pub record IsCached (fs : ℕ → Option (Fetch X)) (epoch : ℕ) (key : Text) (v : ParsedSession)
      : Type 0 where
    pub promise : ℕ
    pub fetch : Fetch X
    pub known : fs promise ≡ some fetch
    pub keyed : key_of fetch ≡ key
    pub current : fetch.epoch_at_start ≡ epoch
    pub result : fetch.outcome ≡ some (resolved v)

  -- A promise in flight is a fetch of its key that started in the epoch.
  pub record IsPending (fs : ℕ → Option (Fetch X)) (epoch : ℕ) (key : Text) (p : ℕ) : Type 0 where
    pub fetch : Fetch X
    pub known : fs p ≡ some fetch
    pub keyed : key_of fetch ≡ key
    pub current : fetch.epoch_at_start ≡ epoch

  key_of-IsLater : (f g : Fetch X) → IsLater f g → key_of g ≡ key_of f
  key_of-IsLater f g l = rw (l.same_uid, l.same_tool) refl

  IsCached-Grows :
      {fs gs : ℕ → Option (Fetch X)} {epoch : ℕ} {key : Text} {v : ParsedSession}
      → Grows fs gs
      → IsCached fs epoch key v
      → IsCached gs epoch key v
  IsCached-Grows g c =
      let (f, e, l) = g c.promise c.fetch c.known in
      record {
        promise = c.promise;
        fetch = f;
        known = e;
        keyed = key_of-IsLater c.fetch f l ∙ c.keyed;
        current = l.same_epoch ∙ c.current;
        result = l.same_outcome _ c.result;
      }

  IsPending-Grows :
      {fs gs : ℕ → Option (Fetch X)} {epoch : ℕ} {key : Text} {p : ℕ}
      → Grows fs gs
      → IsPending fs epoch key p
      → IsPending gs epoch key p
  IsPending-Grows {p = p} g c =
      let (f, e, l) = g p c.fetch c.known in
      record {
        fetch = f;
        known = e;
        keyed = key_of-IsLater c.fetch f l ∙ c.keyed;
        current = l.same_epoch ∙ c.current;
      }

  abbrev pub AllCached : (ℕ → Option (Fetch X)) → ℕ → List (Text × ParsedSession) → Type 0
  AllCached fs epoch m = All (λ e. IsCached fs epoch e.0 e.1) m

  abbrev pub AllPending : (ℕ → Option (Fetch X)) → ℕ → List (Text × ℕ) → Type 0
  AllPending fs epoch m = All (λ e. IsPending fs epoch e.0 e.1) m

  pub record IsShared (w : Shared X) : Type 0 where
    pub bounded : length w.cache ≤ use_parsed_session_cache_max
    pub distinct : Distinct w.cache
    pub cached : AllCached w.fetches w.cache_epoch w.cache
    pub pending : AllPending w.fetches w.cache_epoch w.in_flight
    pub mirrored : w.in_flight_controllers ≡ w.in_flight
    pub unused : (p : ℕ) → w.next_fetch ≤ p → w.fetches p ≡ none

  pub AllCached-Grows :
      {fs gs : ℕ → Option (Fetch X)} (epoch : ℕ) (m : List (Text × ParsedSession))
      → Grows fs gs
      → AllCached fs epoch m
      → AllCached gs epoch m
  AllCached-Grows epoch m g = All-mono _ _ m (λ e c. IsCached-Grows g c)

  pub AllPending-Grows :
      {fs gs : ℕ → Option (Fetch X)} (epoch : ℕ) (m : List (Text × ℕ))
      → Grows fs gs
      → AllPending fs epoch m
      → AllPending gs epoch m
  AllPending-Grows epoch m g = All-mono _ _ m (λ e c. IsPending-Grows g c)

  -- A hit of the cache.
  pub touch-IsShared :
      (w : Shared X) (k : Text) (v : ParsedSession)
      → dict_get k w.cache ≡ some v
      → IsShared w
      → IsShared (record w { cache = touch k v w.cache })
  touch-IsShared w k v hit s =
      let P : Text × ParsedSession → Type 0 = λ e. IsCached w.fetches w.cache_epoch e.0 e.1 in
      record {
        bounded = omega (arith, length-touch k v w.cache hit, s.bounded);
        distinct =
            unfold touch in
            Distinct-dict_set k v (dict_delete k w.cache)
              (Distinct-dict_delete k w.cache s.distinct);
        cached =
            unfold touch in
            All-dict_set P k v (dict_delete k w.cache) (All-dict_get P k v w.cache s.cached hit)
              (All-dict_delete P k w.cache s.cached);
        pending = s.pending;
        mirrored = s.mirrored;
        unused = s.unused;
      }

  pub bump_cache_epoch-IsShared : (w : Shared X) → IsShared w → IsShared (bump_cache_epoch w)
  unfolding bump_cache_epoch
  bump_cache_epoch-IsShared w s = record {
    bounded = omega arith;
    distinct = tt;
    cached = tt;
    pending = tt;
    mirrored = refl;
    unused = s.unused;
  }

  module _ (i : ℕ) (uid : Text) (tool : Tool) (w : Shared X) (s : IsShared w) where
    pub fresh_fetch-Grows : Grows w.fetches (fresh_fetch i uid tool w).0.fetches
    unfolding fresh_fetch
    fresh_fetch-Grows =
        Grows-update w.fetches w.next_fetch _
          (λ f e. absurd (ground (arith, s.unused w.next_fetch (omega arith))))

    pub fresh_fetch-IsShared : IsShared (fresh_fetch i uid tool w).0
    fresh_fetch-IsShared =
        let g = fresh_fetch-Grows in
        unfold fresh_fetch in
        record {
          bounded = s.bounded;
          distinct = s.distinct;
          cached = AllCached-Grows w.cache_epoch w.cache g s.cached;
          pending =
              All-dict_set _ (make_key uid tool) w.next_fetch w.in_flight
                (record {
                  fetch = record {
                    stored_session_uid = uid;
                    tool = tool;
                    owner = i;
                    epoch_at_start = w.cache_epoch;
                    outcome = none;
                    handled = false;
                  };
                  known = rw ((==_iff w.next_fetch w.next_fetch).1 refl) refl;
                  keyed = refl;
                  current = refl;
                })
                (AllPending-Grows w.cache_epoch w.in_flight g s.pending);
          mirrored = ap (dict_set (make_key uid tool) w.next_fetch) s.mirrored;
          unused = λ p h. ground (arith, s.unused p (omega arith));
        }
