-- ===== src/ParsedHook/Sound.antt =====
-- useParsedSession.ts: what holds of the cache and the consumers, and the steps of one consumer.
use distill_portal.Prelude.{
  update, ℕ, Bool, true, false, Option, none, some, ◌≡◌, refl, sym, inl, inr, arith, Bool-cases,
  ◌==◌, if◌then◌else◌,
}
use mathlib.Core.Path.{subst}
use mathlib.Core.Option.{some-injective}
use distill_portal.Sessions.Rows.{SessionRow}
use distill_portal.ParsedHook.{Fetch, Shared, Run, Hook, cleanup, bump_cache_epoch, run_effect}
use distill_portal.ParsedHook.Steps.{System, with_hook, mount, on_effect}
use distill_portal.ParsedHook.Maps.{Grows, Grows-refl, IsShared, bump_cache_epoch-IsShared}
use distill_portal.ParsedHook.Consumers.{IsHook, IsHook-Grows}
use distill_portal.ParsedHook.Effects.{run_effect-IsEffect, derive_initial_state-IsEffect}

module _ {X : Type 0} where
  pub cleanup-IsShared : (r : Option Run) (w : Shared X) → IsShared w → IsShared (cleanup r w)
  cleanup-IsShared none w s = s
  cleanup-IsShared (some r) w s = elim (Bool-cases r.is_originator) [
    | inl e ↦ rw e (record {
      bounded = s.bounded;
      distinct = s.distinct;
      cached = s.cached;
      pending = s.pending;
      mirrored = s.mirrored;
      unused = s.unused;
    })
    | inr e ↦ rw e s
  ]

  cleanup_fetches : (r : Option Run) (w : Shared X) → (cleanup r w).fetches ≡ w.fetches
  cleanup_fetches none w = refl
  cleanup_fetches (some r) w = ground arith

module _ {X : Type 0} {E : Type 0} where
  pub record IsSound (s : System X E) : Type 0 where
    pub shared : IsShared s.shared
    pub hooked : (i : ℕ) (h : Hook E) → s.hooks i ≡ some h → IsHook s.shared.fetches h

  pub IsSound-if :
      (b : Bool) (s t : System X E) → IsSound s → IsSound t → IsSound (if b then s else t)
  IsSound-if true s t k l = k
  IsSound-if false s t k l = l

  -- The other consumers, where one has changed.
  pub others :
      {fs gs : ℕ → Option (Fetch X)} (hooks : ℕ → Option (Hook E)) (i : ℕ) (o : Option (Hook E))
      → Grows fs gs
      → ((j : ℕ) (h : Hook E) → hooks j ≡ some h → IsHook fs h)
      → ((h : Hook E) → o ≡ some h → IsHook gs h)
      → (j : ℕ) (h : Hook E) → update i o hooks j ≡ some h
      → IsHook gs h
  others hooks i o g all one j h e = elim (Bool-cases (j == i)) [
    | inl same ↦ one h (rw same at e)
    | inr other ↦ IsHook-Grows g (all j h (rw other at e))
  ]

  pub changed-IsSound :
      (i : ℕ) (h : Hook E) (s : System X E)
      → IsSound s
      → IsHook s.shared.fetches h
      → IsSound (with_hook i h s)
  changed-IsSound i h s k one = record {
    shared = k.shared;
    hooked =
        others s.hooks i (some h) (Grows-refl s.shared.fetches) k.hooked
          (λ g e. subst (IsHook s.shared.fetches) (some-injective _ _ e) one);
  }

  pub mount-IsSound :
      (i : ℕ) (row : Option SessionRow) (s : System X E) → IsSound s → IsSound (mount i row s)
  unfolding mount
  mount-IsSound i row s k =
      let f = derive_initial_state-IsEffect {E = E} row s.shared k.shared in
      record {
        shared = f.shared;
        hooked = others s.hooks i _ f.grows k.hooked (λ h e.
            subst (IsHook _) (some-injective _ _ e) (record { waits = f.waits; shows = f.shows }));
      }

  pub on_effect-IsSound :
      (i : ℕ) (h : Hook E) (s : System X E) → IsSound s → IsSound (on_effect i h s)
  unfolding on_effect
  on_effect-IsSound i h s k =
      let w = cleanup h.run s.shared in
      let f =
        run_effect-IsEffect {E = E} i h.row h.retry_nonce w
          (cleanup-IsShared h.run s.shared k.shared) in
      record {
        shared = f.shared;
        hooked =
            others s.hooks i _
              (subst (λ fs. Grows fs (run_effect {E = E} i h.row h.retry_nonce w).0.fetches)
                (cleanup_fetches h.run s.shared) f.grows)
              k.hooked
              (λ g e.
                subst (IsHook _) (some-injective _ _ e)
                  (record { waits = f.waits; shows = f.shows }));
      }

  pub unmount-IsSound :
      (i : ℕ) (h : Hook E) (s : System X E)
      → IsSound s
      → IsSound (record { shared = cleanup h.run s.shared; hooks = update i none s.hooks })
  unmount-IsSound i h s k = record {
    shared = cleanup-IsShared h.run s.shared k.shared;
    hooked =
        others s.hooks i none
          (subst (Grows s.shared.fetches) (sym (cleanup_fetches h.run s.shared))
            (Grows-refl s.shared.fetches))
          k.hooked (λ g e. cc);
  }

  pub bump-IsSound :
      (s : System X E) → IsSound s → IsSound (record s { shared = bump_cache_epoch s.shared })
  bump-IsSound s k = record {
    shared = bump_cache_epoch-IsShared s.shared k.shared;
    hooked = unfold bump_cache_epoch in k.hooked;
  }
