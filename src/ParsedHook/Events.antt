-- ===== src/ParsedHook/Events.antt =====
-- useParsedSession.ts: the cache and the consumers, after any events.
use distill_portal.Prelude.{
  ℕ, Bool, Option, none, some, List, [], ◌∷◌, ◌≡◌, refl, inl, inr, arith, Option-cases,
  if◌then◌else◌,
}
use distill_portal.Sessions.Rows.{SessionRow}
use distill_portal.Json.{Runtime}
use distill_portal.ParsedHook.{Fetch, Hook}
use distill_portal.ParsedHook.Steps.{
  HookEvent, mounts, selects, effect_runs, unmounts, retries, sibling_handles, settles,
  originator_handles, bumps, Settled, System, initial, with_hook, mount_free, select, retry,
  on_effect, on_hook, sibling_waits, settle_fetch, step, run_events,
}
use distill_portal.ParsedHook.Settling.{on_settled-IsShared, on_settled-Grows}
use distill_portal.ParsedHook.Consumers.{IsHook-Grows, select-IsHook, retry-IsHook}
use distill_portal.ParsedHook.Sound.{
  IsSound, IsSound-if, changed-IsSound, mount-IsSound, on_effect-IsSound, unmount-IsSound,
  bump-IsSound,
}
use distill_portal.ParsedHook.Callbacks.{sibling_waits-IsSound, handle_fetch-IsSound}

module _ {X : Type 0} {E : Type 0} (rt : Runtime) (is_abort_error : X → Bool)
    (as_error : X → E) where
  settle_fetch-IsSound :
      (p : ℕ) (r : Settled X) (o : Option (Fetch X)) (s : System X E)
      → IsSound s
      → s.shared.fetches p ≡ o
      → IsSound (settle_fetch rt is_abort_error as_error p r o s)
  settle_fetch-IsSound p r none s k known = k
  settle_fetch-IsSound p r (some f) s k known = elim (Option-cases f.outcome) [
    | inr (o, done) ↦ rw done k
    | inl waiting ↦ rw waiting (record {
      shared = on_settled-IsShared rt p f r s.shared k.shared known waiting;
      hooked = λ i h e.
          IsHook-Grows (on_settled-Grows rt p f r s.shared k.shared known waiting) (k.hooked i h e);
    })
  ]

  -- A consumer's own event.
  on_hook-IsSound :
      (i : ℕ) (f : Hook E → System X E) (s : System X E)
      → IsSound s
      → ((h : Hook E) → s.hooks i ≡ some h → IsSound (f h))
      → IsSound (on_hook i f s)
  on_hook-IsSound i f s k one = elim (Option-cases (s.hooks i)) [
    | inl e ↦ rw (e, on_hook) k
    | inr (h, e) ↦ rw (e, on_hook) (one h e)
  ]

  mount_free-IsSound :
      (i : ℕ) (row : Option SessionRow) (o : Option (Hook E)) (s : System X E)
      → IsSound s
      → IsSound (mount_free i row o s)
  mount_free-IsSound i row none s k = mount-IsSound i row s k
  mount_free-IsSound i row (some h) s k = k

  pub step-IsSound :
      (e : HookEvent X) (s : System X E) → IsSound s → IsSound (step rt is_abort_error as_error e s)
  unfolding step
  step-IsSound (mounts i row) s k = mount_free-IsSound i row (s.hooks i) s k
  step-IsSound (selects i row) s k =
      on_hook-IsSound i (λ h. with_hook i (select row h) s) s k
        (λ h e. changed-IsSound i (select row h) s k (select-IsHook row h (k.hooked i h e)))
  step-IsSound (effect_runs i) s k =
      on_hook-IsSound i (λ h. if h.effect_due then on_effect i h s else s) s k
        (λ h e. IsSound-if h.effect_due (on_effect i h s) s (on_effect-IsSound i h s k) k)
  step-IsSound (unmounts i) s k = on_hook-IsSound i _ s k (λ h e. unmount-IsSound i h s k)
  step-IsSound (retries i) s k =
      on_hook-IsSound i (λ h. with_hook i (retry h) s) s k
        (λ h e. changed-IsSound i (retry h) s k (retry-IsHook h (k.hooked i h e)))
  step-IsSound (sibling_handles i) s k =
      on_hook-IsSound i (λ h. sibling_waits is_abort_error as_error i h h.run s) s k
        (λ h e. sibling_waits-IsSound is_abort_error as_error i h h.run s k e refl)
  step-IsSound (settles p r) s k = settle_fetch-IsSound p r (s.shared.fetches p) s k refl
  step-IsSound (originator_handles p) s k =
      handle_fetch-IsSound is_abort_error as_error p (s.shared.fetches p) s k refl
  step-IsSound bumps s k = bump-IsSound s k

  initial-IsSound : IsSound (initial {X = X} {E = E})
  initial-IsSound = record {
    shared = record {
      bounded = omega arith;
      distinct = tt;
      cached = tt;
      pending = tt;
      mirrored = refl;
      unused = λ p h. refl;
    };
    hooked = λ i h e. cc;
  }

  run_events-keeps :
      (es : List (HookEvent X)) (s : System X E)
      → IsSound s
      → IsSound (run_events rt is_abort_error as_error es s)
  unfolding run_events
  run_events-keeps [] s k = k
  run_events-keeps (e ∷ es) s k =
      run_events-keeps es (step rt is_abort_error as_error e s) (step-IsSound e s k)

  -- Whatever the consumers, the fetches and the rescans do, and in whatever order: the cache holds at
  -- most five sessions, none twice, each the result of a fetch of its own session that started after
  -- the last rescan; so did every fetch in flight, and the two maps of them agree. What a consumer
  -- shows, as whole or as truncated, is the result of a fetch of the session of its row, and what it
  -- waits for is one, from the run of its effect for that row on.
  pub run_events-IsSound :
      (es : List (HookEvent X)) → IsSound (run_events rt is_abort_error as_error es initial)
  run_events-IsSound es = run_events-keeps es initial initial-IsSound
