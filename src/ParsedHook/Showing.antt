-- ===== src/ParsedHook/Showing.antt =====
-- useParsedSession.ts: no consumer comes to show what was fetched before the last rescan.
use distill_portal.Prelude.{
  update, ℕ, Bool, Option, none, some, ◌≡◌, refl, sym, ap, ◌∙◌, inl, inr, arith, Option-cases,
  if◌then◌else◌,
}
use mathlib.Core.Path.{subst}
use distill_portal.Sessions.Rows.{SessionRow}
use distill_portal.Json.{Runtime}
use distill_portal.ParsedHook.{Fetch, Hook, cleanup}
use distill_portal.ParsedHook.Steps.{
  HookEvent, mounts, selects, effect_runs, unmounts, retries, sibling_handles, settles,
  originator_handles, bumps, Settled, System, with_hook, mount, mount_free, select, retry,
  on_effect, on_hook, sibling_waits, settle_fetch, step,
}
use distill_portal.ParsedHook.Consumers.{parsed_in}
use distill_portal.ParsedHook.Sound.{IsSound, cleanup-IsShared}
use distill_portal.ParsedHook.Arrivals.{run_effect-Arrives, derive_initial_state-Arrives}
use distill_portal.ParsedHook.Fresh.{
  shown_by, Stays, Stays-same, Stays-update, cleanup-IsFresh, sibling-Stays, Stays-if, handle-Stays,
}

module _ {X : Type 0} {E : Type 0} (rt : Runtime) (is_abort_error : X → Bool)
    (as_error : X → E) where
  on_hook-Stays :
      (i j : ℕ) (f : Hook E → System X E) (s : System X E)
      → ((h : Hook E) → s.hooks i ≡ some h → Stays s.shared (s.hooks j) ((f h).hooks j))
      → Stays s.shared (s.hooks j) ((on_hook i f s).hooks j)
  on_hook-Stays i j f s one = elim (Option-cases (s.hooks i)) [
    | inl e ↦ rw (e, on_hook) (Stays-same s.shared (s.hooks j))
    | inr (h, e) ↦ rw (e, on_hook) (one h e)
  ]

  -- Another state of a consumer that shows the same.
  with_hook-Stays :
      (i j : ℕ) (h g : Hook E) (s : System X E)
      → s.hooks i ≡ some h
      → parsed_in g.state ≡ parsed_in h.state
      → Stays s.shared (s.hooks j) ((with_hook i g s).hooks j)
  with_hook-Stays i j h g s e same =
      Stays-update s.shared s.hooks i j (some g) (λ v e'. inl (ap shown_by e ∙ sym same ∙ e'))

  mount-Stays :
      (i j : ℕ) (row : Option SessionRow) (o : Option (Hook E)) (s : System X E)
      → IsSound s
      → Stays s.shared (s.hooks j) ((mount_free i row o s).hooks j)
  unfolding mount
  mount-Stays i j row none s k =
      Stays-update s.shared s.hooks i j _
        (λ v e. inr (derive_initial_state-Arrives E row s.shared k.shared v e))
  mount-Stays i j row (some h) s k = Stays-same s.shared (s.hooks j)

  effect-Stays :
      (i j : ℕ) (h : Hook E) (s : System X E)
      → IsSound s
      → Stays s.shared (s.hooks j) ((on_effect i h s).hooks j)
  unfolding on_effect
  effect-Stays i j h s k = Stays-update s.shared s.hooks i j _ (λ v e. inr (
      cleanup-IsFresh h.run s.shared v (
        run_effect-Arrives E i h.row h.retry_nonce (cleanup h.run s.shared)
          (cleanup-IsShared h.run s.shared k.shared) v e)))

  retry_state : (h : Hook E) → parsed_in (retry h).state ≡ parsed_in h.state
  unfolding retry
  retry_state h = ground arith

  settle_hooks :
      (p : ℕ) (r : Settled X) (o : Option (Fetch X)) (s : System X E)
      → (settle_fetch rt is_abort_error as_error p r o s).hooks ≡ s.hooks
  settle_hooks p r none s = refl
  settle_hooks p r (some f) s = ground arith

  -- No event makes a consumer show a stale session: what it shows after the event it has shown before, or
  -- that is the result of a fetch that started after the last rescan.
  pub step-Stays :
      (e : HookEvent X) (s : System X E) (j : ℕ)
      → IsSound s
      → Stays s.shared (s.hooks j) ((step rt is_abort_error as_error e s).hooks j)
  unfolding step
  step-Stays (mounts i row) s j k = mount-Stays i j row (s.hooks i) s k
  step-Stays (selects i row) s j k =
      on_hook-Stays i j (λ h. with_hook i (select row h) s) s
        (λ h e. with_hook-Stays i j h (select row h) s e (unfold select in refl))
  step-Stays (effect_runs i) s j k =
      on_hook-Stays i j (λ h. if h.effect_due then on_effect i h s else s) s
        (λ h e.
          Stays-if s.shared (s.hooks j) h.effect_due (on_effect i h s) s j (effect-Stays i j h s k)
            (Stays-same s.shared (s.hooks j)))
  step-Stays (unmounts i) s j k =
      on_hook-Stays i j
        (λ h. record { shared = cleanup h.run s.shared; hooks = update i none s.hooks }) s
        (λ h e. Stays-update s.shared s.hooks i j none (λ v e'. cc))
  step-Stays (retries i) s j k =
      on_hook-Stays i j (λ h. with_hook i (retry h) s) s
        (λ h e. with_hook-Stays i j h (retry h) s e (retry_state h))
  step-Stays (sibling_handles i) s j k =
      on_hook-Stays i j (λ h. sibling_waits is_abort_error as_error i h h.run s) s
        (λ h e. sibling-Stays is_abort_error as_error i j h h.run s k e refl)
  step-Stays (settles p r) s j k =
      subst (λ hs. Stays s.shared (s.hooks j) (hs j))
        (sym (settle_hooks p r (s.shared.fetches p) s)) (Stays-same s.shared (s.hooks j))
  step-Stays (originator_handles p) s j k =
      handle-Stays is_abort_error as_error p j (s.shared.fetches p) s refl
  step-Stays bumps s j k = Stays-same s.shared (s.hooks j)
