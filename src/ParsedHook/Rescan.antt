-- ===== src/ParsedHook/Rescan.antt =====
-- useParsedSession.ts: a rescan that comes while a session loads.
use distill_portal.Prelude.{
  ℕ, ◌≤◌, ◌<◌, Bool, true, false, Option, none, some, [], ◌∷◌, ◌≡◌, refl, ap, ◌∙◌, inl, inr, arith,
  Bool-cases, ==_iff,
}
use mathlib.Core.Path.{subst}
use distill_portal.Sessions.Rows.{SessionRow}
use distill_portal.Json.{Runtime}
use distill_portal.ParsedHook.{
  HookState, loading, Outcome, resolved, rejected, Fetch, Shared, Hook, key_of, store_result,
  drop_settled, bump_cache_epoch, parsed_of,
}
use distill_portal.ParsedHook.Steps.{
  selects, settles, originator_handles, bumps, Settled, streamed, threw, System, waits_for,
  same_deps, select, on_settled, originator_state, on_originator, step, run_events, on_hook,
  with_hook,
}

module _ {X : Type 0} {E : Type 0} (rt : Runtime) (is_abort_error : X → Bool)
    (as_error : X → E) where
  -- A request that a rescan aborts ends in an abort error, or had been answered already.
  abbrev pub IsAborted : Settled X → Type 0
  IsAborted (streamed r) = Unit
  IsAborted (threw x) = is_abort_error x ≡ true

  abbrev outcome_of : Fetch X → Settled X → Outcome X
  outcome_of f (streamed r) = resolved (parsed_of rt f.tool r)
  outcome_of f (threw x) = rejected x

  -- The consumer `i` loads: it has started the fetch `f`, which is on its way.
  pub record Loads (i : ℕ) (s : System X E) (h : Hook E) (p : ℕ) (f : Fetch X) : Type 0 where
    pub mounted : s.hooks i ≡ some h
    pub waiting : waits_for p h.run ≡ true
    pub loads : h.state ≡ loading
    pub settled : h.effect_due ≡ false
    pub known : s.shared.fetches p ≡ some f
    pub owned : f.owner ≡ i
    pub pending : f.outcome ≡ none
    pub fresh : f.handled ≡ false
    pub started : f.epoch_at_start ≤ s.shared.cache_epoch

  stays :
      (now : ℕ) (f : Fetch X) (r : Settled X) (state : HookState E)
      → f.epoch_at_start < now
      → IsAborted r
      → originator_state is_abort_error as_error now f (outcome_of f r) state ≡ state
  unfolding originator_state
  stays now f (streamed r) state h a = ground arith
  stays now f (threw x) state h a = ground arith

  -- The states of `s` after each of the events.
  settled_hooks :
      (p : ℕ) (r : Settled X) (s : System X E)
      → (step rt is_abort_error as_error (settles p r) s).hooks ≡ s.hooks
  unfolding step
  settled_hooks p r s = ground arith

  settled_fetch :
      (p : ℕ) (r : Settled X) (f : Fetch X) (w : Shared X)
      → w.fetches p ≡ some f
      → (on_settled rt p f r w).fetches p ≡ some (record f { outcome = some (outcome_of f r) })
  unfolding on_settled
  settled_fetch p (streamed r) f w e = rw ((==_iff p p).1 refl) refl
  settled_fetch p (threw x) f w e = rw ((==_iff p p).1 refl) refl

  settled_epoch :
      (p : ℕ) (r : Settled X) (f : Fetch X) (w : Shared X)
      → (on_settled rt p f r w).cache_epoch ≡ w.cache_epoch
  unfolding on_settled store_result
  settled_epoch p (streamed r) f w = ground arith
  settled_epoch p (threw x) f w = refl

  after_settles :
      (p : ℕ) (r : Settled X) (f : Fetch X) (s : System X E)
      → s.shared.fetches p ≡ some f
      → f.outcome ≡ none
      → step rt is_abort_error as_error (settles p r) s
        ≡ record s { shared = on_settled rt p f r s.shared }
  unfolding step
  after_settles p r f s known pending = ground arith

  after_handles :
      (p : ℕ) (f : Fetch X) (o : Outcome X) (s : System X E)
      → s.shared.fetches p ≡ some f
      → f.outcome ≡ some o
      → f.handled ≡ false
      → step rt is_abort_error as_error (originator_handles p) s
        ≡ on_originator is_abort_error as_error p f o s
  unfolding step
  after_handles p f o s known result first = ground arith

  drop_settled_epoch :
      (p : ℕ) (f : Fetch X) (w : Shared X)
      → (drop_settled (key_of f) p w).cache_epoch ≡ w.cache_epoch
  unfolding drop_settled
  drop_settled_epoch p f w = ground arith

  -- The callback finds a consumer that keeps its state.
  told_hook :
      (p : ℕ) (f : Fetch X) (o : Outcome X) (s : System X E) (h : Hook E)
      → s.hooks f.owner ≡ some h
      → originator_state is_abort_error as_error s.shared.cache_epoch f o h.state ≡ h.state
      → (on_originator is_abort_error as_error p f o s).hooks f.owner ≡ some h
  unfolding on_originator
  told_hook p f o s h e same =
      rw ((==_iff f.owner f.owner).1 refl, e, drop_settled_epoch p f s.shared)
        (elim (Bool-cases (waits_for p h.run)) [ inl w ↦ rw (w, same) refl | inr w ↦ rw w refl ])

  on_hook-some :
      (i : ℕ) (f : Hook E → System X E) (s : System X E) (h : Hook E)
      → s.hooks i ≡ some h
      → on_hook i f s ≡ f h
  on_hook-some i f s h e = rw (e, on_hook) refl

  after_selects :
      (i : ℕ) (row : Option SessionRow) (s : System X E) (h : Hook E)
      → s.hooks i ≡ some h
      → (step rt is_abort_error as_error (selects i row) s).hooks i ≡ some (select row h)
  unfolding step
  after_selects i row s h e =
      ap (λ t. t.hooks i) (on_hook-some i (λ h. with_hook i (select row h) s) s h e)
      ∙ rw ((==_iff i i).1 refl) refl

  -- A consumer that has itself started the fetch that it waits for, and loads while a rescan comes in,
  -- keeps loading: the request is aborted or its answer is dropped, and the row that the rescan brings in
  -- for the same session makes no effect due.
  pub rescan-keeps_loading :
      (i : ℕ) (s : System X E) (h : Hook E) (p : ℕ) (f : Fetch X) (r : Settled X)
      (row : Option SessionRow)
      → Loads i s h p f
      → IsAborted r
      → same_deps h.row row ≡ true
      → let after =
          run_events rt is_abort_error as_error
            (bumps ∷ settles p r ∷ originator_handles p ∷ selects i row ∷ [])
            s in
        (g : Hook E) × (after.hooks i ≡ some g) × (g.state ≡ loading) × (g.effect_due ≡ false)
  unfolding run_events
  rescan-keeps_loading i s h p f r row l a same =
      let go = step rt is_abort_error as_error in
      let bumped : System X E = record s { shared = bump_cache_epoch s.shared } in
      let g : Fetch X = record f { outcome = some (outcome_of f r) } in
      let answered : System X E = record bumped { shared = on_settled rt p f r bumped.shared } in
      let told : System X E = on_originator is_abort_error as_error p g (outcome_of f r) answered in
      let known : bumped.shared.fetches p ≡ some f = unfold bump_cache_epoch in l.known in
      let late : f.epoch_at_start < answered.shared.cache_epoch =
        rw (settled_epoch p r f bumped.shared)
          (unfold bump_cache_epoch in omega (arith, l.started)) in
      let kept : told.hooks i ≡ some h =
        subst (λ j. told.hooks j ≡ some h) l.owned
          (told_hook p g (outcome_of f r) answered h (ap s.hooks l.owned ∙ l.mounted)
            (stays answered.shared.cache_epoch g r h.state late a)) in
      let chain : go (originator_handles p) (go (settles p r) (go bumps s)) ≡ told =
        ap (go (originator_handles p)) (unfold step in after_settles p r f bumped known l.pending)
        ∙ after_handles p g (outcome_of f r) answered (settled_fetch p r f bumped.shared known) refl
            l.fresh in
      (
        select row h,
        ap (λ t. (go (selects i row) t).hooks i) chain ∙ after_selects i row told h kept,
        unfold select in l.loads,
        unfold select in ground (arith, l.settled),
      )
