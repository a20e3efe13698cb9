-- ===== src/ParsedHook/Callbacks.antt =====
-- useParsedSession.ts: the callbacks of a settled fetch.
use distill_portal.Prelude.{
  ℕ, ◌+◌, Bool, true, not, ◌&&◌, Option, none, some, ◌≡◌, refl, sym, ap, ◌∙◌, inl, inr, arith,
  Bool-cases, Option-cases, ◌==◌,
}
use mathlib.Core.Path.{subst}
use mathlib.Core.Option.{some-injective}
use distill_portal.Sessions.Rows.{SessionRow}
use distill_portal.Parsers.Dispatch.{ParsedSession}
use distill_portal.ParsedHook.{
  HookState, error, Outcome, resolved, rejected, Fetch, Shared, Run, Hook, key_of, shown_state,
  drop_settled,
}
use distill_portal.ParsedHook.Steps.{
  System, waits_for, originator_state, told, on_originator, on_sibling, sibling_answer,
  sibling_waits, handle_outcome, handle_fetch,
}
use distill_portal.ParsedHook.Settling.{drop_settled-IsShared, handled-Grows, handled-IsShared}
use distill_portal.ParsedHook.Consumers.{
  parsed_in, parsed_in-shown_state, IsWaiting, IsShown, IsHook, IsHook-Grows, renewed-IsHook,
}
use distill_portal.ParsedHook.Sound.{IsSound, IsSound-if, others, changed-IsSound}

module _ {X : Type 0} {E : Type 0} (is_abort_error : X → Bool) (as_error : X → E) where
  -- A result that a consumer waits for is of its row.
  waited-IsShown :
      {fs : ℕ → Option (Fetch X)} {row : Option SessionRow} {due : Bool} {r : Run} {f : Fetch X}
      (v : ParsedSession)
      → IsWaiting fs row due r
      → fs r.promise ≡ some f
      → f.outcome ≡ some (resolved v)
      → IsShown fs row due v
  waited-IsShown {r = r} v w known result =
      let same = some-injective _ _ (sym known ∙ w.known) in
      record {
        promise = r.promise;
        fetch = w.fetch;
        known = w.known;
        result = ap (λ g. g.outcome) (sym same) ∙ result;
        for_row = w.for_row;
      }

  shown-IsHook :
      {fs : ℕ → Option (Fetch X)} (h : Hook E) (r : Run) (f : Fetch X) (v : ParsedSession)
      (run : Option Run)
      → IsHook fs h
      → h.run ≡ some r
      → fs r.promise ≡ some f
      → f.outcome ≡ some (resolved v)
      → ((q : Run) → run ≡ some q → h.run ≡ some q)
      → IsHook fs (record h { state = shown_state v; run = run })
  shown-IsHook h r f v run k e known result still = record {
    waits = λ q e'. k.waits q (still q e');
    shows = λ u e'.
        let same = parsed_in-shown_state E v u e' in
        (
          ap shown_state same,
          waited-IsShown u (k.waits r e) known (result ∙ ap (λ x. some (resolved x)) same),
        );
  }

  quiet-IsHook :
      {fs : ℕ → Option (Fetch X)} (h : Hook E) (state : HookState E) (run : Option Run)
      → IsHook fs h
      → ((v : ParsedSession) → parsed_in state ≡ some v → h.state ≡ state)
      → ((q : Run) → run ≡ some q → h.run ≡ some q)
      → IsHook fs (record h { state = state; run = run })
  quiet-IsHook h state run k same still = record {
    waits = λ q e. k.waits q (still q e);
    shows = λ v e.
        let e' = same v e in let (kind, s) = k.shows v (ap parsed_in e' ∙ e) in (sym e' ∙ kind, s);
  }

  pub waits_for-some :
      (p : ℕ) (run : Option Run)
      → waits_for p run ≡ true
      → (r : Run) × (run ≡ some r) × (r.promise ≡ p)
  waits_for-some p none h = cc
  waits_for-some p (some r) h = (r, refl, ground arith)

  originator_hook :
      {fs : ℕ → Option (Fetch X)} (now p : ℕ) (f : Fetch X) (o : Outcome X) (h : Hook E)
      → IsHook fs h
      → fs p ≡ some f
      → f.outcome ≡ some o
      → waits_for p h.run ≡ true
      → IsHook fs (record h { state = originator_state is_abort_error as_error now f o h.state })
  unfolding originator_state
  originator_hook {fs} now p f (resolved v) h k known result w =
      elim (Bool-cases (now == f.epoch_at_start)) [
        | inl current ↦
            let (r, e, q) = waits_for-some p h.run w in
            rw current (shown-IsHook h r f v h.run k e (ap fs q ∙ known) result (λ q e. e))
        | inr late ↦ rw late k
      ]
  originator_hook now p f (rejected x) h k known result w = elim (Bool-cases (is_abort_error x)) [
    | inl abort ↦ rw abort k
    | inr other ↦ rw other (quiet-IsHook h (error (as_error x)) h.run k (λ v e. cc) (λ q e. e))
  ]

  told-IsHook :
      {fs : ℕ → Option (Fetch X)} (now p : ℕ) (f : Fetch X) (o : Outcome X)
      (before : Option (Hook E))
      → ((h : Hook E) → before ≡ some h → IsHook fs h)
      → fs p ≡ some f
      → f.outcome ≡ some o
      → (h : Hook E) → told is_abort_error as_error now p f o before ≡ some h
      → IsHook fs h
  told-IsHook now p f o none k known result h e = cc
  told-IsHook {fs} now p f o (some g) k known result h e = elim (Bool-cases (waits_for p g.run)) [
    | inl w ↦
        subst (IsHook fs) (some-injective _ _ (rw w at e))
          (originator_hook now p f o g (k g refl) known result w)
    | inr w ↦ subst (IsHook fs) (some-injective _ _ (rw w at e)) (k g refl)
  ]

  drop_settled_fetches :
      (p : ℕ) (f : Fetch X) (w : Shared X) → (drop_settled (key_of f) p w).fetches ≡ w.fetches
  unfolding drop_settled
  drop_settled_fetches p f w = ground arith

  pub on_originator-IsSound :
      (p : ℕ) (f : Fetch X) (o : Outcome X) (s : System X E)
      → IsSound s
      → s.shared.fetches p ≡ some f
      → f.outcome ≡ some o
      → IsSound (on_originator is_abort_error as_error p f o s)
  unfolding on_originator
  on_originator-IsSound p f o s k known result =
      let w = drop_settled (key_of f) p s.shared in
      let same : w.fetches ≡ s.shared.fetches = drop_settled_fetches p f s.shared in
      let there : w.fetches p ≡ some f = ap (λ fs. fs p) same ∙ known in
      let sound = drop_settled-IsShared (key_of f) p s.shared k.shared in
      let grows = handled-Grows p f w sound there in
      record {
        shared = handled-IsShared p f w sound there;
        hooked =
            others s.hooks f.owner _ grows
              (λ j h e. subst (λ fs. IsHook fs h) (sym same) (k.hooked j h e))
              (λ h e. IsHook-Grows grows (
                told-IsHook w.cache_epoch p f o (s.hooks f.owner)
                  (λ g e'. subst (λ fs. IsHook fs g) (sym same) (k.hooked f.owner g e')) there
                  result h e));
      }

  on_sibling-IsHook :
      {fs : ℕ → Option (Fetch X)} (now : ℕ) (r : Run) (f : Fetch X) (o : Outcome X) (h : Hook E)
      → IsHook fs h
      → h.run ≡ some r
      → fs r.promise ≡ some f
      → f.outcome ≡ some o
      → IsHook fs (on_sibling is_abort_error as_error now r o h)
  unfolding on_sibling
  on_sibling-IsHook now r f (resolved v) h k e known result = elim (Bool-cases (now == r.epoch)) [
    | inl current ↦ rw current (shown-IsHook h r f v none k e known result (λ q e. cc))
    | inr late ↦ rw late (quiet-IsHook h h.state none k (λ v e. refl) (λ q e. cc))
  ]
  on_sibling-IsHook now r f (rejected x) h k e known result = elim (Bool-cases (is_abort_error x)) [
    | inl abort ↦ rw abort (
        renewed-IsHook (h.retry_nonce + 1) (record h { run = none })
          (quiet-IsHook h h.state none k (λ v e. refl) (λ q e. cc)))
    | inr other ↦ rw other (quiet-IsHook h (error (as_error x)) none k (λ v e. cc) (λ q e. cc))
  ]

  sibling_answer-IsSound :
      (i : ℕ) (h : Hook E) (r : Run) (o : Option (Fetch X)) (s : System X E)
      → IsSound s
      → s.hooks i ≡ some h
      → h.run ≡ some r
      → s.shared.fetches r.promise ≡ o
      → IsSound (sibling_answer is_abort_error as_error i h r o s)
  sibling_answer-IsSound i h r none s k e e' known = k
  sibling_answer-IsSound i h r (some f) s k e e' known = elim (Option-cases f.outcome) [
    | inl waiting ↦ rw waiting k
    | inr (o, result) ↦ elim (Bool-cases (f.handled && not r.is_originator)) [
      | inl ready ↦
          rw (result, ready)
            (changed-IsSound i _ s k
              (on_sibling-IsHook s.shared.cache_epoch r f o h (k.hooked i h e) e' known result))
      | inr early ↦ rw (result, early) k
    ]
  ]

  pub sibling_waits-IsSound :
      (i : ℕ) (h : Hook E) (run : Option Run) (s : System X E)
      → IsSound s
      → s.hooks i ≡ some h
      → h.run ≡ run
      → IsSound (sibling_waits is_abort_error as_error i h run s)
  sibling_waits-IsSound i h none s k e e' = k
  sibling_waits-IsSound i h (some r) s k e e' =
      sibling_answer-IsSound i h r (s.shared.fetches r.promise) s k e e' refl

  handle_outcome-IsSound :
      (p : ℕ) (f : Fetch X) (o : Option (Outcome X)) (s : System X E)
      → IsSound s
      → s.shared.fetches p ≡ some f
      → f.outcome ≡ o
      → IsSound (handle_outcome is_abort_error as_error p f o s)
  handle_outcome-IsSound p f none s k known result = k
  handle_outcome-IsSound p f (some o) s k known result =
      IsSound-if f.handled s (on_originator is_abort_error as_error p f o s) k
        (on_originator-IsSound p f o s k known result)

  pub handle_fetch-IsSound :
      (p : ℕ) (o : Option (Fetch X)) (s : System X E)
      → IsSound s
      → s.shared.fetches p ≡ o
      → IsSound (handle_fetch is_abort_error as_error p o s)
  handle_fetch-IsSound p none s k known = k
  handle_fetch-IsSound p (some f) s k known = handle_outcome-IsSound p f f.outcome s k known refl
