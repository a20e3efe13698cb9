-- ===== src/ParsedHook/Fresh.antt =====
-- useParsedSession.ts: the callbacks of a fetch show no result from before the last rescan.
use distill_portal.Prelude.{
  update, ℕ, Bool, true, false, not, ◌&&◌, Option, none, some, ◌≡◌, ◌⊎◌, refl, sym, ap, ◌∙◌, inl,
  inr, arith, Bool-cases, Option-cases, ◌==◌, ==_iff, if◌then◌else◌,
}
use mathlib.Core.Path.{subst}
use mathlib.Core.Option.{some-injective}
use distill_portal.Parsers.Dispatch.{ParsedSession}
use distill_portal.ParsedHook.{
  Outcome, resolved, rejected, Fetch, Shared, Run, Hook, key_of, shown_state, cleanup, drop_settled,
}
use distill_portal.ParsedHook.Steps.{
  System, waits_for, originator_state, told, on_originator, on_sibling, sibling_answer,
  sibling_waits, handle_outcome, handle_fetch,
}
use distill_portal.ParsedHook.Consumers.{parsed_in, parsed_in-shown_state, IsHook}
use distill_portal.ParsedHook.Sound.{IsSound}
use distill_portal.ParsedHook.Arrivals.{IsFresh}

-- What a consumer shows, if it is mounted and shows a session.
abbrev pub shown_by : {E : Type 0} → Option (Hook E) → Option ParsedSession
shown_by none = none
shown_by (some h) = parsed_in h.state

module _ {X : Type 0} {E : Type 0} where
  abbrev pub Stays : Shared X → Option (Hook E) → Option (Hook E) → Type 0
  Stays w before after =
      (v : ParsedSession) → shown_by after ≡ some v → (shown_by before ≡ some v) ⊎ IsFresh w v

  pub Stays-same : (w : Shared X) (o : Option (Hook E)) → Stays w o o
  Stays-same w o v e = inl e

  -- Only one consumer changes.
  pub Stays-update :
      (w : Shared X) (hooks : ℕ → Option (Hook E)) (i j : ℕ) (o : Option (Hook E))
      → Stays w (hooks i) o
      → Stays w (hooks j) (update i o hooks j)
  Stays-update w hooks i j o one v e = elim (Bool-cases (j == i)) [
    | inl same ↦
        subst (λ k. (shown_by (hooks k) ≡ some v) ⊎ IsFresh w v) (sym ((==_iff j i).0 same))
          (one v (rw same at e))
    | inr other ↦ inl (rw other at e)
  ]

  pub Stays-if :
      (w : Shared X) (before : Option (Hook E)) (b : Bool) (s t : System X E) (j : ℕ)
      → Stays w before (s.hooks j)
      → Stays w before (t.hooks j)
      → Stays w before ((if b then s else t).hooks j)
  Stays-if w before true s t j p q = p
  Stays-if w before false s t j p q = q

module _ {X : Type 0} where
  pub cleanup-IsFresh :
      (r : Option Run) (w : Shared X) (v : ParsedSession) → IsFresh (cleanup r w) v → IsFresh w v
  cleanup-IsFresh none w v f = f
  cleanup-IsFresh (some r) w v f = of_flag r.is_originator f
    where
      of_flag :
          (b : Bool)
          → IsFresh (if b then record w { aborted = update r.promise true w.aborted } else w) v
          → IsFresh w v
      of_flag true f = record {
        promise = f.promise;
        fetch = f.fetch;
        known = f.known;
        result = f.result;
        current = f.current;
      }
      of_flag false f = f

  resolved-IsFresh :
      (E : Type 0) (w : Shared X) (p : ℕ) (f : Fetch X) (u v : ParsedSession)
      → w.fetches p ≡ some f
      → f.outcome ≡ some (resolved u)
      → f.epoch_at_start ≡ w.cache_epoch
      → parsed_in {E = E} (shown_state u) ≡ some v
      → IsFresh w v
  resolved-IsFresh E w p f u v known result current e = record {
    promise = p;
    fetch = f;
    known = known;
    result = result ∙ ap (λ x. some (resolved x)) (parsed_in-shown_state E u v e);
    current = current;
  }

module _ {X : Type 0} {E : Type 0} (is_abort_error : X → Bool) (as_error : X → E) where
  told-Stays :
      (now p : ℕ) (f : Fetch X) (o : Outcome X) (w : Shared X) (before : Option (Hook E))
      → w.cache_epoch ≡ now
      → w.fetches p ≡ some f
      → f.outcome ≡ some o
      → Stays w before (told is_abort_error as_error now p f o before)
  unfolding originator_state
  told-Stays now p f o w none same known result v e = cc
  told-Stays now p f (resolved u) w (some h) same known result v e =
      elim (Bool-cases (waits_for p h.run)) [
        | inr other ↦ inl (rw other at e)
        | inl here ↦ elim (Bool-cases (now == f.epoch_at_start)) [
          | inr late ↦ inl (rw (here, late) at e)
          | inl current ↦ inr (
              resolved-IsFresh E w p f u v known result
                (sym ((==_iff now f.epoch_at_start).0 current) ∙ sym same)
                (rw (here, current) at e))
        ]
      ]
  told-Stays now p f (rejected x) w (some h) same known result v e =
      elim (Bool-cases (waits_for p h.run)) [
        | inr other ↦ inl (rw other at e)
        | inl here ↦ elim (Bool-cases (is_abort_error x)) [
          | inl abort ↦ inl (rw (here, abort) at e)
          | inr failed ↦ absurd (ground arith)
        ]
      ]

  on_sibling-Stays :
      (w : Shared X) (r : Run) (f : Fetch X) (o : Outcome X) (h : Hook E)
      → IsHook w.fetches h
      → h.run ≡ some r
      → w.fetches r.promise ≡ some f
      → f.outcome ≡ some o
      → Stays w (some h) (some (on_sibling is_abort_error as_error w.cache_epoch r o h))
  unfolding on_sibling
  on_sibling-Stays w r f (resolved u) h k e known result v s =
      elim (Bool-cases (w.cache_epoch == r.epoch)) [
        | inr late ↦ inl (rw late at s)
        | inl current ↦
            let q = k.waits r e in
            let same : q.fetch ≡ f = some-injective _ _ (sym q.known ∙ known) in
            inr (
              resolved-IsFresh E w r.promise f u v known result
                (ap (λ g. g.epoch_at_start) (sym same)
                  ∙ q.same_epoch
                  ∙ sym ((==_iff w.cache_epoch r.epoch).0 current))
                (rw current at s))
      ]
  on_sibling-Stays w r f (rejected x) h k e known result v s =
      elim (Bool-cases (is_abort_error x)) [
        | inl abort ↦ inl (rw abort at s)
        | inr failed ↦ absurd (ground arith)
      ]

  pub sibling-Stays :
      (i j : ℕ) (h : Hook E) (run : Option Run) (s : System X E)
      → IsSound s
      → s.hooks i ≡ some h
      → h.run ≡ run
      → Stays s.shared (s.hooks j) ((sibling_waits is_abort_error as_error i h run s).hooks j)
  sibling-Stays i j h none s k e e' = Stays-same s.shared (s.hooks j)
  sibling-Stays i j h (some r) s k e e' = answered (s.shared.fetches r.promise) refl
    where
      answered :
          (o : Option (Fetch X))
          → s.shared.fetches r.promise ≡ o
          → Stays s.shared (s.hooks j) ((sibling_answer is_abort_error as_error i h r o s).hooks j)
      answered none known = Stays-same s.shared (s.hooks j)
      answered (some f) known = elim (Option-cases f.outcome) [
        | inl waiting ↦ rw waiting (Stays-same s.shared (s.hooks j))
        | inr (o, result) ↦ elim (Bool-cases (f.handled && not r.is_originator)) [
          | inr early ↦ rw (result, early) (Stays-same s.shared (s.hooks j))
          | inl ready ↦
              rw (result, ready)
                (Stays-update s.shared s.hooks i j _ (
                  subst
                    (λ b.
                      Stays s.shared b
                        (some (on_sibling is_abort_error as_error s.shared.cache_epoch r o h)))
                    (sym e) (on_sibling-Stays s.shared r f o h (k.hooked i h e) e' known result)))
        ]
      ]

  handle_outcome-Stays :
      (p j : ℕ) (f : Fetch X) (o : Option (Outcome X)) (s : System X E)
      → s.shared.fetches p ≡ some f
      → f.outcome ≡ o
      → Stays s.shared (s.hooks j) ((handle_outcome is_abort_error as_error p f o s).hooks j)
  unfolding on_originator
  handle_outcome-Stays p j f none s known result = Stays-same s.shared (s.hooks j)
  handle_outcome-Stays p j f (some o) s known result =
      Stays-if s.shared (s.hooks j) f.handled s (on_originator is_abort_error as_error p f o s) j
        (Stays-same s.shared (s.hooks j))
        (Stays-update s.shared s.hooks f.owner j _ (
          told-Stays (drop_settled (key_of f) p s.shared).cache_epoch p f o s.shared
            (s.hooks f.owner) (unfold drop_settled in ground arith) known result))

  pub handle-Stays :
      (p j : ℕ) (o : Option (Fetch X)) (s : System X E)
      → s.shared.fetches p ≡ o
      → Stays s.shared (s.hooks j) ((handle_fetch is_abort_error as_error p o s).hooks j)
  handle-Stays p j none s known = Stays-same s.shared (s.hooks j)
  handle-Stays p j (some f) s known = handle_outcome-Stays p j f f.outcome s known refl
