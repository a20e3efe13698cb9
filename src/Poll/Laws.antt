-- ===== src/Poll/Laws.antt =====
-- useOperationPoll.ts: when a poll ends, and how long it sleeps.
use distill_portal.Prelude.{
  ℕ, ◌≤◌, true, false, List, [], ◌∷◌, ◌++◌, map, All, length, length-map, ◌≡◌, refl, ap, ◌∙◌, arith,
}
use distill_portal.Poll.{
  OperationStatus, is_operation_terminal, next_operation_poll_delay, got, Round, Polled, returned,
  poll_operation,
}

-- Numbers do not fall, from `t` on.
abbrev pub IsLater : ℕ → List ℕ → Type 0
IsLater t [] = Unit
IsLater t (u ∷ us) = (t ≤ u) × IsLater u us

delay_mono : (t u : ℕ) → t ≤ u → next_operation_poll_delay t ≤ next_operation_poll_delay u
unfolding next_operation_poll_delay
delay_mono t u le = ground arith

delay_bounds : (t : ℕ) → (500 ≤ next_operation_poll_delay t) × (next_operation_poll_delay t ≤ 5000)
unfolding next_operation_poll_delay
delay_bounds t = ground arith

delays_bounded :
    (ts : List ℕ) → All (λ d. (500 ≤ d) × (d ≤ 5000)) (map next_operation_poll_delay ts)
delays_bounded [] = tt
delays_bounded (t ∷ ts) = (delay_bounds t, delays_bounded ts)

delays-IsLater :
    (t : ℕ) (ts : List ℕ)
    → IsLater t ts
    → IsLater (next_operation_poll_delay t) (map next_operation_poll_delay ts)
delays-IsLater t [] h = tt
delays-IsLater t (u ∷ ts) (le, h) = (delay_mono t u le, delays-IsLater u ts h)

abbrev pub times : {Op : Type 0} → List (Op × ℕ) → List ℕ
times [] = []
times ((op, t) ∷ rounds) = t ∷ times rounds

length-times : {Op : Type 0} (rounds : List (Op × ℕ)) → length (times rounds) ≡ length rounds
length-times [] = refl
length-times ((op, t) ∷ rounds) = omega (arith, length-times rounds)

-- A round that brings an operation, with a sleep after it that is not aborted.
abbrev pub round : {Op E : Type 0} → Op × ℕ → Round Op E
round (op, t) = record { answer = got op; elapsed_ms = t; sleep_aborted = false }

module _ {Op : Type 0} (status : Op → OperationStatus) where
  abbrev pub StillRuns : Op × ℕ → Type 0
  StillRuns (op, t) = is_operation_terminal (status op) ≡ false

  poll_ends :
      {E : Type 0} (running : List (Op × ℕ)) (op : Op) (t : ℕ) (rest : List (Round Op E))
      → All StillRuns running
      → is_operation_terminal (status op) ≡ true
      → poll_operation status (map round running ++ round (op, t) ∷ rest)
        ≡ (returned op, map next_operation_poll_delay (times running))
  unfolding poll_operation
  poll_ends [] op t rest h e = rw e refl
  poll_ends ((o, u) ∷ running) op t rest (r, h) e = rw r (
      ap (λ (p : Polled Op _ × List ℕ). (p.0, next_operation_poll_delay u ∷ p.1))
        (poll_ends running op t rest h e))

  -- Where the backend answers with operations that run, and then with one in a terminal status, and
  -- no sleep is aborted, the poll returns that operation and asks no further; before, it slept once
  -- after each answer, for at least half a second and at most five, and never shorter than
  -- before.
  pub poll_operation_lem :
      {E : Type 0} (running : List (Op × ℕ)) (op : Op) (t : ℕ) (rest : List (Round Op E))
      → All StillRuns running
      → IsLater 0 (times running)
      → is_operation_terminal (status op) ≡ true
      → (delays : List ℕ) × (poll_operation status (map round running ++ round (op, t) ∷ rest)
          ≡ (returned op, delays))
        × (length delays ≡ length running)
        × All (λ d. (500 ≤ d) × (d ≤ 5000)) delays
        × IsLater 500 delays
  unfolding next_operation_poll_delay
  poll_operation_lem running op t rest h later e = (
    map next_operation_poll_delay (times running),
    poll_ends running op t rest h e,
    length-map next_operation_poll_delay (times running) ∙ length-times running,
    delays_bounded (times running),
    delays-IsLater 0 (times running) later,
  )
