-- ===== src/Poll/Live.antt =====
-- useOperationPoll.ts: at most one poll of an operation goes on.
use distill_portal.Prelude.{
  ℕ, ◌≤◌, Text, text_eq, text_eq_iff, Bool, true, false, Option, none, some, List, [], ◌∷◌,
  dict_get, dict_get-dict_set, dict_get-dict_delete_ne, update, ◌==◌, ==_iff, ◌≡◌, ◌≢◌, ◌⊎◌, refl,
  sym, ap, ◌∙◌, inl, inr, arith, Bool-cases,
}
use mathlib.Core.Path.{subst}
use mathlib.Core.Option.{some-injective}
use distill_portal.Poll.{
  Controllers, abort_some, abort_each, abort_all, start_poll, is_current, finish_poll,
}

-- The calls of `pollOperation`, and how they end: a call is named by its controller. `leaves` is
-- `abortAll`, which also runs at the unmount.
pub data PollEvent : Type 0 where
  starts : Text → PollEvent
  ends : ℕ → PollEvent
  leaves : PollEvent

-- The operation of each call that has not ended.
pub record Polls : Type 0 where
  pub controllers : Controllers
  pub running : ℕ → Option Text

abbrev pub ended : ℕ → Option Text → Controllers → Controllers
ended c none s = s
ended c (some id) s = finish_poll id c s

unfoldable pub step_poll : PollEvent → Polls → Polls
unfolding start_poll finish_poll abort_all
step_poll (starts id) s = record {
  controllers = start_poll id s.controllers;
  running = update s.controllers.next_controller (some id) s.running;
}
step_poll (ends c) s = record {
  controllers = ended c (s.running c) s.controllers;
  running = update c none s.running;
}
step_poll leaves s = record s { controllers = abort_all s.controllers }

unfoldable pub step_polls : List PollEvent → Polls → Polls
unfolding step_poll
step_polls [] s = s
step_polls (e ∷ es) s = step_polls es (step_poll e s)

abbrev pub no_polls : Polls
no_polls = record {
  controllers = record { current = []; aborted = λ c. false; next_controller = 0 };
  running = λ c. none;
}

-- A call that goes on and is not aborted is the current one of its operation.
pub record IsLive (s : Polls) : Type 0 where
  pub current :
      (c : ℕ) (id : Text)
      → s.running c ≡ some id
      → s.controllers.aborted c ≡ false
      → dict_get id s.controllers.current ≡ some c
  pub unused : (c : ℕ) → s.controllers.next_controller ≤ c → s.running c ≡ none

abort_each-keeps :
    (m : List (Text × ℕ)) (a : ℕ → Bool) (c : ℕ) → a c ≡ true → abort_each m a c ≡ true
abort_each-keeps [] a c h = h
abort_each-keeps ((id, d) ∷ m) a c h =
    abort_each-keeps m (update d true a) c
      (elim (Bool-cases (c == d)) [ inl e ↦ rw e refl | inr e ↦ rw e h ])

abort_each-current :
    (id : Text) (m : List (Text × ℕ)) (a : ℕ → Bool) (c : ℕ)
    → dict_get id m ≡ some c
    → abort_each m a c ≡ true
unfolding dict_get
abort_each-current id [] a c h = cc
abort_each-current id ((i, d) ∷ m) a c h = elim (Bool-cases (text_eq i id)) [
  | inr e ↦ abort_each-current id m (update d true a) c (rw e at h)
  | inl e ↦
      let same : d ≡ c = some-injective _ _ (rw e at h) in
      abort_each-keeps m (update d true a) c (rw ((==_iff c d).1 (sym same)) refl)
]

-- What is not aborted now was not aborted before.
abort_each-still :
    (m : List (Text × ℕ)) (a : ℕ → Bool) (c : ℕ) → abort_each m a c ≡ false → a c ≡ false
abort_each-still m a c h = elim (Bool-cases (a c)) [
  | inl e ↦ absurd (ground (arith, abort_each-keeps m a c e))
  | inr e ↦ e
]

abort_some-still :
    (o : Option ℕ) (a : ℕ → Bool) (c : ℕ) → abort_some o a c ≡ false → (a c ≡ false) × (o ≢ some c)
abort_some-still none a c h = (h, λ e. cc)
abort_some-still (some d) a c h = elim (Bool-cases (c == d)) [
  | inl e ↦ absurd (ground arith)
  | inr e ↦ (rw e at h, λ e'. ground (arith, some-injective d c e'))
]

module _ (s : Polls) (k : IsLive s) where
  starts-IsLive : (id : Text) → IsLive (step_poll (starts id) s)
  unfolding step_poll start_poll
  starts-IsLive id = record {
    unused = λ c h. elim (Bool-cases (c == s.controllers.next_controller)) [
      | inl e ↦ absurd (ground arith)
      | inr e ↦ rw e (k.unused c (omega arith))
    ];
    current = λ c id' running live. elim (Bool-cases (c == s.controllers.next_controller)) [
      | inl e ↦
          let same : id ≡ id' = some-injective _ _ (rw e at running) in
          dict_get-dict_set id id' s.controllers.next_controller s.controllers.current
          ∙ rw ((text_eq_iff id id').1 same) (ap some (sym ((==_iff c _).0 e)))
      | inr e ↦
          let (was, other) =
            abort_some-still (dict_get id s.controllers.current) s.controllers.aborted c live in
          let before = k.current c id' (rw e at running) was in
          dict_get-dict_set id id' s.controllers.next_controller s.controllers.current
          ∙ elim (Bool-cases (text_eq id id')) [
            | inl same ↦ absurd (
                other (
                  ap (λ i. dict_get i s.controllers.current) ((text_eq_iff id id').0 same)
                  ∙ before))
            | inr apart ↦ rw apart before
          ]
    ];
  }

  finish_poll-current :
      (id : Text) (c d : ℕ) (id' : Text)
      → dict_get id' s.controllers.current ≡ some d
      → d ≢ c
      → dict_get id' (finish_poll id c s.controllers).current ≡ some d
  unfolding finish_poll
  finish_poll-current id c d id' h apart =
      elim (Bool-cases (is_current c (dict_get id s.controllers.current))) [
        | inr e ↦ rw e h
        | inl e ↦ elim (Bool-cases (text_eq id id')) [
          | inr other ↦ rw e (dict_get-dict_delete_ne id id' s.controllers.current other ∙ h)
          | inl same ↦
              let found : dict_get id s.controllers.current ≡ some d =
                ap (λ i. dict_get i s.controllers.current) ((text_eq_iff id id').0 same) ∙ h in
              absurd (apart ((==_iff d c).0 (sym (ap (is_current c) found) ∙ e)))
        ]
      ]

  finish_poll-aborted :
      (id : Text) (c : ℕ) → (finish_poll id c s.controllers).aborted ≡ s.controllers.aborted
  unfolding finish_poll
  finish_poll-aborted id c = ground arith

  finish_poll-next :
      (id : Text) (c : ℕ)
      → (finish_poll id c s.controllers).next_controller ≡ s.controllers.next_controller
  unfolding finish_poll
  finish_poll-next id c = ground arith

  ended-current :
      (o : Option Text) (c d : ℕ) (id' : Text)
      → ((ended c o s.controllers).aborted d ≡ false → dict_get id' s.controllers.current ≡ some d)
      → d ≢ c
      → (ended c o s.controllers).aborted d ≡ false
      → dict_get id' (ended c o s.controllers).current ≡ some d
  ended-current none c d id' before apart live = before live
  ended-current (some id) c d id' before apart live =
      finish_poll-current id c d id' (before live) apart

  ended-aborted :
      (o : Option Text) (c : ℕ) → (ended c o s.controllers).aborted ≡ s.controllers.aborted
  ended-aborted none c = refl
  ended-aborted (some id) c = finish_poll-aborted id c

  ended-next :
      (o : Option Text) (c : ℕ)
      → (ended c o s.controllers).next_controller ≡ s.controllers.next_controller
  ended-next none c = refl
  ended-next (some id) c = finish_poll-next id c

  ends-IsLive : (c : ℕ) → IsLive (step_poll (ends c) s)
  unfolding step_poll
  ends-IsLive c = record {
    unused = λ d h. elim (Bool-cases (d == c)) [
      | inl e ↦ rw e refl
      | inr e ↦ rw e (k.unused d (subst (λ n. n ≤ d) (ended-next (s.running c) c) h))
    ];
    current = λ d id' running live. elim (Bool-cases (d == c)) [
      | inl e ↦ absurd (ground arith)
      | inr e ↦
          ended-current (s.running c) c d id'
            (λ l.
              k.current d id' (rw e at running)
                (ap (λ a. a d) (sym (ended-aborted (s.running c) c)) ∙ l))
            (λ same. ground arith) live
    ];
  }

  leaves-IsLive : IsLive (step_poll leaves s)
  unfolding step_poll abort_all
  leaves-IsLive = record {
    unused = k.unused;
    current = λ c id running live.
        let was = abort_each-still s.controllers.current s.controllers.aborted c live in
        absurd (
          ground (
            arith,
            abort_each-current id s.controllers.current s.controllers.aborted c
                (k.current c id running was),
          ));
  }

step_poll-IsLive : (e : PollEvent) (s : Polls) → IsLive s → IsLive (step_poll e s)
step_poll-IsLive (starts id) s k = starts-IsLive s k id
step_poll-IsLive (ends c) s k = ends-IsLive s k c
step_poll-IsLive leaves s k = leaves-IsLive s k

no_polls-IsLive : IsLive no_polls
no_polls-IsLive = record { current = λ c id e l. cc; unused = λ c h. refl }

step_polls-keeps : (es : List PollEvent) (s : Polls) → IsLive s → IsLive (step_polls es s)
unfolding step_polls
step_polls-keeps [] s k = k
step_polls-keeps (e ∷ es) s k = step_polls-keeps es (step_poll e s) (step_poll-IsLive e s k)

-- However calls of `pollOperation` start, end and are all aborted: of any two calls for one operation
-- that have not ended, one is aborted.
pub step_polls-one_live :
    (es : List PollEvent) (c d : ℕ) (id : Text)
    → (step_polls es no_polls).running c ≡ some id
    → (step_polls es no_polls).running d ≡ some id
    → c ≢ d
    → ((step_polls es no_polls).controllers.aborted c ≡ true)
      ⊎ ((step_polls es no_polls).controllers.aborted d ≡ true)
step_polls-one_live es c d id rc rd apart =
    let s = step_polls es no_polls in
    let k = step_polls-keeps es no_polls no_polls-IsLive in
    elim (Bool-cases (s.controllers.aborted c)) [
      | inl ac ↦ inl ac
      | inr ac ↦ elim (Bool-cases (s.controllers.aborted d)) [
        | inl ad ↦ inr ad
        | inr ad ↦
            absurd (apart (some-injective _ _ (sym (k.current c id rc ac) ∙ k.current d id rd ad)))
      ]
    ]
