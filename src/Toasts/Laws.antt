-- ===== src/Toasts/Laws.antt =====
-- useToastQueue.ts: the cap, the ids, and what a dismissal leaves.
use distill_portal.Prelude.{
  filter_kept, filter_gone, ℕ, zero, suc, ◌≤◌, ◌<◌, Text, lit, text_eq, text_eq_iff, Bool, false,
  not, List, [], ◌∷◌, decimal, denoted, denoted-decimal, length, length-take, take, filter, ltb,
  All, ◌≡◌, ◌≢◌, refl, sym, ap, ◌∙◌, arith, Bool-cases, inl, inr,
}
use distill_portal.Toasts.{
  Toast, ToastEntry, ToastQueue, toast_id, empty_queue, capped, push_toast, dismiss_toast,
  ToastAction, push, dismiss, run_toast, run_toasts,
}

toast_id-injective : (m n : ℕ) → toast_id m ≡ toast_id n → m ≡ n
unfolding toast_id lit
toast_id-injective m n e =
    let same : decimal m ≡ decimal n = cc in
    sym (denoted-decimal m) ∙ ap (denoted 0) same ∙ denoted-decimal n

module _ {X : Type 0} where
  -- The ids of the entries are those of falling counters, all up to `n`: so they are distinct, and the
  -- newest stands first.
  pub data IsFalling : ℕ → List (ToastEntry X) → Type 0 where
    empty : {n : ℕ} → IsFalling n []
    newest :
        {n : ℕ} {t : ToastEntry X} {ts : List (ToastEntry X)} (k : ℕ)
        → suc k ≤ n
        → t.id ≡ toast_id (suc k)
        → IsFalling k ts
        → IsFalling n (t ∷ ts)

  IsFalling-take : (n m : ℕ) (ts : List (ToastEntry X)) → IsFalling n ts → IsFalling n (take m ts)
  IsFalling-take n zero ts h = empty
  IsFalling-take n (suc m) [] h = empty
  IsFalling-take n (suc m) (t ∷ ts) (newest k le e h) = newest k le e (IsFalling-take k m ts h)

  IsFalling-mono : (m n : ℕ) (ts : List (ToastEntry X)) → m ≤ n → IsFalling m ts → IsFalling n ts
  IsFalling-mono m n [] le h = empty
  IsFalling-mono m n (t ∷ ts) le (newest k le' e h) = newest k (omega arith) e h

  IsFalling-filter :
      (p : ToastEntry X → Bool) (n : ℕ) (ts : List (ToastEntry X))
      → IsFalling n ts
      → IsFalling n (filter p ts)
  IsFalling-filter p n [] h = empty
  IsFalling-filter p n (t ∷ ts) (newest k le e h) = elim (Bool-cases (p t)) [
    | inl kept ↦ rw (filter_kept p t ts kept) (newest k le e (IsFalling-filter p k ts h))
    | inr gone ↦
        rw (filter_gone p t ts gone)
          (IsFalling-mono k n (filter p ts) (omega arith) (IsFalling-filter p k ts h))
  ]

  length-filter :
      (p : ToastEntry X → Bool) (ts : List (ToastEntry X)) → length (filter p ts) ≤ length ts
  length-filter p [] = omega arith
  length-filter p (t ∷ ts) = let h = length-filter p ts in ground arith

  -- A queue within its cap, whose ids fall from the counter on.
  pub record IsQueue (max_length : ℕ) (q : ToastQueue X) : Type 0 where
    pub bounded : length q.toasts ≤ max_length
    pub falling : IsFalling q.id_counter q.toasts

  length-capped : (m : ℕ) (ts : List (ToastEntry X)) → length (capped m ts) ≤ m
  length-capped m ts = ground (arith, length-take m ts)

  IsFalling-capped :
      (n m : ℕ) (ts : List (ToastEntry X)) → IsFalling n ts → IsFalling n (capped m ts)
  IsFalling-capped n m ts h = elim (Bool-cases (ltb m (length ts))) [
    | inl over ↦ rw over (IsFalling-take n m ts h)
    | inr fits ↦ rw fits h
  ]

  run_toast-IsQueue :
      (m : ℕ) (a : ToastAction X) (q : ToastQueue X) → IsQueue m q → IsQueue m (run_toast m a q)
  unfolding run_toast push_toast dismiss_toast
  run_toast-IsQueue m (push toast) q h =
      let ts = record { id = toast_id (suc q.id_counter); toast = toast } ∷ q.toasts in
      record {
        bounded = length-capped m ts;
        falling =
            IsFalling-capped (suc q.id_counter) m ts
              (newest q.id_counter (omega arith) refl h.falling);
      }
  run_toast-IsQueue m (dismiss id) q h =
      let p = λ (t : ToastEntry X). not (text_eq t.id id) in
      record {
        bounded = omega (arith, length-filter p q.toasts, h.bounded);
        falling = IsFalling-filter p q.id_counter q.toasts h.falling;
      }

  run_toasts-IsQueue_from :
      (m : ℕ) (actions : List (ToastAction X)) (q : ToastQueue X)
      → IsQueue m q
      → IsQueue m (run_toasts m actions q)
  unfolding run_toasts
  run_toasts-IsQueue_from m [] q h = h
  run_toasts-IsQueue_from m (a ∷ actions) q h =
      run_toasts-IsQueue_from m actions (run_toast m a q) (run_toast-IsQueue m a q h)

  -- After any pushes and dismissals from the empty queue, the queue holds at most its cap of
  -- entries, and their ids are those of falling counters: no two entries share an id, and a later
  -- push stands before an earlier one.
  pub run_toasts-IsQueue :
      (max_length : ℕ) (actions : List (ToastAction X))
      → IsQueue max_length (run_toasts max_length actions empty_queue)
  run_toasts-IsQueue max_length actions =
      run_toasts-IsQueue_from max_length actions empty_queue
        (record { bounded = omega arith; falling = empty })

  older-ne-id :
      (k n : ℕ) (ts : List (ToastEntry X))
      → IsFalling k ts
      → k < n
      → All (λ t. t.id ≢ toast_id n) ts
  older-ne-id k n [] h lt = tt
  older-ne-id k n (t ∷ ts) (newest j le e h) lt = (
    λ same. absurd (omega (arith, toast_id-injective (suc j) n (sym e ∙ same))),
    older-ne-id j n ts h (omega arith),
  )

  filter_entry :
      (id : Text) (t : ToastEntry X) (ts : List (ToastEntry X))
      → t.id ≡ id
      → filter (λ u. not (text_eq u.id id)) (t ∷ ts) ≡ filter (λ u. not (text_eq u.id id)) ts
  filter_entry id t ts e =
      filter_gone (λ u. not (text_eq u.id id)) t ts (ap not ((text_eq_iff t.id id).1 e))

  filter_others :
      (id : Text) (ts : List (ToastEntry X))
      → All (λ t. t.id ≢ id) ts
      → filter (λ t. not (text_eq t.id id)) ts ≡ ts
  filter_others id [] h = refl
  filter_others id (t ∷ ts) (ne, h) =
      let rest = filter_others id ts h in
      elim (Bool-cases (text_eq t.id id)) [
        | inl same ↦ absurd (ne ((text_eq_iff t.id id).0 same))
        | inr other ↦
            filter_kept (λ u. not (text_eq u.id id)) t ts (ap not other) ∙ ap (λ us. t ∷ us) rest
      ]

  -- Where a queue within a cap has room for one more, dismissing the entry that a push adds gives the
  -- entries as they were before the push.
  pub dismiss_toast-push_toast :
      (max_length : ℕ) (toast : Toast X) (q : ToastQueue X)
      → IsQueue max_length q
      → length q.toasts < max_length
      → (dismiss_toast (toast_id (suc q.id_counter)) (push_toast max_length toast q)).toasts
        ≡ q.toasts
  unfolding dismiss_toast push_toast
  dismiss_toast-push_toast max_length toast q h room =
      let id = toast_id (suc q.id_counter) in
      let fits : ltb max_length (suc (length q.toasts)) ≡ false = ground arith in
      rw fits (
        filter_entry id (record { id = id; toast = toast }) q.toasts refl
        ∙ filter_others id q.toasts
            (older-ne-id q.id_counter (suc q.id_counter) q.toasts h.falling (omega arith)))
