-- ===== src/Toasts.antt =====
-- apps/frontend/src/features/sessions/useToastQueue.ts: the queue of notifications, newest first.
pub mod Laws
use distill_portal.Prelude.{
  ℕ, suc, Text, lit, text_eq, Bool, not, Option, List, [], ◌∷◌, ◌++◌, decimal, length, take, filter,
  ltb, if◌then◌else◌,
}

pub data ToastKind : Type 0 where
  success error info : ToastKind

-- `toast`, the part that the caller supplies; `onRetry` and `details` are kept as they come.
pub record Toast (X : Type 0) : Type 0 where
  pub kind : ToastKind
  pub title : Text
  pub message : Option Text
  pub extras : X

pub record ToastEntry (X : Type 0) : Type 0 where
  pub id : Text
  pub toast : Toast X

pub record ToastQueue (X : Type 0) : Type 0 where
  pub toasts : List (ToastEntry X)
  pub id_counter : ℕ

pub data ToastAction (X : Type 0) : Type 0 where
  push : Toast X → ToastAction X
  dismiss : Text → ToastAction X

abbrev pub default_max_queue_length : ℕ
default_max_queue_length = 5

unfoldable pub toast_id : ℕ → Text
unfolding lit decimal
toast_id n = lit "toast-" ++ decimal n

module _ {X : Type 0} where
  abbrev pub empty_queue : ToastQueue X
  empty_queue = record { toasts = []; id_counter = 0 }

  -- The cap of the queue.
  abbrev pub capped : ℕ → List (ToastEntry X) → List (ToastEntry X)
  capped max_length next = if ltb max_length (length next) then take max_length next else next

  unfoldable pub push_toast : ℕ → Toast X → ToastQueue X → ToastQueue X
  unfolding toast_id
  push_toast max_length toast q =
      let counter = suc q.id_counter in
      record {
        toasts = capped max_length (record { id = toast_id counter; toast = toast } ∷ q.toasts);
        id_counter = counter;
      }

  -- The same array where nothing is dropped is an equal one.
  unfoldable pub dismiss_toast : Text → ToastQueue X → ToastQueue X
  unfolding text_eq
  dismiss_toast id q = record q { toasts = filter (λ t. not (text_eq t.id id)) q.toasts }

  unfoldable pub run_toast : ℕ → ToastAction X → ToastQueue X → ToastQueue X
  unfolding push_toast dismiss_toast
  run_toast max_length (push toast) q = push_toast max_length toast q
  run_toast max_length (dismiss id) q = dismiss_toast id q

  unfoldable pub run_toasts : ℕ → List (ToastAction X) → ToastQueue X → ToastQueue X
  unfolding run_toast
  run_toasts max_length [] q = q
  run_toasts max_length (a ∷ actions) q = run_toasts max_length actions (run_toast max_length a q)
