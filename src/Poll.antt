-- ===== src/Poll.antt =====
-- apps/frontend/src/features/sessions/useOperationPoll.ts: the loop of `pollOperation`, over the answers of the
-- backend. Each round has the answer, the time since the start, and whether the signal aborts the sleep
-- after it.
pub mod Laws
pub mod Live
use distill_portal.Prelude.{
  ℕ, suc, Text, Option, none, some, dict_get, dict_set, dict_delete, update, ◌==◌, Bool, true,
  false, List, [], ◌∷◌, leb, if◌then◌else◌,
}

pub data OperationStatus : Type 0 where
  queued running cancel_requested succeeded failed cancelled interrupted : OperationStatus

abbrev pub is_operation_terminal : OperationStatus → Bool
is_operation_terminal succeeded = true
is_operation_terminal failed = true
is_operation_terminal cancelled = true
is_operation_terminal interrupted = true
is_operation_terminal _ = false

unfoldable pub next_operation_poll_delay : ℕ → ℕ
next_operation_poll_delay elapsed_ms =
    if leb 60000 elapsed_ms then 5000 else if leb 10000 elapsed_ms then 2000 else 500

-- What `getOperation` comes to: an operation, or an error (of the request, or of its abort).
pub data Answer (Op : Type 0) (E : Type 0) : Type 0 where
  got : Op → Answer Op E
  rejected : E → Answer Op E

pub record Round (Op : Type 0) (E : Type 0) : Type 0 where
  pub answer : Answer Op E
  pub elapsed_ms : ℕ
  pub sleep_aborted : Bool

-- `waiting`: the next answer has not come back.
pub data Polled (Op : Type 0) (E : Type 0) : Type 0 where
  returned : Op → Polled Op E
  thrown : E → Polled Op E
  abort_error waiting : Polled Op E

module _ {Op : Type 0} {E : Type 0} (status : Op → OperationStatus) where
  -- The result, and the sleeps in their order.
  abbrev pub on_answer : Answer Op E → ℕ → Bool → Polled Op E × List ℕ → Polled Op E × List ℕ
  on_answer (rejected e) elapsed_ms aborted later = (thrown e, [])
  on_answer (got op) elapsed_ms aborted later =
      let delay = next_operation_poll_delay elapsed_ms in
      if is_operation_terminal (status op)
      then (returned op, [])
      else if aborted
      then (abort_error, delay ∷ [])
      else (later.0, delay ∷ later.1)

  unfoldable pub poll_operation : List (Round Op E) → Polled Op E × List ℕ
  poll_operation [] = (waiting, [])
  poll_operation (r ∷ rounds) =
      let later = poll_operation rounds in on_answer r.answer r.elapsed_ms r.sleep_aborted later

-- `controllersRef`, with the signals that are aborted; a controller is a number, counted up.
pub record Controllers : Type 0 where
  pub current : List (Text × ℕ)
  pub aborted : ℕ → Bool
  pub next_controller : ℕ

abbrev pub abort_some : Option ℕ → (ℕ → Bool) → ℕ → Bool
abort_some none aborted = aborted
abort_some (some c) aborted = update c true aborted

abbrev pub abort_each : List (Text × ℕ) → (ℕ → Bool) → ℕ → Bool
abort_each [] aborted = aborted
abort_each ((id, c) ∷ controllers) aborted = abort_each controllers (update c true aborted)

unfoldable pub abort_all : Controllers → Controllers
abort_all s = record s { current = []; aborted = abort_each s.current s.aborted }

-- The start of `pollOperation`, up to its loop.
unfoldable pub start_poll : Text → Controllers → Controllers
unfolding dict_get dict_set
start_poll id s = record s {
  current = dict_set id s.next_controller s.current;
  aborted = abort_some (dict_get id s.current) s.aborted;
  next_controller = suc s.next_controller;
}

abbrev is_current : ℕ → Option ℕ → Bool
is_current c none = false
is_current c (some d) = d == c

-- Its `finally`.
unfoldable pub finish_poll : Text → ℕ → Controllers → Controllers
unfolding dict_get dict_delete
finish_poll id c s =
    if is_current c (dict_get id s.current)
    then record s { current = dict_delete id s.current }
    else s
