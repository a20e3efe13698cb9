-- ===== src/Hints/Groups.antt =====
-- renderHints.ts: the second pass, `groupLifecycles`.
pub mod Buffer
pub mod Runs
pub mod Status
use distill_portal.Prelude.{
  ℕ, ◌+◌, Text, text_eq, Bool, true, false, not, ◌||◌, Option, none, some, List, [], ◌∷◌, ◌++◌, map,
  length, ltb, leb, ◌==◌, if◌then◌else◌,
}
use distill_portal.Parsers.{Message, MessageKind, assistant}
use distill_portal.Hints.{
  RenderHint, standalone, lifecycle, group_head, group_member, group_text_member, Standalone,
  Lifecycle, TaskLifecycle, GroupStatus, all_success, all_failed, mixed, in_flight,
}
use distill_portal.Hints.Failure.{is_tool_result, detect_failure}
use distill_portal.Hints.Messages.{is_tool_use}

abbrev pub group_threshold : ℕ
group_threshold = 2

-- What the buffer holds: a tool call, or text that passes through.
pub data Bufferable : Type 0 where
  call : Lifecycle → Bufferable
  text : Standalone → Bufferable

abbrev pub or_else {ℓ} : {A : Type ℓ} → Option A → Option A → Option A
or_else (some a) o = some a
or_else none o = o

-- `messagesByIndex.get(i)`: of several messages with an index the last one counts.
unfoldable pub message_at : List Message → ℕ → Option Message
message_at [] i = none
message_at (m ∷ ms) i = or_else (message_at ms i) (if m.message_index == i then some m else none)

abbrev pub is_assistant : MessageKind → Bool
is_assistant assistant = true
is_assistant _ = false

abbrev pub kind_passes : Option Message → Bool
kind_passes none = false
kind_passes (some m) = is_assistant m.kind

abbrev pub passes_task : Option TaskLifecycle → Bool → Bool
passes_task (some task) passes = false
passes_task none passes = passes

unfoldable pub is_passthrough_standalone : List Message → Standalone → Bool
unfolding message_at
is_passthrough_standalone messages h =
    passes_task h.task_lifecycle (kind_passes (message_at messages h.message_index))

unfoldable pub bufferable : List Message → RenderHint → Option Bufferable
unfolding is_passthrough_standalone
bufferable messages (lifecycle h) = some (call h)
bufferable messages (standalone h) =
    if is_passthrough_standalone messages h then some (text h) else none
bufferable messages _ = none

abbrev pub unbuffered : Bufferable → RenderHint
unbuffered (call h) = lifecycle h
unbuffered (text h) = standalone h

unfoldable pub calls : List Bufferable → List Lifecycle
calls [] = []
calls (call h ∷ buffer) = h ∷ calls buffer
calls (text h ∷ buffer) = calls buffer

abbrev pub tool_name_of : Option Message → Option Text
tool_name_of none = none
tool_name_of (some m) = if is_tool_use m.kind then m.tool_name else none

unfoldable pub lifecycle_tool_name : List Message → Lifecycle → Option Text
unfolding message_at
lifecycle_tool_name messages h = tool_name_of (message_at messages h.message_index)

abbrev pub has_name : Text → List Text → Bool
has_name name [] = false
has_name name (x ∷ xs) = text_eq x name || has_name name xs

-- The distinct names in the order in which they first come, after those of `seen`.
abbrev pub add_name : Option Text → List Text → List Text
add_name none seen = seen
add_name (some name) seen = if has_name name seen then seen else seen ++ name ∷ []

unfoldable pub collect_names : List Message → List Lifecycle → List Text → List Text
unfolding lifecycle_tool_name
collect_names messages [] seen = seen
collect_names messages (h ∷ hs) seen =
    collect_names messages hs (add_name (lifecycle_tool_name messages h) seen)

unfoldable pub primary_name : List Message → List Lifecycle → Option Text
unfolding lifecycle_tool_name
primary_name messages [] = none
primary_name messages (h ∷ hs) = or_else (lifecycle_tool_name messages h) (primary_name messages hs)

abbrev pub name_or_empty : Option Text → Text
name_or_empty none = []
name_or_empty (some name) = name

pub data Outcome : Type 0 where
  pending failed succeeded : Outcome

-- `computeAggregateStatus`: what a member counts as, the three counters, and the status.
abbrev pub result_outcome : (Text → Text) → Option Message → Outcome
result_outcome lower none = pending
result_outcome lower (some m) =
    if not (is_tool_result m.kind)
    then pending
    else if detect_failure lower m
    then failed
    else succeeded

abbrev pub pair_outcome : (Text → Text) → List Message → Option ℕ → Outcome
pair_outcome lower messages none = pending
pair_outcome lower messages (some i) = result_outcome lower (message_at messages i)

unfoldable pub outcome : (Text → Text) → List Message → Lifecycle → Outcome
unfolding message_at detect_failure
outcome lower messages h = pair_outcome lower messages h.pair_with_index

pub record Tally : Type 0 where
  pub pending_count : ℕ
  pub failed_count : ℕ
  pub succeeded_count : ℕ

abbrev pub count_outcome : Outcome → Tally → Tally
count_outcome pending t = record t { pending_count = t.pending_count + 1 }
count_outcome failed t = record t { failed_count = t.failed_count + 1 }
count_outcome succeeded t = record t { succeeded_count = t.succeeded_count + 1 }

unfoldable pub tally : (Text → Text) → List Message → List Lifecycle → Tally → Tally
unfolding outcome
tally lower messages [] t = t
tally lower messages (h ∷ hs) t =
    tally lower messages hs (count_outcome (outcome lower messages h) t)

abbrev pub status_of_tally : ℕ → Tally → GroupStatus
status_of_tally total t =
    if ltb 0 t.pending_count
    then in_flight total t.pending_count
    else if t.failed_count == 0
    then all_success total
    else if t.succeeded_count == 0
    then all_failed total
    else mixed total t.failed_count

unfoldable pub compute_aggregate_status :
    (Text → Text) → List Message → List Lifecycle → GroupStatus
unfolding tally
compute_aggregate_status lower messages members = status_of_tally (length members) (
    tally lower messages members
      (record { pending_count = 0; failed_count = 0; succeeded_count = 0 }))

abbrev pub member_of : ℕ → Bufferable → RenderHint
member_of head (call h) = group_member head h
member_of head (text h) = group_text_member head h.message_index h.warnings

-- `lifecycleMembers[0].messageIndex`.
abbrev pub head_index : List Lifecycle → ℕ
head_index [] = 0
head_index (h ∷ hs) = h.message_index

abbrev pub call_index : Lifecycle → ℕ
call_index h = h.message_index

module _ (lower : Text → Text) (messages : List Message) where
  unfoldable pub head_of : List Lifecycle → RenderHint
  unfolding primary_name collect_names compute_aggregate_status
  head_of members = group_head (record {
    message_indices = map call_index members;
    tool_name = name_or_empty (primary_name messages members);
    tool_names = collect_names messages members [];
    aggregate_status = compute_aggregate_status lower messages members;
  })

  unfoldable pub flush_group : List Bufferable → List RenderHint
  unfolding calls head_of
  flush_group buffer =
      let members = calls buffer in
      if leb group_threshold (length members)
      then head_of members ∷ map (member_of (head_index members)) buffer
      else map unbuffered buffer

  unfoldable pub group_from : List Bufferable → List RenderHint → List RenderHint
  unfolding flush_group bufferable
  group_from buffer [] = flush_group buffer
  group_from buffer (h ∷ hs) = elim (bufferable messages h) [
    | some entry ↦ group_from (buffer ++ entry ∷ []) hs
    | none ↦ flush_group buffer ++ (h ∷ group_from [] hs)
  ]

  unfoldable pub group_lifecycles : List RenderHint → List RenderHint
  unfolding group_from
  group_lifecycles hints = group_from [] hints
