-- ===== src/Tests/Data.antt =====
-- Concrete sessions, rows, messages and records.
use distill_portal.Prelude.{
  ℕ, String, Text, lit, text_eq, false, Option, none, some, List, [], ◌∷◌, if◌then◌else◌,
}
use distill_portal.Contracts.{
  claude_code, codex, SessionSyncStatus, up_to_date, outdated, source_missing, SourceSessionView,
  StoredSessionView,
}
use distill_portal.Sessions.Rows.{SessionRow, both}
use distill_portal.Parsers.{
  MessageKind, user, assistant, metadata, boundary, compacted, echo, Message,
}
use distill_portal.Json.{Json, str, obj, end, field, Runtime}

abbrev pub source_view : Text → SessionSyncStatus → SourceSessionView
source_view id status = record {
  session_key = id;
  tool = codex;
  source_session_id = id;
  source_path = [];
  source_fingerprint = [];
  created_at = none;
  source_updated_at = none;
  project_path = none;
  title = none;
  title_source = none;
  has_subagent_sidecars = false;
  status = status;
  session_uid = none;
  stored_ingested_at = none;
}

abbrev pub stored_view : Text → SessionSyncStatus → StoredSessionView
stored_view id status = record {
  status = status;
  session_uid = 117 ∷ id;
  tool = codex;
  source_session_id = id;
  source_path = [];
  source_fingerprint = [];
  raw_ref = [];
  created_at = none;
  source_updated_at = none;
  ingested_at = [];
  project_path = none;
  title = none;
  title_source = none;
  has_subagent_sidecars = false;
}

-- One source that is stored too, one that is not, and a stored session without a source.
abbrev pub sources : List SourceSessionView
sources = source_view (97 ∷ []) outdated ∷ source_view (98 ∷ []) SessionSyncStatus.not_stored ∷ []

abbrev pub stored_sessions : List StoredSessionView
stored_sessions = stored_view (97 ∷ []) up_to_date ∷ stored_view (99 ∷ []) source_missing ∷ []

abbrev pub row : Text → Option Text → SessionRow
row key title = record {
  row_key = key;
  source_session_key = some key;
  tool = claude_code;
  source_session_id = key;
  title = title;
  title_source = none;
  project_path = some (112 ∷ []);
  source_path = [];
  source_path_is_stale = false;
  source_fingerprint = [];
  created_at = none;
  source_updated_at = none;
  ingested_at = none;
  stored_session_uid = some key;
  stored_raw_ref = none;
  has_subagent_sidecars = false;
  status = outdated;
  status_conflict = false;
  presence = both;
}

abbrev pub row_a : SessionRow
row_a = row (97 ∷ []) (some (122 ∷ []))

abbrev pub row_b : SessionRow
row_b = row (98 ∷ []) none

abbrev pub message_at : ℕ → MessageKind → ℕ → Message
message_at i kind bytes = record {
  line_ordinal = i;
  message_index = i;
  timestamp = none;
  kind = kind;
  text = [];
  tool_name = none;
  boundary_subtype = none;
  raw = [];
  bytes = bytes;
  meta_category = none;
  echo_of = none;
}

-- A turn, a compaction, and a message above a threshold of 100 bytes.
abbrev pub stream : List Message
stream =
    message_at 0 assistant 5
    ∷ message_at 1 user 7
    ∷ message_at 2 assistant 9
    ∷ record (message_at 3 boundary 0) { boundary_subtype = some compacted }
    ∷ message_at 4 user 1000
    ∷ []

abbrev pub assistant_echo : ℕ → Message
assistant_echo i = record (message_at i metadata 3) {
  meta_category = some echo;
  echo_of = some (record { line_ordinal = i; canonical_kind = assistant });
}

abbrev pub two_lines : Text
unfolding lit
two_lines = lit "first\nsecond"

-- A prompt and an answer, as Codex writes them.
abbrev pub codex_event : String → String → Json
unfolding lit
codex_event kind text = obj (
    field (lit "type") (str (lit "event_msg")) (
      field (lit "payload")
        (obj (field (lit "type") (str (lit kind)) (field (lit "message") (str (lit text)) end)))
        end))

-- A prompt once more, as a response item.
abbrev pub codex_echo : String → Json
unfolding lit
codex_echo role = obj (
    field (lit "type") (str (lit "response_item")) (
      field (lit "payload")
        (obj (field (lit "type") (str (lit "message")) (field (lit "role") (str (lit role)) end)))
        end))

-- A prompt and an answer, as Claude Code writes them.
abbrev pub claude_record : String → String → Json
unfolding lit
claude_record kind text = obj (
    field (lit "type") (str (lit kind)) (
      field (lit "message")
        (obj (field (lit "role") (str (lit kind)) (field (lit "content") (str (lit text)) end)))
        end))

abbrev pub runtime : Json → Json → Runtime
unfolding lit text_eq
runtime first second = record {
  parse_json = λ s.
      if text_eq s (lit "first")
      then some first
      else if text_eq s (lit "second")
      then some second
      else none;
  stringify = λ v. [];
  stringify_indented = λ v. [];
  is_date = λ s. false;
  number_text = λ n. [];
}

abbrev pub codex_runtime : Runtime
codex_runtime = runtime (codex_event "user_message" "hi") (codex_event "agent_message" "hello")

abbrev pub echo_runtime : Runtime
echo_runtime = runtime (codex_event "user_message" "hi") (codex_echo "user")

abbrev pub claude_runtime : Runtime
claude_runtime = runtime (claude_record "user" "hi") (claude_record "assistant" "hello")
