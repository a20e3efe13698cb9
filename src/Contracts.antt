-- ===== src/Contracts.antt =====
-- components/ui-api-contracts/bindings: the shapes of the backend's two session lists, and the
-- enumerations they carry (also re-exported by apps/frontend/src/lib/contracts.ts).
use distill_portal.Prelude.{Text, lit, Bool, true, false, Option}

pub data Tool : Type 0 where
  claude_code codex : Tool

pub data SessionSyncStatus : Type 0 where
  not_stored up_to_date outdated source_missing : SessionSyncStatus

pub data TitleSource : Type 0 where
  custom first_user_message slug generated : TitleSource

-- `===` on the string enumerations.
abbrev pub tool_eq : Tool → Tool → Bool
tool_eq claude_code claude_code = true
tool_eq codex codex = true
tool_eq _ _ = false

abbrev pub status_eq : SessionSyncStatus → SessionSyncStatus → Bool
status_eq not_stored not_stored = true
status_eq up_to_date up_to_date = true
status_eq outdated outdated = true
status_eq source_missing source_missing = true
status_eq _ _ = false

-- The string that stands for a tool, as template literals write it.
unfoldable pub tool_text : Tool → Text
unfolding lit
tool_text claude_code = lit "claude_code"
tool_text codex = lit "codex"

pub record SourceSessionView : Type 0 where
  pub session_key : Text
  pub tool : Tool
  pub source_session_id : Text
  pub source_path : Text
  pub source_fingerprint : Text
  pub created_at : Option Text
  pub source_updated_at : Option Text
  pub project_path : Option Text
  pub title : Option Text
  pub title_source : Option TitleSource
  pub has_subagent_sidecars : Bool
  pub status : SessionSyncStatus
  pub session_uid : Option Text
  pub stored_ingested_at : Option Text

pub record StoredSessionView : Type 0 where
  pub status : SessionSyncStatus
  pub session_uid : Text
  pub tool : Tool
  pub source_session_id : Text
  pub source_path : Text
  pub source_fingerprint : Text
  pub raw_ref : Text
  pub created_at : Option Text
  pub source_updated_at : Option Text
  pub ingested_at : Text
  pub project_path : Option Text
  pub title : Option Text
  pub title_source : Option TitleSource
  pub has_subagent_sidecars : Bool
