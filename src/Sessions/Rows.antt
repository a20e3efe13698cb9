-- ===== src/Sessions/Rows.antt =====
-- apps/frontend/src/features/sessions/types.ts: the row of the unified list, and which rows may be
-- imported.
use distill_portal.Prelude.{Text, Bool, false, ◌||◌, Option, none, some}
use distill_portal.Contracts.{Tool, SessionSyncStatus, not_stored, outdated, TitleSource, status_eq}

pub data Presence : Type 0 where
  source_only stored_only both : Presence

pub record SessionRow : Type 0 where
  pub row_key : Text
  pub source_session_key : Option Text
  pub tool : Tool
  pub source_session_id : Text
  pub title : Option Text
  pub title_source : Option TitleSource
  pub project_path : Option Text
  pub source_path : Text
  pub source_path_is_stale : Bool
  pub source_fingerprint : Text
  pub created_at : Option Text
  pub source_updated_at : Option Text
  pub ingested_at : Option Text
  pub stored_session_uid : Option Text
  pub stored_raw_ref : Option Text
  pub has_subagent_sidecars : Bool
  pub status : SessionSyncStatus
  pub status_conflict : Bool
  pub presence : Presence

abbrev status_is_importable : SessionSyncStatus → Bool
status_is_importable s = status_eq s not_stored || status_eq s outdated

unfoldable pub is_importable : SessionRow → Bool
is_importable row = elim row.source_session_key [
  | none ↦ false
  | some _ ↦ status_is_importable row.status
]
