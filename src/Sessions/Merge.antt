-- ===== src/Sessions/Merge.antt =====
-- apps/frontend/src/features/sessions/mergeSessions.ts: the join of the source list and the stored
-- list into rows. `Map` is an association list, the `Set` of consumed keys a list.
pub mod Join
pub mod Laws
use distill_portal.Prelude.{
  Text, lit, text_eq, dict_get, dict_set, Bool, true, false, not, Option, none, some, List, [], ◌∷◌,
  ◌++◌, ◌||◌,
}
use distill_portal.Contracts.{
  Tool, tool_text, status_eq, source_missing, SourceSessionView, StoredSessionView,
}
use distill_portal.Sessions.Rows.{SessionRow, source_only, stored_only, both}

-- `${tool}:${source_session_id}`.
unfoldable pub identity_key : Tool → Text → Text
unfolding tool_text lit
identity_key tool id = tool_text tool ++ (lit ":" ++ id)

abbrev source_key : SourceSessionView → Text
source_key src = identity_key src.tool src.source_session_id

abbrev stored_key : StoredSessionView → Text
stored_key st = identity_key st.tool st.source_session_id

-- The first loop: later stored rows overwrite earlier ones of the same key.
index_stored :
    List (Text × StoredSessionView) → List StoredSessionView → List (Text × StoredSessionView)
index_stored by_key [] = by_key
index_stored by_key (s ∷ stored) = index_stored (dict_set (stored_key s) s by_key) stored

-- The rows that the two passes push.
pub both_row : SourceSessionView → StoredSessionView → SessionRow
both_row src matched = record {
  row_key = src.session_key;
  source_session_key = some src.session_key;
  tool = src.tool;
  source_session_id = src.source_session_id;
  title = src.title;
  title_source = src.title_source;
  project_path = src.project_path;
  source_path = src.source_path;
  source_path_is_stale = false;
  source_fingerprint = src.source_fingerprint;
  created_at = src.created_at;
  source_updated_at = src.source_updated_at;
  ingested_at = some matched.ingested_at;
  stored_session_uid = some matched.session_uid;
  stored_raw_ref = some matched.raw_ref;
  has_subagent_sidecars = src.has_subagent_sidecars;
  status = src.status;
  status_conflict = not (status_eq matched.status src.status);
  presence = both;
}

pub source_only_row : SourceSessionView → SessionRow
source_only_row src = record {
  row_key = src.session_key;
  source_session_key = some src.session_key;
  tool = src.tool;
  source_session_id = src.source_session_id;
  title = src.title;
  title_source = src.title_source;
  project_path = src.project_path;
  source_path = src.source_path;
  source_path_is_stale = false;
  source_fingerprint = src.source_fingerprint;
  created_at = src.created_at;
  source_updated_at = src.source_updated_at;
  ingested_at = src.stored_ingested_at;
  stored_session_uid = src.session_uid;
  stored_raw_ref = none;
  has_subagent_sidecars = src.has_subagent_sidecars;
  status = src.status;
  status_conflict = false;
  presence = source_only;
}

pub stored_only_row : StoredSessionView → SessionRow
unfolding lit
stored_only_row st = record {
  row_key = lit "stored:" ++ st.session_uid;
  source_session_key = none;
  tool = st.tool;
  source_session_id = st.source_session_id;
  title = st.title;
  title_source = st.title_source;
  project_path = st.project_path;
  source_path = st.source_path;
  source_path_is_stale = status_eq st.status source_missing;
  source_fingerprint = st.source_fingerprint;
  created_at = st.created_at;
  source_updated_at = st.source_updated_at;
  ingested_at = some st.ingested_at;
  stored_session_uid = some st.session_uid;
  stored_raw_ref = some st.raw_ref;
  has_subagent_sidecars = st.has_subagent_sidecars;
  status = st.status;
  status_conflict = false;
  presence = stored_only;
}

-- Pass 1, with the rows and the consumed keys so far.
merge_sources :
    List (Text × StoredSessionView)
    → List SourceSessionView
    → List SessionRow
    → List Text
    → List SessionRow × List Text
merge_sources by_key [] rows consumed = (rows, consumed)
merge_sources by_key (src ∷ sources) rows consumed = elim (dict_get (source_key src) by_key) [
  | some matched ↦
      merge_sources by_key sources (rows ++ both_row src matched ∷ []) (source_key src ∷ consumed)
  | none ↦ merge_sources by_key sources (rows ++ source_only_row src ∷ []) consumed
]

has_key : Text → List Text → Bool
has_key k [] = false
has_key k (j ∷ keys) = text_eq j k || has_key k keys

-- Pass 2.
merge_stored : List Text → List StoredSessionView → List SessionRow → List SessionRow
merge_stored consumed [] rows = rows
merge_stored consumed (st ∷ stored) rows = elim (has_key (stored_key st) consumed) [
  | true ↦ merge_stored consumed stored rows
  | false ↦ merge_stored consumed stored (rows ++ stored_only_row st ∷ [])
]

pub merge_sessions : List SourceSessionView → List StoredSessionView → List SessionRow
unfolding index_stored merge_sources merge_stored has_key
merge_sessions sources stored =
    let (rows, consumed) = merge_sources (index_stored [] stored) sources [] [] in
    merge_stored consumed stored rows
