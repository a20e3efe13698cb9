-- ===== src/Api/Paths.antt =====
-- apps/frontend/src/lib/api.ts: the paths, and the parameters of a list of operations.
pub mod Laws
pub mod Query
use distill_portal.Prelude.{
  ℕ, Text, lit, join, decimal, Option, none, some, List, [], ◌∷◌, ◌++◌, map,
}
use distill_portal.Poll.{
  OperationStatus, queued, running, cancel_requested, succeeded, failed, cancelled, interrupted,
}
use distill_portal.SelectedSession.{Params, set_param}
use distill_portal.Api.Component.{encode_uri_component}

unfoldable pub source_sessions_path : Text
unfolding lit
source_sessions_path = lit "/api/v1/source-sessions"

unfoldable pub stored_sessions_path : Text
unfolding lit
stored_sessions_path = lit "/api/v1/sessions"

unfoldable pub scan_errors_path : Text
unfolding lit
scan_errors_path = lit "/api/v1/admin/scan-errors"

unfoldable pub rescan_path : Text
unfolding lit
rescan_path = lit "/api/v1/rescan"

unfoldable pub import_path : Text
unfolding lit
import_path = lit "/api/v1/import"

unfoldable pub operations_path : Text
unfolding lit
operations_path = lit "/api/v1/operations"

unfoldable pub operations_events_path : Text
unfolding lit
operations_events_path = lit "/api/v1/operations/events"

-- `none` where encodeURIComponent throws.
unfoldable pub raw_session_path : Text → Option Text
unfolding lit stored_sessions_path encode_uri_component
raw_session_path uid = elim (encode_uri_component uid) [
  | none ↦ none
  | some seg ↦ some (lit "/api/v1/sessions/" ++ (seg ++ lit "/raw"))
]

unfoldable pub operation_path : Text → Option Text
unfolding lit operations_path encode_uri_component
operation_path id = elim (encode_uri_component id) [
  | none ↦ none
  | some seg ↦ some (operations_path ++ (lit "/" ++ seg))
]

pub data OperationKind : Type 0 where
  import_sessions rescan_sources : OperationKind

-- An absent field and a null one are alike to the code.
pub record OperationsListRequest : Type 0 where
  pub status : Option (List OperationStatus)
  pub kind : Option (List OperationKind)
  pub limit : Option ℕ

unfoldable pub status_text : OperationStatus → Text
unfolding lit
status_text queued = lit "queued"
status_text running = lit "running"
status_text cancel_requested = lit "cancel_requested"
status_text succeeded = lit "succeeded"
status_text failed = lit "failed"
status_text cancelled = lit "cancelled"
status_text interrupted = lit "interrupted"

unfoldable pub kind_text : OperationKind → Text
unfolding lit
kind_text import_sessions = lit "import_sessions"
kind_text rescan_sources = lit "rescan_sources"

-- `params.set(name, values.join(","))`, where there are values.
unfoldable pub set_list : Text → List Text → Params → Params
unfolding set_param join
set_list name [] ps = ps
set_list name (v ∷ vs) ps = set_param name (join (44 ∷ []) (v ∷ vs)) ps

abbrev pub texts_of {ℓ} : {A : Type ℓ} → (A → Text) → Option (List A) → List Text
texts_of text none = []
texts_of text (some xs) = map text xs

unfoldable pub set_limit : Option ℕ → Params → Params
unfolding lit set_param decimal
set_limit none ps = ps
set_limit (some n) ps = set_param (lit "limit") (decimal n) ps

unfoldable pub operations_params : OperationsListRequest → Params
unfolding lit set_list set_limit status_text kind_text
operations_params query = set_limit query.limit (
    set_list (lit "kind") (texts_of kind_text query.kind)
      (set_list (lit "status") (texts_of status_text query.status) []))
