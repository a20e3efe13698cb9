-- ===== src/Api/Endpoints.antt =====
-- apps/frontend/src/lib/api.ts: the calls of the backend.
use distill_portal.Prelude.{Text, lit, Option, none, List, [], ◌∷◌, ◌++◌}
use distill_portal.Json.{Json, str, arr, obj, Items, nil, cons, field, end}
use distill_portal.Poll.{Answer}
use distill_portal.SelectedSession.{question}
use distill_portal.Api.{
  Response, get, Failure, Browser, stream_of, ndjson_type, get_json, post_json, delete_json,
  safe_read_text, with_path,
}
use distill_portal.Api.Paths.{
  source_sessions_path, stored_sessions_path, scan_errors_path, rescan_path, import_path,
  operations_path, operations_events_path, raw_session_path, operation_path, OperationsListRequest,
  operations_params,
}

-- `{ session_keys: sessionKeys }`.
abbrev pub key_items : List Text → Items
key_items [] = nil
key_items (k ∷ ks) = cons (str k) (key_items ks)

unfoldable pub import_payload : List Text → Json
unfolding lit
import_payload keys = obj (field (lit "session_keys") (arr (key_items keys)) end)

module _ {Signal : Type 0} {E : Type 0} (browser : Browser Signal E) where
  unfoldable pub api_operations_events_url : Text
  unfolding operations_events_path
  api_operations_events_url = browser.api_base ++ operations_events_path

  -- The parameters' text after a question mark, or nothing where it is empty.
  unfoldable pub operations_query : OperationsListRequest → Text
  unfolding operations_params
  operations_query query = question (browser.print_query (operations_params query))

  unfoldable pub list_source_sessions : Option Signal → Answer Json (Failure E)
  unfolding get_json source_sessions_path
  list_source_sessions signal = get_json browser source_sessions_path signal

  unfoldable pub list_stored_sessions : Option Signal → Answer Json (Failure E)
  unfolding get_json stored_sessions_path
  list_stored_sessions signal = get_json browser stored_sessions_path signal

  unfoldable pub list_scan_errors : Option Signal → Answer Json (Failure E)
  unfolding get_json scan_errors_path
  list_scan_errors signal = get_json browser scan_errors_path signal

  unfoldable pub trigger_rescan : Option Signal → Answer Json (Failure E)
  unfolding post_json rescan_path
  trigger_rescan signal = post_json browser rescan_path (obj end) signal

  unfoldable pub import_source_sessions : List Text → Option Signal → Answer Json (Failure E)
  unfolding post_json import_path import_payload
  import_source_sessions keys signal = post_json browser import_path (import_payload keys) signal

  unfoldable pub get_operation : Text → Option Signal → Answer Json (Failure E)
  unfolding get_json operation_path
  get_operation id signal =
      with_path browser (operation_path id) (λ path. get_json browser path signal)

  unfoldable pub list_operations : OperationsListRequest → Option Signal → Answer Json (Failure E)
  unfolding get_json operations_query operations_path
  list_operations query signal = get_json browser (operations_path ++ operations_query query) signal

  unfoldable pub cancel_operation : Text → Option Signal → Answer Json (Failure E)
  unfolding delete_json operation_path
  cancel_operation id signal =
      with_path browser (operation_path id) (λ path. delete_json browser path signal)

  unfoldable pub stream_session_raw : Text → Option Signal → Answer (Response E) (Failure E)
  unfolding raw_session_path ndjson_type safe_read_text
  stream_session_raw uid signal = with_path browser (raw_session_path uid) (λ path. stream_of (
      browser.fetch (record {
        url = browser.api_base ++ path;
        method = get;
        accept = ndjson_type;
        content_type = none;
        body = none;
        signal = signal;
      })))
