-- ===== src/Tests/Api.antt =====
-- The theorems on the backend's calls at concrete inputs.
use distill_portal.Prelude.{
  Text, lit, decimal, none, some, [], ◌∷◌, ◌++◌, All, flat_map, text_eq, ◌≡◌, refl, arith, false,
}
use distill_portal.Poll.{queued, running, got, rejected}
use distill_portal.SelectedSession.{get_param, set_param}
use distill_portal.Api.{Browser, api_error, uri_error}
use distill_portal.Api.Component.{encode_uri_component}
use distill_portal.Api.Component.Decoding.{IsSegmentChar, decode_uri_component}
use distill_portal.Api.Endpoints.{get_operation}
use distill_portal.Api.Paths.{
  operations_path, stored_sessions_path, operation_path, raw_session_path, OperationsListRequest,
  operations_params, status_text,
}
use distill_portal.Api.Paths.Laws.{paths_lem}
use distill_portal.Api.Paths.Query.{values_of, operations_params_lem}

-- "a/é😀", and the same encoded.
abbrev odd_id : Text
odd_id = 97 ∷ 47 ∷ 233 ∷ 0xd83d ∷ 0xde00 ∷ []

abbrev odd_segment : Text
unfolding lit
odd_segment = lit "a%2F%C3%A9%F0%9F%98%80"

odd_segment_lem : encode_uri_component odd_id ≡ some odd_segment
unfolding encode_uri_component lit flat_map
odd_segment_lem = refl

-- A high surrogate alone.
lone-encode_uri_component : encode_uri_component (97 ∷ 0xd83d ∷ 98 ∷ []) ≡ none
unfolding encode_uri_component
lone-encode_uri_component = refl

paths_lem_example :
    (operation_path odd_id ≡ some (operations_path ++ (lit "/" ++ odd_segment)))
    × (raw_session_path odd_id
        ≡ some (stored_sessions_path ++ (lit "/" ++ (odd_segment ++ lit "/raw"))))
    × (All IsSegmentChar odd_segment)
    × (decode_uri_component odd_segment ≡ odd_id)
paths_lem_example = paths_lem odd_id odd_segment (omega arith) odd_segment_lem

abbrev latest_active : OperationsListRequest
latest_active = record { status = some (queued ∷ running ∷ []); kind = some []; limit = some 50 }

latest_active_lem :
    operations_params latest_active
    ≡ (lit "status", lit "queued,running") ∷ (lit "limit", lit "50") ∷ []
unfolding operations_params set_param lit text_eq
latest_active_lem = refl

latest_active-operations_params_lem :
    (values_of (get_param (lit "status") (operations_params latest_active))
      ≡ lit "queued" ∷ lit "running" ∷ [])
    × (values_of (get_param (lit "kind") (operations_params latest_active)) ≡ [])
    × (get_param (lit "limit") (operations_params latest_active) ≡ some (decimal 50))
unfolding status_text
latest_active-operations_params_lem = operations_params_lem latest_active

-- A backend that has no operation.
abbrev missing : Browser Unit Unit
missing = record {
  api_base = [];
  fetch = λ request.
      got
        (record { ok = false; status = 404; text = got (lit " not found\n"); json = rejected tt });
  stringify = λ v. [];
  print_query = λ ps. [];
}

get_operation-missing :
    (get_operation missing (97 ∷ []) none ≡ rejected (api_error 404 (lit "not found")))
    × (get_operation missing (0xd83d ∷ []) none ≡ rejected uri_error)
unfolding get_operation encode_uri_component lit
get_operation-missing = (refl, refl)
