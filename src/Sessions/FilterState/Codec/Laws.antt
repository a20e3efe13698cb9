-- ===== src/Sessions/FilterState/Codec/Laws.antt =====
-- useSessionFilters.ts: the persisted blob, written and read.
use distill_portal.Prelude.{
  Text, lit, text_eq, Option, none, some, List, [], ◌∷◌, ◌≡◌, refl, ◌∙◌, ap,
}
use distill_portal.Contracts.{
  claude_code, codex, SessionSyncStatus, up_to_date, outdated, source_missing,
}
use distill_portal.Json.{items, prop, as_string, as_object, Runtime}
use distill_portal.Sessions.Pagination.{PageSize, fifty, hundred, two_hundred}
use distill_portal.Sessions.FilterState.{
  SortField, source_updated_at, created_at, ingested_at, title, project_path, SortDirection, asc,
  desc, ToolFilter, all_tools, only, StorageFilter, all_storage, stored, SessionSort,
  SessionFiltersState,
}
use distill_portal.Sessions.FilterState.Codec.{
  tool_name, status_name, storage_name, field_name, direction_name, size_bits, string_or_null,
  status_items, encode_sort, encode_filters, valid_tool, valid_status, valid_storage, valid_field,
  valid_direction, valid_size, valid_statuses, decode_sort, decode_fields, decode_parsed,
  decode_filters,
}

valid_tool-tool_name : (t : ToolFilter) → valid_tool (lit (tool_name t)) ≡ some t
unfolding valid_tool lit text_eq
valid_tool-tool_name all_tools = refl
valid_tool-tool_name (only claude_code) = refl
valid_tool-tool_name (only codex) = refl

valid_status-status_name : (s : SessionSyncStatus) → valid_status (lit (status_name s)) ≡ some s
unfolding valid_status lit text_eq
valid_status-status_name SessionSyncStatus.not_stored = refl
valid_status-status_name up_to_date = refl
valid_status-status_name outdated = refl
valid_status-status_name source_missing = refl

valid_storage-storage_name : (s : StorageFilter) → valid_storage (lit (storage_name s)) ≡ some s
unfolding valid_storage lit text_eq
valid_storage-storage_name all_storage = refl
valid_storage-storage_name stored = refl
valid_storage-storage_name StorageFilter.not_stored = refl

valid_field-field_name : (f : SortField) → valid_field (lit (field_name f)) ≡ some f
unfolding valid_field lit text_eq
valid_field-field_name source_updated_at = refl
valid_field-field_name created_at = refl
valid_field-field_name ingested_at = refl
valid_field-field_name title = refl
valid_field-field_name project_path = refl

valid_direction-direction_name :
    (d : SortDirection) → valid_direction (lit (direction_name d)) ≡ some d
unfolding valid_direction lit text_eq
valid_direction-direction_name asc = refl
valid_direction-direction_name desc = refl

valid_size-size_bits : (s : PageSize) → valid_size (size_bits s) ≡ some s
unfolding valid_size
valid_size-size_bits fifty = refl
valid_size-size_bits hundred = refl
valid_size-size_bits two_hundred = refl

as_string-string_or_null : (p : Option Text) → as_string (some (string_or_null p)) ≡ p
as_string-string_or_null none = refl
as_string-string_or_null (some s) = refl

valid_statuses-status_items :
    (l : List SessionSyncStatus) → valid_statuses (items (status_items l)) ≡ some l
unfolding valid_statuses status_items
valid_statuses-status_items [] = refl
valid_statuses-status_items (s ∷ l) =
    rw (valid_status-status_name s, valid_statuses-status_items l) refl

decode_sort-encode_sort : (s : SessionSort) → decode_sort (as_object (some (encode_sort s))) ≡ s
unfolding decode_sort encode_sort prop lit text_eq
decode_sort-encode_sort s =
    rw (valid_field-field_name s.field, valid_direction-direction_name s.direction) refl

decode_parsed-encode_filters :
    (f : SessionFiltersState) → decode_parsed (some (encode_filters f)) ≡ f
unfolding decode_parsed encode_filters decode_fields prop lit text_eq
decode_parsed-encode_filters f =
    rw
      (
        valid_tool-tool_name f.tool,
        valid_statuses-status_items f.status,
        valid_storage-storage_name f.storage,
        as_string-string_or_null f.project,
        decode_sort-encode_sort f.sort,
        valid_size-size_bits f.page_size,
      )
      refl

-- Filters that are written and read back are the same, where `JSON.parse` inverts `JSON.stringify` on
-- what is written for them.
pub decode_filters-encode_filters :
    (rt : Runtime) (f : SessionFiltersState)
    → rt.parse_json (rt.stringify (encode_filters f)) ≡ some (encode_filters f)
    → decode_filters rt (some (rt.stringify (encode_filters f))) ≡ f
unfolding decode_filters
decode_filters-encode_filters rt f h = ap decode_parsed h ∙ decode_parsed-encode_filters f
