-- ===== src/Sessions/FilterState/Codec.antt =====
-- useSessionFilters.ts: the persisted blob, as `JSON.stringify(filters)` builds it and as
-- `decodeFilters` reads it.
pub mod Laws
use distill_portal.Prelude.{
  ℕ, ◌==◌, Text, lit, text_eq, String, Bool, true, false, Option, none, some, List, [], ◌∷◌,
  if◌then◌else◌,
}
use distill_portal.Contracts.{
  Tool, claude_code, codex, SessionSyncStatus, up_to_date, outdated, source_missing,
}
use distill_portal.Json.{
  Json, Items, Fields, null, bool, num, str, arr, obj, nil, cons, end, field, prop, as_string,
  as_object, as_array, as_number, get_or, Runtime,
}
use distill_portal.Sessions.Pagination.{PageSize, fifty, hundred, two_hundred}
use distill_portal.Sessions.FilterState.{
  SortField, source_updated_at, created_at, ingested_at, title, project_path, SortDirection, asc,
  desc, ToolFilter, all_tools, only, StorageFilter, all_storage, stored, SessionSort,
  SessionFiltersState, default_filters,
}

-- The double of a page size.
abbrev pub size_bits : PageSize → ℕ
size_bits fifty = 0x4049000000000000
size_bits hundred = 0x4059000000000000
size_bits two_hundred = 0x4069000000000000

abbrev pub tool_name : ToolFilter → String
tool_name all_tools = "all"
tool_name (only claude_code) = "claude_code"
tool_name (only codex) = "codex"

abbrev pub status_name : SessionSyncStatus → String
status_name SessionSyncStatus.not_stored = "not_stored"
status_name up_to_date = "up_to_date"
status_name outdated = "outdated"
status_name source_missing = "source_missing"

abbrev pub storage_name : StorageFilter → String
storage_name all_storage = "all"
storage_name stored = "stored"
storage_name StorageFilter.not_stored = "not_stored"

abbrev pub field_name : SortField → String
field_name source_updated_at = "source_updated_at"
field_name created_at = "created_at"
field_name ingested_at = "ingested_at"
field_name title = "title"
field_name project_path = "project_path"

abbrev pub direction_name : SortDirection → String
direction_name asc = "asc"
direction_name desc = "desc"

unfoldable pub status_items : List SessionSyncStatus → Items
unfolding lit
status_items [] = nil
status_items (s ∷ statuses) = cons (str (lit (status_name s))) (status_items statuses)

abbrev pub string_or_null : Option Text → Json
string_or_null none = null
string_or_null (some s) = str s

unfoldable pub encode_sort : SessionSort → Json
unfolding lit
encode_sort s = obj (
    field (lit "field") (str (lit (field_name s.field)))
      (field (lit "direction") (str (lit (direction_name s.direction))) end))

-- The object that `JSON.stringify` is given.
unfoldable pub encode_filters : SessionFiltersState → Json
unfolding lit status_items encode_sort
encode_filters f = obj (
    field (lit "tool") (str (lit (tool_name f.tool))) (
      field (lit "status") (arr (status_items f.status)) (
        field (lit "storage") (str (lit (storage_name f.storage))) (
          field (lit "importableOnly") (bool f.importable_only) (
            field (lit "project") (string_or_null f.project) (
              field (lit "search") (str f.search) (
                field (lit "sort") (encode_sort f.sort)
                  (field (lit "pageSize") (num (size_bits f.page_size)) end))))))))

-- Membership in the sets of valid values, with the value.
unfoldable pub valid_tool : Text → Option ToolFilter
unfolding lit text_eq
valid_tool t =
    if text_eq t (lit "all")
    then some all_tools
    else if text_eq t (lit "claude_code")
    then some (only claude_code)
    else if text_eq t (lit "codex")
    then some (only codex)
    else none

unfoldable pub valid_storage : Text → Option StorageFilter
unfolding lit text_eq
valid_storage t =
    if text_eq t (lit "all")
    then some all_storage
    else if text_eq t (lit "stored")
    then some stored
    else if text_eq t (lit "not_stored")
    then some StorageFilter.not_stored
    else none

unfoldable pub valid_status : Text → Option SessionSyncStatus
unfolding lit text_eq
valid_status t =
    if text_eq t (lit "not_stored")
    then some SessionSyncStatus.not_stored
    else if text_eq t (lit "up_to_date")
    then some up_to_date
    else if text_eq t (lit "outdated")
    then some outdated
    else if text_eq t (lit "source_missing")
    then some source_missing
    else none

unfoldable pub valid_field : Text → Option SortField
unfolding lit text_eq
valid_field t =
    if text_eq t (lit "source_updated_at")
    then some source_updated_at
    else if text_eq t (lit "created_at")
    then some created_at
    else if text_eq t (lit "ingested_at")
    then some ingested_at
    else if text_eq t (lit "title")
    then some title
    else if text_eq t (lit "project_path")
    then some project_path
    else none

unfoldable pub valid_direction : Text → Option SortDirection
unfolding lit text_eq
valid_direction t =
    if text_eq t (lit "asc") then some asc else if text_eq t (lit "desc") then some desc else none

unfoldable pub valid_size : ℕ → Option PageSize
valid_size n =
    if n == size_bits fifty
    then some fifty
    else if n == size_bits hundred
    then some hundred
    else if n == size_bits two_hundred
    then some two_hundred
    else none

abbrev pub bind {ℓ κ} : {A : Type ℓ} {B : Type κ} → Option A → (A → Option B) → Option B
bind none f = none
bind (some a) f = f a

abbrev pub cons_valid :
    Option SessionSyncStatus → Option (List SessionSyncStatus) → Option (List SessionSyncStatus)
cons_valid (some s) (some statuses) = some (s ∷ statuses)
cons_valid _ _ = none

-- One entry that is not valid drops the whole array.
unfoldable pub valid_statuses : List Json → Option (List SessionSyncStatus)
unfolding valid_status
valid_statuses [] = some []
valid_statuses (v ∷ vs) = cons_valid (bind (as_string (some v)) valid_status) (valid_statuses vs)

abbrev pub as_bool : Option Json → Option Bool
as_bool (some (bool b)) = some b
as_bool _ = none

unfoldable pub decode_sort : Option Fields → SessionSort
unfolding lit prop valid_field valid_direction
decode_sort none = default_filters.sort
decode_sort (some fs) = record {
  field = get_or (bind (as_string (prop (lit "field") fs)) valid_field) default_filters.sort.field;
  direction =
      get_or (bind (as_string (prop (lit "direction") fs)) valid_direction)
        default_filters.sort.direction;
}

unfoldable pub decode_fields : Fields → SessionFiltersState
unfolding lit prop valid_tool valid_statuses valid_storage valid_size decode_sort
decode_fields fs = record {
  tool = get_or (bind (as_string (prop (lit "tool") fs)) valid_tool) default_filters.tool;
  status = get_or (bind (as_array (prop (lit "status") fs)) valid_statuses) default_filters.status;
  storage =
      get_or (bind (as_string (prop (lit "storage") fs)) valid_storage) default_filters.storage;
  importable_only =
      get_or (as_bool (prop (lit "importableOnly") fs)) default_filters.importable_only;
  project = as_string (prop (lit "project") fs);
  search = get_or (as_string (prop (lit "search") fs)) default_filters.search;
  sort = decode_sort (as_object (prop (lit "sort") fs));
  page_size =
      get_or (bind (as_number (prop (lit "pageSize") fs)) valid_size) default_filters.page_size;
}

unfoldable pub decode_parsed : Option Json → SessionFiltersState
unfolding decode_fields
decode_parsed (some (obj fs)) = decode_fields fs
decode_parsed _ = default_filters

unfoldable pub decode_filters : Runtime → Option Text → SessionFiltersState
unfolding decode_parsed
decode_filters rt none = default_filters
decode_filters rt (some raw) = decode_parsed (rt.parse_json raw)
