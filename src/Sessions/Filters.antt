-- ===== src/Sessions/Filters.antt =====
-- apps/frontend/src/features/sessions/filterSessions.ts: the filter axes and the comparator of the sort.
-- `lower` is `String.prototype.toLowerCase`.
pub mod Order
pub mod Nulls
pub mod Keys
pub mod Sorted
pub mod Passing
pub mod Kept
use distill_portal.Prelude.{
  trim, has_prefix, includes, ℕ, Text, lit, text_eq, text_compare, Bool, true, false, not, ◌&&◌,
  ◌||◌, Option, none, some, List, [], ◌∷◌, ◌++◌, filter, join, leb, ltb, ◌==◌, if◌then◌else◌,
  Ordering, flip, then_by, sort_by,
}
use mathlib.Core.Option
use distill_portal.Contracts.{Tool, SessionSyncStatus, outdated, tool_eq, status_eq}
use distill_portal.Sessions.Rows.{SessionRow}
use distill_portal.Sessions.FilterState.{
  SortField, source_updated_at, created_at, ingested_at, title, project_path, SortDirection, asc,
  desc, ToolFilter, all_tools, only, StorageFilter, all_storage, stored, not_stored, SessionSort,
  SessionFiltersState,
}

unfoldable pub has_status : List SessionSyncStatus → SessionSyncStatus → Bool
has_status [] status = false
has_status (s ∷ statuses) status = status_eq s status || has_status statuses status

-- `IMPORTABLE_STATUSES`.
abbrev pub importable_statuses : List SessionSyncStatus
importable_statuses = SessionSyncStatus.not_stored ∷ outdated ∷ []

abbrev pub non_empty {ℓ} : {A : Type ℓ} → List A → Option (List A)
non_empty [] = none
non_empty (x ∷ xs) = some (x ∷ xs)

abbrev pub effective_status : SessionFiltersState → Option (List SessionSyncStatus)
effective_status filters =
    if filters.importable_only then some importable_statuses else non_empty filters.status

abbrev pub or_empty : Option Text → Text
or_empty none = []
or_empty (some s) = s

-- One test of the predicate for each axis, `true` where the row passes.
abbrev pub passes_tool : ToolFilter → Tool → Bool
passes_tool all_tools tool = true
passes_tool (only t) tool = tool_eq tool t

abbrev pub passes_status : Option (List SessionSyncStatus) → SessionSyncStatus → Bool
passes_status none status = true
passes_status (some statuses) status = has_status statuses status

abbrev pub passes_storage : StorageFilter → Option Text → Bool
passes_storage stored none = false
passes_storage not_stored (some uid) = false
passes_storage _ _ = true

abbrev pub passes_project : Option Text → Option Text → Bool
passes_project none path = true
passes_project (some project) none = false
passes_project (some project) (some path) = text_eq path project

abbrev pub haystack : SessionRow → Text
haystack row =
    join (lit " ") (
      or_empty row.title ∷ row.source_session_id ∷ row.source_path ∷ or_empty row.project_path ∷ [])

abbrev pub read_field : SessionRow → SortField → Option Text
read_field row source_updated_at = row.source_updated_at
read_field row created_at = row.created_at
read_field row ingested_at = row.ingested_at
read_field row title = row.title
read_field row project_path = row.project_path

abbrev pub directed : SortDirection → Ordering → Ordering
directed asc o = o
directed desc o = flip o

abbrev pub field_eq : SortField → SortField → Bool
field_eq source_updated_at source_updated_at = true
field_eq created_at created_at = true
field_eq ingested_at ingested_at = true
field_eq title title = true
field_eq project_path project_path = true
field_eq _ _ = false

abbrev pub tiebreak_timestamps : List SortField
tiebreak_timestamps = source_updated_at ∷ ingested_at ∷ created_at ∷ []

module _ (lower : Text → Text) where
  abbrev pub search_lower : Text → Option Text
  search_lower search = Option.map lower (non_empty search)

  abbrev pub passes_search : Option Text → Text → Bool
  passes_search none hay = true
  passes_search (some needle) hay = includes (lower hay) needle

  unfoldable pub passes : SessionFiltersState → SessionRow → Bool
  unfolding has_status includes join lit trim
  passes filters row =
      passes_tool filters.tool row.tool
      && passes_status (effective_status filters) row.status
      && passes_storage filters.storage row.stored_session_uid
      && passes_project filters.project row.project_path
      && passes_search (search_lower (trim filters.search)) (haystack row)

  unfoldable pub apply_filters : List SessionRow → SessionFiltersState → List SessionRow
  unfolding passes
  apply_filters rows filters = filter (passes filters) rows

  -- The comparison of two values that are not null.
  abbrev pub compare_values : SortField → Text → Text → Ordering
  compare_values title a b = text_compare (lower a) (lower b)
  compare_values _ a b = text_compare a b

  abbrev pub compare_nullable : SortField → SortDirection → Option Text → Option Text → Ordering
  compare_nullable field direction none none = Ordering.eq
  compare_nullable field asc none (some b) = Ordering.lt
  compare_nullable field desc none (some b) = Ordering.gt
  compare_nullable field asc (some a) none = Ordering.gt
  compare_nullable field desc (some a) none = Ordering.lt
  compare_nullable field direction (some a) (some b) = directed direction (compare_values field a b)

  unfoldable pub compare_field : SessionRow → SessionRow → SortField → SortDirection → Ordering
  unfolding text_compare
  compare_field a b field direction =
      compare_nullable field direction (read_field a field) (read_field b field)

  -- The loop over the timestamps, without the chosen field.
  unfoldable pub tiebreak : SessionSort → List SortField → SessionRow → SessionRow → Ordering
  unfolding compare_field
  tiebreak sort [] a b = Ordering.eq
  tiebreak sort (f ∷ fields) a b =
      if field_eq f sort.field
      then tiebreak sort fields a b
      else then_by (compare_field a b f sort.direction) (tiebreak sort fields a b)

  -- The title, unless it is the chosen field; a missing title counts as empty.
  abbrev pub compare_titles : SortField → SortDirection → SessionRow → SessionRow → Ordering
  compare_titles title direction a b = Ordering.eq
  compare_titles _ direction a b =
      directed direction (text_compare (lower (or_empty a.title)) (lower (or_empty b.title)))

  unfoldable pub compare_rows : SessionSort → SessionRow → SessionRow → Ordering
  unfolding compare_field tiebreak text_compare
  compare_rows sort a b = then_by (compare_field a b sort.field sort.direction) (
      then_by (tiebreak sort tiebreak_timestamps a b)
        (then_by (compare_titles sort.field sort.direction a b) (text_compare a.row_key b.row_key)))

  unfoldable pub apply_sort : List SessionRow → SessionSort → List SessionRow
  unfolding compare_rows sort_by
  apply_sort rows sort = sort_by (compare_rows sort) rows
