-- ===== src/Sessions/FilterState.antt =====
-- apps/frontend/src/features/sessions/useSessionFilters.ts: the filters of the unified list.
pub mod Codec
pub mod Setters
use distill_portal.Prelude.{Text, Bool, false, Option, none, List, []}
use distill_portal.Contracts.{Tool, SessionSyncStatus}
use distill_portal.Sessions.Pagination.{PageSize, fifty}

pub data SortField : Type 0 where
  source_updated_at created_at ingested_at title project_path : SortField

pub data SortDirection : Type 0 where
  asc desc : SortDirection

pub data ToolFilter : Type 0 where
  all_tools : ToolFilter
  only : Tool → ToolFilter

pub data StorageFilter : Type 0 where
  all_storage stored not_stored : StorageFilter

pub record SessionSort : Type 0 where
  pub field : SortField
  pub direction : SortDirection

pub record SessionFiltersState : Type 0 where
  pub tool : ToolFilter
  pub status : List SessionSyncStatus
  pub storage : StorageFilter
  pub importable_only : Bool
  pub project : Option Text
  pub search : Text
  pub sort : SessionSort
  pub page_size : PageSize

abbrev pub default_filters : SessionFiltersState
default_filters = record {
  tool = all_tools;
  status = [];
  storage = all_storage;
  importable_only = false;
  project = none;
  search = [];
  sort = record { field = source_updated_at; direction = desc };
  page_size = fifty;
}
