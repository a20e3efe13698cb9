-- ===== src/Sessions/FilterState/Setters.antt =====
-- useSessionFilters.ts: the hook's state, its setters, and the persisted blob behind them. A write that
-- `localStorage` refuses leaves the blob as it was.
pub mod Laws
use distill_portal.Prelude.{
  Text, Bool, true, false, Option, none, some, List, [], ◌∷◌, if◌then◌else◌,
}
use distill_portal.Contracts.{SessionSyncStatus}
use distill_portal.Json.{Runtime}
use distill_portal.Sessions.Pagination.{PageSize}
use distill_portal.Sessions.FilterState.{
  ToolFilter, StorageFilter, SessionSort, SessionFiltersState, default_filters,
}
use distill_portal.Sessions.FilterState.Codec.{encode_filters, decode_filters}

pub record FilterHook : Type 0 where
  pub filters : SessionFiltersState
  pub blob : Option Text

-- A key of the filters with its value.
pub data Setting : Type 0 where
  tool : ToolFilter → Setting
  status : List SessionSyncStatus → Setting
  storage : StorageFilter → Setting
  importable_only : Bool → Setting
  project : Option Text → Setting
  search : Text → Setting
  sort : SessionSort → Setting
  page_size : PageSize → Setting

pub data FilterAction : Type 0 where
  set_filter : Setting → FilterAction
  reset_all : FilterAction
  set_importable_only : Bool → FilterAction

-- `{ ...prev, [key]: value }`.
unfoldable pub with_setting : Setting → SessionFiltersState → SessionFiltersState
with_setting (tool v) f = record f { tool = v }
with_setting (status v) f = record f { status = v }
with_setting (storage v) f = record f { storage = v }
with_setting (importable_only v) f = record f { importable_only = v }
with_setting (project v) f = record f { project = v }
with_setting (search v) f = record f { search = v }
with_setting (sort v) f = record f { sort = v }
with_setting (page_size v) f = record f { page_size = v }

unfoldable pub with_importable_only : Bool → SessionFiltersState → SessionFiltersState
with_importable_only true f = record f { importable_only = true; status = [] }
with_importable_only false f = record f { importable_only = false }

unfoldable pub next_filters : FilterAction → SessionFiltersState → SessionFiltersState
unfolding with_setting with_importable_only
next_filters (set_filter s) f = with_setting s f
next_filters reset_all f = default_filters
next_filters (set_importable_only v) f = with_importable_only v f

module _ (rt : Runtime) where
  -- `safeSet`; `written` is false where the storage is missing or throws.
  unfoldable pub persist : Bool → FilterHook → FilterHook
  unfolding encode_filters
  persist written h =
      if written then record h { blob = some (rt.stringify (encode_filters h.filters)) } else h

  -- The first render and the rewrite after it.
  unfoldable pub mount_filters : Bool → Option Text → FilterHook
  unfolding persist decode_filters
  mount_filters written blob =
      persist written (record { filters = decode_filters rt blob; blob = blob })

  unfoldable pub act : Bool → FilterAction → FilterHook → FilterHook
  unfolding persist next_filters
  act written a h = persist written (record h { filters = next_filters a h.filters })

  unfoldable pub act_all : List FilterAction → FilterHook → FilterHook
  unfolding act
  act_all [] h = h
  act_all (a ∷ actions) h = act_all actions (act true a h)
