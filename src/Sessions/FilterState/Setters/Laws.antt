-- ===== src/Sessions/FilterState/Setters/Laws.antt =====
-- useSessionFilters.ts: a reload, and the switch for importable rows.
use distill_portal.Prelude.{
  Text, true, false, Option, none, some, List, [], ◌∷◌, ◌≡◌, refl, ◌∙◌, ap,
}
use distill_portal.Json.{Runtime}
use distill_portal.Sessions.FilterState.{SessionFiltersState}
use distill_portal.Sessions.FilterState.Codec.{encode_filters, decode_filters}
use distill_portal.Sessions.FilterState.Codec.Laws.{decode_filters-encode_filters}
use distill_portal.Sessions.FilterState.Setters.{
  FilterHook, FilterAction, set_importable_only, next_filters, with_importable_only, persist,
  mount_filters, act, act_all,
}
use distill_portal.Sessions.Filters.{effective_status, importable_statuses}

module _ (rt : Runtime) where
  -- The blob is what the filters are written as.
  abbrev IsPersisted : FilterHook → Type 0
  IsPersisted h = h.blob ≡ some (rt.stringify (encode_filters h.filters))

  act_all-IsPersisted :
      (actions : List FilterAction) (h : FilterHook)
      → IsPersisted h
      → IsPersisted (act_all rt actions h)
  unfolding act_all act persist
  act_all-IsPersisted [] h p = p
  act_all-IsPersisted (a ∷ actions) h p = act_all-IsPersisted actions (act rt true a h) refl

  -- From any persisted blob, corrupt or missing, and after any setter calls whose writes succeed, a
  -- reload decodes the blob to the filters on the screen, where `JSON.parse` inverts
  -- `JSON.stringify` on what is written for them.
  pub reload_lem :
      (blob : Option Text) (actions : List FilterAction)
      → let h = act_all rt actions (mount_filters rt true blob) in
        rt.parse_json (rt.stringify (encode_filters h.filters)) ≡ some (encode_filters h.filters)
        → decode_filters rt h.blob ≡ h.filters
  unfolding mount_filters persist
  reload_lem blob actions inverts =
      let start = mount_filters rt true blob in
      ap (decode_filters rt) (act_all-IsPersisted actions start refl)
      ∙ decode_filters-encode_filters rt (act_all rt actions start).filters inverts

-- Switching the importable rows on narrows the statuses to the importable ones, and switching them
-- off again leaves no status filter, whatever statuses were chosen before; all other filters stay.
pub importable_toggle :
    (f : SessionFiltersState)
    → let on = next_filters (set_importable_only true) f in
      let off = next_filters (set_importable_only false) on in
      (effective_status on ≡ some importable_statuses)
      × (effective_status off ≡ none)
      × (off ≡ record f { importable_only = false; status = [] })
unfolding next_filters with_importable_only
importable_toggle f = (refl, refl, refl)
