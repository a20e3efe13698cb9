-- ===== src/Sessions/Paging.antt =====
-- apps/frontend/src/App.tsx: the page index on the screen and its three effects, and
-- apps/frontend/src/components/Pagination.tsx, the strip that changes it. The index starts at 0, and only
-- whole numbers that are not negative are set.
pub mod Laws
use distill_portal.Prelude.{
  ℕ, zero, suc, ◌-◌, ◌*◌, ◌/◌, min, max, leb, ◌==◌, Bool, true, false, Option, none, some,
  if◌then◌else◌,
}
use distill_portal.Sessions.Pagination.{PageSize, page_size, at, page_count, clamp_index}

pub record PageState : Type 0 where
  pub page_index : ℕ
  pub prev_page_size : PageSize

-- `setPageIndex(clampedPageIndex)`, where `applyPagination` had to move the index.
unfoldable pub sync_clamped : ℕ → PageSize → PageState → PageState
unfolding page_count clamp_index
sync_clamped count size s =
    let clamped = clamp_index (at s.page_index) (page_count count size) in
    if clamped == s.page_index then s else record s { page_index = clamped }

-- A filter or the sort has changed.
unfoldable pub reset_page : Bool → PageState → PageState
reset_page filters_changed s = if filters_changed then record s { page_index = 0 } else s

unfoldable pub recompute_page : PageSize → PageState → PageState
recompute_page size s =
    let old = page_size s.prev_page_size in
    if old == page_size size
    then s
    else record { page_index = s.page_index * old / page_size size; prev_page_size = size }

-- The effects after a render, in their order; each of their updates reads what the one before it set.
unfoldable pub commit : ℕ → PageSize → Bool → PageState → PageState
unfolding sync_clamped reset_page recompute_page
commit count size filters_changed s =
    recompute_page size (reset_page filters_changed (sync_clamped count size s))

-- The render that the effects ask for has the same filters.
unfoldable pub settle : ℕ → PageSize → Bool → PageState → PageState
unfolding commit
settle count size filters_changed s = commit count size false (commit count size filters_changed s)

-- The strip: what it shows, and what its buttons set; `none` where a button is disabled.
pub record Strip : Type 0 where
  pub total_pages : ℕ
  pub shown_page : ℕ
  pub prev : Option ℕ
  pub next : Option ℕ

unfoldable pub pagination : PageSize → ℕ → ℕ → Strip
unfolding page_count
pagination size index total_rows =
    let total = page_count total_rows size in
    let safe = min (max 0 index) (total - 1) in
    record {
      total_pages = total;
      shown_page = suc safe;
      prev = if safe == 0 then none else some (safe - 1);
      next = if leb (total - 1) safe then none else some (suc safe);
    }
