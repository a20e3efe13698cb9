-- ===== src/Sessions/Pagination/Laws.antt =====
-- applyPagination.ts: the page count, the page index and the pages.
use distill_portal.Prelude.{
  ℕ, zero, suc, ◌+◌, ◌-◌, ◌*◌, ◌≤◌, ◌<◌, ◌≡◌, refl, List, [], ◌++◌, length, take, drop, length-take,
  length-drop, take-append-take, take_all, ◌∙◌, min, arith,
}
use distill_portal.Sessions.Pagination.{
  PageSize, page_size, fifty, hundred, two_hundred, PageIndex, non_finite, negative, at, page_count,
  clamp_index, slice, apply_pagination,
}

-- The page count is the least positive number of pages that holds all rows.
pub page_count_least :
    (n : ℕ) (size : PageSize)
    → (1 ≤ page_count n size)
      × (n ≤ page_count n size * page_size size)
      × (0 < n → (page_count n size - 1) * page_size size < n)
unfolding page_count
page_count_least n fifty = omega arith
page_count_least n hundred = omega arith
page_count_least n two_hundred = omega arith

pub clamp_index-lt : (i : PageIndex) (total : ℕ) → 1 ≤ total → clamp_index i total < total
unfolding clamp_index
clamp_index-lt non_finite total h = omega arith
clamp_index-lt negative total h = omega arith
clamp_index-lt (at n) total h = ground arith

-- The page of an index below the page count starts before the end of the rows.
page_start-lt : (n c : ℕ) (size : PageSize) → c < page_count n size → 0 < n → c * page_size size < n
unfolding page_count
page_start-lt n c fifty h k = omega arith
page_start-lt n c hundred h k = omega arith
page_start-lt n c two_hundred h k = omega arith

page_size_pos : (size : PageSize) → 0 < page_size size
page_size_pos fifty = omega arith
page_size_pos hundred = omega arith
page_size_pos two_hundred = omega arith

module _ {ℓ} {A : Type ℓ} where
  length-slice :
      (start size : ℕ) (rows : List A)
      → length (slice start (start + size) rows) ≡ min size (length rows - start)
  length-slice start size rows =
      omega (arith, length-take (start + size - start) (drop start rows), length-drop start rows)

  -- The index returned names a page: it is below the page count. The page holds at most a page
  -- size of rows, and is empty only if there are no rows at all.
  pub apply_pagination_bounds :
      (rows : List A) (i : PageIndex) (size : PageSize)
      → let r = apply_pagination rows i size in
        (r.page_index < r.total_pages)
        × (length r.page_rows ≤ page_size size)
        × (0 < length rows → 0 < length r.page_rows)
  unfolding apply_pagination
  apply_pagination_bounds rows i size =
      let total = page_count (length rows) size in
      let c = clamp_index i total in
      let below = clamp_index-lt i total (page_count_least (length rows) size).0 in
      let len = length-slice (c * page_size size) (page_size size) rows in
      (
        below,
        omega (arith, len),
        λ h. omega (arith, len, page_start-lt (length rows) c size below h, page_size_pos size),
      )

  -- The first k pages, one after the other.
  pub pages : List A → PageSize → ℕ → List A
  pages rows size zero = []
  pages rows size (suc k) = pages rows size k ++ (apply_pagination rows (at k) size).page_rows

  page_rows_lem :
      (rows : List A) (size : PageSize) (k : ℕ)
      → k < page_count (length rows) size
      → (apply_pagination rows (at k) size).page_rows
        ≡ take (page_size size) (drop (k * page_size size) rows)
  unfolding apply_pagination
  page_rows_lem rows size k h =
      let c : clamp_index (at k) (page_count (length rows) size) ≡ k =
        unfold clamp_index in ground arith in
      let e : k * page_size size + page_size size - k * page_size size ≡ page_size size =
        omega arith in
      rw c (rw e)

  pages_lem :
      (rows : List A) (size : PageSize) (k : ℕ)
      → k ≤ page_count (length rows) size
      → pages rows size k ≡ take (k * page_size size) rows
  unfolding pages
  pages_lem rows size zero h = let e : 0 * page_size size ≡ 0 = omega arith in rw e
  pages_lem rows size (suc k) h =
      let e : suc k * page_size size ≡ k * page_size size + page_size size = omega arith in
      rw e (
        rw (pages_lem rows size k (omega arith), page_rows_lem rows size k h)
          (take-append-take (k * page_size size) (page_size size) rows))

  -- The pages of the indices 0, 1, … below the page count, one after the other, are the rows: no
  -- row is lost, repeated or moved by paging.
  pub pages-eq-rows :
      (rows : List A) (size : PageSize) → pages rows size (page_count (length rows) size) ≡ rows
  pages-eq-rows rows size =
      let n = page_count (length rows) size in
      pages_lem rows size n (omega arith)
      ∙ take_all (n * page_size size) rows (page_count_least (length rows) size).1

  -- A stale or invalid index is moved to the nearest page: non-finite and negative ones to the
  -- first page, one at or past the page count to the last; an index in range is kept.
  pub page_index_clamped :
      (rows : List A) (size : PageSize)
      → let total = page_count (length rows) size in
        ((apply_pagination rows non_finite size).page_index ≡ 0)
        × ((apply_pagination rows negative size).page_index ≡ 0)
        × ((n : ℕ) → (apply_pagination rows (at n) size).page_index ≡ min n (total - 1))
  unfolding apply_pagination
  page_index_clamped rows size = (
    unfold clamp_index in refl,
    unfold clamp_index in refl,
    λ n. unfold clamp_index in ground (arith, page_count_least (length rows) size),
  )
