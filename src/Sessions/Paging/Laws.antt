-- ===== src/Sessions/Paging/Laws.antt =====
-- The page index of App.tsx and the strip of Pagination.tsx.
use distill_portal.Prelude.{
  ℕ, suc, ◌+◌, ◌-◌, ◌*◌, ◌/◌, ◌≤◌, ◌<◌, min, false, none, some, List, length, ◌≡◌, ◌≢◌, zero, max,
  ltb, ◌==◌, if◌then◌else◌, refl, arith, ◌∙◌, ap, Bool,
}
use distill_portal.Sessions.Pagination.{
  PageSize, page_size, fifty, hundred, two_hundred, at, page_count, clamp_index, apply_pagination,
}
use distill_portal.Sessions.Pagination.Laws.{page_count_least, clamp_index-lt}
use distill_portal.Sessions.Paging.{
  PageState, sync_clamped, reset_page, recompute_page, commit, settle, pagination,
}

-- An index that names a page of the old size, cut down to the pages of the new size and scaled to it.
scaled_lem :
    (count i : ℕ) (old new : PageSize)
    → i < page_count count old
    → let m = min i (page_count count new - 1) in
      let k = m * page_size old / page_size new in
      (k < page_count count new)
      × (k * page_size new ≤ m * page_size old)
      × (m * page_size old < k * page_size new + page_size new)
unfolding page_count
scaled_lem count i fifty fifty h = omega arith
scaled_lem count i fifty hundred h = omega arith
scaled_lem count i fifty two_hundred h = omega arith
scaled_lem count i hundred fifty h = omega arith
scaled_lem count i hundred hundred h = omega arith
scaled_lem count i hundred two_hundred h = omega arith
scaled_lem count i two_hundred fifty h = omega arith
scaled_lem count i two_hundred hundred h = omega arith
scaled_lem count i two_hundred two_hundred h = omega arith

sync_clamped_lem :
    (count : ℕ) (size : PageSize) (s : PageState)
    → sync_clamped count size s
      ≡ record s { page_index = min s.page_index (page_count count size - 1) }
unfolding sync_clamped clamp_index
sync_clamped_lem count size s = ground (arith, page_count_least count size)

recompute_page_lem :
    (new : PageSize) (s : PageState)
    → page_size s.prev_page_size ≢ page_size new
    → recompute_page new s ≡ record {
      page_index = s.page_index * page_size s.prev_page_size / page_size new;
      prev_page_size = new;
    }
unfolding recompute_page
recompute_page_lem new s h = ground arith

recompute_page-same :
    (size : PageSize) (s : PageState)
    → page_size s.prev_page_size ≡ page_size size
    → recompute_page size s ≡ s
unfolding recompute_page
recompute_page-same size s h = ground arith

-- A commit with nothing to do but to cut the index down.
commit-quiet :
    (count : ℕ) (size : PageSize) (s : PageState)
    → page_size s.prev_page_size ≡ page_size size
    → commit count size false s
      ≡ record s { page_index = min s.page_index (page_count count size - 1) }
unfolding commit reset_page
commit-quiet count size s h =
    recompute_page-same size (sync_clamped count size s) (rw (sync_clamped_lem count size s) h)
    ∙ sync_clamped_lem count size s

commit-prev :
    (count : ℕ) (size : PageSize) (changed : Bool) (s : PageState)
    → page_size (commit count size changed s).prev_page_size ≡ page_size size
unfolding commit recompute_page
commit-prev count size changed s = ground arith

-- The index cut down to a number of pages.
abbrev cut : ℕ → PageState → PageState
cut total s = record s { page_index = min s.page_index (total - 1) }

settle_lem :
    (count : ℕ) (size : PageSize) (filters_changed : Bool) (s : PageState)
    → settle count size filters_changed s
      ≡ cut (page_count count size) (commit count size filters_changed s)
unfolding settle
settle_lem count size filters_changed s =
    commit-quiet count size (commit count size filters_changed s)
      (commit-prev count size filters_changed s)

commit-resized :
    (count : ℕ) (size : PageSize) (s : PageState)
    → page_size s.prev_page_size ≢ page_size size
    → commit count size false s ≡ record {
      page_index =
          min s.page_index (page_count count size - 1)
          * page_size s.prev_page_size
          / page_size size;
      prev_page_size = size;
    }
unfolding commit reset_page
commit-resized count size s h =
    ap (recompute_page size) (sync_clamped_lem count size s)
    ∙ recompute_page_lem size (cut (page_count count size) s) h

-- The effects come to rest: whatever has changed, after the effects of two renders the index names
-- a page, and the effects of a further render change nothing.
pub settle-stable :
    (count : ℕ) (size : PageSize) (filters_changed : Bool) (s : PageState)
    → let after = settle count size filters_changed s in
      (after.page_index < page_count count size) × (commit count size false after ≡ after)
settle-stable count size filters_changed s =
    let first = commit count size filters_changed s in
    let t = page_count count size in
    let prev = commit-prev count size filters_changed s in
    let again = commit-quiet count size (cut t first) prev in
    rw (settle_lem count size filters_changed s) (
      omega (arith, page_count_least count size),
      again
          ∙ ap (λ i. record { page_index = i; prev_page_size = first.prev_page_size })
              (omega (arith, page_count_least count size)),
    )

-- After a change of the page size only, the page shown holds the row at which, in pages of the old
-- size, the page index started, cut down to the number of pages of the new size: the first row
-- that was visible, where the index names a page of the new size too.
pub change_page_size_lem :
    (count : ℕ) (size : PageSize) (s : PageState)
    → s.page_index < page_count count s.prev_page_size
    → page_size s.prev_page_size ≢ page_size size
    → let after = settle count size false s in
      let row = min s.page_index (page_count count size - 1) * page_size s.prev_page_size in
      (after.prev_page_size ≡ size)
      × (after.page_index * page_size size ≤ row)
      × (row < after.page_index * page_size size + page_size size)
change_page_size_lem count size s valid h =
    let scaled = scaled_lem count s.page_index s.prev_page_size size valid in
    let m = min s.page_index (page_count count size - 1) in
    let k = m * page_size s.prev_page_size / page_size size in
    let below : min k (page_count count size - 1) ≡ k = omega (arith, scaled) in
    rw (settle_lem count size false s)
      (rw (commit-resized count size s h) (rw below (refl, scaled.1, scaled.2)))

-- The strip counts the pages and shows the page as the table does; its buttons set the index before
-- and the one behind, and are disabled on the first page and on the last.
pub pagination_lem {ℓ} :
    {A : Type ℓ} (rows : List A) (size : PageSize) (i : ℕ)
    → let strip = pagination size i (length rows) in
      let table = apply_pagination rows (at i) size in
      (strip.total_pages ≡ table.total_pages)
      × (strip.shown_page ≡ suc table.page_index)
      × (strip.prev ≡ elim table.page_index [ zero ↦ none | suc j ↦ some j ])
      × (strip.next ≡ (
          if ltb (suc table.page_index) table.total_pages
          then some (suc table.page_index)
          else none))
unfolding pagination apply_pagination
pagination_lem rows size i =
    let least = page_count_least (length rows) size in
    let same : min (max 0 i) (page_count (length rows) size - 1)
        ≡ clamp_index (at i) (page_count (length rows) size) =
      unfold clamp_index in ground (arith, least) in
    let below = clamp_index-lt (at i) (page_count (length rows) size) least.0 in
    rw same (
      refl,
      refl,
      prev_lem (clamp_index (at i) (page_count (length rows) size)),
      ground (arith, below),
    )
  where
    prev_lem :
        (c : ℕ) → (if c == 0 then none else some (c - 1)) ≡ elim c [ zero ↦ none | suc j ↦ some j ]
    prev_lem zero = refl
    prev_lem (suc c) = ground arith
