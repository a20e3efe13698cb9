-- ===== src/Sessions/Pagination.antt =====
-- apps/frontend/src/features/sessions/applyPagination.ts. A page index is a JavaScript number: the
-- cases that the code tells apart are a non-finite one, a negative one, and a non-negative one with
-- its integral part.
pub mod Laws
use distill_portal.Prelude.{
  ℕ, zero, suc, ◌+◌, ◌-◌, ◌*◌, ◌/◌, max, List, length, take, drop, leb, if◌then◌else◌,
}

pub data PageSize : Type 0 where
  fifty hundred two_hundred : PageSize

abbrev pub page_size : PageSize → ℕ
page_size fifty = 50
page_size hundred = 100
page_size two_hundred = 200

-- `at n` is a number in [n, n + 1).
pub data PageIndex : Type 0 where
  non_finite negative : PageIndex
  at : ℕ → PageIndex

pub record PaginationResult {ℓ} (A : Type ℓ) : Type ℓ where
  pub page_rows : List A
  pub page_index : ℕ
  pub total_pages : ℕ

-- `Math.max(1, Math.ceil(count / size))`, for a positive size.
unfoldable pub page_count : ℕ → PageSize → ℕ
page_count count size = max 1 ((count + (page_size size - 1)) / page_size size)

-- `pageIndex >= totalPages` on a number in [n, n + 1) is `n >= totalPages`, a whole number.
unfoldable pub clamp_index : PageIndex → ℕ → ℕ
clamp_index non_finite total = 0
clamp_index negative total = 0
clamp_index (at n) total = if leb total n then total - 1 else n

-- `rows.slice(start, end)`.
abbrev slice {ℓ} : {A : Type ℓ} → ℕ → ℕ → List A → List A
slice start end rows = take (end - start) (drop start rows)

unfoldable pub apply_pagination {ℓ} :
    {A : Type ℓ} → List A → PageIndex → PageSize → PaginationResult A
unfolding page_count clamp_index
apply_pagination rows index size =
    let total = page_count (length rows) size in
    let clamped = clamp_index index total in
    let start = clamped * page_size size in
    record {
      page_rows = slice start (start + page_size size) rows;
      page_index = clamped;
      total_pages = total;
    }
