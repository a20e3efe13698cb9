-- ===== src/Tests/Sessions.antt =====
-- The theorems on the list of sessions at concrete rows.
use mathlib.Core.List.{Permᴰ, Memᴰ, Sublistᴰ}
use distill_portal.Prelude.{
  Text, Option, none, some, List, [], ◌∷◌, ◌++◌, map, filter, not, length, All, ◌≡◌, ◌↔◌, refl,
  arith,
}
use distill_portal.Prelude.Int.{ℤ}
use distill_portal.Contracts.{claude_code, outdated}
use distill_portal.Sessions.Rows.{SessionRow}
use distill_portal.Sessions.Merge.{merge_sessions, stored_only_row}
use distill_portal.Sessions.Merge.Join.{source_row, has_source, merge_sessions_lem}
use distill_portal.Sessions.Merge.Laws.{
  IsConsistent, merge_sessions-IsConsistent, IsBacked, merge_sessions-IsBacked,
}
use distill_portal.Sessions.Pagination.{fifty, page_count}
use distill_portal.Sessions.Pagination.Laws.{pages, pages-eq-rows}
use distill_portal.Sessions.FilterState.{
  title, desc, only, stored, SessionSort, SessionFiltersState, default_filters,
}
use distill_portal.Sessions.Filters.{apply_filters, apply_sort}
use distill_portal.Sessions.Filters.Passing.{IsPassing}
use distill_portal.Sessions.Filters.Kept.{apply_filters_lem}
use distill_portal.Sessions.Filters.Order.{apply_sort-perm_eq}
use distill_portal.Sessions.Filters.Nulls.{Throughout}
use distill_portal.Sessions.Filters.Keys.{ComesBefore}
use distill_portal.Sessions.Filters.Sorted.{apply_sort-Throughout}
use distill_portal.Tests.Data.{sources, stored_sessions, row_a, row_b}

merge_sessions_lem_example :
    merge_sessions sources stored_sessions
    ≡ map (source_row stored_sessions) sources
      ++ map stored_only_row (filter (λ st. not (has_source sources st)) stored_sessions)
merge_sessions_lem_example = merge_sessions_lem sources stored_sessions

merge_sessions-IsConsistent_example : All IsConsistent (merge_sessions sources stored_sessions)
merge_sessions-IsConsistent_example = merge_sessions-IsConsistent sources stored_sessions

merge_sessions-IsBacked_example : All (IsBacked sources) (merge_sessions sources stored_sessions)
merge_sessions-IsBacked_example = merge_sessions-IsBacked sources stored_sessions

abbrev rows : List SessionRow
rows = row_a ∷ row_b ∷ []

pages-eq-rows_example : pages rows fifty (page_count (length rows) fifty) ≡ rows
pages-eq-rows_example = pages-eq-rows rows fifty

abbrev same : Text → Text
same s = s

abbrev asked : SessionFiltersState
asked = record default_filters {
  tool = only claude_code;
  status = outdated ∷ [];
  storage = stored;
  project = some (112 ∷ []);
  search = 32 ∷ 122 ∷ [];
}

apply_filters_lem_example :
    ((row : SessionRow)
      → Memᴰ row (apply_filters same rows asked) ↔ (Memᴰ row rows × IsPassing same asked row))
    × Sublistᴰ (apply_filters same rows asked) rows
apply_filters_lem_example = apply_filters_lem same rows asked

abbrev by_title : SessionSort
by_title = record { field = title; direction = desc }

apply_sort-Throughout_example :
    Permᴰ (apply_sort same rows by_title) rows
    × Throughout (λ a b. ¬ ComesBefore same by_title b a) (apply_sort same rows by_title)
apply_sort-Throughout_example = apply_sort-Throughout same rows by_title

apply_sort-perm_eq_example :
    apply_sort same rows by_title ≡ apply_sort same (row_b ∷ row_a ∷ []) by_title
apply_sort-perm_eq_example =
    apply_sort-perm_eq same by_title {rows = rows} {rows' = row_b ∷ row_a ∷ []}
      (Permᴰ.swap refl refl) ((λ e. absurd (ground arith), tt), (tt, tt))

abbrev no_dates : Text → Option ℤ
no_dates s = none
