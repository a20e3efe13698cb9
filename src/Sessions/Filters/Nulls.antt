-- ===== src/Sessions/Filters/Nulls.antt =====
-- filterSessions.ts: where the sort puts the rows that lack the chosen field.
use distill_portal.Prelude.{
  Text, Option, none, some, List, [], ◌∷◌, All, All-mono, ◌≡◌, ◌≢◌, Ordering, then_by, IsSortedBy,
  arith,
}
use distill_portal.Sessions.Rows.{SessionRow}
use distill_portal.Sessions.FilterState.{SortField, SortDirection, asc, desc, SessionSort}
use distill_portal.Sessions.Filters.{
  read_field, compare_nullable, compare_field, compare_rows, apply_sort,
}
use distill_portal.Sessions.Filters.Order.{apply_sort_lem}

-- Of a field before and the same field of a row behind: ascending, no null stands behind a value;
-- descending, no value behind a null.
abbrev pub NullsPlaced : SortDirection → Option Text → Option Text → Type 0
NullsPlaced asc before behind = before ≢ none → behind ≢ none
NullsPlaced desc before behind = before ≡ none → behind ≡ none

-- A relation between every element and each one behind it.
abbrev pub Throughout : (SessionRow → SessionRow → Type 0) → List SessionRow → Type 0
Throughout R [] = Unit
Throughout R (row ∷ rows) = All (R row) rows × Throughout R rows

module _ (lower : Text → Text) (sort : SessionSort) where
  nulls_of_nullable :
      (f : SortField) (d : SortDirection) (a b : Option Text)
      → compare_nullable lower f d a b ≢ Ordering.gt
      → NullsPlaced d a b
  nulls_of_nullable f asc none b h = λ e. absurd (ground arith)
  nulls_of_nullable f desc none none h = λ e. ground arith
  nulls_of_nullable f desc none (some b) h = λ e. absurd (ground arith)
  nulls_of_nullable f asc (some a) none h = λ e. absurd (ground arith)
  nulls_of_nullable f asc (some a) (some b) h = λ e k. ground arith
  nulls_of_nullable f desc (some a) b h = λ e. absurd (ground arith)

  first-ne-gt : (o p : Ordering) → then_by o p ≢ Ordering.gt → o ≢ Ordering.gt
  first-ne-gt o p h e = ground arith

  nulls_of_le :
      (a b : SessionRow)
      → compare_rows lower sort a b ≢ Ordering.gt
      → NullsPlaced sort.direction (read_field a sort.field) (read_field b sort.field)
  unfolding compare_rows
  nulls_of_le a b h =
      nulls_of_nullable sort.field sort.direction (read_field a sort.field)
        (read_field b sort.field)
        (first-ne-gt (compare_field lower a b sort.field sort.direction) _ h)

  Throughout-of_sorted :
      (rows : List SessionRow)
      → IsSortedBy (compare_rows lower sort) rows
      → Throughout
          (λ a b. NullsPlaced sort.direction (read_field a sort.field) (read_field b sort.field))
          rows
  Throughout-of_sorted [] h = tt
  Throughout-of_sorted (row ∷ rows) (far, h) = (
    All-mono (λ b. compare_rows lower sort row b ≢ Ordering.gt)
        (λ b. NullsPlaced sort.direction (read_field row sort.field) (read_field b sort.field)) rows
        (nulls_of_le row) far,
    Throughout-of_sorted rows h,
  )

  -- In the sorted list the rows that lack the chosen field come before all others in an ascending
  -- sort, and behind all others in a descending one.
  pub apply_sort-NullsPlaced :
      (rows : List SessionRow)
      → Throughout
          (λ a b. NullsPlaced sort.direction (read_field a sort.field) (read_field b sort.field))
          (apply_sort lower rows sort)
  apply_sort-NullsPlaced rows =
      Throughout-of_sorted (apply_sort lower rows sort) (apply_sort_lem lower rows sort).1
