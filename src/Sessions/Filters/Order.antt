-- ===== src/Sessions/Filters/Order.antt =====
-- filterSessions.ts: the comparator, and the sorted list.
use distill_portal.Prelude.{
  Text, text_compare, text_compare_eq, text_compare-IsComparison, Bool, true, false, Option, none,
  some, List, [], ◌∷◌, All, All-mono, ◌≡◌, ◌≢◌, refl, Ordering, then_by, IsComparison,
  then_by-IsComparison, flip-IsComparison, comap-IsComparison, nulls_first,
  nulls_first-IsComparison, IsSortedBy, IsDistinctBy, sort_by-perm, sort_by-IsSortedBy,
  sort_by-perm_eq, if◌then◌else◌, arith,
}
use distill_portal.Sessions.Rows.{SessionRow}
use distill_portal.Sessions.FilterState.{
  SortField, source_updated_at, created_at, ingested_at, title, project_path, SortDirection, asc,
  desc, SessionSort,
}
use distill_portal.Sessions.Filters.{
  or_empty, read_field, directed, compare_values, compare_nullable, compare_field, field_eq,
  tiebreak, tiebreak_timestamps, compare_titles, compare_rows, apply_sort,
}
use mathlib.Core.List.{Permᴰ}

-- A comparator that agrees with a total preorder is one.
same-IsComparison {ℓ} :
    {A : Type ℓ} (p q : A → A → Ordering)
    → ((a b : A) → p a b ≡ q a b)
    → IsComparison q
    → IsComparison p
same-IsComparison p q e h = record {
  flips = λ a b. ground (arith, e a b, e b a, h.flips a b);
  chains = λ a b c k l. ground (arith, e a b, e b c, e a c, h.chains a b c);
  joins = λ a b c k. ground (arith, e a b, e b c, e a c, h.joins a b c);
}

equal-IsComparison {ℓ} : {A : Type ℓ} → IsComparison {A = A} (λ a b. Ordering.eq)
equal-IsComparison = record {
  flips = λ a b. refl;
  chains = λ a b c k l. k;
  joins = λ a b c k. refl;
}

directed-IsComparison {ℓ} :
    {A : Type ℓ} (p : A → A → Ordering) (direction : SortDirection)
    → IsComparison p
    → IsComparison (λ a b. directed direction (p a b))
directed-IsComparison p asc h = h
directed-IsComparison p desc h = flip-IsComparison p h

module _ (lower : Text → Text) where
  compare_values-IsComparison : (f : SortField) → IsComparison (compare_values lower f)
  compare_values-IsComparison title =
      comap-IsComparison lower text_compare text_compare-IsComparison
  compare_values-IsComparison source_updated_at = text_compare-IsComparison
  compare_values-IsComparison created_at = text_compare-IsComparison
  compare_values-IsComparison ingested_at = text_compare-IsComparison
  compare_values-IsComparison project_path = text_compare-IsComparison

  -- Nulls first, and the whole turned round in a descending sort.
  pub compare_nullable_lem :
      (f : SortField) (d : SortDirection) (a b : Option Text)
      → compare_nullable lower f d a b ≡ directed d (nulls_first (compare_values lower f) a b)
  compare_nullable_lem f asc none none = refl
  compare_nullable_lem f desc none none = refl
  compare_nullable_lem f asc none (some b) = refl
  compare_nullable_lem f desc none (some b) = refl
  compare_nullable_lem f asc (some a) none = refl
  compare_nullable_lem f desc (some a) none = refl
  compare_nullable_lem f d (some a) (some b) = refl

  compare_field-IsComparison :
      (f : SortField) (d : SortDirection)
      → IsComparison (λ (a b : SessionRow). compare_field lower a b f d)
  unfolding compare_field
  compare_field-IsComparison f d =
      comap-IsComparison (λ (row : SessionRow). read_field row f) (compare_nullable lower f d)
        (same-IsComparison _ _ (compare_nullable_lem f d) (
          directed-IsComparison (nulls_first (compare_values lower f)) d
            (nulls_first-IsComparison _ (compare_values-IsComparison f))))

  tiebreak-IsComparison :
      (sort : SessionSort) (fields : List SortField)
      → IsComparison (λ a b. tiebreak lower sort fields a b)
  unfolding tiebreak
  tiebreak-IsComparison sort [] = equal-IsComparison
  tiebreak-IsComparison sort (f ∷ fields) =
      cases (field_eq f sort.field) (tiebreak-IsComparison sort fields)
    where
      cases :
          (chosen : Bool)
          → IsComparison (λ a b. tiebreak lower sort fields a b)
          → IsComparison (λ (a b : SessionRow).
            if chosen
            then tiebreak lower sort fields a b
            else then_by
                (compare_field lower a b f sort.direction)
                (tiebreak lower sort fields a b))
      cases true ih = ih
      cases false ih =
          then_by-IsComparison (λ a b. compare_field lower a b f sort.direction)
            (λ a b. tiebreak lower sort fields a b) (compare_field-IsComparison f sort.direction) ih

  compare_titles-IsComparison :
      (f : SortField) (d : SortDirection)
      → IsComparison (λ (a b : SessionRow). compare_titles lower f d a b)
  compare_titles-IsComparison f d = cases f
    where
      lowered : IsComparison (λ (a b : SessionRow).
          directed d (text_compare (lower (or_empty a.title)) (lower (or_empty b.title))))
      lowered =
          directed-IsComparison
            (λ a b. text_compare (lower (or_empty a.title)) (lower (or_empty b.title))) d
            (comap-IsComparison (λ (row : SessionRow). lower (or_empty row.title)) text_compare
              text_compare-IsComparison)

      cases : (g : SortField) → IsComparison (λ (a b : SessionRow). compare_titles lower g d a b)
      cases title = equal-IsComparison
      cases source_updated_at = lowered
      cases created_at = lowered
      cases ingested_at = lowered
      cases project_path = lowered

  -- The comparator of the sort is a total preorder, for every sort field and direction and whatever
  -- `toLowerCase` returns: antisymmetric as a sign, transitive, and equal rows compare alike.
  pub compare_rows-IsComparison : (sort : SessionSort) → IsComparison (compare_rows lower sort)
  unfolding compare_rows
  compare_rows-IsComparison sort =
      then_by-IsComparison (λ a b. compare_field lower a b sort.field sort.direction) _
        (compare_field-IsComparison sort.field sort.direction)
        (then_by-IsComparison (λ a b. tiebreak lower sort tiebreak_timestamps a b) _
          (tiebreak-IsComparison sort tiebreak_timestamps)
          (then_by-IsComparison (λ a b. compare_titles lower sort.field sort.direction a b) _
            (compare_titles-IsComparison sort.field sort.direction)
            (comap-IsComparison (λ (row : SessionRow). row.row_key) text_compare
              text_compare-IsComparison)))

  -- Sorting rearranges the rows, and puts no row behind one that the comparator puts after it.
  pub apply_sort_lem :
      (rows : List SessionRow) (sort : SessionSort)
      → Permᴰ (apply_sort lower rows sort) rows
        × IsSortedBy (compare_rows lower sort) (apply_sort lower rows sort)
  unfolding apply_sort
  apply_sort_lem rows sort = (
    sort_by-perm (compare_rows lower sort) rows,
    sort_by-IsSortedBy (compare_rows lower sort) (compare_rows-IsComparison sort) rows,
  )

  row_key_of_eq :
      (sort : SessionSort) (a b : SessionRow)
      → compare_rows lower sort a b ≡ Ordering.eq
      → a.row_key ≡ b.row_key
  unfolding compare_rows
  row_key_of_eq sort a b h = (text_compare_eq a.row_key b.row_key).0 (
      last_eq (compare_field lower a b sort.field sort.direction)
        (tiebreak lower sort tiebreak_timestamps a b)
        (compare_titles lower sort.field sort.direction a b) (text_compare a.row_key b.row_key) h)
    where
      last_eq :
          (o p q r : Ordering) → then_by o (then_by p (then_by q r)) ≡ Ordering.eq → r ≡ Ordering.eq
      last_eq o p q r h = ground arith

  -- No two rows share a row key.
  abbrev pub HasDistinctKeys : List SessionRow → Type 0
  HasDistinctKeys [] = Unit
  HasDistinctKeys (row ∷ rows) = All (λ r. row.row_key ≢ r.row_key) rows × HasDistinctKeys rows

  distinct_of_keys :
      (sort : SessionSort) (rows : List SessionRow)
      → HasDistinctKeys rows
      → IsDistinctBy (compare_rows lower sort) rows
  distinct_of_keys sort [] h = tt
  distinct_of_keys sort (row ∷ rows) (far, h) = (
    All-mono (λ r. row.row_key ≢ r.row_key) (λ r. compare_rows lower sort row r ≢ Ordering.eq) rows
        (λ r ne e. ne (row_key_of_eq sort row r e)) far,
    distinct_of_keys sort rows h,
  )

  -- Where the row keys are distinct, the sorted list does not depend on the order in which the rows
  -- come: two arrangements of the same rows are shown alike.
  pub apply_sort-perm_eq :
      (sort : SessionSort) {rows rows' : List SessionRow}
      → Permᴰ rows rows'
      → HasDistinctKeys rows
      → apply_sort lower rows sort ≡ apply_sort lower rows' sort
  unfolding apply_sort
  apply_sort-perm_eq sort {rows = rows} p h =
      sort_by-perm_eq (compare_rows lower sort) (compare_rows-IsComparison sort) p
        (distinct_of_keys sort rows h)
