-- ===== src/Sessions/Filters/Sorted.antt =====
-- filterSessions.ts: the order of the sorted list, read off the keys of two rows.
use distill_portal.Prelude.{
  Text, text_compare, Option, none, some, List, [], ◌∷◌, All-mono, ◌≡◌, ◌≢◌, inl, inr, refl, ◌∙◌,
  Ordering, then_by, nulls_first, IsSortedBy,
}
use mathlib.Core.Option
use mathlib.Core.List.{Permᴰ}
use distill_portal.Sessions.Filters.Nulls.{Throughout}
use distill_portal.Sessions.Rows.{SessionRow}
use distill_portal.Sessions.FilterState.{
  SortField, source_updated_at, created_at, ingested_at, title, project_path, SortDirection, asc,
  desc, SessionSort,
}
use distill_portal.Sessions.Filters.{directed, compare_field, tiebreak, compare_rows, apply_sort}
use distill_portal.Sessions.Filters.Order.{
  compare_nullable_lem, compare_rows-IsComparison, apply_sort_lem,
}
use distill_portal.Sessions.Filters.Keys.{
  ByKeys, sort_keys, ComesBefore, compare_keys, compare_keys-IsBelow, compare_keys-above,
  compare_keys_same, no_title, three_ties, two_ties,
}

module _ (lower : Text → Text) where
  lowered_lem :
      (a b : Option Text)
      → nulls_first (λ s t. text_compare (lower s) (lower t)) a b
        ≡ nulls_first text_compare (Option.map lower a) (Option.map lower b)
  lowered_lem none none = refl
  lowered_lem none (some b) = refl
  lowered_lem (some a) none = refl
  lowered_lem (some a) (some b) = refl

  compare_rows_lem :
      (sort : SessionSort) (a b : SessionRow)
      → compare_rows lower sort a b
        ≡ then_by
            (directed sort.direction
              (compare_keys (sort_keys lower sort.field a) (sort_keys lower sort.field b)))
            (text_compare a.row_key b.row_key)
  unfolding compare_rows compare_field tiebreak
  compare_rows_lem sort a b = by_field sort.field
    where
      d : SortDirection
      d = sort.direction

      by_field :
          (f : SortField)
          → compare_rows lower (record { field = f; direction = d }) a b
            ≡ then_by
                (directed d (compare_keys (sort_keys lower f a) (sort_keys lower f b)))
                (text_compare a.row_key b.row_key)
      by_field title =
          rw
            (
              compare_nullable_lem lower title d a.title b.title,
              lowered_lem a.title b.title,
              compare_nullable_lem lower source_updated_at d a.source_updated_at
                  b.source_updated_at,
              compare_nullable_lem lower ingested_at d a.ingested_at b.ingested_at,
              compare_nullable_lem lower created_at d a.created_at b.created_at,
            )
            (no_title d _ _ _ _ _)
      by_field source_updated_at =
          rw
            (
              compare_nullable_lem lower source_updated_at d a.source_updated_at
                  b.source_updated_at,
              compare_nullable_lem lower ingested_at d a.ingested_at b.ingested_at,
              compare_nullable_lem lower created_at d a.created_at b.created_at,
            )
            (two_ties d _ _ _ _ _)
      by_field created_at =
          rw
            (
              compare_nullable_lem lower created_at d a.created_at b.created_at,
              compare_nullable_lem lower source_updated_at d a.source_updated_at
                  b.source_updated_at,
              compare_nullable_lem lower ingested_at d a.ingested_at b.ingested_at,
            )
            (two_ties d _ _ _ _ _)
      by_field ingested_at =
          rw
            (
              compare_nullable_lem lower ingested_at d a.ingested_at b.ingested_at,
              compare_nullable_lem lower source_updated_at d a.source_updated_at
                  b.source_updated_at,
              compare_nullable_lem lower created_at d a.created_at b.created_at,
            )
            (two_ties d _ _ _ _ _)
      by_field project_path =
          rw
            (
              compare_nullable_lem lower project_path d a.project_path b.project_path,
              compare_nullable_lem lower source_updated_at d a.source_updated_at
                  b.source_updated_at,
              compare_nullable_lem lower ingested_at d a.ingested_at b.ingested_at,
              compare_nullable_lem lower created_at d a.created_at b.created_at,
            )
            (three_ties d _ _ _ _ _ _)

  keys_first :
      (d : SortDirection) (xs ys : List (Option Text))
      → ByKeys d xs ys
      → directed d (compare_keys xs ys) ≡ Ordering.lt
  keys_first asc xs ys h = compare_keys-IsBelow h
  keys_first desc xs ys h = rw (compare_keys-above h) refl

  directed_same : (d : SortDirection) → directed d Ordering.eq ≡ Ordering.eq
  directed_same asc = refl
  directed_same desc = refl

  compare_rows-ComesBefore :
      (sort : SessionSort) (a b : SessionRow)
      → ComesBefore lower sort a b
      → compare_rows lower sort a b ≡ Ordering.lt
  compare_rows-ComesBefore sort a b (inl h) =
      compare_rows_lem sort a b
      ∙ rw
          (keys_first sort.direction (sort_keys lower sort.field a) (sort_keys lower sort.field b)
            h)
          refl
  compare_rows-ComesBefore sort a b (inr (same, key)) =
      compare_rows_lem sort a b
      ∙ rw
          (
            same,
            compare_keys_same (sort_keys lower sort.field b),
            directed_same sort.direction,
            key,
          )
          refl

  not_before :
      (sort : SessionSort) (a b : SessionRow)
      → compare_rows lower sort a b ≢ Ordering.gt
      → ¬ ComesBefore lower sort b a
  not_before sort a b h before = h (
      (compare_rows-IsComparison lower sort).flips b a
      ∙ rw (compare_rows-ComesBefore sort b a before) refl)

  Throughout-IsSortedBy :
      (sort : SessionSort) (rows : List SessionRow)
      → IsSortedBy (compare_rows lower sort) rows
      → Throughout (λ a b. ¬ ComesBefore lower sort b a) rows
  Throughout-IsSortedBy sort [] h = tt
  Throughout-IsSortedBy sort (row ∷ rows) (far, h) = (
    All-mono (λ b. compare_rows lower sort row b ≢ Ordering.gt)
        (λ b. ¬ ComesBefore lower sort b row) rows (not_before sort row) far,
    Throughout-IsSortedBy sort rows h,
  )

  -- Sorting rearranges the rows, and no row comes behind one that it should come before: the first
  -- of these keys in which two rows differ decides, a missing one as the least and in a descending
  -- sort the greatest: the chosen field, the other timestamps (updated, ingested, created), the
  -- title in lower case; where all agree, the row key, upwards in both directions.
  pub apply_sort-Throughout :
      (rows : List SessionRow) (sort : SessionSort)
      → Permᴰ (apply_sort lower rows sort) rows
        × Throughout (λ a b. ¬ ComesBefore lower sort b a) (apply_sort lower rows sort)
  apply_sort-Throughout rows sort =
      let h = apply_sort_lem lower rows sort in
      (h.0, Throughout-IsSortedBy sort (apply_sort lower rows sort) h.1)
