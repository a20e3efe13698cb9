-- ===== src/Sessions/Filters/Keys.antt =====
-- filterSessions.ts: the keys by which two rows are ordered, and how they are compared one after the other.
use distill_portal.Prelude.{
  Text, text_compare, text_compare_eq, text_compare-IsComparison, Option, none, some, List, [], ◌∷◌,
  ◌≡◌, ◌⊎◌, refl, sym, ap, ◌∙◌, Ordering, then_by, nulls_first, arith,
}
use mathlib.Core.Option
use distill_portal.Sessions.Rows.{SessionRow}
use distill_portal.Sessions.FilterState.{
  SortField, source_updated_at, created_at, ingested_at, title, project_path, SortDirection, asc,
  desc, SessionSort,
}
use distill_portal.Sessions.Filters.{or_empty, directed}

-- The first key where two rows differ decides: a missing one comes before any other.
pub data IsBelow : List (Option Text) → List (Option Text) → Type 0 where
  missing : {t : Text} {xs ys : List (Option Text)} → IsBelow (none ∷ xs) (some t ∷ ys)
  less :
      {s t : Text} {xs ys : List (Option Text)}
      → text_compare s t ≡ Ordering.lt
      → IsBelow (some s ∷ xs) (some t ∷ ys)
  tied : {x : Option Text} {xs ys : List (Option Text)} → IsBelow xs ys → IsBelow (x ∷ xs) (x ∷ ys)

-- A descending sort turns the keys round; rows with the same keys go by the row key, upwards in
-- both directions.
abbrev pub ByKeys : SortDirection → List (Option Text) → List (Option Text) → Type 0
ByKeys asc xs ys = IsBelow xs ys
ByKeys desc xs ys = IsBelow ys xs

abbrev pub compare_keys : List (Option Text) → List (Option Text) → Ordering
compare_keys [] [] = Ordering.eq
compare_keys [] (y ∷ ys) = Ordering.lt
compare_keys (x ∷ xs) [] = Ordering.gt
compare_keys (x ∷ xs) (y ∷ ys) = then_by (nulls_first text_compare x y) (compare_keys xs ys)

pub nulls_first_same : (x : Option Text) → nulls_first text_compare x x ≡ Ordering.eq
nulls_first_same none = refl
nulls_first_same (some t) = (text_compare_eq t t).1 refl

pub compare_keys_same : (xs : List (Option Text)) → compare_keys xs xs ≡ Ordering.eq
compare_keys_same [] = refl
compare_keys_same (x ∷ xs) = rw (nulls_first_same x) (compare_keys_same xs)

pub compare_keys-IsBelow :
    {xs ys : List (Option Text)} → IsBelow xs ys → compare_keys xs ys ≡ Ordering.lt
compare_keys-IsBelow missing = refl
compare_keys-IsBelow (less h) = rw h refl
compare_keys-IsBelow (tied {x} h) = rw (nulls_first_same x) (compare_keys-IsBelow h)

pub then_by_assoc : (p q r : Ordering) → then_by (then_by p q) r ≡ then_by p (then_by q r)
then_by_assoc p q r = ground arith

pub compare_keys-above :
    {xs ys : List (Option Text)} → IsBelow xs ys → compare_keys ys xs ≡ Ordering.gt
compare_keys-above missing = refl
compare_keys-above (less {s} {t} h) = rw (text_compare-IsComparison.flips s t, h) refl
compare_keys-above (tied {x} h) = rw (nulls_first_same x) (compare_keys-above h)

pub directed-then_by :
    (d : SortDirection) (p q : Ordering)
    → directed d (then_by p q) ≡ then_by (directed d p) (directed d q)
directed-then_by d p q = ground arith

-- The chain of comparisons, regrouped into that of the keys.
abbrev pub chain : SortDirection → List Ordering → Ordering → Ordering
chain d [] r = r
chain d (o ∷ os) r = then_by (directed d o) (chain d os r)

abbrev pub first_of : List Ordering → Ordering
first_of [] = Ordering.eq
first_of (o ∷ os) = then_by o (first_of os)

pub chain_lem :
    (d : SortDirection) (os : List Ordering) (r : Ordering)
    → chain d os r ≡ then_by (directed d (first_of os)) r
chain_lem asc [] r = refl
chain_lem desc [] r = refl
chain_lem d (o ∷ os) r =
    ap (then_by (directed d o)) (chain_lem d os r)
    ∙ sym (then_by_assoc (directed d o) (directed d (first_of os)) r)
    ∙ ap (λ p. then_by p r) (sym (directed-then_by d o (first_of os)))

-- The chosen field, the other timestamps, the title, the row key.
pub two_ties :
    (d : SortDirection) (c x y t r : Ordering)
    → then_by (directed d c) (
        then_by
          (then_by (directed d x) (then_by (directed d y) Ordering.eq))
          (then_by (directed d t) r))
      ≡ then_by (directed d (first_of (c ∷ x ∷ y ∷ t ∷ []))) r
two_ties d c x y t r = rw (then_by_assoc, then_by_assoc) (chain_lem d (c ∷ x ∷ y ∷ t ∷ []) r)

pub three_ties :
    (d : SortDirection) (c x y z t r : Ordering)
    → then_by (directed d c) (
        then_by
          (then_by (directed d x) (then_by (directed d y) (then_by (directed d z) Ordering.eq)))
          (then_by (directed d t) r))
      ≡ then_by (directed d (first_of (c ∷ x ∷ y ∷ z ∷ t ∷ []))) r
three_ties d c x y z t r =
    rw (then_by_assoc, then_by_assoc, then_by_assoc) (chain_lem d (c ∷ x ∷ y ∷ z ∷ t ∷ []) r)

pub no_title :
    (d : SortDirection) (c x y z r : Ordering)
    → then_by (directed d c) (
        then_by
          (then_by (directed d x) (then_by (directed d y) (then_by (directed d z) Ordering.eq)))
          r)
      ≡ then_by (directed d (first_of (c ∷ x ∷ y ∷ z ∷ []))) r
no_title d c x y z r =
    rw (then_by_assoc, then_by_assoc, then_by_assoc) (chain_lem d (c ∷ x ∷ y ∷ z ∷ []) r)

module _ (lower : Text → Text) where
  -- The keys of a row, the chosen field first.
  abbrev pub sort_keys : SortField → SessionRow → List (Option Text)
  sort_keys source_updated_at row =
      row.source_updated_at
      ∷ row.ingested_at
      ∷ row.created_at
      ∷ some (lower (or_empty row.title))
      ∷ []
  sort_keys ingested_at row =
      row.ingested_at
      ∷ row.source_updated_at
      ∷ row.created_at
      ∷ some (lower (or_empty row.title))
      ∷ []
  sort_keys created_at row =
      row.created_at
      ∷ row.source_updated_at
      ∷ row.ingested_at
      ∷ some (lower (or_empty row.title))
      ∷ []
  sort_keys title row =
      Option.map lower row.title ∷ row.source_updated_at ∷ row.ingested_at ∷ row.created_at ∷ []
  sort_keys project_path row =
      row.project_path
      ∷ row.source_updated_at
      ∷ row.ingested_at
      ∷ row.created_at
      ∷ some (lower (or_empty row.title))
      ∷ []

  abbrev pub ComesBefore : SessionSort → SessionRow → SessionRow → Type 0
  ComesBefore sort a b =
      ByKeys sort.direction (sort_keys sort.field a) (sort_keys sort.field b)
      ⊎ ((sort_keys sort.field a ≡ sort_keys sort.field b)
          × (text_compare a.row_key b.row_key ≡ Ordering.lt))
