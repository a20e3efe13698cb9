-- ===== src/Sessions/Projects/Laws.antt =====
-- filterSessions.ts: the project paths that the filter offers.
use distill_portal.Prelude.{
  Text, text_eq, text_eq_iff, text_compare, text_compare_eq, text_compare-IsComparison, true, false,
  Option, none, some, List, [], ◌∷◌, ◌++◌, sort_by-perm, sort_by-IsSortedBy, IsSortedBy,
  IsDistinctBy, IsDistinctBy-perm, All-append, Ordering, ◌≡◌, ◌≢◌, ◌↔◌, ◌⊎◌, inl, inr, refl, sym,
  ap, ◌∙◌, Bool-cases, arith,
}
use mathlib.Core.List.{Memᴰ, Permᴰ}
use mathlib.Core.List.Permᴰ
use mathlib.Core.Path.{subst}
use mathlib.Core.Option.{some-injective}
use distill_portal.Sessions.Rows.{SessionRow}
use distill_portal.Sessions.Projects.{has_path, add_path, collect_paths, distinct_project_paths}

mem-snoc {ℓ} :
    {A : Type ℓ} (x : A) (xs : List A) (y : A) → Memᴰ x (xs ++ y ∷ []) → Memᴰ x xs ⊎ (x ≡ y)
mem-snoc x [] y (Memᴰ.head e) = inr e
mem-snoc x [] y (Memᴰ.tail m) = inl m
mem-snoc x (z ∷ xs) y (Memᴰ.head e) = inl (Memᴰ.head e)
mem-snoc x (z ∷ xs) y (Memᴰ.tail m) = elim (mem-snoc x xs y m) [
  | inl m' ↦ inl (Memᴰ.tail m')
  | inr e ↦ inr e
]

mem-front {ℓ} : {A : Type ℓ} (x : A) (xs : List A) (y : A) → Memᴰ x xs → Memᴰ x (xs ++ y ∷ [])
mem-front x [] y m = elim m [ ]
mem-front x (z ∷ xs) y (Memᴰ.head e) = Memᴰ.head e
mem-front x (z ∷ xs) y (Memᴰ.tail m) = Memᴰ.tail (mem-front x xs y m)

mem-back {ℓ} : {A : Type ℓ} (xs : List A) (y : A) → Memᴰ y (xs ++ y ∷ [])
mem-back [] y = Memᴰ.head refl
mem-back (z ∷ xs) y = Memᴰ.tail (mem-back xs y)

mem-perm {ℓ} : {A : Type ℓ} {x : A} {xs ys : List A} → Permᴰ xs ys → Memᴰ x xs → Memᴰ x ys
mem-perm Permᴰ.nil m = m
mem-perm (Permᴰ.cons e p) (Memᴰ.head f) = Memᴰ.head (f ∙ e)
mem-perm (Permᴰ.cons e p) (Memᴰ.tail m) = Memᴰ.tail (mem-perm p m)
mem-perm (Permᴰ.swap e f) (Memᴰ.head g) = Memᴰ.tail (Memᴰ.head (g ∙ e))
mem-perm (Permᴰ.swap e f) (Memᴰ.tail (Memᴰ.head g)) = Memᴰ.head (g ∙ f)
mem-perm (Permᴰ.swap e f) (Memᴰ.tail (Memᴰ.tail m)) = Memᴰ.tail (Memᴰ.tail m)
mem-perm (Permᴰ.trans p q) m = mem-perm q (mem-perm p m)

has_path-mem : (p : Text) (seen : List Text) → has_path p seen ≡ true → Memᴰ p seen
unfolding has_path
has_path-mem p [] h = absurd (ground arith)
has_path-mem p (q ∷ seen) h = elim (Bool-cases (text_eq q p)) [
  | inl same ↦ Memᴰ.head (sym ((text_eq_iff q p).0 same))
  | inr other ↦ Memᴰ.tail (has_path-mem p seen (ground arith))
]

-- A path that is not in a set of distinct ones makes a larger such set.
distinct-snoc :
    (p : Text) (seen : List Text)
    → has_path p seen ≡ false
    → IsDistinctBy text_compare seen
    → IsDistinctBy text_compare (seen ++ p ∷ [])
unfolding has_path
distinct-snoc p [] h d = (tt, tt)
distinct-snoc p (q ∷ seen) h (far, d) = (
  All-append (λ y. text_compare q y ≢ Ordering.eq) seen (p ∷ []) far (ne, tt),
  distinct-snoc p seen (ground arith) d,
)
  where
    ne : text_compare q p ≢ Ordering.eq
    ne e = absurd (ground (arith, (text_eq_iff q p).1 ((text_compare_eq q p).0 e)))

add_path-distinct :
    (o : Option Text) (seen : List Text)
    → IsDistinctBy text_compare seen
    → IsDistinctBy text_compare (add_path o seen)
unfolding add_path
add_path-distinct none seen d = d
add_path-distinct (some p) seen d = elim (Bool-cases (has_path p seen)) [
  | inl old ↦ rw old d
  | inr new ↦ rw new (distinct-snoc p seen new d)
]

add_path_iff :
    (o : Option Text) (seen : List Text) (p : Text)
    → Memᴰ p (add_path o seen) ↔ (Memᴰ p seen ⊎ (o ≡ some p))
unfolding add_path
add_path_iff none seen p = (λ m. inl m, λ h. elim h [ inl m ↦ m | inr e ↦ absurd (ground arith) ])
add_path_iff (some q) seen p = elim (Bool-cases (has_path q seen)) [
  | inl old ↦ rw old (
    λ m. inl m,
    λ h. elim h [
      | inl m ↦ m
      | inr e ↦ subst (λ r. Memᴰ r seen) (some-injective _ _ e) (has_path-mem q seen old)
    ],
  )
  | inr new ↦ rw new (
    λ m. elim (mem-snoc p seen q m) [ inl m' ↦ inl m' | inr e ↦ inr (ap some (sym e)) ],
    λ h. elim h [
      | inl m ↦ mem-front p seen q m
      | inr e ↦ subst (λ r. Memᴰ r (seen ++ q ∷ [])) (some-injective _ _ e) (mem-back seen q)
    ],
  )
]

-- A row of the list has the path.
abbrev pub IsProjectOf : List SessionRow → Text → Type 0
IsProjectOf rows p = (row : SessionRow) × Memᴰ row rows × (row.project_path ≡ some p)

collect_paths_iff :
    (rows : List SessionRow) (seen : List Text) (p : Text)
    → Memᴰ p (collect_paths rows seen) ↔ (Memᴰ p seen ⊎ IsProjectOf rows p)
unfolding collect_paths
collect_paths_iff [] seen p = (λ m. inl m, λ h. elim h [ inl m ↦ m | inr (row, m, e) ↦ elim m [ ] ])
collect_paths_iff (row ∷ rows) seen p =
    let rest = collect_paths_iff rows (add_path row.project_path seen) p in
    let here = add_path_iff row.project_path seen p in
    (
      λ m. elim (rest.0 m) [
        | inl m' ↦ elim (here.0 m') [ inl old ↦ inl old | inr e ↦ inr (row, Memᴰ.head refl, e) ]
        | inr (row', m', e) ↦ inr (row', Memᴰ.tail m', e)
      ],
      λ h. elim h [
        | inl old ↦ rest.1 (inl (here.1 (inl old)))
        | inr (row', m, e) ↦ rest.1 (later row' m e)
      ],
    )
  where
    later :
        (row' : SessionRow)
        → Memᴰ row' (row ∷ rows)
        → row'.project_path ≡ some p
        → Memᴰ p (add_path row.project_path seen) ⊎ IsProjectOf rows p
    later row' (Memᴰ.head same) e =
        inl
          ((add_path_iff row.project_path seen p).1 (inr (ap (λ r. r.project_path) (sym same) ∙ e)))
    later row' (Memᴰ.tail m) e = inr (row', m, e)

collect_paths-distinct :
    (rows : List SessionRow) (seen : List Text)
    → IsDistinctBy text_compare seen
    → IsDistinctBy text_compare (collect_paths rows seen)
unfolding collect_paths
collect_paths-distinct [] seen d = d
collect_paths-distinct (row ∷ rows) seen d =
    collect_paths-distinct rows (add_path row.project_path seen)
      (add_path-distinct row.project_path seen d)

-- The project paths offered are exactly those of the rows that have one, each once, in ascending
-- order of code units.
pub distinct_project_paths_lem :
    (rows : List SessionRow)
    → ((p : Text) → Memᴰ p (distinct_project_paths rows) ↔ IsProjectOf rows p)
      × IsDistinctBy text_compare (distinct_project_paths rows)
      × IsSortedBy text_compare (distinct_project_paths rows)
unfolding distinct_project_paths
distinct_project_paths_lem rows =
    let paths = collect_paths rows [] in
    let perm = sort_by-perm text_compare paths in
    (
      λ p.
          let found = collect_paths_iff rows [] p in
          (
            λ m. elim (found.0 (mem-perm perm m)) [ inl m' ↦ elim m' [ ] | inr h ↦ h ],
            λ h. mem-perm (Permᴰ.symm perm) (found.1 (inr h)),
          ),
      IsDistinctBy-perm text_compare text_compare-IsComparison (Permᴰ.symm perm)
          (collect_paths-distinct rows [] tt),
      sort_by-IsSortedBy text_compare text_compare-IsComparison paths,
    )
