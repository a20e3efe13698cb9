-- ===== src/Sessions/Filters/Kept.antt =====
-- filterSessions.ts: which rows `applyFilters` keeps.
use distill_portal.Prelude.{
  filter_kept, filter_gone, Text, Bool, true, List, [], ◌∷◌, filter, ◌≡◌, ◌↔◌, refl, sym, ap, ◌∙◌,
  Bool-cases, inl, inr,
}
use distill_portal.Sessions.Rows.{SessionRow}
use distill_portal.Sessions.FilterState.{SessionFiltersState}
use distill_portal.Sessions.Filters.{passes, apply_filters}
use distill_portal.Sessions.Filters.Passing.{IsPassing, passes_iff}
use mathlib.Core.List.{Memᴰ, Sublistᴰ}
use mathlib.Core.Path.{subst}

module _ {ℓ} {A : Type ℓ} (p : A → Bool) where
  mem-filter_sound : (x : A) (xs : List A) → Memᴰ x (filter p xs) → Memᴰ x xs × (p x ≡ true)
  mem-filter_sound x [] m = (m, elim m [ ])
  mem-filter_sound x (y ∷ ys) m = elim (Bool-cases (p y)) [
    | inl kept ↦ first kept (mem-filter_sound x ys) (subst (Memᴰ x) (filter_kept p y ys kept) m)
    | inr gone ↦
        let (m', h) = mem-filter_sound x ys (subst (Memᴰ x) (filter_gone p y ys gone) m) in
        (Memᴰ.tail m', h)
  ]
    where
      first :
          p y ≡ true
          → (Memᴰ x (filter p ys) → Memᴰ x ys × (p x ≡ true))
          → Memᴰ x (y ∷ filter p ys)
          → Memᴰ x (y ∷ ys) × (p x ≡ true)
      first kept later (Memᴰ.head e) = (Memᴰ.head e, ap p e ∙ kept)
      first kept later (Memᴰ.tail m) = let (m', h) = later m in (Memᴰ.tail m', h)

  mem-filter_complete : (x : A) (xs : List A) → Memᴰ x xs → p x ≡ true → Memᴰ x (filter p xs)
  mem-filter_complete x [] m h = elim m [ ]
  mem-filter_complete x (y ∷ ys) (Memᴰ.head e) h =
      subst (Memᴰ x) (sym (filter_kept p y ys (ap p (sym e) ∙ h))) (Memᴰ.head e)
  mem-filter_complete x (y ∷ ys) (Memᴰ.tail m) h = elim (Bool-cases (p y)) [
    | inl kept ↦
        subst (Memᴰ x) (sym (filter_kept p y ys kept)) (Memᴰ.tail (mem-filter_complete x ys m h))
    | inr gone ↦ subst (Memᴰ x) (sym (filter_gone p y ys gone)) (mem-filter_complete x ys m h)
  ]

  filter-Sublist : (xs : List A) → Sublistᴰ (filter p xs) xs
  filter-Sublist [] = Sublistᴰ.slnil
  filter-Sublist (y ∷ ys) = elim (Bool-cases (p y)) [
    | inl kept ↦
        subst (λ zs. Sublistᴰ zs (y ∷ ys)) (sym (filter_kept p y ys kept))
          (Sublistᴰ.cons-cons refl (filter-Sublist ys))
    | inr gone ↦
        subst (λ zs. Sublistᴰ zs (y ∷ ys)) (sym (filter_gone p y ys gone))
          (Sublistᴰ.cons (filter-Sublist ys))
  ]

-- The filters keep a row exactly if it meets every active one: the tool, the effective statuses (the
-- importable ones where that filter is on, whatever statuses are listed), a stored copy or none,
-- the project, and the trimmed search text somewhere in the row's four texts, both in lower case;
-- and the rows that are kept stay in their order, none twice that was there once.
pub apply_filters_lem :
    (lower : Text → Text) (rows : List SessionRow) (filters : SessionFiltersState)
    → ((row : SessionRow)
        → Memᴰ row (apply_filters lower rows filters)
          ↔ (Memᴰ row rows × IsPassing lower filters row))
      × Sublistᴰ (apply_filters lower rows filters) rows
unfolding apply_filters
apply_filters_lem lower rows filters = (
  λ row. (
    λ m.
        let (m', h) = mem-filter_sound (passes lower filters) row rows m in
        (m', (passes_iff lower filters row).0 h),
    λ h.
        mem-filter_complete (passes lower filters) row rows h.0
          ((passes_iff lower filters row).1 h.1),
  ),
  filter-Sublist (passes lower filters) rows,
)
