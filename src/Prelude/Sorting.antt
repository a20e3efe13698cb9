-- ===== src/Prelude/Sorting.antt =====
-- `Array.prototype.sort` with a comparator: a stable sort. For a comparator that is a total preorder
-- every stable sort gives the same list; this one inserts each element before its equals.
use Prim.Native.Nat.{Ordering}
use mathlib.Core.Path.{◌≡◌, refl, ◌∙◌, ap₂, subst}
use mathlib.Core.Logic.{◌≢◌}
use mathlib.Core.List.Permᴰ
use mathlib.Core.List.{List, [], ◌∷◌, Permᴰ}
use native.Mathlib.Omega.{arith}
use distill_portal.Prelude.Lists.{All, All-mono}
use distill_portal.Prelude.Compare.{IsComparison}

module _ {ℓ} {A : Type ℓ} (cmp : A → A → Ordering) where
  insert_by : A → List A → List A
  insert_by x [] = x ∷ []
  insert_by x (y ∷ ys) =
      let rest = y ∷ insert_by x ys in elim (cmp x y) [ Ordering.gt ↦ rest | _ ↦ x ∷ y ∷ ys ]

  unfoldable pub sort_by : List A → List A
  unfolding insert_by
  sort_by [] = []
  sort_by (x ∷ xs) = insert_by x (sort_by xs)

  -- No element is above a later one.
  abbrev pub IsSortedBy : List A → Type ℓ
  IsSortedBy [] = Unit
  IsSortedBy (x ∷ xs) = All (λ y. cmp x y ≢ Ordering.gt) xs × IsSortedBy xs

  -- No two elements compare as equal.
  abbrev pub IsDistinctBy : List A → Type ℓ
  IsDistinctBy [] = Unit
  IsDistinctBy (x ∷ xs) = All (λ y. cmp x y ≢ Ordering.eq) xs × IsDistinctBy xs

  insert_by-perm : (x : A) (xs : List A) → Permᴰ (insert_by x xs) (x ∷ xs)
  unfolding insert_by
  insert_by-perm x [] = Permᴰ.refl (x ∷ [])
  insert_by-perm x (y ∷ ys) = cases (cmp x y) (insert_by-perm x ys)
    where
      cases :
          (o : Ordering)
          → Permᴰ (insert_by x ys) (x ∷ ys)
          → Permᴰ (elim o [ Ordering.gt ↦ y ∷ insert_by x ys | _ ↦ x ∷ y ∷ ys ]) (x ∷ y ∷ ys)
      cases Ordering.gt ih = Permᴰ.trans (Permᴰ.cons refl ih) (Permᴰ.swap refl refl)
      cases Ordering.lt ih = Permᴰ.refl (x ∷ y ∷ ys)
      cases Ordering.eq ih = Permᴰ.refl (x ∷ y ∷ ys)

  -- The sorted list is a rearrangement.
  pub sort_by-perm : (xs : List A) → Permᴰ (sort_by xs) xs
  unfolding sort_by
  sort_by-perm [] = Permᴰ.nil
  sort_by-perm (x ∷ xs) =
      Permᴰ.trans (insert_by-perm x (sort_by xs)) (Permᴰ.cons refl (sort_by-perm xs))

  All-insert_by {κ} :
      (P : A → Type κ) (x : A) (xs : List A) → P x → All P xs → All P (insert_by x xs)
  unfolding insert_by
  All-insert_by P x [] p h = (p, tt)
  All-insert_by P x (y ∷ ys) p (q, h) = cases (cmp x y) (All-insert_by P x ys p h)
    where
      cases :
          (o : Ordering)
          → All P (insert_by x ys)
          → All P (elim o [ Ordering.gt ↦ y ∷ insert_by x ys | _ ↦ x ∷ y ∷ ys ])
      cases Ordering.gt ih = (q, ih)
      cases Ordering.lt ih = (p, (q, h))
      cases Ordering.eq ih = (p, (q, h))

  module _ (total : IsComparison cmp) where
    le_trans_by :
        (a b c : A) → cmp a b ≢ Ordering.gt → cmp b c ≢ Ordering.gt → cmp a c ≢ Ordering.gt
    le_trans_by a b c h k = ground (
      arith,
      total.chains a b c,
      total.joins a b c,
      total.joins b c a,
      total.flips a b,
      total.flips b c,
      total.flips a c,
      total.joins c b a,
    )

    insert_by-IsSortedBy : (x : A) (xs : List A) → IsSortedBy xs → IsSortedBy (insert_by x xs)
    unfolding insert_by
    insert_by-IsSortedBy x [] h = (tt, tt)
    insert_by-IsSortedBy x (y ∷ ys) (below, h) = cases (cmp x y) refl (insert_by-IsSortedBy x ys h)
      where
        lower : cmp x y ≢ Ordering.gt → All (λ z. cmp x z ≢ Ordering.gt) ys
        lower le =
            All-mono (λ z. cmp y z ≢ Ordering.gt) (λ z. cmp x z ≢ Ordering.gt) ys
              (λ z. le_trans_by x y z le) below

        cases :
            (o : Ordering)
            → cmp x y ≡ o
            → IsSortedBy (insert_by x ys)
            → IsSortedBy (elim o [ Ordering.gt ↦ y ∷ insert_by x ys | _ ↦ x ∷ y ∷ ys ])
        cases Ordering.gt e ih = (
          All-insert_by (λ z. cmp y z ≢ Ordering.gt) x ys (ground (arith, total.flips x y)) below,
          ih,
        )
        cases Ordering.lt e ih =
            let le : cmp x y ≢ Ordering.gt = ground arith in ((le, lower le), (below, h))
        cases Ordering.eq e ih =
            let le : cmp x y ≢ Ordering.gt = ground arith in ((le, lower le), (below, h))

    -- The sorted list is in order.
    pub sort_by-IsSortedBy : (xs : List A) → IsSortedBy (sort_by xs)
    unfolding sort_by
    sort_by-IsSortedBy [] = tt
    sort_by-IsSortedBy (x ∷ xs) = insert_by-IsSortedBy x (sort_by xs) (sort_by-IsSortedBy xs)

    insert_by_comm :
        (x y : A) (zs : List A)
        → cmp x y ≢ Ordering.eq
        → insert_by x (insert_by y zs) ≡ insert_by y (insert_by x zs)
    unfolding insert_by
    insert_by_comm x y [] h = ground (arith, total.flips x y)
    insert_by_comm x y (z ∷ zs) h = ground (
      arith,
      insert_by_comm x y zs h,
      total.flips x y,
      total.flips x z,
      total.flips y z,
      total.chains x y z,
      total.chains y x z,
      total.joins x z y,
      total.joins y z x,
      total.chains z x y,
      total.chains z y x,
    )

    All-perm {κ} : (P : A → Type κ) {xs ys : List A} → Permᴰ xs ys → All P xs → All P ys
    All-perm P Permᴰ.nil h = tt
    All-perm P (Permᴰ.cons e p) (q, h) = (subst P e q, All-perm P p h)
    All-perm P (Permᴰ.swap e f) (q, (r, h)) = (subst P f r, (subst P e q, h))
    All-perm P (Permᴰ.trans p p') h = All-perm P p' (All-perm P p h)

    pub IsDistinctBy-perm : {xs ys : List A} → Permᴰ xs ys → IsDistinctBy xs → IsDistinctBy ys
    IsDistinctBy-perm Permᴰ.nil h = tt
    IsDistinctBy-perm (Permᴰ.cons {a = a} {l₂ = ys} e p) (far, h) = (
      subst (λ x. All (λ y. cmp x y ≢ Ordering.eq) ys) e
          (All-perm (λ y. cmp a y ≢ Ordering.eq) p far),
      IsDistinctBy-perm p h,
    )
    IsDistinctBy-perm (Permᴰ.swap {a = a} {b = b} {b' = b'} {l = l} e f) ((ne, far), (far', h)) = (
      (
        subst (λ x. cmp x b' ≢ Ordering.eq) f
            (subst (λ x. cmp b x ≢ Ordering.eq) e (ground (arith, total.flips a b))),
        subst (λ x. All (λ y. cmp x y ≢ Ordering.eq) l) f far',
      ),
      (subst (λ x. All (λ y. cmp x y ≢ Ordering.eq) l) e far, h),
    )
    IsDistinctBy-perm (Permᴰ.trans p p') h = IsDistinctBy-perm p' (IsDistinctBy-perm p h)

    -- The sorted list does not depend on the order of the input, where no two elements compare as
    -- equal.
    pub sort_by-perm_eq : {xs ys : List A} → Permᴰ xs ys → IsDistinctBy xs → sort_by xs ≡ sort_by ys
    unfolding sort_by
    sort_by-perm_eq Permᴰ.nil h = refl
    sort_by-perm_eq (Permᴰ.cons e p) (far, h) = ap₂ insert_by e (sort_by-perm_eq p h)
    sort_by-perm_eq (Permᴰ.swap {a = a} {b = b} {l = l} e f) ((ne, far), rest) =
        insert_by_comm a b (sort_by l) ne ∙ ap₂ (λ x y. insert_by x (insert_by y (sort_by l))) f e
    sort_by-perm_eq (Permᴰ.trans p p') h =
        sort_by-perm_eq p h ∙ sort_by-perm_eq p' (IsDistinctBy-perm p h)
