-- ===== src/Prelude/Compare.antt =====
-- Comparators: the sign of a JavaScript comparison function as an ordering, the ways in which the
-- sources build comparators from others, and `Array.prototype.sort`.
use Prim.Native.Nat.{Ordering}
use mathlib.Core.Path.{◌≡◌, refl}
use mathlib.Core.Logic.{◌↔◌}
use mathlib.Core.Option.{Option, none, some}
use mathlib.Core.List.{[], ◌∷◌}
use native.Mathlib.Omega.{arith}
use distill_portal.Prelude.Strings.{Text, text_compare}

-- `-1 * sign`.
abbrev pub flip : Ordering → Ordering
flip Ordering.lt = Ordering.gt
flip Ordering.eq = Ordering.eq
flip Ordering.gt = Ordering.lt

-- `first !== 0 ? first : second`.
abbrev pub then_by : Ordering → Ordering → Ordering
then_by Ordering.lt second = Ordering.lt
then_by Ordering.gt second = Ordering.gt
then_by Ordering.eq second = second

-- A total preorder: what the language asks of a comparator.
pub record IsComparison {ℓ} {A : Type ℓ} (cmp : A → A → Ordering) : Type ℓ where
  pub flips : (a b : A) → cmp b a ≡ flip (cmp a b)
  pub chains : (a b c : A) → cmp a b ≡ Ordering.lt → cmp b c ≡ Ordering.lt → cmp a c ≡ Ordering.lt
  pub joins : (a b c : A) → cmp a b ≡ Ordering.eq → cmp a c ≡ cmp b c

pub then_by-IsComparison {ℓ} :
    {A : Type ℓ} (p q : A → A → Ordering)
    → IsComparison p
    → IsComparison q
    → IsComparison (λ a b. then_by (p a b) (q a b))
then_by-IsComparison p q hp hq = record {
  flips = λ a b. ground (arith, hp.flips a b, hq.flips a b);
  chains = λ a b c h k. ground (
    arith,
    hp.chains a b c,
    hq.chains a b c,
    hp.joins a b c,
    hp.joins c b a,
    hp.flips b c,
    hp.flips a b,
    hp.flips a c,
  );
  joins = λ a b c h. ground (arith, hp.joins a b c, hq.joins a b c);
}

pub flip-IsComparison {ℓ} :
    {A : Type ℓ} (p : A → A → Ordering) → IsComparison p → IsComparison (λ a b. flip (p a b))
flip-IsComparison p h = record {
  flips = λ a b. ground (arith, h.flips a b);
  chains = λ a b c k l. ground (arith, h.chains c b a, h.flips a b, h.flips b c, h.flips a c);
  joins = λ a b c k. ground (arith, h.joins a b c);
}

pub comap-IsComparison {ℓ κ} :
    {A : Type ℓ} {B : Type κ} (f : A → B) (p : B → B → Ordering)
    → IsComparison p
    → IsComparison (λ a b. p (f a) (f b))
comap-IsComparison f p h = record {
  flips = λ a b. h.flips (f a) (f b);
  chains = λ a b c. h.chains (f a) (f b) (f c);
  joins = λ a b c. h.joins (f a) (f b) (f c);
}

-- Nulls before everything else.
abbrev pub nulls_first {ℓ} : {A : Type ℓ} → (A → A → Ordering) → Option A → Option A → Ordering
nulls_first p none none = Ordering.eq
nulls_first p none (some b) = Ordering.lt
nulls_first p (some a) none = Ordering.gt
nulls_first p (some a) (some b) = p a b

pub nulls_first-IsComparison {ℓ} :
    {A : Type ℓ} (p : A → A → Ordering) → IsComparison p → IsComparison (nulls_first p)
nulls_first-IsComparison {A} p h = record { flips = flips; chains = chains; joins = joins }
  where
    flips : (a b : Option A) → nulls_first p b a ≡ flip (nulls_first p a b)
    flips none none = refl
    flips none (some b) = refl
    flips (some a) none = refl
    flips (some a) (some b) = h.flips a b

    chains :
        (a b c : Option A)
        → nulls_first p a b ≡ Ordering.lt
        → nulls_first p b c ≡ Ordering.lt
        → nulls_first p a c ≡ Ordering.lt
    chains none b none k l = ground arith
    chains none b (some c) k l = refl
    chains (some a) none c k l = absurd (ground arith)
    chains (some a) (some b) none k l = absurd (ground arith)
    chains (some a) (some b) (some c) k l = h.chains a b c k l

    joins :
        (a b c : Option A) → nulls_first p a b ≡ Ordering.eq → nulls_first p a c ≡ nulls_first p b c
    joins none none c k = refl
    joins none (some b) c k = absurd (ground arith)
    joins (some a) none c k = absurd (ground arith)
    joins (some a) (some b) none k = refl
    joins (some a) (some b) (some c) k = h.joins a b c k

-- Strings: a total order.
text_compare_refl : (s : Text) → text_compare s s ≡ Ordering.eq
unfolding text_compare
text_compare_refl [] = refl
text_compare_refl (a ∷ s) = ground (arith, text_compare_refl s)

eq_of_text_compare : (s t : Text) → text_compare s t ≡ Ordering.eq → s ≡ t
unfolding text_compare
eq_of_text_compare [] [] h = refl
eq_of_text_compare [] (b ∷ t) h = absurd (ground arith)
eq_of_text_compare (a ∷ s) [] h = absurd (ground arith)
eq_of_text_compare (a ∷ s) (b ∷ t) h = ground (arith, eq_of_text_compare s t)

pub text_compare_eq : (s t : Text) → (text_compare s t ≡ Ordering.eq) ↔ (s ≡ t)
text_compare_eq s t = (eq_of_text_compare s t, λ e. rw e (text_compare_refl t))

text_compare-flips : (s t : Text) → text_compare t s ≡ flip (text_compare s t)
unfolding text_compare
text_compare-flips [] [] = refl
text_compare-flips [] (b ∷ t) = refl
text_compare-flips (a ∷ s) [] = refl
text_compare-flips (a ∷ s) (b ∷ t) = ground (arith, text_compare-flips s t)

text_compare-chains :
    (s t u : Text)
    → text_compare s t ≡ Ordering.lt
    → text_compare t u ≡ Ordering.lt
    → text_compare s u ≡ Ordering.lt
unfolding text_compare
text_compare-chains [] t [] h k = absurd (text_compare-not_below t k)
  where
    text_compare-not_below : (t : Text) → text_compare t [] ≡ Ordering.lt → ⊥
    text_compare-not_below [] k = ground arith
    text_compare-not_below (b ∷ t) k = ground arith
text_compare-chains [] t (c ∷ u) h k = refl
text_compare-chains (a ∷ s) [] u h k = absurd (ground arith)
text_compare-chains (a ∷ s) (b ∷ t) [] h k = absurd (ground arith)
text_compare-chains (a ∷ s) (b ∷ t) (c ∷ u) h k = ground (arith, text_compare-chains s t u)

pub text_compare-IsComparison : IsComparison text_compare
text_compare-IsComparison = record {
  flips = text_compare-flips;
  chains = text_compare-chains;
  joins = λ s t u h. rw (eq_of_text_compare s t h);
}
