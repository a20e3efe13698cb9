-- ===== src/Prelude/Strings.antt =====
-- JavaScript strings: sequences of UTF-16 code units, with the operations that the sources use.
use Prim.Native.Char.{code}
use Prim.Native.Nat.{ℕ, ◌+◌, ◌*◌, ◌≤◌, compare, Ordering}
use Prim.Native.String.{String}
use mathlib.Core.Path.{◌≡◌, refl}
use mathlib.Core.Logic.{◌≢◌, ◌↔◌}
use mathlib.Core.Bool.{Bool, true, false, ◌&&◌, ◌||◌}
use mathlib.Core.List.{List, [], ◌∷◌, ◌++◌}
use native.Mathlib.Omega.{arith}
use distill_portal.Prelude.Tests.{ltb, leb, ◌==◌, if◌then◌else◌}
use distill_portal.Prelude.Lists.{length}

abbrev pub Text : Type 0
Text = List ℕ

-- The code units of a literal; every literal of the sources lies in the basic plane.
unfoldable pub lit : String → Text
lit String.[] = []
lit (String.◌∷◌ c s) = code c ∷ lit s

-- `===` on strings.
unfoldable pub text_eq : Text → Text → Bool
text_eq [] [] = true
text_eq [] (b ∷ t) = false
text_eq (a ∷ s) [] = false
text_eq (a ∷ s) (b ∷ t) = a == b && text_eq s t

pub text_eq_iff : (s t : Text) → (text_eq s t ≡ true) ↔ (s ≡ t)
unfolding text_eq
text_eq_iff [] [] = (λ _. refl, λ _. refl)
text_eq_iff [] (b ∷ t) = (λ h. cc, λ h. cc)
text_eq_iff (a ∷ s) [] = (λ h. cc, λ h. cc)
text_eq_iff (a ∷ s) (b ∷ t) = ground (arith, text_eq_iff s t)

pub text_eq_refl : (s : Text) → text_eq s s ≡ true
text_eq_refl s = (text_eq_iff s s).1 refl

-- `<` and `>` on strings: lexicographic by code unit.
unfoldable pub text_compare : Text → Text → Ordering
text_compare [] [] = Ordering.eq
text_compare [] (b ∷ t) = Ordering.lt
text_compare (a ∷ s) [] = Ordering.gt
text_compare (a ∷ s) (b ∷ t) =
    let rest = text_compare s t in
    elim (compare a b) [
      | Ordering.lt ↦ Ordering.lt
      | Ordering.gt ↦ Ordering.gt
      | Ordering.eq ↦ rest
    ]

-- `s.includes(needle)`.
unfoldable pub has_prefix : Text → Text → Bool
has_prefix [] s = true
has_prefix (c ∷ needle) [] = false
has_prefix (c ∷ needle) (d ∷ s) = c == d && has_prefix needle s

unfoldable pub includes : Text → Text → Bool
unfolding has_prefix
includes [] needle = has_prefix needle []
includes (c ∷ s) needle = has_prefix needle (c ∷ s) || includes s needle

-- `split("\n")`: one more part than there are line feeds.
abbrev pub cons_first : ℕ → List Text → List Text
cons_first c [] = (c ∷ []) ∷ []
cons_first c (part ∷ parts) = (c ∷ part) ∷ parts

unfoldable pub split_lines : Text → List Text
split_lines [] = [] ∷ []
split_lines (c ∷ s) =
    let parts = split_lines s in elim (c == 10) [ true ↦ [] ∷ parts | false ↦ cons_first c parts ]

-- `parts.join(separator)`.
unfoldable pub join : Text → List Text → Text
join sep [] = []
join sep (part ∷ []) = part
join sep (part ∷ next ∷ parts) = part ++ (sep ++ join sep (next ∷ parts))

-- The UTF-8 size of a string, as `new TextEncoder().encode(text).length` counts it: a surrogate
-- pair takes four bytes, and a lone surrogate is replaced by U+FFFD, three bytes.
abbrev pub is_high : ℕ → Bool
is_high c = leb 0xd800 c && ltb c 0xdc00

abbrev pub is_low : ℕ → Bool
is_low c = leb 0xdc00 c && ltb c 0xe000

abbrev unit_bytes : ℕ → ℕ
unit_bytes c = if ltb c 0x80 then 1 else if ltb c 0x800 then 2 else 3

unfoldable pub utf8_length : Text → ℕ
utf8_length [] = 0
utf8_length (a ∷ []) = unit_bytes a
utf8_length (a ∷ b ∷ s) =
    let single = unit_bytes a + utf8_length (b ∷ s) in
    let pair = 4 + utf8_length s in if is_high a && is_low b then pair else single

-- A string has at least as many bytes as code units, and at most three times as many.
pub utf8_length_bounds : (s : Text) → (length s ≤ utf8_length s) × (utf8_length s ≤ 3 * length s)
unfolding utf8_length
utf8_length_bounds [] = omega arith
utf8_length_bounds (a ∷ []) = ground arith
utf8_length_bounds (a ∷ b ∷ s) = ground (arith, utf8_length_bounds (b ∷ s), utf8_length_bounds s)

-- Joining the parts of a split gives the text back.
join-cons_first :
    (sep : Text) (c : ℕ) (parts : List Text)
    → parts ≢ []
    → join sep (cons_first c parts) ≡ c ∷ join sep parts
unfolding join
join-cons_first sep c [] h = absurd (h refl)
join-cons_first sep c (p ∷ []) h = refl
join-cons_first sep c (p ∷ q ∷ parts) h = refl

split_lines-ne-nil : (s : Text) → split_lines s ≢ []
unfolding split_lines
split_lines-ne-nil [] = λ h. cc
split_lines-ne-nil (c ∷ s) = ground (arith, split_lines-ne-nil s)

join-nil_cons :
    (sep : Text) (parts : List Text) → parts ≢ [] → join sep ([] ∷ parts) ≡ sep ++ join sep parts
unfolding join
join-nil_cons sep [] h = absurd (h refl)
join-nil_cons sep (p ∷ parts) h = refl

pub join-split_lines : (s : Text) → join (10 ∷ []) (split_lines s) ≡ s
unfolding split_lines
join-split_lines [] = unfold join in refl
join-split_lines (c ∷ s) = ground (
  arith,
  join-split_lines s,
  join-nil_cons (10 ∷ []) (split_lines s) (split_lines-ne-nil s),
  join-cons_first (10 ∷ []) c (split_lines s) (split_lines-ne-nil s),
)
