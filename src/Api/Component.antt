-- ===== src/Api/Component.antt =====
-- What apps/frontend/src/lib/api.ts asks of the language to put an id into a path: encodeURIComponent.
pub mod Decoding
use distill_portal.Prelude.{
  ℕ, ◌+◌, ◌-◌, ◌*◌, ◌/◌, ◌%◌, Text, Bool, true, false, ◌&&◌, ◌||◌, Option, none, some, List, [],
  ◌∷◌, flat_map, is_high, is_low, ltb, leb, ◌==◌, if◌then◌else◌,
}

-- What a code unit is, after a high surrogate or after none: the first or the second half of a
-- pair, a code point, or a surrogate without its other half.
pub data Unit16 : Type 0 where
  half : Unit16
  point : ℕ → Unit16
  lone : Unit16

unfoldable pub read_unit : Option ℕ → ℕ → Unit16
read_unit (some h) c =
    if is_low c then point (0x10000 + (h - 0xd800) * 0x400 + (c - 0xdc00)) else lone
read_unit none c = if is_high c then half else if is_low c then lone else point c

unfoldable pub pending : Option ℕ → ℕ → Option ℕ
pending (some h) c = none
pending none c = if is_high c then some c else none

abbrev pub cons_unit : Unit16 → Option (List ℕ) → Option (List ℕ)
cons_unit lone rest = none
cons_unit half rest = rest
cons_unit (point p) none = none
cons_unit (point p) (some ps) = some (p ∷ ps)

-- The code points of a string; `none` where a surrogate lacks its other half.
unfoldable pub points_from : Option ℕ → Text → Option (List ℕ)
unfolding read_unit pending
points_from none [] = some []
points_from (some h) [] = none
points_from held (c ∷ s) = cons_unit (read_unit held c) (points_from (pending held c) s)

-- UTF-8.
unfoldable pub utf8 : ℕ → List ℕ
utf8 p =
    if ltb p 0x80
    then p ∷ []
    else if ltb p 0x800
    then (0xc0 + p / 0x40) ∷ (0x80 + p % 0x40) ∷ []
    else if ltb p 0x10000
    then (0xe0 + p / 0x1000) ∷ (0x80 + p / 0x40 % 0x40) ∷ (0x80 + p % 0x40) ∷ []
    else (0xf0 + p / 0x40000)
      ∷ (0x80 + p / 0x1000 % 0x40)
      ∷ (0x80 + p / 0x40 % 0x40)
      ∷ (0x80 + p % 0x40)
      ∷ []

-- Letters, digits and - _ . ! ~ * ' ( ).
unfoldable pub is_unreserved : ℕ → Bool
is_unreserved c =
    (leb 97 c && leb c 122)
    || (leb 65 c && leb c 90)
    || (leb 48 c && leb c 57)
    || (c == 45)
    || (c == 95)
    || (c == 46)
    || (c == 33)
    || (c == 126)
    || (leb 39 c && leb c 42)

abbrev pub hex_digit : ℕ → ℕ
hex_digit d = if ltb d 10 then 48 + d else 55 + d

unfoldable pub escape : ℕ → Text
unfolding is_unreserved
escape b = if is_unreserved b then b ∷ [] else 37 ∷ hex_digit (b / 16) ∷ hex_digit (b % 16) ∷ []

unfoldable pub escaped : List ℕ → Text
unfolding utf8 escape
escaped points = flat_map escape (flat_map utf8 points)

-- `encodeURIComponent`; `none` where it throws.
unfoldable pub encode_uri_component : Text → Option Text
unfolding points_from escaped
encode_uri_component s = elim (points_from none s) [ none ↦ none | some ps ↦ some (escaped ps) ]
