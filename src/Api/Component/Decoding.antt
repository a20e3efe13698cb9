-- ===== src/Api/Component/Decoding.antt =====
-- encodeURIComponent read backwards, as RFC 3986 and UTF-8 say: escapes to bytes, bytes to code points,
-- code points to code units.
use distill_portal.Prelude.{
  ℕ, zero, suc, ◌+◌, ◌-◌, ◌*◌, ◌/◌, ◌%◌, ◌<◌, Text, true, is_high, is_low, Option, none, some, List,
  [], ◌∷◌, ◌++◌, flat_map, All, ltb, ◌==◌, if◌then◌else◌, ◌≡◌, ◌≢◌, refl, ◌∙◌, ap, Bool-cases, inl,
  inr, All-append, ◌≤◌, arith,
}
use distill_portal.Api.Component.{
  read_unit, pending, points_from, utf8, is_unreserved, hex_digit, escape, cons_unit, point,
  encode_uri_component, escaped, encode_uri_component,
}

-- A reader takes one unit at a time: its state after it, and what the unit completes.
abbrev cons_some : Option ℕ → List ℕ → List ℕ
cons_some none xs = xs
cons_some (some x) xs = x ∷ xs

unfoldable read : {S : Type 0} → (S → ℕ → S) → (S → ℕ → Option ℕ) → S → List ℕ → List ℕ
read next out s [] = []
read next out s (c ∷ cs) = cons_some (out s c) (read next out (next s c) cs)

-- Between escapes, after a percent sign, and after the first digit.
pub data Escape : Type 0 where
  between percent : Escape
  digit : ℕ → Escape

abbrev hex_value : ℕ → ℕ
hex_value c = if ltb c 65 then c - 48 else c - 55

abbrev after_char : Escape → ℕ → Escape
after_char between c = if c == 37 then percent else between
after_char percent c = digit (hex_value c)
after_char (digit d) c = between

abbrev byte_at : Escape → ℕ → Option ℕ
byte_at between c = if c == 37 then none else some c
byte_at percent c = none
byte_at (digit d) c = some (d * 16 + hex_value c)

-- Between characters, or some bytes before the last one of a character, with the bits so far.
pub data Utf8 : Type 0 where
  start : Utf8
  more : ℕ → ℕ → Utf8

abbrev after_byte : Utf8 → ℕ → Utf8
after_byte start c =
    if ltb c 0x80
    then start
    else if ltb c 0xe0
    then more 0 (c - 0xc0)
    else if ltb c 0xf0
    then more 1 (c - 0xe0)
    else more 2 (c - 0xf0)
after_byte (more zero acc) c = start
after_byte (more (suc k) acc) c = more k (acc * 0x40 + (c - 0x80))

abbrev point_at : Utf8 → ℕ → Option ℕ
point_at start c = if ltb c 0x80 then some c else none
point_at (more zero acc) c = some (acc * 0x40 + (c - 0x80))
point_at (more (suc k) acc) c = none

unfoldable units : ℕ → List ℕ
units p =
    if ltb p 0x10000
    then p ∷ []
    else (0xd800 + (p - 0x10000) / 0x400) ∷ (0xdc00 + (p - 0x10000) % 0x400) ∷ []

hex_value-hex_digit : (d : ℕ) → d < 16 → hex_value (hex_digit d) ≡ d
hex_value-hex_digit d h = ground arith

read-escape :
    (b : ℕ) (rest : Text)
    → b < 256
    → read after_char byte_at between (escape b ++ rest) ≡ b ∷ read after_char byte_at between rest
unfolding read escape is_unreserved
read-escape b rest h =
    ground (
      arith,
      hex_value-hex_digit (b / 16) (omega arith),
      hex_value-hex_digit (b % 16) (omega arith),
    )

read-utf8 :
    (p : ℕ) (rest : List ℕ)
    → p < 0x110000
    → read after_byte point_at start (utf8 p ++ rest) ≡ p ∷ read after_byte point_at start rest
unfolding read utf8
read-utf8 p rest h = ground arith

-- A reader that reads each item reads them all.
read-flat_map :
    {S : Type 0} (next : S → ℕ → S) (out : S → ℕ → Option ℕ) (s : S) (code : ℕ → List ℕ)
    {P : ℕ → Type 0}
    (one : (x : ℕ) (rest : List ℕ)
      → P x
      → read next out s (code x ++ rest) ≡ x ∷ read next out s rest)
    (xs : List ℕ)
    → All P xs
    → read next out s (flat_map code xs) ≡ xs
unfolding flat_map
read-flat_map next out s code one [] h = unfold read in refl
read-flat_map next out s code one (x ∷ xs) (h, hs) =
    one x (flat_map code xs) h ∙ ap (λ ys. x ∷ ys) (read-flat_map next out s code one xs hs)

utf8-IsBytes : (p : ℕ) → p < 0x110000 → All (λ b. b < 256) (utf8 p)
unfolding utf8
utf8-IsBytes p h = ground arith

All-flat_map :
    {P : ℕ → Type 0} (Q : ℕ → Type 0) (f : ℕ → List ℕ) (one : (x : ℕ) → P x → All Q (f x))
    (xs : List ℕ)
    → All P xs
    → All Q (flat_map f xs)
unfolding flat_map
All-flat_map Q f one [] h = tt
All-flat_map Q f one (x ∷ xs) (h, hs) =
    All-append Q (f x) (flat_map f xs) (one x h) (All-flat_map Q f one xs hs)

-- A surrogate that waits for its other half.
abbrev held_units : Option ℕ → Text
held_units none = []
held_units (some h) = h ∷ []

abbrev IsHigh : Option ℕ → Type 0
IsHigh none = Unit
IsHigh (some h) = (0xd800 ≤ h) × (h < 0xdc00)

units-pair :
    (x c : ℕ)
    → 0xd800 ≤ x
    → x < 0xdc00
    → is_low c ≡ true
    → (0x10000 + (x - 0xd800) * 0x400 + (c - 0xdc00) < 0x110000)
      × (units (0x10000 + (x - 0xd800) * 0x400 + (c - 0xdc00)) ≡ x ∷ c ∷ [])
unfolding units
units-pair x c h k l = ground arith

units-single : (c : ℕ) → c < 0x10000 → units c ≡ c ∷ []
unfolding units
units-single c h = ground arith

-- The code points, where there are any, are those of the text.
abbrev PointsOf : Text → Option (List ℕ) → Type 0
PointsOf s none = Unit
PointsOf s (some ps) = All (λ p. p < 0x110000) ps × (flat_map units ps ≡ s)

PointsOf-cons :
    (p : ℕ) (us s : Text) (rest : Option (List ℕ))
    → p < 0x110000
    → units p ≡ us
    → PointsOf s rest
    → PointsOf (us ++ s) (cons_unit (point p) rest)
unfolding flat_map
PointsOf-cons p us s none h e k = tt
PointsOf-cons p us s (some ps) h e (hs, k) = ((h, hs), rw e (rw k refl))

points_from_lem :
    (held : Option ℕ) (s : Text)
    → IsHigh held
    → All (λ c. c < 0x10000) s
    → PointsOf (held_units held ++ s) (points_from held s)
unfolding points_from read_unit pending
points_from_lem none [] h hs = unfold flat_map in (tt, refl)
points_from_lem (some x) [] h hs = tt
points_from_lem none (c ∷ s) h (hc, hs) = elim (Bool-cases (is_high c)) [
  | inl e ↦ rw e (points_from_lem (some c) s (ground arith) hs)
  | inr e ↦ elim (Bool-cases (is_low c)) [
    | inl l ↦ rw e (rw l tt)
    | inr l ↦ rw e (
        rw l (
          PointsOf-cons c (c ∷ []) s (points_from none s) (omega arith) (units-single c hc)
            (points_from_lem none s tt hs)))
  ]
]
points_from_lem (some x) (c ∷ s) h (hc, hs) = elim (Bool-cases (is_low c)) [
  | inl l ↦
      let u = units-pair x c h.0 h.1 l in
      rw l
        (PointsOf-cons _ (x ∷ c ∷ []) s (points_from none s) u.0 u.1 (points_from_lem none s tt hs))
  | inr l ↦ rw l tt
]

-- The string that an escaped string stands for.
pub decode_uri_component : Text → Text
unfolding read units
decode_uri_component s =
    flat_map units (read after_byte point_at start (read after_char byte_at between s))

-- What may stand in a segment of a path: not a slash, a question mark or a number sign.
abbrev pub IsSegmentChar : ℕ → Type 0
IsSegmentChar c = (c ≢ 47) × (c ≢ 63) × (c ≢ 35)

escape-IsSegment : (b : ℕ) → b < 256 → All IsSegmentChar (escape b)
unfolding escape is_unreserved
escape-IsSegment b h = ground arith

escaped_lem :
    (s : Text) (ps : List ℕ)
    → PointsOf s (some ps)
    → All IsSegmentChar (escaped ps) × (decode_uri_component (escaped ps) ≡ s)
unfolding decode_uri_component escaped
escaped_lem s ps (hp, k) =
    let bytes = All-flat_map (λ b. b < 256) utf8 utf8-IsBytes ps hp in
    let chars = All-flat_map IsSegmentChar escape escape-IsSegment (flat_map utf8 ps) bytes in
    let back =
      read-flat_map after_char byte_at between escape read-escape (flat_map utf8 ps) bytes in
    let points = read-flat_map after_byte point_at start utf8 read-utf8 ps hp in
    (chars, rw back (rw points k))

-- An id that is encoded stays one segment, and decodes to itself.
pub encode_uri_component_lem :
    (s seg : Text)
    → All (λ c. c < 0x10000) s
    → encode_uri_component s ≡ some seg
    → All IsSegmentChar seg × (decode_uri_component seg ≡ s)
unfolding encode_uri_component
encode_uri_component_lem s seg hs h = encoded (points_from none s) (points_from_lem none s tt hs) h
  where
    encoded :
        (o : Option (List ℕ))
        → PointsOf s o
        → (elim o [ none ↦ none | some ps ↦ some (escaped ps) ]) ≡ some seg
        → All IsSegmentChar seg × (decode_uri_component seg ≡ s)
    encoded none k e = absurd (ground arith)
    encoded (some ps) k e = grind (arith, escaped_lem s ps k)
