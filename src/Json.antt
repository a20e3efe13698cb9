-- ===== src/Json.antt =====
-- JSON values as `JSON.parse` returns them, and what the sources ask of JavaScript's run time.
use distill_portal.Prelude.{
  ℕ, Text, text_eq, Bool, Option, none, some, List, [], ◌∷◌, if◌then◌else◌,
}

-- A number is kept as the bit pattern of its double: the sources only test for one, and print it.
mutual
  pub data Json : Type 0 where
    null : Json
    bool : Bool → Json
    num : ℕ → Json
    str : Text → Json
    arr : Items → Json
    obj : Fields → Json

  pub data Items : Type 0 where
    nil : Items
    cons : Json → Items → Items

  pub data Fields : Type 0 where
    end : Fields
    field : Text → Json → Fields → Fields

abbrev pub items : Items → List Json
items nil = []
items (cons v vs) = v ∷ items vs

-- `record[key]`: `none` is `undefined`. `JSON.parse` gives each key once.
unfoldable pub prop : Text → Fields → Option Json
prop key end = none
prop key (field k v fs) = if text_eq k key then some v else prop key fs

-- `typeof value === "string" ? value : …`.
abbrev pub as_string : Option Json → Option Text
as_string (some (str s)) = some s
as_string _ = none

-- `isObject(value) ? value : …`.
abbrev pub as_object : Option Json → Option Fields
as_object (some (obj fs)) = some fs
as_object _ = none

-- `Array.isArray(value) ? value : …`.
abbrev pub as_array : Option Json → Option (List Json)
as_array (some (arr vs)) = some (items vs)
as_array _ = none

-- `typeof value === "number" ? value : …`.
abbrev pub as_number : Option Json → Option ℕ
as_number (some (num n)) = some n
as_number _ = none

-- `a ?? b`: `null` and `undefined` give way.
abbrev pub or_nullish : Option Json → Option Json → Option Json
or_nullish none b = b
or_nullish (some null) b = b
or_nullish a b = a

-- `a ?? null`.
abbrev pub or_null : Option Json → Json
or_null (some v) = v
or_null none = null

abbrev pub get_or {ℓ} : {A : Type ℓ} → Option A → A → A
get_or (some a) d = a
get_or none d = d

-- The parts of JavaScript's run time that the models take as given. Nothing is assumed of them.
pub record Runtime : Type 0 where
  -- `JSON.parse`; `none` where it throws.
  pub parse_json : Text → Option Json
  -- `JSON.stringify(value)` and `JSON.stringify(value, null, 2)` on a value that `JSON.parse` gave.
  pub stringify : Json → Text
  pub stringify_indented : Json → Text
  -- `!Number.isNaN(Date.parse(text))`.
  pub is_date : Text → Bool
  -- A number inside a template literal.
  pub number_text : ℕ → Text
