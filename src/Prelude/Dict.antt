-- ===== src/Prelude/Dict.antt =====
-- JavaScript's `Map<string, V>` as an association list in insertion order: `set` replaces the value
-- of a key that is there and keeps its place, and appends any other.
use mathlib.Core.Bool.{false}
use distill_portal.Prelude.Tests.{if◌then◌else◌}
use distill_portal.Prelude.Strings.{Text, text_eq, text_eq_iff}
use mathlib.Core.Path.{◌≡◌, refl}
use mathlib.Core.Option.{Option, none, some}
use mathlib.Core.List.{List, [], ◌∷◌}
use native.Mathlib.Omega.{arith}

module _ {ℓ} {V : Type ℓ} where
  unfoldable pub dict_get : Text → List (Text × V) → Option V
  dict_get k [] = none
  dict_get k ((j, v) ∷ m) = if text_eq j k then some v else dict_get k m

  unfoldable pub dict_set : Text → V → List (Text × V) → List (Text × V)
  dict_set k v [] = (k, v) ∷ []
  dict_set k v ((j, w) ∷ m) = if text_eq j k then (j, v) ∷ m else (j, w) ∷ dict_set k v m

  pub dict_get-dict_set :
      (k j : Text) (v : V) (m : List (Text × V))
      → dict_get j (dict_set k v m) ≡ (if text_eq k j then some v else dict_get j m)
  unfolding dict_get dict_set
  dict_get-dict_set k j v [] = refl
  dict_get-dict_set k j v ((i, w) ∷ m) =
      ground (arith, text_eq_iff k j, text_eq_iff i k, text_eq_iff i j, dict_get-dict_set k j v m)

  -- `delete`; a key stands once in a map.
  unfoldable pub dict_delete : Text → List (Text × V) → List (Text × V)
  dict_delete k [] = []
  dict_delete k ((j, v) ∷ m) = if text_eq j k then m else (j, v) ∷ dict_delete k m

  pub dict_get-dict_delete_ne :
      (k j : Text) (m : List (Text × V))
      → text_eq k j ≡ false
      → dict_get j (dict_delete k m) ≡ dict_get j m
  unfolding dict_get dict_delete
  dict_get-dict_delete_ne k j [] h = refl
  dict_get-dict_delete_ne k j ((i, w) ∷ m) h =
      ground
        (arith, text_eq_iff k j, text_eq_iff i k, text_eq_iff i j, dict_get-dict_delete_ne k j m)
