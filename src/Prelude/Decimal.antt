-- ===== src/Prelude/Decimal.antt =====
-- A natural number inside a template literal: its decimal digits.
use Prim.Native.Nat.{ℕ, zero, suc, ◌+◌, ◌-◌, ◌*◌, ◌/◌, ◌%◌, ◌<◌}
use mathlib.Core.Path.{◌≡◌, refl}
use mathlib.Core.List.{[], ◌∷◌, ◌++◌}
use native.Mathlib.Omega.{arith}
use distill_portal.Prelude.Tests.{ltb, if◌then◌else◌}
use distill_portal.Prelude.Strings.{Text}

-- The fuel bounds the number of digits.
digits : ℕ → ℕ → Text
digits zero n = []
digits (suc fuel) n =
    let rest = digits fuel (n / 10) ++ (48 + n % 10) ∷ [] in
    if ltb n 10 then (48 + n) ∷ [] else rest

unfoldable pub decimal : ℕ → Text
unfolding digits
decimal n = digits (suc n) n

-- The number that a run of digits denotes, after the digits read so far.
abbrev pub denoted : ℕ → Text → ℕ
denoted acc [] = acc
denoted acc (c ∷ s) = denoted (acc * 10 + (c - 48)) s

denoted-append :
    (acc : ℕ) (s : Text) (c : ℕ) → denoted acc (s ++ c ∷ []) ≡ denoted acc s * 10 + (c - 48)
denoted-append acc [] c = refl
denoted-append acc (d ∷ s) c = denoted-append (acc * 10 + (d - 48)) s c

denoted-digits : (fuel n : ℕ) → n < fuel → denoted 0 (digits fuel n) ≡ n
unfolding digits
denoted-digits zero n h = absurd (omega arith)
denoted-digits (suc fuel) n h =
    ground
      (arith, denoted-digits fuel (n / 10), denoted-append 0 (digits fuel (n / 10)) (48 + n % 10))

-- The digits denote the number; so two numbers with the same digits are equal.
pub denoted-decimal : (n : ℕ) → denoted 0 (decimal n) ≡ n
unfolding decimal
denoted-decimal n = denoted-digits (suc n) n (omega arith)
