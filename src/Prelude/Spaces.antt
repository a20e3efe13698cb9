-- ===== src/Prelude/Spaces.antt =====
-- White space of JavaScript: what `trim` removes and `\s` matches.
use Prim.Native.Nat.{ℕ}
use mathlib.Core.Bool.{Bool, true, false, ◌&&◌, ◌||◌}
use mathlib.Core.List.{[], ◌∷◌}
use distill_portal.Prelude.Tests.{leb, ◌==◌, if◌then◌else◌}
use distill_portal.Prelude.Strings.{Text}

-- `String.prototype.trim`: white space and line terminators, at both ends.
unfoldable pub is_space : ℕ → Bool
is_space c =
    (leb 9 c && leb c 13)
    || (c == 32)
    || (c == 160)
    || (c == 0x1680)
    || (leb 0x2000 c && leb c 0x200a)
    || (c == 0x2028)
    || (c == 0x2029)
    || (c == 0x202f)
    || (c == 0x205f)
    || (c == 0x3000)
    || (c == 0xfeff)

-- `trimStart`, and what `\s*` skips.
unfoldable pub trim_start : Text → Text
unfolding is_space
trim_start [] = []
trim_start (c ∷ s) = let rest = trim_start s in if is_space c then rest else c ∷ s

-- Keeps a character unless all from it on is white space.
trim_end : Text → Text
unfolding is_space
trim_end [] = []
trim_end (c ∷ s) = cons_trimmed (is_space c) c (trim_end s)
  where
    cons_trimmed : Bool → ℕ → Text → Text
    cons_trimmed true c [] = []
    cons_trimmed true c (d ∷ s) = c ∷ d ∷ s
    cons_trimmed false c s = c ∷ s

unfoldable pub trim : Text → Text
unfolding trim_start trim_end
trim s = trim_end (trim_start s)
