-- ===== src/ParsedHook/Keys.antt =====
-- useParsedSession.ts: `makeKey` tells any two sessions apart.
use distill_portal.Prelude.{ℕ, Text, lit, [], ◌∷◌, ◌++◌, ◌≡◌, ◌≢◌, refl, sym, ap, arith}
use mathlib.Core.List.{append_cancel_right}
use distill_portal.Contracts.{Tool, claude_code, codex, tool_text}
use distill_portal.ParsedHook.{make_key}

abbrev last_or : ℕ → Text → ℕ
last_or n [] = n
last_or n (c ∷ s) = last_or c s

last_or-append : (n : ℕ) (s : Text) (c : ℕ) (t : Text) → last_or n (s ++ c ∷ t) ≡ last_or c t
last_or-append n [] c t = refl
last_or-append n (d ∷ s) c t = last_or-append d s c t

-- The last letters of the two tools differ.
make_key-ne : (u v : Text) → make_key u claude_code ≢ make_key v codex
unfolding make_key tool_text lit
make_key-ne u v = λ e.
    let same : last_or 0 (make_key u claude_code) ≡ last_or 0 (make_key v codex) =
      ap (last_or 0) e in
    let left : last_or 0 (make_key u claude_code) ≡ 101 = last_or-append 0 u 58 _ in
    let right : last_or 0 (make_key v codex) ≡ 120 = last_or-append 0 v 58 _ in absurd (omega arith)

pub make_key-injective :
    (u v : Text) (t t' : Tool) → make_key u t ≡ make_key v t' → (u ≡ v) × (t ≡ t')
make_key-injective u v claude_code claude_code e =
    (unfold make_key in append_cancel_right u v _ e, refl)
make_key-injective u v codex codex e = (unfold make_key in append_cancel_right u v _ e, refl)
make_key-injective u v claude_code codex e = absurd (make_key-ne u v e)
make_key-injective u v codex claude_code e = absurd (make_key-ne v u (sym e))
