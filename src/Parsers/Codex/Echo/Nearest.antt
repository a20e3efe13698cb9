-- ===== src/Parsers/Codex/Echo/Nearest.antt =====
-- codex.ts, `resolveEchoBackPointers`: which line an echo points at.
use distill_portal.Prelude.{
  ℕ, true, false, Option, some, List, [], ◌∷◌, ◌++◌, All, ◌≡◌, refl, arith,
}
use distill_portal.Parsers.{MessageKind, Message, metadata, echo, EchoOf}
use distill_portal.Parsers.Codex.Echo.{
  kind_eq, is_same_echo, found, stopped, exhausted, search_forward, search_backward, resolve_echo,
}

-- Neither the canonical message that an echo looks for nor an echo that looks for one, too.
abbrev pub IsPassed : MessageKind → Message → Type 0
IsPassed target m = (kind_eq m.kind target ≡ false) × (is_same_echo target m ≡ false)

abbrev pub IsNoTarget : MessageKind → Message → Type 0
IsNoTarget target m = kind_eq m.kind target ≡ false

module _ (target : MessageKind) where
  search_forward-found :
      (passed : List Message) (c : Message) (rest : List Message)
      → All (IsPassed target) passed
      → kind_eq c.kind target ≡ true
      → search_forward target (passed ++ c ∷ rest) ≡ found c.line_ordinal
  unfolding search_forward
  search_forward-found [] c rest h e = ground arith
  search_forward-found (m ∷ passed) c rest ((a, b), h) e =
      ground (arith, search_forward-found passed c rest h e)

  search_forward-stopped :
      (passed : List Message) (c : Message) (rest : List Message)
      → All (IsPassed target) passed
      → IsNoTarget target c
      → is_same_echo target c ≡ true
      → search_forward target (passed ++ c ∷ rest) ≡ stopped
  unfolding search_forward
  search_forward-stopped [] c rest h k e = ground arith
  search_forward-stopped (m ∷ passed) c rest ((a, b), h) k e =
      ground (arith, search_forward-stopped passed c rest h k e)

  search_forward-exhausted :
      (later : List Message) → All (IsPassed target) later → search_forward target later ≡ exhausted
  unfolding search_forward
  search_forward-exhausted [] h = refl
  search_forward-exhausted (m ∷ later) ((a, b), h) =
      ground (arith, search_forward-exhausted later h)

  search_backward-found :
      (passed : List Message) (c : Message) (rest : List Message)
      → All (IsNoTarget target) passed
      → kind_eq c.kind target ≡ true
      → search_backward target (passed ++ c ∷ rest) ≡ some c.line_ordinal
  unfolding search_backward
  search_backward-found [] c rest h e = ground arith
  search_backward-found (m ∷ passed) c rest (a, h) e =
      ground (arith, search_backward-found passed c rest h e)

abbrev pub IsEcho : Message → ℕ → MessageKind → Type 0
IsEcho m line target =
    (m.kind ≡ metadata)
    × (m.meta_category ≡ some echo)
    × (m.echo_of ≡ some (record { line_ordinal = line; canonical_kind = target }))

abbrev pub pointing : ℕ → MessageKind → Option EchoOf
pointing line target = some (record { line_ordinal = line; canonical_kind = target })

module _ (earlier : List Message) (m : Message) (line : ℕ) (target : MessageKind)
    (is_echo : IsEcho m line target) where
  -- The first message of the kind that an echo looks for, behind it and before the next echo that
  -- looks for the same kind, is what the echo points at.
  pub resolve_echo-forward :
      (passed : List Message) (c : Message) (rest : List Message)
      → All (IsPassed target) passed
      → kind_eq c.kind target ≡ true
      → (resolve_echo earlier m (passed ++ c ∷ rest)).echo_of ≡ pointing c.line_ordinal target
  unfolding resolve_echo
  resolve_echo-forward passed c rest h e =
      ground (arith, search_forward-found target passed c rest h e)

  -- Where the next echo for the same kind comes first, an echo keeps its own line, whatever stands
  -- before it: it is never resolved to the message of another echo.
  pub resolve_echo-stopped :
      (passed : List Message) (c : Message) (rest : List Message)
      → All (IsPassed target) passed
      → IsNoTarget target c
      → is_same_echo target c ≡ true
      → resolve_echo earlier m (passed ++ c ∷ rest) ≡ m
  unfolding resolve_echo
  resolve_echo-stopped passed c rest h k e =
      ground (arith, search_forward-stopped target passed c rest h k e)

-- Where nothing behind an echo is of the kind or looks for it, the echo points at the nearest message
-- of the kind before it.
pub resolve_echo-backward :
    (m : Message) (line : ℕ) (target : MessageKind)
    → IsEcho m line target
    → (later passed : List Message) (c : Message) (rest : List Message)
    → All (IsPassed target) later
    → All (IsNoTarget target) passed
    → kind_eq c.kind target ≡ true
    → (resolve_echo (passed ++ c ∷ rest) m later).echo_of ≡ pointing c.line_ordinal target
unfolding resolve_echo
resolve_echo-backward m line target is later passed c rest h k e =
    ground (
      arith,
      search_forward-exhausted target later h,
      search_backward-found target passed c rest k e,
    )
