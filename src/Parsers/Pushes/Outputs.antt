-- ===== src/Parsers/Pushes/Outputs.antt =====
-- The arrays that a parser builds: what holds of them after any number of lines, and that pushing for
-- one more line keeps it.
use distill_portal.Prelude.{
  ℕ, zero, suc, ◌+◌, ◌-◌, ◌≤◌, Text, Option, none, some, List, [], ◌∷◌, ◌++◌, length, length-append,
  get_elem?, All, All-append, All-mono, ◌≡◌, refl, split_lines, arith,
}
use mathlib.Core.Path.{subst}
use mathlib.Core.Option.{some-injective}
use native.Mathlib.Nat.{le_trans}
use distill_portal.Parsers.{MessageKind, unknown, Message, ParseWarning}
use distill_portal.Parsers.Pushes.{
  Body, Push, message, warn, warn_last, Output, line_message, line_warning, push_message,
  push_warning, apply_pushes,
}
use distill_portal.Parsers.Pushes.Anchored.{IsShaped, IsBody, IsAnchored}

-- Message indices count up from `k`.
abbrev pub IsNumbered : ℕ → List Message → Type 0
IsNumbered k [] = Unit
IsNumbered k (m ∷ ms) = (m.message_index ≡ k) × IsNumbered (suc k) ms

-- Line ordinals do not fall, from `k` on.
abbrev pub IsOrdered : ℕ → List Message → Type 0
IsOrdered k [] = Unit
IsOrdered k (m ∷ ms) = (k ≤ m.line_ordinal) × IsOrdered m.line_ordinal ms

-- The message is of the line it names.
abbrev pub IsOfLine : List Text → Message → Type 0
IsOfLine lines m = get_elem? lines m.line_ordinal ≡ some m.raw

-- The messages of a text: numbered, in the order of the lines, and each with its line.
pub record IsTimeline (text : Text) (ms : List Message) : Type 0 where
  pub numbered : IsNumbered 0 ms
  pub ordered : IsOrdered 0 ms
  pub of_line : All (IsOfLine (split_lines text)) ms

abbrev pub HasShape : Message → Type 0
HasShape m = IsShaped m.kind m.tool_name m.boundary_subtype m.meta_category m.echo_of

-- A warning with a message index points at a message of unknown kind of its own line.
abbrev pub Points : List Message → ParseWarning → Type 0
Points ms w =
    (i : ℕ)
    → w.message_index ≡ some i
    → (m : Message) × (get_elem? ms i ≡ some m)
      × (m.line_ordinal ≡ w.line_ordinal)
      × (m.kind ≡ unknown)

pub record IsWellFormed (lines : List Text) (ordinal : ℕ) (out : Output) : Type 0 where
  pub counted : out.next_message_index ≡ length out.messages
  pub numbered : IsNumbered 0 out.messages
  pub ordered : IsOrdered 0 out.messages
  pub below : All (λ m. m.line_ordinal ≤ ordinal) out.messages
  pub of_line : All (IsOfLine lines) out.messages
  pub shaped : All HasShape out.messages
  pub pointing : All (Points out.messages) out.warnings

IsNumbered-snoc :
    (k : ℕ) (ms : List Message) (m : Message)
    → IsNumbered k ms
    → m.message_index ≡ k + length ms
    → IsNumbered k (ms ++ m ∷ [])
IsNumbered-snoc k [] m h e = omega arith
IsNumbered-snoc k (n ∷ ms) m (e, h) e' = (e, IsNumbered-snoc (suc k) ms m h (omega arith))

IsOrdered-snoc :
    (k : ℕ) (ms : List Message) (m : Message)
    → IsOrdered k ms
    → All (λ n. n.line_ordinal ≤ m.line_ordinal) ms
    → k ≤ m.line_ordinal
    → IsOrdered k (ms ++ m ∷ [])
IsOrdered-snoc k [] m h b e = (e, tt)
IsOrdered-snoc k (n ∷ ms) m (e, h) (c, b) e' = (e, IsOrdered-snoc n.line_ordinal ms m h b c)

get_elem?-append {ℓ} :
    {A : Type ℓ} (xs ys : List A) (i : ℕ) {x : A}
    → get_elem? xs i ≡ some x
    → get_elem? (xs ++ ys) i ≡ some x
get_elem?-append [] ys i e = ground arith
get_elem?-append (y ∷ xs) ys zero e = e
get_elem?-append (y ∷ xs) ys (suc i) e = get_elem?-append xs ys i e

get_elem?-last {ℓ} :
    {A : Type ℓ} (xs : List A) (x : A) → get_elem? (xs ++ x ∷ []) (length xs) ≡ some x
get_elem?-last [] x = refl
get_elem?-last (y ∷ xs) x = get_elem?-last xs x

Points-snoc :
    (ms : List Message) (m : Message) (w : ParseWarning) → Points ms w → Points (ms ++ m ∷ []) w
Points-snoc ms m w h i e =
    let (n, got, line, kind) = h i e in (n, get_elem?-append ms (m ∷ []) i got, line, kind)

-- What `IsAnchored` asks of the state: the last message is of this line and has the kind.
abbrev IsLast : ℕ → Option MessageKind → Output → Type 0
IsLast ordinal last out =
    (k : MessageKind)
    → last ≡ some k
    → (m : Message) × (get_elem? out.messages (out.next_message_index - 1) ≡ some m)
      × (m.line_ordinal ≡ ordinal)
      × (m.kind ≡ k)

module _ (lines : List Text) (ordinal : ℕ) (raw : Text)
    (at : get_elem? lines ordinal ≡ some raw) where
  message-IsWellFormed :
      (b : Body) (out : Output)
      → IsBody b
      → IsWellFormed lines ordinal out
      → IsWellFormed lines ordinal (push_message ordinal raw b out)
  message-IsWellFormed b out s h =
      let ms = out.messages in
      let m = line_message ordinal raw out.next_message_index b in
      record {
        counted = omega (arith, length-append ms (m ∷ []), h.counted);
        numbered = IsNumbered-snoc 0 ms m h.numbered (omega (arith, h.counted));
        ordered = IsOrdered-snoc 0 ms m h.ordered h.below (omega arith);
        below = All-append (λ n. n.line_ordinal ≤ ordinal) ms (m ∷ []) h.below (omega arith);
        of_line = All-append (IsOfLine lines) ms (m ∷ []) h.of_line (at, tt);
        shaped = All-append HasShape ms (m ∷ []) h.shaped (s, tt);
        pointing =
            All-mono (Points ms) (Points (ms ++ m ∷ [])) out.warnings (Points-snoc ms m) h.pointing;
      }

  warning-IsWellFormed :
      (w : ParseWarning) (out : Output)
      → Points out.messages w
      → IsWellFormed lines ordinal out
      → IsWellFormed lines ordinal (record out { warnings = out.warnings ++ w ∷ [] })
  warning-IsWellFormed w out p h = record {
    counted = h.counted;
    numbered = h.numbered;
    ordered = h.ordered;
    below = h.below;
    of_line = h.of_line;
    shaped = h.shaped;
    pointing = All-append (Points out.messages) out.warnings (w ∷ []) h.pointing (p, tt);
  }

  message-IsLast :
      (b : Body) (out : Output)
      → IsWellFormed lines ordinal out
      → IsLast ordinal (some b.kind) (push_message ordinal raw b out)
  message-IsLast b out h k e =
      let m = line_message ordinal raw out.next_message_index b in
      let i : out.next_message_index + 1 - 1 ≡ length out.messages = omega (arith, h.counted) in
      (m, rw i (get_elem?-last out.messages m), refl, some-injective _ _ e)

  no-IsLast : (out : Output) → IsLast ordinal none out
  no-IsLast out k e = absurd (ground arith)

  -- Pushing anchored pushes for a line keeps the arrays well formed.
  pub apply_pushes-IsWellFormed :
      (last : Option MessageKind) (ps : List Push) (out : Output)
      → IsAnchored last ps
      → IsLast ordinal last out
      → IsWellFormed lines ordinal out
      → IsWellFormed lines ordinal (apply_pushes ordinal raw ps out)
  unfolding apply_pushes
  apply_pushes-IsWellFormed last [] out a l h = h
  apply_pushes-IsWellFormed last (message b ∷ ps) out (s, a) l h =
      apply_pushes-IsWellFormed (some b.kind) ps (push_message ordinal raw b out) a
        (message-IsLast b out h) (message-IsWellFormed b out s h)
  apply_pushes-IsWellFormed last (warn severity category reason ∷ ps) out a l h =
      let w = line_warning ordinal severity category reason none in
      let out' = push_warning ordinal severity category reason none out in
      apply_pushes-IsWellFormed none ps out' a (no-IsLast out')
        (warning-IsWellFormed w out (λ i e. absurd (ground arith)) h)
  apply_pushes-IsWellFormed last (warn_last severity category reason ∷ ps) out (u, a) l h =
      let i = some (out.next_message_index - 1) in
      let w = line_warning ordinal severity category reason i in
      let out' = push_warning ordinal severity category reason i out in
      let (m, got, line, kind) = l unknown u in
      let points : Points out.messages w = λ j e. (
        m,
        subst (λ n. get_elem? out.messages n ≡ some m) (some-injective _ _ e) got,
        line,
        kind,
      ) in
      apply_pushes-IsWellFormed none ps out' a (no-IsLast out')
        (warning-IsWellFormed w out points h)

-- What holds up to a line holds up to a later one.
pub IsWellFormed-mono :
    (lines : List Text) (n n' : ℕ) (out : Output)
    → n ≤ n'
    → IsWellFormed lines n out
    → IsWellFormed lines n' out
IsWellFormed-mono lines n n' out le h = record {
  counted = h.counted;
  numbered = h.numbered;
  ordered = h.ordered;
  below =
      All-mono (λ m. m.line_ordinal ≤ n) (λ m. m.line_ordinal ≤ n') out.messages
        (λ m k. le_trans k le) h.below;
  of_line = h.of_line;
  shaped = h.shaped;
  pointing = h.pointing;
}
