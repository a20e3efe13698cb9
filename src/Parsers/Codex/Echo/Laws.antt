-- ===== src/Parsers/Codex/Echo/Laws.antt =====
-- codex.ts, `resolveEchoBackPointers`: the messages before and after the pass.
use distill_portal.Prelude.{
  ℕ, zero, suc, ◌≤◌, Text, Option, none, some, List, [], ◌∷◌, map, All, All-mono, split_lines,
  get_elem?, ◌≡◌, refl, sym, ap, ◌∙◌, arith,
}
use distill_portal.Parsers.{Message, EchoOf, ParseWarning}
use distill_portal.Parsers.Pushes.Anchored.{is_some, is_metadata, is_boundary, is_tool, is_echo}
use distill_portal.Parsers.Pushes.Outputs.{
  IsNumbered, IsOrdered, IsOfLine, IsTimeline, HasShape, Points,
}
use distill_portal.Parsers.Codex.Echo.{
  echo_target, with_line, resolve_target, resolve_echo, resolve_from, resolve_echo_back_pointers,
}
use mathlib.Core.Path.{subst}
use mathlib.Core.Option.{some-injective}

-- A message with the line of its back-pointer struck out.
abbrev struck : Option EchoOf → Option EchoOf
struck none = none
struck (some e) = some (record e { line_ordinal = 0 })

abbrev pub without_line : Message → Message
without_line m = record m { echo_of = struck m.echo_of }

without_line-with_line :
    (m : Message) (e : EchoOf) (line : Option ℕ)
    → m.echo_of ≡ some e
    → without_line (with_line m e line) ≡ without_line m
without_line-with_line m e none h = refl
without_line-with_line m e (some line) h = rw h

echo_of_target : (m : Message) (e : EchoOf) → echo_target m ≡ some e → m.echo_of ≡ some e
echo_of_target m e h = ground arith

without_line-resolve_echo :
    (earlier : List Message) (m : Message) (later : List Message)
    → without_line (resolve_echo earlier m later) ≡ without_line m
unfolding resolve_echo
without_line-resolve_echo earlier m later = go (echo_target m) refl
  where
    go :
        (o : Option EchoOf)
        → echo_target m ≡ o
        → without_line (resolve_target earlier m later o) ≡ without_line m
    go none h = refl
    go (some e) h = without_line-with_line m e _ (echo_of_target m e h)

without_line-resolve_from :
    (earlier later : List Message)
    → map without_line (resolve_from earlier later) ≡ map without_line later
unfolding resolve_from
without_line-resolve_from earlier [] = refl
without_line-resolve_from earlier (m ∷ later) = cc (
  without_line-resolve_echo earlier m later,
  without_line-resolve_from (resolve_echo earlier m later ∷ earlier) later,
)

-- Resolving the echoes keeps the messages and their order, and changes no field but the line of a
-- back-pointer.
pub without_line-resolve_echo_back_pointers :
    (ms : List Message) → map without_line (resolve_echo_back_pointers ms) ≡ map without_line ms
unfolding resolve_echo_back_pointers
without_line-resolve_echo_back_pointers ms = without_line-resolve_from [] ms

-- The same messages, but for the lines of back-pointers.
abbrev Same : List Message → List Message → Type 0
Same [] [] = Unit
Same (m ∷ ms) (n ∷ ns) = (without_line m ≡ without_line n) × Same ms ns
Same _ _ = ⊥

Same-resolve_from : (earlier later : List Message) → Same later (resolve_from earlier later)
unfolding resolve_from
Same-resolve_from earlier [] = tt
Same-resolve_from earlier (m ∷ later) = (
  sym (without_line-resolve_echo earlier m later),
  Same-resolve_from (resolve_echo earlier m later ∷ earlier) later,
)

IsNumbered-Same : (k : ℕ) (ms ns : List Message) → Same ms ns → IsNumbered k ms → IsNumbered k ns
IsNumbered-Same k [] [] s h = tt
IsNumbered-Same k (m ∷ ms) (n ∷ ns) (e, s) (i, h) =
    (sym (ap (λ x. x.message_index) e) ∙ i, IsNumbered-Same (suc k) ms ns s h)
IsNumbered-Same k [] (n ∷ ns) s h = absurd s
IsNumbered-Same k (m ∷ ms) [] s h = absurd s

IsOrdered-Same : (k : ℕ) (ms ns : List Message) → Same ms ns → IsOrdered k ms → IsOrdered k ns
IsOrdered-Same k [] [] s h = tt
IsOrdered-Same k (m ∷ ms) (n ∷ ns) (e, s) (i, h) =
    let line = ap (λ x. x.line_ordinal) e in
    (
      subst (λ l. k ≤ l) line i,
      IsOrdered-Same n.line_ordinal ms ns s (subst (λ l. IsOrdered l ms) line h),
    )
IsOrdered-Same k [] (n ∷ ns) s h = absurd s
IsOrdered-Same k (m ∷ ms) [] s h = absurd s

-- A property of messages that does not look at the line of a back-pointer.
All-Same :
    (P : Message → Type 0)
    → ((m n : Message) → without_line m ≡ without_line n → P m → P n)
    → (ms ns : List Message) → Same ms ns
    → All P ms
    → All P ns
All-Same P f [] [] s h = tt
All-Same P f (m ∷ ms) (n ∷ ns) (e, s) (p, h) = (f m n e p, All-Same P f ms ns s h)
All-Same P f [] (n ∷ ns) s h = absurd s
All-Same P f (m ∷ ms) [] s h = absurd s

get_elem?-Same :
    (ms ns : List Message) (i : ℕ) (m : Message)
    → Same ms ns
    → get_elem? ms i ≡ some m
    → (n : Message) × (get_elem? ns i ≡ some n) × (without_line m ≡ without_line n)
get_elem?-Same [] [] i m s h = absurd (ground arith)
get_elem?-Same (x ∷ ms) (n ∷ ns) zero m (e, s) h =
    (n, refl, sym (ap without_line (some-injective _ _ h)) ∙ e)
get_elem?-Same (x ∷ ms) (n ∷ ns) (suc i) m (e, s) h = get_elem?-Same ms ns i m s h
get_elem?-Same [] (n ∷ ns) i m s h = absurd s
get_elem?-Same (m ∷ ms) [] i _ s h = absurd s

is_some-struck : (o : Option EchoOf) → is_some (struck o) ≡ is_some o
is_some-struck none = refl
is_some-struck (some e) = refl

HasShape-Same : (m n : Message) → without_line m ≡ without_line n → HasShape m → HasShape n
HasShape-Same m n e h =
    let kind = ap (λ x. x.kind) e in
    let tool = ap (λ x. x.tool_name) e in
    let subtype = ap (λ x. x.boundary_subtype) e in
    let category = ap (λ x. x.meta_category) e in
    let back =
      sym (is_some-struck m.echo_of) ∙ ap (λ x. is_some x.echo_of) e ∙ is_some-struck n.echo_of in
    record {
      categorised = sym (ap is_some category) ∙ h.categorised ∙ ap is_metadata kind;
      divided = sym (ap is_some subtype) ∙ h.divided ∙ ap is_boundary kind;
      echoed = sym back ∙ h.echoed ∙ ap is_echo category;
      tooled = λ t. sym (ap is_tool kind) ∙ h.tooled (ap is_some tool ∙ t);
    }

IsOfLine-Same :
    (lines : List Text) (m n : Message)
    → without_line m ≡ without_line n
    → IsOfLine lines m
    → IsOfLine lines n
IsOfLine-Same lines m n e h =
    ap (get_elem? lines) (sym (ap (λ x. x.line_ordinal) e)) ∙ h ∙ ap (λ x. some x.raw) e

Points-Same : (ms ns : List Message) → Same ms ns → (w : ParseWarning) → Points ms w → Points ns w
Points-Same ms ns s w h i at =
    let (m, got, line, kind) = h i at in
    let (n, got', e) = get_elem?-Same ms ns i m s got in
    (n, got', sym (ap (λ x. x.line_ordinal) e) ∙ line, sym (ap (λ x. x.kind) e) ∙ kind)

module _ (ms : List Message) where
  Same-resolved : Same ms (resolve_echo_back_pointers ms)
  unfolding resolve_echo_back_pointers
  Same-resolved = Same-resolve_from [] ms

  pub resolved-All :
      (P : Message → Type 0)
      → ((m n : Message) → without_line m ≡ without_line n → P m → P n)
      → All P ms
      → All P (resolve_echo_back_pointers ms)
  resolved-All P f h = All-Same P f ms _ Same-resolved h

  pub resolved-IsTimeline :
      (text : Text) → IsTimeline text ms → IsTimeline text (resolve_echo_back_pointers ms)
  resolved-IsTimeline text h = record {
    numbered = IsNumbered-Same 0 ms _ Same-resolved h.numbered;
    ordered = IsOrdered-Same 0 ms _ Same-resolved h.ordered;
    of_line =
        All-Same (IsOfLine (split_lines text)) (IsOfLine-Same (split_lines text)) ms _ Same-resolved
          h.of_line;
  }

  pub resolved-HasShape : All HasShape ms → All HasShape (resolve_echo_back_pointers ms)
  resolved-HasShape h = All-Same HasShape HasShape-Same ms _ Same-resolved h

  pub resolved-Points :
      (ws : List ParseWarning)
      → All (Points ms) ws
      → All (Points (resolve_echo_back_pointers ms)) ws
  resolved-Points ws h =
      All-mono (Points ms) (Points (resolve_echo_back_pointers ms)) ws
        (Points-Same ms _ Same-resolved) h
