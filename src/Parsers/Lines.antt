-- ===== src/Parsers/Lines.antt =====
-- The walk over the lines that claude_code.ts and codex.ts share, around each parser's treatment of
-- one record.
pub mod Walk
pub mod Each
use distill_portal.Prelude.{
  ℕ, suc, ◌+◌, Text, lit, Bool, true, false, Option, none, some, List, [], ◌∷◌, ◌++◌, split_lines,
}
use distill_portal.Json.{Json, Fields, obj, Runtime}
use distill_portal.Parsers.{lexer, error, ParserOutput}
use distill_portal.Parsers.Pushes.{Push, warn, Output, empty_output, apply_pushes}

-- What the checks before the dispatch on the record's type make of a line.
pub data LineRead : Type 0 where
  skipped : LineRead
  rejected : Text → LineRead
  object : Fields → LineRead

abbrev parsed_line : Option Json → LineRead
parsed_line none = rejected (lit "malformed JSON")
parsed_line (some (obj record')) = object record'
parsed_line (some _) = rejected (lit "top-level JSON value is not an object")

-- `last` is `lineOrdinal === lines.length - 1`.
unfoldable pub read_line : Runtime → Bool → Text → LineRead
unfolding lit
read_line rt true [] = skipped
read_line rt false [] = rejected (lit "empty line")
read_line rt last (c ∷ raw) = parsed_line (rt.parse_json (c ∷ raw))

-- A parser's treatment of a record: from the variables that it keeps across lines, the line's
-- ordinal and text, and the record, to what it pushes and the variables after.
abbrev pub Handler : Type 0 → Type 0
Handler S = S → ℕ → Text → Fields → List Push × S

abbrev pub is_nil : List Text → Bool
is_nil [] = true
is_nil (_ ∷ _) = false

module _ {S : Type 0} (rt : Runtime) (handle : Handler S) where
  handle_line : S → ℕ → Text → LineRead → List Push × S
  handle_line s ordinal raw skipped = ([], s)
  handle_line s ordinal raw (rejected reason) = (warn error lexer reason ∷ [], s)
  handle_line s ordinal raw (object record') = handle s ordinal raw record'

  -- One round of the loop.
  unfoldable pub step_line : Bool → ℕ → Text → S × Output → S × Output
  unfolding handle_line apply_pushes read_line
  step_line last ordinal raw (s, out) =
      let (pushes, s') = handle_line s ordinal raw (read_line rt last raw) in
      (s', apply_pushes ordinal raw pushes out)

  unfoldable pub walk_lines : ℕ → List Text → S × Output → S × Output
  unfolding step_line
  walk_lines ordinal [] st = st
  walk_lines ordinal (raw ∷ lines) st =
      walk_lines (suc ordinal) lines (step_line (is_nil lines) ordinal raw st)

  unfoldable pub walk_text : S → Text → S × Output
  unfolding walk_lines split_lines
  walk_text s text = walk_lines 0 (split_lines text) (s, empty_output)
