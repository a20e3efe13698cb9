-- ===== src/Parsers/Codex/Laws.antt =====
-- codex.ts: the messages and warnings of a whole session.
use distill_portal.Prelude.{
  inl, inr, Text, List, [], ◌∷◌, map, refl, false, length, All, ◌≡◌, ◌∙◌, sym, ap, split_lines,
}
use distill_portal.Json.{Runtime}
use distill_portal.Parsers.{Message}
use distill_portal.Parsers.Pushes.{Output}
use distill_portal.Parsers.Pushes.Outputs.{IsWellFormed, IsTimeline, HasShape, Points}
use distill_portal.Parsers.Lines.{walk_text}
use distill_portal.Parsers.Lines.Walk.{
  object_lines, walk_text-IsWellFormed, lines_of-walk_text, line_of,
}
use distill_portal.Parsers.Codex.{codex_record, parse_codex}
use distill_portal.Parsers.Codex.Once.{SaidOnce, echo_role_in, walked-SaidOnce}
use distill_portal.Parsers.Codex.Single.{codex_record-IsSingle}
use distill_portal.Parsers.Codex.Echo.{resolve_echo_back_pointers}
use distill_portal.Parsers.Codex.Echo.Laws.{
  without_line, without_line-resolve_echo_back_pointers, resolved-All, resolved-IsTimeline,
  resolved-HasShape, resolved-Points,
}

module _ (rt : Runtime) (text : Text) where
  abbrev walked : Output
  walked = (walk_text rt (codex_record rt) false text).1

  walked-IsWellFormed : IsWellFormed (split_lines text) (length (split_lines text)) walked
  walked-IsWellFormed =
      walk_text-IsWellFormed rt (codex_record rt)
        (λ s ordinal raw r. (codex_record-IsSingle rt s ordinal raw r).anchored) false text

  -- The messages of a Codex session are numbered from 0 without gaps, their line ordinals never fall,
  -- and each carries the text of the line that its ordinal names, for every `JSON.parse`.
  pub parse_codex-IsTimeline : IsTimeline text (parse_codex rt text).messages
  unfolding parse_codex
  parse_codex-IsTimeline =
      let h = walked-IsWellFormed in
      resolved-IsTimeline walked.messages text
        (record { numbered = h.numbered; ordered = h.ordered; of_line = h.of_line })

  -- In the messages of a Codex session a category stands exactly on metadata, a subtype exactly on
  -- boundaries, a back-pointer exactly on echoes, and a tool name only on tool messages.
  pub parse_codex-HasShape : All HasShape (parse_codex rt text).messages
  unfolding parse_codex
  parse_codex-HasShape = resolved-HasShape walked.messages walked-IsWellFormed.shaped

  -- Every warning of a Codex session that has a message index points at a message that exists, is of
  -- unknown kind and comes from the line of the warning.
  pub parse_codex-Points :
      All (Points (parse_codex rt text).messages) (parse_codex rt text).warnings
  unfolding parse_codex
  parse_codex-Points = resolved-Points walked.messages walked.warnings walked-IsWellFormed.pointing

  SaidOnce-Same : (m n : Message) → without_line m ≡ without_line n → SaidOnce rt m → SaidOnce rt n
  SaidOnce-Same m n e (inl h) =
      inl (ap (λ raw. echo_role_in (rt.parse_json raw)) (sym (ap (λ x. x.raw) e)) ∙ h)
  SaidOnce-Same m n e (inr (kind, body)) =
      inr (sym (ap (λ x. x.kind) e) ∙ kind, sym (ap (λ x. x.text) e) ∙ body)

  -- A Codex session has exactly one message for each line that holds a JSON object, in the order of
  -- the lines, which names the line by its ordinal and carries its text; and where the line is a
  -- response item that repeats a message of the user or of the assistant, it is a row of metadata
  -- without text.
  pub lines_of-parse_codex :
      (map line_of (parse_codex rt text).messages ≡ object_lines rt 0 (split_lines text))
      × All (SaidOnce rt) (parse_codex rt text).messages
  unfolding parse_codex
  lines_of-parse_codex =
      let ms = walked.messages in
      (
        same_lines (resolve_echo_back_pointers ms)
            ∙ ap (map line_of) (without_line-resolve_echo_back_pointers ms)
            ∙ sym (same_lines ms)
            ∙ lines_of-walk_text rt (codex_record rt)
                (λ s ordinal raw r. (codex_record-IsSingle rt s ordinal raw r).one) false text,
        resolved-All ms (SaidOnce rt) SaidOnce-Same (walked-SaidOnce rt text),
      )
    where
      same_lines : (ns : List Message) → map line_of ns ≡ map line_of (map without_line ns)
      same_lines [] = refl
      same_lines (n ∷ ns) = ap (λ ls. line_of n ∷ ls) (same_lines ns)
