-- ===== src/Tests/Hints.antt =====
-- The theorems on the render hints at a concrete session, and what counts as a failed call.
use distill_portal.Prelude.{
  ℕ, String, Text, lit, length, filter, map, true, false, some, List, [], ◌∷◌, ◌≡◌, refl,
}
use distill_portal.Parsers.{
  Message, MessageKind, user, assistant, tool_use, tool_result, metadata, boundary, ParseWarning,
  warning, meta,
}
use distill_portal.Hints.{Lifecycle}
use distill_portal.Hints.Failure.{failure_text}
use distill_portal.Hints.Messages.{hints_of_messages, inline_at}
use distill_portal.Hints.Clusters.{render_hints}
use distill_portal.Hints.Clusters.Flat.{unfold_all}
use distill_portal.Hints.Clusters.Grouped.{unfold_all-render_hints}
use distill_portal.Hints.Clusters.Runs.{IsClustered, render_hints-IsClustered}
use distill_portal.Hints.Clusters.Gather.{gather, index_of}
use distill_portal.Hints.Clusters.Views.{shown, kept_for_banner, shows_body, only_warns}
use distill_portal.Hints.Clusters.Cover.{gather-render_hints}
use distill_portal.Tests.Data.{message_at}

abbrev said : ℕ → MessageKind → String → Message
unfolding lit
said i kind text = record (message_at i kind 1) { text = lit text }

-- A prompt, two calls with a remark between them, the second of which fails, an empty answer, two metadata rows,
-- and a divider.
abbrev session : List Message
session =
    said 0 user "do it"
    ∷ said 1 tool_use "ls"
    ∷ said 2 tool_result "fine"
    ∷ said 3 assistant "next"
    ∷ said 4 tool_use "cat"
    ∷ said 5 tool_result "exit_code: 2"
    ∷ said 6 assistant " "
    ∷ said 7 metadata "mode"
    ∷ said 8 metadata "title"
    ∷ said 9 boundary ""
    ∷ []

abbrev no_case : Text → Text
no_case s = s

abbrev warnings : List ParseWarning
warnings =
    record {
      line_ordinal = 9;
      severity = warning;
      category = meta;
      reason = [];
      message_index = some 0;
    }
    ∷ []

gather-render_hints_example :
    (gather shown (render_hints no_case session warnings)
      ≡ map index_of (filter (shows_body (inline_at warnings (length session))) session))
    × (gather kept_for_banner (render_hints no_case session warnings)
        ≡ map index_of (filter (only_warns (inline_at warnings (length session))) session))
gather-render_hints_example = gather-render_hints no_case session warnings

unfold_all-render_hints_example :
    unfold_all (render_hints no_case session warnings) ≡ hints_of_messages session warnings
unfold_all-render_hints_example = unfold_all-render_hints no_case session warnings

render_hints-IsClustered_example : IsClustered false (render_hints no_case session warnings)
render_hints-IsClustered_example = render_hints-IsClustered no_case session warnings

abbrev two_calls : List Lifecycle
two_calls =
    record { message_index = 1; pair_with_index = some 2; warnings = [] }
    ∷ record { message_index = 4; pair_with_index = some 5; warnings = [] }
    ∷ []

-- The rows of the session: the blank answer is left out, and so is the prompt, whose only warning is for the
-- banner.
shown_rows :
    (gather shown (render_hints no_case session warnings) ≡ 1 ∷ 2 ∷ 3 ∷ 4 ∷ 5 ∷ 7 ∷ 8 ∷ 9 ∷ [])
    × (gather kept_for_banner (render_hints no_case session warnings) ≡ 0 ∷ [])
unfolding render_hints
shown_rows = (refl, refl)

spaced_code : failure_text no_case (lit "exit_code\" : 12") ≡ true
unfolding failure_text
spaced_code = refl

zero_code : failure_text no_case (lit "exit_code: 0") ≡ false
unfolding failure_text
zero_code = refl

status_line : failure_text no_case (lit "ok\n  Status: FAILED.") ≡ true
unfolding failure_text
status_line = refl

longer_word : failure_text no_case (lit "status: failedly") ≡ false
unfolding failure_text
longer_word = refl
