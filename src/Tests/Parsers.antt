-- ===== src/Tests/Parsers.antt =====
-- The theorems on the parsers and the blocks at concrete sessions.
use distill_portal.Prelude.{lit, text_eq, map, length, range, split_lines, [], ◌∷◌, All, ◌≡◌, refl}
use distill_portal.Json.{prop}
use distill_portal.Parsers.{assistant, user, metadata}
use distill_portal.Parsers.Pushes.Outputs.{IsTimeline}
use distill_portal.Parsers.Lines.Walk.{line_of, object_lines}
use distill_portal.Parsers.Codex.{parse_codex}
use distill_portal.Parsers.Codex.Laws.{parse_codex-IsTimeline, lines_of-parse_codex}
use distill_portal.Parsers.Codex.Once.{SaidOnce}
use distill_portal.Parsers.Codex.Echo.{resolve_echo}
use distill_portal.Parsers.Codex.Echo.Nearest.{
  pointing, resolve_echo-forward, resolve_echo-stopped, resolve_echo-backward,
}
use distill_portal.Parsers.Skim.{build_skim}
use distill_portal.Parsers.Skim.Partition.{covered, covered-build_skim}
use distill_portal.Parsers.Skim.Kinds.{IsBlock, build_skim-IsBlock}
use distill_portal.Tests.Data.{
  message_at, stream, assistant_echo, two_lines, codex_runtime, echo_runtime,
}

parse_codex-IsTimeline_example : IsTimeline two_lines (parse_codex codex_runtime two_lines).messages
parse_codex-IsTimeline_example = parse_codex-IsTimeline codex_runtime two_lines

lines_of-parse_codex_example :
    (map line_of (parse_codex echo_runtime two_lines).messages
      ≡ object_lines echo_runtime 0 (split_lines two_lines))
    × All (SaidOnce echo_runtime) (parse_codex echo_runtime two_lines).messages
lines_of-parse_codex_example = lines_of-parse_codex echo_runtime two_lines

-- The prompt, and the row of its echo.
echo_kinds : map (λ m. m.kind) (parse_codex echo_runtime two_lines).messages ≡ user ∷ metadata ∷ []
unfolding parse_codex lit text_eq prop
echo_kinds = refl

covered-build_skim_example : covered (build_skim stream 100) ≡ range 0 (length stream)
covered-build_skim_example = covered-build_skim stream 100

build_skim-IsBlock_example :
    All (IsBlock (message_at 0 user 5 ∷ stream) 100) (build_skim (message_at 0 user 5 ∷ stream) 100)
build_skim-IsBlock_example = build_skim-IsBlock (message_at 0 user 5) stream 100

-- A prompt stands between the echo and its answer.
resolve_echo-forward_example :
    (resolve_echo []
      (assistant_echo 0)
      (message_at 1 user 2 ∷ message_at 2 assistant 2 ∷ [])).echo_of
    ≡ pointing 2 assistant
resolve_echo-forward_example =
    resolve_echo-forward [] (assistant_echo 0) 0 assistant (refl, refl, refl)
      (message_at 1 user 2 ∷ []) (message_at 2 assistant 2) [] ((refl, refl), tt) refl

resolve_echo-stopped_example :
    resolve_echo
      (message_at 0 assistant 2 ∷ [])
      (assistant_echo 1)
      (message_at 2 user 2 ∷ assistant_echo 3 ∷ message_at 4 assistant 2 ∷ [])
    ≡ assistant_echo 1
resolve_echo-stopped_example =
    resolve_echo-stopped (message_at 0 assistant 2 ∷ []) (assistant_echo 1) 1 assistant
      (refl, refl, refl) (message_at 2 user 2 ∷ []) (assistant_echo 3)
      (message_at 4 assistant 2 ∷ []) ((refl, refl), tt) refl refl

resolve_echo-backward_example :
    (resolve_echo
      (message_at 1 user 2 ∷ message_at 0 assistant 2 ∷ [])
      (assistant_echo 2)
      (message_at 3 user 2 ∷ [])).echo_of
    ≡ pointing 0 assistant
resolve_echo-backward_example =
    resolve_echo-backward (assistant_echo 2) 2 assistant (refl, refl, refl)
      (message_at 3 user 2 ∷ []) (message_at 1 user 2 ∷ []) (message_at 0 assistant 2) []
      ((refl, refl), tt) (refl, tt) refl
