-- ===== src/Parsers/Dispatch/Laws.antt =====
-- parsers/index.ts: what every consumer of a parsed session may rely on.
use distill_portal.Prelude.{Text, length, range, All, ◌≡◌, arith}
use distill_portal.Contracts.{claude_code, codex}
use distill_portal.Json.{Runtime}
use distill_portal.Parsers.{ParserOutput}
use distill_portal.Parsers.Pushes.Outputs.{IsTimeline, HasShape, Points}
use distill_portal.Parsers.ClaudeCode.Laws.{
  parse_claude_code-IsTimeline, parse_claude_code-HasShape, parse_claude_code-Points,
}
use distill_portal.Parsers.Codex.Laws.{
  parse_codex-IsTimeline, parse_codex-HasShape, parse_codex-Points,
}
use distill_portal.Parsers.Skim.{user_msg_oversize_threshold}
use distill_portal.Parsers.Skim.Partition.{covered, covered-build_skim}
use distill_portal.Parsers.Dispatch.{
  ToolValue, registered, unregistered, StreamMeta, ParsedSession, parsers, missing_parser,
  parser_output, dispatch_parser,
}

-- The messages and warnings of one text.
pub record IsOutput (text : Text) (out : ParserOutput) : Type 0 where
  pub timeline : IsTimeline text out.messages
  pub shaped : All HasShape out.messages
  pub pointing : All (Points out.messages) out.warnings

-- A session of one text: its blocks cover its messages.
pub record IsSession (text : Text) (s : ParsedSession) : Type 0 where
  pub output : IsOutput text (record { messages = s.messages; warnings = s.warnings })
  pub blocks : covered s.skim ≡ range 0 (length s.messages)

parser_output-IsOutput :
    (rt : Runtime) (tool : ToolValue) (text : Text) → IsOutput text (parser_output rt tool text)
unfolding parser_output parsers missing_parser
parser_output-IsOutput rt (registered claude_code) text = record {
  timeline = parse_claude_code-IsTimeline rt text;
  shaped = parse_claude_code-HasShape rt text;
  pointing = parse_claude_code-Points rt text;
}
parser_output-IsOutput rt (registered codex) text = record {
  timeline = parse_codex-IsTimeline rt text;
  shaped = parse_codex-HasShape rt text;
  pointing = parse_codex-Points rt text;
}
parser_output-IsOutput rt (unregistered tool) text = record {
  timeline = record { numbered = tt; ordered = tt; of_line = tt };
  shaped = tt;
  pointing = (λ i e. absurd (ground arith), tt);
}

-- For every tool, also one without a parser, and every text, the parsed session is whole: its messages
-- are a timeline of the text and well shaped, its warnings point at messages of theirs, and its
-- blocks cover every message once, in order.
pub dispatch_parser-IsSession :
    (rt : Runtime) (tool : ToolValue) (text : Text) (stream_meta : StreamMeta)
    → IsSession text (dispatch_parser rt tool text stream_meta)
unfolding dispatch_parser
dispatch_parser-IsSession rt tool text stream_meta = record {
  output = parser_output-IsOutput rt tool text;
  blocks = covered-build_skim (parser_output rt tool text).messages user_msg_oversize_threshold;
}
