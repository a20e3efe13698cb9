-- ===== src/Parsers/Dispatch.antt =====
-- apps/frontend/src/features/sessions/parsers/index.ts: the registry of parsers, and the parsed session.
pub mod Laws
use distill_portal.Prelude.{ℕ, Text, lit, Bool, Option, none, some, List, [], ◌∷◌, ◌++◌}
use distill_portal.Contracts.{Tool, claude_code, codex, tool_text}
use distill_portal.Json.{Runtime}
use distill_portal.Parsers.{Message, ParseWarning, ParserOutput, error, schema}
use distill_portal.Parsers.ClaudeCode.{parse_claude_code}
use distill_portal.Parsers.Codex.{parse_codex}
use distill_portal.Parsers.Skim.{SkimBlock, build_skim, user_msg_oversize_threshold}

-- The value of `tool` at run time: one of the type's, or any other, for which there is no parser.
pub data ToolValue : Type 0 where
  registered : Tool → ToolValue
  unregistered : Text → ToolValue

pub record StreamMeta : Type 0 where
  pub total_bytes : ℕ
  pub truncated : Bool

pub record ParsedSession : Type 0 where
  pub tool : ToolValue
  pub messages : List Message
  pub skim : List SkimBlock
  pub total_bytes : ℕ
  pub truncated : Bool
  pub warnings : List ParseWarning

-- `PARSERS`.
unfoldable pub parsers : Runtime → Tool → Text → ParserOutput
unfolding parse_claude_code parse_codex
parsers rt claude_code raw_text = parse_claude_code rt raw_text
parsers rt codex raw_text = parse_codex rt raw_text

unfoldable pub missing_parser : Text → ParserOutput
unfolding lit
missing_parser tool = record {
  messages = [];
  warnings =
      record {
        line_ordinal = 0;
        severity = error;
        category = schema;
        reason = lit "No parser registered for tool \"" ++ (tool ++ lit "\"");
        message_index = none;
      }
      ∷ [];
}

unfoldable pub parser_output : Runtime → ToolValue → Text → ParserOutput
unfolding parsers missing_parser
parser_output rt (registered tool) raw_text = parsers rt tool raw_text
parser_output rt (unregistered tool) raw_text = missing_parser tool

unfoldable pub dispatch_parser : Runtime → ToolValue → Text → StreamMeta → ParsedSession
unfolding parser_output build_skim
dispatch_parser rt tool raw_text stream_meta =
    let output = parser_output rt tool raw_text in
    record {
      tool = tool;
      messages = output.messages;
      skim = build_skim output.messages user_msg_oversize_threshold;
      total_bytes = stream_meta.total_bytes;
      truncated = stream_meta.truncated;
      warnings = output.warnings;
    }
