-- ===== src/Parsers.antt =====
-- apps/frontend/src/features/sessions/parsers: the message stream of a recorded session. This
-- module holds types.ts.
pub mod Pushes
pub mod Lines
pub mod ClaudeCode
pub mod Codex
pub mod Skim
pub mod Dispatch
use distill_portal.Prelude.{ℕ, Text, Option, Bool, List}

pub data MessageKind : Type 0 where
  user assistant tool_use tool_result system unknown boundary metadata : MessageKind

pub data MetaCategory : Type 0 where
  control telemetry title attachment agent prompt context echo : MetaCategory

pub data BoundarySubtype : Type 0 where
  session_resumed compacted : BoundarySubtype

pub record EchoOf : Type 0 where
  pub line_ordinal : ℕ
  pub canonical_kind : MessageKind

pub record Message : Type 0 where
  pub line_ordinal : ℕ
  pub message_index : ℕ
  pub timestamp : Option Text
  pub kind : MessageKind
  pub text : Text
  pub tool_name : Option Text
  pub boundary_subtype : Option BoundarySubtype
  pub raw : Text
  pub bytes : ℕ
  pub meta_category : Option MetaCategory
  pub echo_of : Option EchoOf

pub data ParseWarningSeverity : Type 0 where
  error warning info : ParseWarningSeverity

pub data ParseWarningCategory : Type 0 where
  lexer schema payload timestamp meta : ParseWarningCategory

pub record ParseWarning : Type 0 where
  pub line_ordinal : ℕ
  pub severity : ParseWarningSeverity
  pub category : ParseWarningCategory
  pub reason : Text
  pub message_index : Option ℕ

pub record ParserOutput : Type 0 where
  pub messages : List Message
  pub warnings : List ParseWarning
