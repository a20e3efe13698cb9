-- ===== src/Parsers/Pushes.antt =====
-- What the two parsers of apps/frontend/src/features/sessions/parsers push while they read a line:
-- `messages.push({…})` and `pushWarning(…)` as values, in the order of the calls, and their effect on
-- the arrays and on `nextMessageIndex`.
pub mod Anchored
pub mod Outputs
use distill_portal.Prelude.{
  ℕ, suc, ◌+◌, ◌-◌, Text, lit, Option, none, some, List, [], ◌∷◌, ◌++◌, utf8_length, take,
}
use distill_portal.Json.{Json, Runtime}
use distill_portal.Parsers.{
  MessageKind, MetaCategory, BoundarySubtype, EchoOf, Message, ParseWarningSeverity,
  ParseWarningCategory, ParseWarning,
}

-- The fields of a pushed message that are not the line's: `undefined` fields are `none`.
pub record Body : Type 0 where
  pub timestamp : Option Text
  pub kind : MessageKind
  pub text : Text
  pub tool_name : Option Text
  pub boundary_subtype : Option BoundarySubtype
  pub bytes : ℕ
  pub meta_category : Option MetaCategory
  pub echo_of : Option EchoOf

-- A message with none of the optional fields.
abbrev pub plain : Option Text → MessageKind → Text → ℕ → Body
plain timestamp kind text bytes = record {
  timestamp = timestamp;
  kind = kind;
  text = text;
  tool_name = none;
  boundary_subtype = none;
  bytes = bytes;
  meta_category = none;
  echo_of = none;
}

pub data Push : Type 0 where
  -- `messages.push({lineOrdinal, messageIndex: nextMessageIndex++, raw, …})`
  message : Body → Push
  -- `pushWarning(warnings, lineOrdinal, …)`
  warn : ParseWarningSeverity → ParseWarningCategory → Text → Push
  -- `pushWarning(warnings, lineOrdinal, …, nextMessageIndex - 1)`
  warn_last : ParseWarningSeverity → ParseWarningCategory → Text → Push

-- The variables of the parsing loop.
pub record Output : Type 0 where
  pub messages : List Message
  pub warnings : List ParseWarning
  pub next_message_index : ℕ

abbrev pub empty_output : Output
empty_output = record { messages = []; warnings = []; next_message_index = 0 }

abbrev pub line_warning :
    ℕ → ParseWarningSeverity → ParseWarningCategory → Text → Option ℕ → ParseWarning
line_warning ordinal severity category reason index = record {
  line_ordinal = ordinal;
  severity = severity;
  category = category;
  reason = reason;
  message_index = index;
}

-- `pushWarning`.
abbrev pub push_warning :
    ℕ → ParseWarningSeverity → ParseWarningCategory → Text → Option ℕ → Output → Output
push_warning ordinal severity category reason index out = record out {
  warnings = out.warnings ++ line_warning ordinal severity category reason index ∷ [];
}

abbrev pub line_message : ℕ → Text → ℕ → Body → Message
line_message ordinal raw index b = record {
  line_ordinal = ordinal;
  message_index = index;
  timestamp = b.timestamp;
  kind = b.kind;
  text = b.text;
  tool_name = b.tool_name;
  boundary_subtype = b.boundary_subtype;
  raw = raw;
  bytes = b.bytes;
  meta_category = b.meta_category;
  echo_of = b.echo_of;
}

abbrev pub push_message : ℕ → Text → Body → Output → Output
push_message ordinal raw b out = record {
  messages = out.messages ++ line_message ordinal raw out.next_message_index b ∷ [];
  warnings = out.warnings;
  next_message_index = out.next_message_index + 1;
}

unfoldable pub apply_push : ℕ → Text → Push → Output → Output
apply_push ordinal raw (message b) out = push_message ordinal raw b out
apply_push ordinal raw (warn severity category reason) out =
    push_warning ordinal severity category reason none out
apply_push ordinal raw (warn_last severity category reason) out =
    push_warning ordinal severity category reason (some (out.next_message_index - 1)) out

unfoldable pub apply_pushes : ℕ → Text → List Push → Output → Output
unfolding apply_push
apply_pushes ordinal raw [] out = out
apply_pushes ordinal raw (p ∷ ps) out = apply_pushes ordinal raw ps (apply_push ordinal raw p out)

-- `stringifyTruncated`: `JSON.stringify` of a parsed value neither throws nor is undefined.
unfoldable pub stringify_truncated : Runtime → Json → Text
stringify_truncated rt value = take 240 (rt.stringify value)

-- `byteLength`.
unfoldable pub byte_length : Text → ℕ
unfolding utf8_length
byte_length text = utf8_length text
