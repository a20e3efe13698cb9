-- ===== src/Parsers/ClaudeCode.antt =====
-- apps/frontend/src/features/sessions/parsers/claude_code.ts: what one record of a Claude Code
-- session pushes, and the parser over the text of a session.
pub mod Metadata
pub mod Content
pub mod Laws
use distill_portal.Prelude.{
  ℕ, Text, lit, text_eq, Bool, true, false, not, ◌&&◌, Option, none, some, List, [], ◌∷◌, ◌++◌,
  if◌then◌else◌,
}
use distill_portal.Json.{
  Json, Fields, obj, str, items as array_items, prop, as_string, as_object, as_array, or_null,
  get_or, Runtime,
}
use distill_portal.Parsers.{
  MessageKind, user, assistant, tool_use, tool_result, system, unknown, metadata, ParserOutput,
  error, warning, schema, payload, timestamp,
}
use distill_portal.Parsers.Pushes.{
  Body, plain, Push, message, warn, warn_last, stringify_truncated, byte_length,
}
use distill_portal.Parsers.Lines.{Handler, walk_text}
use distill_portal.Parsers.ClaudeCode.Content.{
  unknown_item, text_item_of, user_item_type, assistant_item_type, user_object, assistant_object,
  non_object_item, user_item, assistant_item, content_items, content_pushes,
}
use distill_portal.Parsers.ClaudeCode.Metadata.{MetadataType, format_metadata}

-- `parseTimestamp`: the warnings it pushes, and the timestamp.
check_date : Bool → Text → List Push × Option Text
check_date true value = ([], some value)
check_date false value = (
  warn warning timestamp (lit "unparseable RFC3339 timestamp '" ++ (value ++ lit "'")) ∷ [],
  none,
)

timestamp_of : Runtime → Option Json → List Push × Option Text
timestamp_of rt none = ([], none)
timestamp_of rt (some Json.null) = ([], none)
timestamp_of rt (some (str value)) = check_date (rt.is_date value) value
timestamp_of rt (some _) =
    (warn warning timestamp (lit "timestamp field is not a string") ∷ [], none)

unfoldable pub parse_timestamp : Runtime → Fields → List Push × Option Text
unfolding check_date timestamp_of lit prop
parse_timestamp rt record' = timestamp_of rt (prop (lit "timestamp") record')

-- The check of `/message/role` against the record's type, where there is a message.
check_role : Text → Option Text → List Push
check_role expected none = []
check_role expected (some role) =
    if text_eq role expected
    then []
    else warn warning schema (
        lit "top-level type '"
        ++ (expected ++ (lit "' but /message/role is '" ++ (role ++ lit "'"))))
      ∷ []

role_pushes : Text → Option Fields → List Push
unfolding check_role prop lit text_eq
role_pushes expected none = []
role_pushes expected (some m) = check_role expected (as_string (prop (lit "role") m))

abbrev message_of : Fields → Option Fields
message_of record' = as_object (prop (lit "message") record')

abbrev content_of : Option Fields → Option Json
content_of none = none
content_of (some m) = prop (lit "content") m

user_record : Runtime → Option Text → Text → Fields → List Push
unfolding role_pushes content_pushes user_item prop lit
user_record rt ts raw record' =
    role_pushes (lit "user") (message_of record')
    ++ content_pushes rt ts raw user (lit "user") (user_item rt ts raw) record'
        (content_of (message_of record'))

assistant_record : Runtime → Option Text → Text → Fields → List Push
unfolding role_pushes content_pushes assistant_item prop lit
assistant_record rt ts raw record' =
    role_pushes (lit "assistant") (message_of record')
    ++ content_pushes rt ts raw assistant (lit "assistant") (assistant_item rt ts raw) record'
        (content_of (message_of record'))

-- `leafUuid ? `${leafUuid}: ${summary}` : summary`: an empty string is falsy.
abbrev with_leaf : Text → Text → Text
with_leaf [] summary = summary
with_leaf (c ∷ leaf) summary = (c ∷ leaf) ++ (lit ": " ++ summary)

summary_record : Option Text → Fields → List Push
unfolding prop lit byte_length
summary_record ts record' =
    let leaf = get_or (as_string (prop (lit "leafUuid") record')) [] in
    let summary = get_or (as_string (prop (lit "summary") record')) [] in
    let text = with_leaf leaf summary in message (plain ts system text (byte_length text)) ∷ []

system_record : Runtime → Option Text → Fields → List Push
unfolding prop lit byte_length stringify_truncated
system_record rt ts record' =
    let text = get_or (as_string (prop (lit "content") record')) (
      get_or (as_string (content_of (message_of record')))
        (stringify_truncated rt (obj record'))) in
    message (plain ts system text (byte_length text)) ∷ []

-- The cases of the `switch` on the record's type.
pub data TopType : Type 0 where
  user_type assistant_type summary_type system_type other_type : TopType
  metadata_type : MetadataType → TopType

top_type : Text → TopType
unfolding lit text_eq
top_type t =
    if text_eq t (lit "user")
    then user_type
    else if text_eq t (lit "assistant")
    then assistant_type
    else if text_eq t (lit "summary")
    then summary_type
    else if text_eq t (lit "system")
    then system_type
    else if text_eq t (lit "agent-name")
    then metadata_type MetadataType.agent_name
    else if text_eq t (lit "ai-title")
    then metadata_type MetadataType.ai_title
    else if text_eq t (lit "attachment")
    then metadata_type MetadataType.attachment
    else if text_eq t (lit "custom-title")
    then metadata_type MetadataType.custom_title
    else if text_eq t (lit "file-history-snapshot")
    then metadata_type MetadataType.file_history_snapshot
    else if text_eq t (lit "last-prompt")
    then metadata_type MetadataType.last_prompt
    else if text_eq t (lit "queue-operation")
    then metadata_type MetadataType.queue_operation
    else if text_eq t (lit "permission-mode")
    then metadata_type MetadataType.permission_mode
    else other_type

metadata_record : Runtime → Option Text → Text → MetadataType → Fields → List Push
unfolding format_metadata byte_length
metadata_record rt ts raw type record' =
    let (category, text) = format_metadata type record' in
    let body = plain ts metadata text (byte_length raw) in
    message (record body { meta_category = some category }) ∷ []

unknown_record : Runtime → Option Text → Text → Text → Fields → List Push
unfolding stringify_truncated byte_length lit
unknown_record rt ts raw t record' =
    message (plain ts unknown (stringify_truncated rt (obj record')) (byte_length raw))
    ∷ warn_last warning schema (lit "unknown top-level type '" ++ (t ++ lit "'"))
    ∷ []

typed_record : Runtime → Option Text → Text → Text → TopType → Fields → List Push
unfolding user_record assistant_record summary_record system_record metadata_record unknown_record
typed_record rt ts raw t user_type record' = user_record rt ts raw record'
typed_record rt ts raw t assistant_type record' = assistant_record rt ts raw record'
typed_record rt ts raw t summary_type record' = summary_record ts record'
typed_record rt ts raw t system_type record' = system_record rt ts record'
typed_record rt ts raw t (metadata_type m) record' = metadata_record rt ts raw m record'
typed_record rt ts raw t other_type record' = unknown_record rt ts raw t record'

untyped_record : Runtime → Option Text → Text → Fields → List Push
unfolding stringify_truncated byte_length lit
untyped_record rt ts raw record' =
    warn error schema (lit "missing top-level 'type' field")
    ∷ message (plain ts unknown (stringify_truncated rt (obj record')) (byte_length raw))
    ∷ []

dispatch_record : Runtime → Option Text → Text → Option Text → Fields → List Push
unfolding typed_record untyped_record top_type
dispatch_record rt ts raw none record' = untyped_record rt ts raw record'
dispatch_record rt ts raw (some t) record' = typed_record rt ts raw t (top_type t) record'

-- The body of the loop after the checks of the line. The parser keeps nothing across lines.
unfoldable pub claude_code_record : Runtime → Handler (Unit {0})
unfolding parse_timestamp dispatch_record prop lit
claude_code_record rt s ordinal raw record' =
    let (warnings, ts) = parse_timestamp rt record' in
    (warnings ++ dispatch_record rt ts raw (as_string (prop (lit "type") record')) record', s)

unfoldable pub parse_claude_code : Runtime → Text → ParserOutput
unfolding walk_text claude_code_record
parse_claude_code rt raw_text =
    let out = (walk_text rt (claude_code_record rt) tt raw_text).1 in
    record { messages = out.messages; warnings = out.warnings }
