-- ===== src/Parsers/Codex/Items.antt =====
-- codex.ts: what session metadata, response items, turn contexts and compactions push.
use distill_portal.Prelude.{
  ℕ, Text, lit, text_eq, Bool, true, false, Option, none, some, List, [], ◌∷◌, ◌++◌, if◌then◌else◌,
}
use distill_portal.Json.{Fields, obj, prop, as_string, or_null, or_nullish, get_or, Runtime}
use distill_portal.Parsers.{
  MessageKind, user, assistant, tool_use, tool_result, system, boundary, metadata, session_resumed,
  compacted, context, echo, error, warning,
}
use distill_portal.Parsers.Pushes.{plain, Push, message, byte_length}
use distill_portal.Parsers.Codex.Texts.{
  string_field, stringify_message_payload, content_array_text, reasoning_text, format_turn_context,
}
use distill_portal.Parsers.Codex.Values.{sized, named, unknown_value}

unfoldable pub session_meta : Bool → Option Text → Text → Option Fields → List Push
unfolding string_field byte_length lit
session_meta false ts raw p =
    let text =
      lit "Codex session — cwd="
      ++ (string_field p "cwd" "(unknown cwd)"
          ++ (lit ", cli_version="
              ++ (string_field p "cli_version" "(unknown cli)"
                  ++ (lit ", model_provider="
                      ++ string_field p "model_provider" "(unknown provider)")))) in
    message (sized ts system text) ∷ []
session_meta true ts raw p =
    let body = plain ts boundary (lit "session resumed") (byte_length raw) in
    message (record body { boundary_subtype = some session_resumed }) ∷ []

-- `payload.role`, as far as the parser tells roles apart.
pub data Role : Type 0 where
  role_user role_assistant role_developer role_other : Role

abbrev role_of : Option Text → Role
role_of none = role_other
role_of (some role) =
    if text_eq role (lit "user")
    then role_user
    else if text_eq role (lit "assistant")
    then role_assistant
    else if text_eq role (lit "developer")
    then role_developer
    else role_other

-- The payload types of a response item.
pub data ItemType : Type 0 where
  echo_item : MessageKind → ItemType
  function_call custom_tool_call web_search_call function_call_output custom_tool_call_output
        developer_message reasoning other_item :
      ItemType

abbrev message_item : Role → ItemType
message_item role_user = echo_item user
message_item role_assistant = echo_item assistant
message_item role_developer = developer_message
message_item role_other = other_item

unfoldable pub item_type : Option Text → Option Text → ItemType
unfolding lit text_eq
item_type none role = other_item
item_type (some t) role =
    if text_eq t (lit "message")
    then message_item (role_of role)
    else if text_eq t (lit "function_call")
    then function_call
    else if text_eq t (lit "custom_tool_call")
    then custom_tool_call
    else if text_eq t (lit "web_search_call")
    then web_search_call
    else if text_eq t (lit "function_call_output")
    then function_call_output
    else if text_eq t (lit "custom_tool_call_output")
    then custom_tool_call_output
    else if text_eq t (lit "reasoning")
    then reasoning
    else other_item

-- An echo points at its own line until the echoes are resolved.
unfoldable pub echo_message : Option Text → ℕ → Text → MessageKind → List Push
unfolding byte_length
echo_message ts ordinal raw kind =
    let body = plain ts metadata [] (byte_length raw) in
    message (record body {
      meta_category = some echo;
      echo_of = some (record { line_ordinal = ordinal; canonical_kind = kind });
    })
    ∷ []

unfoldable pub typed_item :
    Runtime → Option Text → ℕ → Text → Fields → Option Text → Fields → ItemType → List Push
unfolding echo_message byte_length unknown_value string_field stringify_message_payload prop lit
    content_array_text reasoning_text
typed_item rt ts ordinal raw record' t p (echo_item kind) = echo_message ts ordinal raw kind
typed_item rt ts ordinal raw record' t p function_call =
    let text = rt.stringify (or_null (prop (lit "arguments") p)) in
    message (named (string_field (some p) "name" "function_call") (sized ts tool_use text)) ∷ []
typed_item rt ts ordinal raw record' t p custom_tool_call =
    let text =
      stringify_message_payload rt (or_nullish (prop (lit "input") p) (prop (lit "arguments") p)) in
    message (named (string_field (some p) "name" "custom_tool_call") (sized ts tool_use text)) ∷ []
typed_item rt ts ordinal raw record' t p web_search_call =
    let text = stringify_message_payload rt (or_nullish (prop (lit "query") p) (some (obj p))) in
    message (named (lit "web_search") (sized ts tool_use text)) ∷ []
typed_item rt ts ordinal raw record' t p function_call_output =
    let text =
      stringify_message_payload rt (or_nullish (prop (lit "output") p) (prop (lit "result") p)) in
    message (named (string_field (some p) "name" "function_call") (sized ts tool_result text)) ∷ []
typed_item rt ts ordinal raw record' t p custom_tool_call_output =
    let text =
      stringify_message_payload rt (or_nullish (prop (lit "output") p) (prop (lit "result") p)) in
    message (named (string_field (some p) "name" "custom_tool_call") (sized ts tool_result text))
    ∷ []
typed_item rt ts ordinal raw record' t p developer_message =
    message (sized ts system (content_array_text (prop (lit "content") p) "developer message")) ∷ []
typed_item rt ts ordinal raw record' t p reasoning =
    message (sized ts assistant (reasoning_text rt p)) ∷ []
typed_item rt ts ordinal raw record' t p other_item =
    unknown_value rt ts raw (obj record') warning
      (lit "unknown response_item payload.type '" ++ (get_or t (lit "(missing)") ++ lit "'"))

unfoldable pub response_item : Runtime → Option Text → ℕ → Text → Fields → Option Fields → List Push
unfolding typed_item unknown_value item_type prop lit
response_item rt ts ordinal raw record' none =
    unknown_value rt ts raw (obj record') error (lit "response_item missing payload")
response_item rt ts ordinal raw record' (some p) =
    let t = as_string (prop (lit "type") p) in
    typed_item rt ts ordinal raw record' t p (item_type t (as_string (prop (lit "role") p)))

unfoldable pub turn_context : Option Text → Text → Option Fields → List Push
unfolding format_turn_context byte_length
turn_context ts raw p =
    let body = plain ts metadata (format_turn_context p) (byte_length raw) in
    message (record body { meta_category = some context }) ∷ []

unfoldable pub compacted_record : Option Text → Option Fields → List Push
unfolding string_field byte_length
compacted_record ts p =
    let body = sized ts boundary (string_field p "message" "conversation compacted") in
    message (record body { boundary_subtype = some compacted }) ∷ []
