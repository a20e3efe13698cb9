-- ===== src/Parsers/ClaudeCode/Content.antt =====
-- claude_code.ts: the content of a user or assistant record, and its items.
use distill_portal.Prelude.{
  Text, lit, text_eq, Option, none, some, List, [], ◌∷◌, ◌++◌, if◌then◌else◌,
}
use distill_portal.Json.{
  Json, Fields, obj, str, items as array_items, prop, as_string, as_object, or_null, get_or,
  Runtime,
}
use distill_portal.Parsers.{
  MessageKind, user, assistant, tool_use, tool_result, unknown, warning, payload,
}
use distill_portal.Parsers.Pushes.{
  plain, Push, message, warn, warn_last, stringify_truncated, byte_length,
}

-- A message of unknown kind, with the warning that points at it.
unfoldable pub unknown_item : Runtime → Option Text → Text → Text → Option Text → Json → List Push
unfolding stringify_truncated byte_length lit
unknown_item rt ts raw role item_type item =
    message (plain ts unknown (stringify_truncated rt item) (byte_length raw))
    ∷ warn_last warning payload (
        lit "unknown "
        ++ (role
            ++ (lit " content item type '" ++ (get_or item_type (lit "(missing)") ++ lit "'"))))
    ∷ []

-- The types of content items that the parser tells apart.
pub data ItemType : Type 0 where
  text_item : Text → ItemType
  tool_result_item tool_use_item thinking_item other_item : ItemType

unfoldable pub text_item_of : Option Text → ItemType
text_item_of (some text) = text_item text
text_item_of none = other_item

unfoldable pub user_item_type : Option Text → Fields → ItemType
unfolding text_item_of prop lit text_eq
user_item_type none item = other_item
user_item_type (some t) item =
    if text_eq t (lit "text")
    then text_item_of (as_string (prop (lit "text") item))
    else if text_eq t (lit "tool_result")
    then tool_result_item
    else other_item

unfoldable pub assistant_item_type : Option Text → Fields → ItemType
unfolding text_item_of prop lit text_eq
assistant_item_type none item = other_item
assistant_item_type (some t) item =
    if text_eq t (lit "text")
    then text_item_of (as_string (prop (lit "text") item))
    else if text_eq t (lit "tool_use")
    then tool_use_item
    else if text_eq t (lit "thinking")
    then thinking_item
    else other_item

abbrev pub string_or_json : Runtime → Option Json → Text
string_or_json rt (some (str s)) = s
string_or_json rt inner = rt.stringify (or_null inner)

unfoldable pub user_object : Runtime → Option Text → Text → ItemType → Fields → List Push
unfolding prop lit byte_length unknown_item
user_object rt ts raw (text_item text) item = message (plain ts user text (byte_length text)) ∷ []
user_object rt ts raw tool_result_item item =
    let text = string_or_json rt (prop (lit "content") item) in
    let body = plain ts tool_result text (byte_length text) in
    message (record body { tool_name = as_string (prop (lit "tool_use_id") item) }) ∷ []
user_object rt ts raw _ item =
    unknown_item rt ts raw (lit "user") (as_string (prop (lit "type") item)) (obj item)

unfoldable pub assistant_object : Runtime → Option Text → Text → ItemType → Fields → List Push
unfolding prop lit byte_length unknown_item
assistant_object rt ts raw (text_item text) item =
    message (plain ts assistant text (byte_length text)) ∷ []
assistant_object rt ts raw tool_use_item item =
    let text = rt.stringify_indented (or_null (prop (lit "input") item)) in
    let body = plain ts tool_use text (byte_length text) in
    message (record body { tool_name = as_string (prop (lit "name") item) }) ∷ []
assistant_object rt ts raw thinking_item item =
    let text =
      get_or (as_string (prop (lit "thinking") item))
        (get_or (as_string (prop (lit "text") item)) []) in
    message (plain ts assistant text (byte_length text)) ∷ []
assistant_object rt ts raw _ item =
    unknown_item rt ts raw (lit "assistant") (as_string (prop (lit "type") item)) (obj item)

-- One item of a content array.
unfoldable pub non_object_item : List Push
unfolding lit
non_object_item = warn warning payload (lit "non-object item in content array") ∷ []

unfoldable pub user_item : Runtime → Option Text → Text → Option Fields → List Push
unfolding user_object user_item_type non_object_item
user_item rt ts raw none = non_object_item
user_item rt ts raw (some item) =
    user_object rt ts raw (user_item_type (as_string (prop (lit "type") item)) item) item

unfoldable pub assistant_item : Runtime → Option Text → Text → Option Fields → List Push
unfolding assistant_object assistant_item_type non_object_item
assistant_item rt ts raw none = non_object_item
assistant_item rt ts raw (some item) =
    assistant_object rt ts raw (assistant_item_type (as_string (prop (lit "type") item)) item) item

unfoldable pub content_items : (Option Fields → List Push) → List Json → List Push
content_items push_item [] = []
content_items push_item (item ∷ items) =
    push_item (as_object (some item)) ++ content_items push_item items

-- `/message/content` of a user or assistant record.
unfoldable pub content_pushes :
    Runtime
    → Option Text
    → Text
    → MessageKind
    → Text
    → (Option Fields → List Push)
    → Fields
    → Option Json
    → List Push
unfolding content_items stringify_truncated byte_length lit
content_pushes rt ts raw kind role push_item record' (some (str content)) =
    message (plain ts kind content (byte_length content)) ∷ []
content_pushes rt ts raw kind role push_item record' (some (Json.arr content)) =
    content_items push_item (array_items content)
content_pushes rt ts raw kind role push_item record' _ =
    message (plain ts unknown (stringify_truncated rt (obj record')) (byte_length raw))
    ∷ warn_last warning payload (role ++ lit " record /message/content is neither string nor array")
    ∷ []
