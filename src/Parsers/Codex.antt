-- ===== src/Parsers/Codex.antt =====
-- apps/frontend/src/features/sessions/parsers/codex.ts: the dispatch on a record's type, and the parser
-- over the text of a session. The children hold the cases, and the pass that resolves echoes.
pub mod Texts
pub mod Values
pub mod Items
pub mod Events
pub mod Echo
pub mod Single
pub mod Once
pub mod Laws
use distill_portal.Prelude.{
  ℕ, Text, lit, text_eq, Bool, true, false, Option, none, some, List, [], ◌∷◌, ◌++◌, if◌then◌else◌,
}
use distill_portal.Json.{Fields, obj, prop, as_string, as_object, Runtime}
use distill_portal.Parsers.{unknown, error, warning, schema, ParserOutput}
use distill_portal.Parsers.Pushes.{plain, Push, message, warn, stringify_truncated, byte_length}
use distill_portal.Parsers.Lines.{Handler, walk_text}
use distill_portal.Parsers.Codex.Values.{parse_timestamp, unknown_value}
use distill_portal.Parsers.Codex.Items.{session_meta, response_item, turn_context, compacted_record}
use distill_portal.Parsers.Codex.Events.{event_msg}
use distill_portal.Parsers.Codex.Echo.{resolve_echo_back_pointers}

-- The cases of the `switch` on the record's type.
pub data TopType : Type 0 where
  session_meta_type response_item_type turn_context_type event_msg_type compacted_type other_type :
      TopType

unfoldable pub top_type : Text → TopType
unfolding lit text_eq
top_type t =
    if text_eq t (lit "session_meta")
    then session_meta_type
    else if text_eq t (lit "response_item")
    then response_item_type
    else if text_eq t (lit "turn_context")
    then turn_context_type
    else if text_eq t (lit "event_msg")
    then event_msg_type
    else if text_eq t (lit "compacted")
    then compacted_type
    else other_type

-- The pushes, and `sessionMetaSeen` after the record.
typed_record :
    Runtime
    → Bool
    → Option Text
    → ℕ
    → Text
    → Text
    → Fields
    → Option Fields
    → TopType
    → List Push × Bool
unfolding session_meta response_item turn_context event_msg compacted_record unknown_value lit
typed_record rt seen ts ordinal raw t record' p session_meta_type =
    (session_meta seen ts raw p, true)
typed_record rt seen ts ordinal raw t record' p response_item_type =
    (response_item rt ts ordinal raw record' p, seen)
typed_record rt seen ts ordinal raw t record' p turn_context_type = (turn_context ts raw p, seen)
typed_record rt seen ts ordinal raw t record' p event_msg_type =
    (event_msg rt ts raw record' p, seen)
typed_record rt seen ts ordinal raw t record' p compacted_type = (compacted_record ts p, seen)
typed_record rt seen ts ordinal raw t record' p other_type = (
  unknown_value rt ts raw (obj record') warning (lit "unknown top-level type '" ++ (t ++ lit "'")),
  seen,
)

dispatch_record :
    Runtime
    → Bool
    → Option Text
    → ℕ
    → Text
    → Option Text
    → Fields
    → Option Fields
    → List Push × Bool
unfolding typed_record top_type stringify_truncated byte_length lit
dispatch_record rt seen ts ordinal raw none record' p = (
  warn error schema (lit "missing top-level 'type' field")
      ∷ message (plain ts unknown (stringify_truncated rt (obj record')) (byte_length raw))
      ∷ [],
  seen,
)
dispatch_record rt seen ts ordinal raw (some t) record' p =
    typed_record rt seen ts ordinal raw t record' p (top_type t)

-- The body of the loop after the checks of the line; the parser keeps `sessionMetaSeen`.
unfoldable pub codex_record : Runtime → Handler Bool
unfolding parse_timestamp dispatch_record prop lit
codex_record rt seen ordinal raw record' =
    let p = as_object (prop (lit "payload") record') in
    let (warnings, ts) = parse_timestamp rt record' p in
    let (pushes, seen') =
      dispatch_record rt seen ts ordinal raw (as_string (prop (lit "type") record')) record' p in
    (warnings ++ pushes, seen')

unfoldable pub parse_codex : Runtime → Text → ParserOutput
unfolding walk_text codex_record resolve_echo_back_pointers
parse_codex rt raw_text =
    let out = (walk_text rt (codex_record rt) false raw_text).1 in
    record { messages = resolve_echo_back_pointers out.messages; warnings = out.warnings }
