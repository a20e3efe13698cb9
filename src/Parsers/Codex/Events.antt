-- ===== src/Parsers/Codex/Events.antt =====
-- codex.ts: what the events of the user interface push.
use distill_portal.Prelude.{
  Text, lit, text_eq, String, ◌||◌, Option, none, some, List, [], ◌∷◌, ◌++◌, if◌then◌else◌,
}
use distill_portal.Json.{Json, Fields, null, obj, prop, as_string, or_null, Runtime}
use distill_portal.Parsers.{
  MessageKind, user, assistant, tool_use, tool_result, system, boundary, metadata, compacted,
  telemetry, error, warning, payload,
}
use distill_portal.Parsers.Pushes.{plain, Push, message, warn, byte_length}
use distill_portal.Parsers.Codex.Texts.{
  string_field, stringify_message_payload, event_result_text, system_event_text, format_token_count,
}
use distill_portal.Parsers.Codex.Values.{sized, named, unknown_value}

-- `payload.message` of a user or agent message, with a warning where it is no string.
unfoldable pub said : Option Text → Text → MessageKind → Option Text → List Push
unfolding lit byte_length
said ts event kind (some text) = message (sized ts kind text) ∷ []
said ts event kind none =
    warn warning payload
      (lit "event_msg." ++ (event ++ lit " missing or non-string payload.message"))
    ∷ message (sized ts kind [])
    ∷ []

unfoldable pub reasoned : Option Text → Option Text → Option Text → List Push
unfolding lit byte_length
reasoned ts (some text) m = message (sized ts assistant text) ∷ []
reasoned ts none (some text) = message (sized ts assistant text) ∷ []
reasoned ts none none =
    warn warning payload
      (lit "event_msg.agent_reasoning missing or non-string payload.text and payload.message")
    ∷ message (sized ts assistant [])
    ∷ []

-- `rawCommand === null || rawCommand === undefined`.
abbrev missing_value : Text → Option Json → List Push
missing_value reason none = warn warning payload reason ∷ []
missing_value reason (some null) = warn warning payload reason ∷ []
missing_value reason (some _) = []

unfoldable pub exec_command : Runtime → Option Text → Option Json → List Push
unfolding lit byte_length
exec_command rt ts command =
    missing_value (lit "event_msg.exec_command missing payload.command") command
    ++ message (named (lit "exec") (sized ts tool_use (rt.stringify (or_null command)))) ∷ []

unfoldable pub exec_command_output : Runtime → Option Text → Option Json → List Push
unfolding lit byte_length stringify_message_payload
exec_command_output rt ts output =
    missing_value (lit "event_msg.exec_command_output missing payload.output") output
    ++ message (named (lit "exec") (sized ts tool_result (stringify_message_payload rt output)))
      ∷ []

-- The payload types of an event.
pub data EventType : Type 0 where
  user_message agent_message agent_reasoning task_started task_complete exec exec_output exec_end
        mcp_end patch_end web_search_end context_compacted thread_rolled_back status_event
        token_count error_event other_event :
      EventType

unfoldable pub event_type : Text → EventType
unfolding lit text_eq
event_type t =
    if text_eq t (lit "user_message")
    then user_message
    else if text_eq t (lit "agent_message")
    then agent_message
    else if text_eq t (lit "agent_reasoning")
    then agent_reasoning
    else if text_eq t (lit "task_started")
    then task_started
    else if text_eq t (lit "task_complete")
    then task_complete
    else if text_eq t (lit "exec_command")
    then exec
    else if text_eq t (lit "exec_command_output")
    then exec_output
    else if text_eq t (lit "exec_command_end")
    then exec_end
    else if text_eq t (lit "mcp_tool_call_end")
    then mcp_end
    else if text_eq t (lit "patch_apply_end")
    then patch_end
    else if text_eq t (lit "web_search_end")
    then web_search_end
    else if text_eq t (lit "context_compacted")
    then context_compacted
    else if text_eq t (lit "thread_rolled_back")
    then thread_rolled_back
    else if text_eq t (lit "collab_agent_interaction_end")
        || text_eq t (lit "collab_agent_spawn_end")
        || text_eq t (lit "collab_close_end")
        || text_eq t (lit "collab_waiting_end")
        || text_eq t (lit "entered_review_mode")
        || text_eq t (lit "exited_review_mode")
        || text_eq t (lit "item_completed")
        || text_eq t (lit "turn_aborted")
    then status_event
    else if text_eq t (lit "token_count")
    then token_count
    else if text_eq t (lit "error")
    then error_event
    else other_event

unfoldable pub task_note : Option Text → String → Option Fields → List Push
unfolding lit byte_length string_field
task_note ts label p =
    message (sized ts system (lit label ++ string_field p "turn_id" "(unknown turn)")) ∷ []

unfoldable pub divider : Option Text → String → List Push
unfolding lit byte_length
divider ts text =
    let body = sized ts boundary (lit text) in
    message (record body { boundary_subtype = some compacted }) ∷ []

unfoldable pub tokens : Runtime → Option Text → Text → Option Fields → List Push
unfolding format_token_count byte_length
tokens rt ts raw p =
    let body = plain ts metadata (format_token_count rt p) (byte_length raw) in
    message (record body { meta_category = some telemetry }) ∷ []

-- `p` is the payload; it is an object, since it has a type.
unfoldable pub typed_event : Runtime → Option Text → Text → Text → Fields → EventType → List Push
unfolding said reasoned exec_command exec_command_output task_note divider tokens unknown_value
    event_result_text system_event_text string_field byte_length lit prop
typed_event rt ts raw t p user_message =
    said ts (lit "user_message") user (as_string (prop (lit "message") p))
typed_event rt ts raw t p agent_message =
    said ts (lit "agent_message") assistant (as_string (prop (lit "message") p))
typed_event rt ts raw t p agent_reasoning =
    reasoned ts (as_string (prop (lit "text") p)) (as_string (prop (lit "message") p))
typed_event rt ts raw t p task_started = task_note ts "task_started · turn " (some p)
typed_event rt ts raw t p task_complete = task_note ts "task_complete · turn " (some p)
typed_event rt ts raw t p exec = exec_command rt ts (prop (lit "command") p)
typed_event rt ts raw t p exec_output = exec_command_output rt ts (prop (lit "output") p)
typed_event rt ts raw t p exec_end =
    message (named (lit "exec") (sized ts tool_result (event_result_text rt (some p)))) ∷ []
typed_event rt ts raw t p mcp_end =
    message (
      named (string_field (some p) "tool_name" "mcp")
        (sized ts tool_result (event_result_text rt (some p))))
    ∷ []
typed_event rt ts raw t p patch_end =
    message (named (lit "apply_patch") (sized ts tool_result (event_result_text rt (some p)))) ∷ []
typed_event rt ts raw t p web_search_end =
    message (named (lit "web_search") (sized ts tool_result (event_result_text rt (some p)))) ∷ []
typed_event rt ts raw t p context_compacted = divider ts "conversation compacted"
typed_event rt ts raw t p thread_rolled_back = divider ts "thread rolled back"
typed_event rt ts raw t p status_event =
    message (sized ts system (system_event_text t (some p))) ∷ []
typed_event rt ts raw t p token_count = tokens rt ts raw (some p)
typed_event rt ts raw t p error_event =
    message (sized ts system (string_field (some p) "message" "(no error message)")) ∷ []
typed_event rt ts raw t p other_event =
    unknown_value rt ts raw (obj p) warning
      (lit "unknown event_msg payload.type '" ++ (t ++ lit "'"))

unfoldable pub untyped_event : Runtime → Option Text → Text → Fields → List Push
unfolding unknown_value lit
untyped_event rt ts raw record' =
    unknown_value rt ts raw (obj record') error (lit "event_msg missing payload.type")

unfoldable pub event_of : Runtime → Option Text → Text → Fields → Fields → Option Text → List Push
unfolding typed_event untyped_event event_type
event_of rt ts raw record' p none = untyped_event rt ts raw record'
event_of rt ts raw record' p (some t) = typed_event rt ts raw t p (event_type t)

unfoldable pub event_msg : Runtime → Option Text → Text → Fields → Option Fields → List Push
unfolding event_of untyped_event prop lit
event_msg rt ts raw record' none = untyped_event rt ts raw record'
event_msg rt ts raw record' (some p) =
    event_of rt ts raw record' p (as_string (prop (lit "type") p))
