-- ===== src/Parsers/Codex/Values.antt =====
-- codex.ts: the timestamp of a record, and the shapes of pushes that its cases share.
use distill_portal.Prelude.{
  Text, lit, String, Option, none, some, List, [], ◌∷◌, ◌++◌, if◌then◌else◌,
}
use distill_portal.Json.{Json, Fields, null, str, prop, Runtime}
use distill_portal.Parsers.{MessageKind, unknown, warning, schema, timestamp, ParseWarningSeverity}
use distill_portal.Parsers.Pushes.{
  Body, plain, Push, message, warn, warn_last, stringify_truncated, byte_length,
}
use distill_portal.Parsers.Codex.Texts.{payload_field}

-- `parseTimestamp`: the record's timestamp if it is a date, else the payload's.
abbrev bad_date : String → Text → List Push
bad_date place value =
    warn warning timestamp
      (lit "unparseable RFC3339 " ++ (lit place ++ (lit " '" ++ (value ++ lit "'"))))
    ∷ []

-- One of the two places: its warnings, and its timestamp if it has one.
unfoldable pub timestamp_at : Runtime → String → String → Option Json → List Push × Option Text
unfolding lit
timestamp_at rt unparseable not_string none = ([], none)
timestamp_at rt unparseable not_string (some null) = ([], none)
timestamp_at rt unparseable not_string (some (str value)) =
    if rt.is_date value then ([], some value) else (bad_date unparseable value, none)
timestamp_at rt unparseable not_string (some _) =
    (warn warning timestamp (lit not_string) ∷ [], none)

unfoldable pub payload_timestamp : Runtime → Option Fields → List Push × Option Text
unfolding timestamp_at prop lit
payload_timestamp rt p =
    timestamp_at rt "payload.timestamp" "payload.timestamp is not a string"
      (payload_field "timestamp" p)

-- The fall-through from the record's timestamp to the payload's.
unfoldable pub fall_through :
    List Push × Option Text → List Push × Option Text → List Push × Option Text
fall_through (ps, some value) inner = (ps, some value)
fall_through (ps, none) (qs, value) = (ps ++ qs, value)

unfoldable pub parse_timestamp : Runtime → Fields → Option Fields → List Push × Option Text
unfolding timestamp_at payload_timestamp fall_through prop lit
parse_timestamp rt record' p =
    fall_through
      (timestamp_at rt "top-level timestamp" "top-level timestamp is not a string"
        (prop (lit "timestamp") record'))
      (payload_timestamp rt p)

-- A message whose size is that of its own text.
abbrev pub sized : Option Text → MessageKind → Text → Body
sized ts kind text = plain ts kind text (byte_length text)

abbrev pub named : Text → Body → Body
named name b = record b { tool_name = some name }

-- A message of unknown kind for a value, with the warning that points at it.
unfoldable pub unknown_value :
    Runtime → Option Text → Text → Json → ParseWarningSeverity → Text → List Push
unfolding stringify_truncated byte_length
unknown_value rt ts raw value severity reason =
    message (plain ts unknown (stringify_truncated rt value) (byte_length raw))
    ∷ warn_last severity schema reason
    ∷ []
