-- ===== src/Parsers/Codex/Texts.antt =====
-- codex.ts: the texts that the parser builds from a payload.
use distill_portal.Prelude.{
  ℕ, Text, lit, length, take, ltb, join, String, Option, none, some, List, [], ◌∷◌, ◌++◌,
  if◌then◌else◌,
}
use distill_portal.Json.{
  Json, Fields, obj, str, arr, items, prop, as_string, as_array, as_number, or_null, or_nullish,
  get_or, Runtime,
}

-- `payload[key]`, `undefined` where there is no payload.
abbrev pub payload_field : String → Option Fields → Option Json
payload_field key none = none
payload_field key (some p) = prop (lit key) p

-- `stringField(object, field, fallback)`.
unfoldable pub string_field : Option Fields → String → String → Text
unfolding lit prop
string_field payload key fallback = get_or (as_string (payload_field key payload)) (lit fallback)

-- `stringifyMessagePayload`.
unfoldable pub stringify_message_payload : Runtime → Option Json → Text
stringify_message_payload rt (some (str s)) = s
stringify_message_payload rt value = rt.stringify (or_null value)

unfoldable pub event_result_text : Runtime → Option Fields → Text
unfolding stringify_message_payload prop lit
event_result_text rt none = []
event_result_text rt (some p) = stringify_message_payload rt (
    or_nullish (prop (lit "output") p) (
      or_nullish (prop (lit "result") p)
        (or_nullish (prop (lit "message") p) (or_nullish (prop (lit "status") p) (some (obj p))))))

-- ` · ${field}` where the field is a string.
abbrev dotted : String → Fields → Text
dotted key p = elim (as_string (prop (lit key) p)) [ some s ↦ lit " · " ++ s | none ↦ [] ]

unfoldable pub system_event_text : Text → Option Fields → Text
unfolding prop lit
system_event_text payload_type none = payload_type
system_event_text payload_type (some p) =
    payload_type
    ++ (dotted "agent_id" p ++ (dotted "item_id" p ++ (dotted "status" p ++ dotted "reason" p)))

-- The strings at `text` of the objects of an array.
abbrev item_text : Json → List Text
item_text (obj f) = elim (as_string (prop (lit "text") f)) [ some s ↦ s ∷ [] | none ↦ [] ]
item_text _ = []

item_texts : List Json → List Text
unfolding prop lit
item_texts [] = []
item_texts (v ∷ vs) = item_text v ++ item_texts vs

abbrev joined_or : List Text → Text → Text
joined_or [] fallback = fallback
joined_or (part ∷ parts) fallback = join (10 ∷ []) (part ∷ parts)

unfoldable pub content_array_text : Option Json → String → Text
unfolding item_texts lit join
content_array_text (some (str s)) fallback = s
content_array_text (some (arr vs)) fallback = joined_or (item_texts (items vs)) (lit fallback)
content_array_text _ fallback = lit fallback

abbrev summary_or : Option (List Json) → Text → Text
summary_or none fallback = fallback
summary_or (some vs) fallback = joined_or (item_texts vs) fallback

unfoldable pub reasoning_text : Runtime → Fields → Text
unfolding item_texts stringify_message_payload prop lit join
reasoning_text rt p =
    get_or (as_string (or_nullish (prop (lit "text") p) (prop (lit "message") p)))
      (summary_or (as_array (prop (lit "summary") p)) (stringify_message_payload rt (some (obj p))))

abbrev pub cwd_max_chars : ℕ
cwd_max_chars = 40

short_cwd : Text → Text
unfolding lit
short_cwd cwd = if ltb cwd_max_chars (length cwd) then take cwd_max_chars cwd ++ lit "…" else cwd

abbrev labelled : String → String → Fields → Text
labelled label key p = elim (as_string (prop (lit key) p)) [ some s ↦ lit label ++ s | none ↦ [] ]

unfoldable pub format_turn_context : Option Fields → Text
unfolding short_cwd prop lit
format_turn_context none = lit "turn context → (no payload)"
format_turn_context (some p) =
    lit "turn context → cwd "
    ++ (short_cwd (get_or (as_string (prop (lit "cwd") p)) (lit "?"))
        ++ (labelled " · model " "model" p
            ++ (labelled " · sandbox " "sandbox" p ++ labelled " · approval " "approval" p)))

-- `${n ?? "?"}`, and ` ${n}mark` where there is a number.
abbrev number_or_mark : Runtime → String → Fields → Text
number_or_mark rt key p = elim (as_number (prop (lit key) p)) [
  | some n ↦ rt.number_text n
  | none ↦ lit "?"
]

abbrev marked_number : Runtime → String → String → Fields → Text
marked_number rt key mark p = elim (as_number (prop (lit key) p)) [
  | some n ↦ lit " " ++ (rt.number_text n ++ lit mark)
  | none ↦ []
]

unfoldable pub format_token_count : Runtime → Option Fields → Text
unfolding prop lit
format_token_count rt none = lit "tokens: (no payload)"
format_token_count rt (some p) =
    lit "tokens: "
    ++ (number_or_mark rt "input_tokens" p
        ++ (lit "↓ "
            ++ (number_or_mark rt "output_tokens" p
                ++ (lit "↑"
                    ++ (marked_number rt "cached_input_tokens" "≈" p
                        ++ marked_number rt "reasoning_output_tokens" "†" p)))))
