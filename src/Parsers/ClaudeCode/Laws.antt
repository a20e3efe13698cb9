-- ===== src/Parsers/ClaudeCode/Laws.antt =====
-- claude_code.ts: the messages and warnings of a whole session.
use distill_portal.Prelude.{
  Text, lit, text_eq, false, Option, none, some, List, [], ◌∷◌, All, ◌≡◌, refl, inl, inr,
  Bool-cases, arith,
}
use distill_portal.Json.{Json, Fields, obj, str, arr, prop, as_string, as_object, Runtime}
use distill_portal.Parsers.{MessageKind, user, assistant}
use distill_portal.Parsers.Pushes.{Push}
use distill_portal.Parsers.Pushes.Anchored.{IsAnchored, IsAnchored-append, is_metadata, is_boundary}
use distill_portal.Parsers.Pushes.Outputs.{IsTimeline, HasShape, Points}
use distill_portal.Parsers.Lines.Walk.{AnchorsAll, walk_text-IsWellFormed}
use distill_portal.Parsers.ClaudeCode.{
  timestamp_of, parse_timestamp, check_role, role_pushes, user_record, assistant_record,
  summary_record, system_record, metadata_record, unknown_record, typed_record, untyped_record,
  dispatch_record, top_type, TopType, user_type, assistant_type, summary_type, system_type,
  metadata_type, other_type, message_of, content_of, claude_code_record, parse_claude_code,
}
use distill_portal.Parsers.ClaudeCode.Content.{
  unknown_item, ItemType, user_object, assistant_object, user_item, assistant_item, text_item,
  tool_result_item, tool_use_item, thinking_item, non_object_item, content_items, content_pushes,
}

parse_timestamp-IsAnchored : (rt : Runtime) (r : Fields) → IsAnchored none (parse_timestamp rt r).0
unfolding parse_timestamp
parse_timestamp-IsAnchored rt r = timestamp_of-IsAnchored (prop (lit "timestamp") r)
  where
    timestamp_of-IsAnchored : (v : Option Json) → IsAnchored none (timestamp_of rt v).0
    timestamp_of-IsAnchored v = ground arith

module _ (rt : Runtime) (ts : Option Text) (raw : Text) where
  unknown_item-IsAnchored :
      (role : Text) (t : Option Text) (item : Json)
      → IsAnchored none (unknown_item rt ts raw role t item)
  unfolding unknown_item
  unknown_item-IsAnchored role t item = ground arith

  user_object-IsAnchored :
      (t : ItemType) (item : Fields) → IsAnchored none (user_object rt ts raw t item)
  unfolding user_object
  user_object-IsAnchored (text_item text) item = ground arith
  user_object-IsAnchored tool_result_item item = ground arith
  user_object-IsAnchored _ item =
      unknown_item-IsAnchored (lit "user") (as_string (prop (lit "type") item)) (obj item)

  assistant_object-IsAnchored :
      (t : ItemType) (item : Fields) → IsAnchored none (assistant_object rt ts raw t item)
  unfolding assistant_object
  assistant_object-IsAnchored (text_item text) item = ground arith
  assistant_object-IsAnchored tool_use_item item = ground arith
  assistant_object-IsAnchored thinking_item item = ground arith
  assistant_object-IsAnchored _ item =
      unknown_item-IsAnchored (lit "assistant") (as_string (prop (lit "type") item)) (obj item)

  user_item-IsAnchored : (item : Option Fields) → IsAnchored none (user_item rt ts raw item)
  unfolding user_item non_object_item
  user_item-IsAnchored none = ground arith
  user_item-IsAnchored (some item) = user_object-IsAnchored _ item

  assistant_item-IsAnchored :
      (item : Option Fields) → IsAnchored none (assistant_item rt ts raw item)
  unfolding assistant_item non_object_item
  assistant_item-IsAnchored none = ground arith
  assistant_item-IsAnchored (some item) = assistant_object-IsAnchored _ item

  content_items-IsAnchored :
      (push_item : Option Fields → List Push)
      → ((item : Option Fields) → IsAnchored none (push_item item))
      → (items : List Json) → IsAnchored none (content_items push_item items)
  unfolding content_items
  content_items-IsAnchored push_item h [] = tt
  content_items-IsAnchored push_item h (item ∷ items) =
      IsAnchored-append none (push_item (as_object (some item))) (content_items push_item items)
        (h (as_object (some item))) (content_items-IsAnchored push_item h items)

  -- A kind that content may have: not metadata, a boundary or a tool message.
  abbrev IsTurn : MessageKind → Type 0
  IsTurn kind = (is_metadata kind ≡ false) × (is_boundary kind ≡ false)

  content_pushes-IsAnchored :
      (kind : MessageKind) (role : Text) (push_item : Option Fields → List Push) (r : Fields)
      (content : Option Json)
      → IsTurn kind
      → ((item : Option Fields) → IsAnchored none (push_item item))
      → IsAnchored none (content_pushes rt ts raw kind role push_item r content)
  unfolding content_pushes
  content_pushes-IsAnchored kind role push_item r (some (arr content)) k h =
      content_items-IsAnchored push_item h _
  content_pushes-IsAnchored kind role push_item r (some (str content)) k h = ground arith
  content_pushes-IsAnchored kind role push_item r _ k h = ground arith

  role_pushes-IsAnchored : (role : Text) (m : Option Fields) → IsAnchored none (role_pushes role m)
  unfolding role_pushes
  role_pushes-IsAnchored role none = tt
  role_pushes-IsAnchored role (some m) =
      check_role-IsAnchored role (as_string (prop (lit "role") m))
    where
      check_role-IsAnchored : (role : Text) (o : Option Text) → IsAnchored none (check_role role o)
      check_role-IsAnchored role none = tt
      check_role-IsAnchored role (some t) = elim (Bool-cases (text_eq t role)) [
        | inl e ↦ rw (e, check_role) tt
        | inr e ↦ rw (e, check_role) tt
      ]

  typed_record-IsAnchored :
      (t : Text) (type : TopType) (r : Fields) → IsAnchored none (typed_record rt ts raw t type r)
  unfolding typed_record
  typed_record-IsAnchored t user_type r =
      unfold user_record in
      IsAnchored-append none (role_pushes (lit "user") (message_of r)) _
        (role_pushes-IsAnchored (lit "user") (message_of r))
        (content_pushes-IsAnchored user (lit "user") (user_item rt ts raw) r
          (content_of (message_of r)) (refl, refl) user_item-IsAnchored)
  typed_record-IsAnchored t assistant_type r =
      unfold assistant_record in
      IsAnchored-append none (role_pushes (lit "assistant") (message_of r)) _
        (role_pushes-IsAnchored (lit "assistant") (message_of r))
        (content_pushes-IsAnchored assistant (lit "assistant") (assistant_item rt ts raw) r
          (content_of (message_of r)) (refl, refl) assistant_item-IsAnchored)
  typed_record-IsAnchored t summary_type r = unfold summary_record in ground arith
  typed_record-IsAnchored t system_type r = unfold system_record in ground arith
  typed_record-IsAnchored t (metadata_type m) r = unfold metadata_record in ground arith
  typed_record-IsAnchored t other_type r = unfold unknown_record in ground arith

  dispatch_record-IsAnchored :
      (t : Option Text) (r : Fields) → IsAnchored none (dispatch_record rt ts raw t r)
  unfolding dispatch_record
  dispatch_record-IsAnchored none r = unfold untyped_record in ground arith
  dispatch_record-IsAnchored (some t) r = typed_record-IsAnchored t (top_type t) r

claude_code_record-IsAnchored : (rt : Runtime) → AnchorsAll (claude_code_record rt)
unfolding claude_code_record
claude_code_record-IsAnchored rt s ordinal raw r =
    IsAnchored-append none (parse_timestamp rt r).0 _ (parse_timestamp-IsAnchored rt r) (
      dispatch_record-IsAnchored rt (parse_timestamp rt r).1 raw (as_string (prop (lit "type") r))
        r)

-- The messages of a Claude Code session are numbered from 0 without gaps, their line ordinals never
-- fall, and each carries the text of the line that its ordinal names, for every `JSON.parse`.
pub parse_claude_code-IsTimeline :
    (rt : Runtime) (text : Text) → IsTimeline text (parse_claude_code rt text).messages
unfolding parse_claude_code
parse_claude_code-IsTimeline rt text =
    let h =
      walk_text-IsWellFormed rt (claude_code_record rt) (claude_code_record-IsAnchored rt) tt
        text in
    record { numbered = h.numbered; ordered = h.ordered; of_line = h.of_line }

-- In the messages of a Claude Code session a category stands exactly on metadata, a subtype exactly
-- on boundaries, a back-pointer exactly on echoes, and a tool name only on tool messages.
pub parse_claude_code-HasShape :
    (rt : Runtime) (text : Text) → All HasShape (parse_claude_code rt text).messages
unfolding parse_claude_code
parse_claude_code-HasShape rt text =
    (walk_text-IsWellFormed rt (claude_code_record rt) (claude_code_record-IsAnchored rt) tt
      text).shaped

-- Every warning of a Claude Code session that has a message index points at a message that exists, is
-- of unknown kind and comes from the line of the warning.
pub parse_claude_code-Points :
    (rt : Runtime) (text : Text)
    → All (Points (parse_claude_code rt text).messages) (parse_claude_code rt text).warnings
unfolding parse_claude_code
parse_claude_code-Points rt text =
    (walk_text-IsWellFormed rt (claude_code_record rt) (claude_code_record-IsAnchored rt) tt
      text).pointing
