-- ===== src/Parsers/Codex/Single.antt =====
-- codex.ts: the pushes of each case, counted and anchored.
use distill_portal.Prelude.{
  ℕ, Text, lit, Bool, Option, none, some, List, [], ◌∷◌, ◌++◌, ◌≡◌, arith, String,
}
use distill_portal.Json.{Json, obj, Fields, prop, as_string, as_object, Runtime}
use distill_portal.Parsers.{ParseWarningSeverity}
use distill_portal.Parsers.Pushes.{Push, message, warn, warn_last}
use distill_portal.Parsers.Pushes.Anchored.{IsAnchored}
use distill_portal.Parsers.Lines.Walk.{messages_in}
use distill_portal.Parsers.Codex.Texts.{payload_field}
use distill_portal.Parsers.Codex.Values.{
  timestamp_at, payload_timestamp, fall_through, parse_timestamp, unknown_value,
}
use distill_portal.Parsers.Codex.Items.{
  session_meta, ItemType, echo_item, typed_item, response_item, turn_context, compacted_record,
}
use distill_portal.Parsers.Codex.Events.{
  EventType, user_message, event_type, typed_event, event_of, event_msg,
}
use distill_portal.Parsers.Codex.{
  TopType, session_meta_type, response_item_type, turn_context_type, event_msg_type, compacted_type,
  other_type, top_type, typed_record, dispatch_record, codex_record,
}

-- Anchored pushes with exactly one message.
pub record IsSingle (ps : List Push) : Type 0 where
  pub anchored : IsAnchored none ps
  pub one : messages_in ps ≡ 1

-- Warnings alone.
abbrev pub IsQuiet : List Push → Type 0
IsQuiet [] = Unit
IsQuiet (message _ ∷ ps) = ⊥
IsQuiet (warn _ _ _ ∷ ps) = IsQuiet ps
IsQuiet (warn_last _ _ _ ∷ ps) = ⊥

IsQuiet-append : (ps qs : List Push) → IsQuiet ps → IsQuiet qs → IsQuiet (ps ++ qs)
IsQuiet-append [] qs h k = k
IsQuiet-append (message b ∷ ps) qs h k = h
IsQuiet-append (warn _ _ _ ∷ ps) qs h k = IsQuiet-append ps qs h k
IsQuiet-append (warn_last _ _ _ ∷ ps) qs h k = h

IsSingle-append : (ps qs : List Push) → IsQuiet ps → IsSingle qs → IsSingle (ps ++ qs)
IsSingle-append [] qs h k = k
IsSingle-append (message b ∷ ps) qs h k = absurd h
IsSingle-append (warn _ _ _ ∷ ps) qs h k =
    let r = IsSingle-append ps qs h k in record { anchored = r.anchored; one = r.one }
IsSingle-append (warn_last _ _ _ ∷ ps) qs h k = absurd h

timestamp_at-IsQuiet :
    (rt : Runtime) (a b : String) (v : Option Json) → IsQuiet (timestamp_at rt a b v).0
unfolding timestamp_at
timestamp_at-IsQuiet rt a b v = ground arith

fall_through-IsQuiet :
    (x y : List Push × Option Text) → IsQuiet x.0 → IsQuiet y.0 → IsQuiet (fall_through x y).0
unfolding fall_through
fall_through-IsQuiet (ps, some v) y h k = h
fall_through-IsQuiet (ps, none) (qs, v) h k = IsQuiet-append ps qs h k

pub parse_timestamp-IsQuiet :
    (rt : Runtime) (r : Fields) (p : Option Fields) → IsQuiet (parse_timestamp rt r p).0
unfolding parse_timestamp
parse_timestamp-IsQuiet rt r p =
    let a : String = "top-level timestamp" in
    let b : String = "top-level timestamp is not a string" in
    let c : String = "payload.timestamp" in
    let d : String = "payload.timestamp is not a string" in
    fall_through-IsQuiet (timestamp_at rt a b (prop (lit "timestamp") r)) (payload_timestamp rt p)
      (timestamp_at-IsQuiet rt a b (prop (lit "timestamp") r))
      (unfold payload_timestamp in timestamp_at-IsQuiet rt c d (payload_field "timestamp" p))

unknown_value-IsSingle :
    (rt : Runtime) (ts : Option Text) (raw : Text) (v : Json) (s : ParseWarningSeverity)
    (reason : Text)
    → IsSingle (unknown_value rt ts raw v s reason)
unfolding unknown_value
unknown_value-IsSingle rt ts raw v s reason = ground arith

session_meta-IsSingle :
    (seen : Bool) (ts : Option Text) (raw : Text) (p : Option Fields)
    → IsSingle (session_meta seen ts raw p)
unfolding session_meta
session_meta-IsSingle seen ts raw p = ground arith

typed_item-IsSingle :
    (rt : Runtime) (ts : Option Text) (ordinal : ℕ) (raw : Text) (r : Fields) (t : Option Text)
    (p : Fields) (type : ItemType)
    → IsSingle (typed_item rt ts ordinal raw r t p type)
unfolding typed_item
typed_item-IsSingle rt ts ordinal raw r t p (echo_item kind) = ground arith
typed_item-IsSingle rt ts ordinal raw r t p _ = ground arith

typed_event-IsSingle :
    (rt : Runtime) (ts : Option Text) (raw t : Text) (p : Fields) (type : EventType)
    → IsSingle (typed_event rt ts raw t p type)
unfolding typed_event
typed_event-IsSingle rt ts raw t p user_message = ground arith
typed_event-IsSingle rt ts raw t p _ = ground arith

response_item-IsSingle :
    (rt : Runtime) (ts : Option Text) (ordinal : ℕ) (raw : Text) (r : Fields) (p : Option Fields)
    → IsSingle (response_item rt ts ordinal raw r p)
unfolding response_item
response_item-IsSingle rt ts ordinal raw r none = unknown_value-IsSingle rt ts raw _ _ _
response_item-IsSingle rt ts ordinal raw r (some p) =
    typed_item-IsSingle rt ts ordinal raw r (as_string (prop (lit "type") p)) p _

event_msg-IsSingle :
    (rt : Runtime) (ts : Option Text) (raw : Text) (r : Fields) (p : Option Fields)
    → IsSingle (event_msg rt ts raw r p)
unfolding event_msg
event_msg-IsSingle rt ts raw r none = unknown_value-IsSingle rt ts raw _ _ _
event_msg-IsSingle rt ts raw r (some p) = event_of-IsSingle (as_string (prop (lit "type") p))
  where
    event_of-IsSingle : (t : Option Text) → IsSingle (event_of rt ts raw r p t)
    event_of-IsSingle none = unknown_value-IsSingle rt ts raw _ _ _
    event_of-IsSingle (some t) = typed_event-IsSingle rt ts raw t p (event_type t)

typed_record-IsSingle :
    (rt : Runtime) (seen : Bool) (ts : Option Text) (ordinal : ℕ) (raw t : Text) (r : Fields)
    (p : Option Fields) (type : TopType)
    → IsSingle (typed_record rt seen ts ordinal raw t r p type).0
unfolding typed_record
typed_record-IsSingle rt seen ts ordinal raw t r p session_meta_type =
    session_meta-IsSingle seen ts raw p
typed_record-IsSingle rt seen ts ordinal raw t r p response_item_type =
    response_item-IsSingle rt ts ordinal raw r p
typed_record-IsSingle rt seen ts ordinal raw t r p turn_context_type =
    unfold turn_context in ground arith
typed_record-IsSingle rt seen ts ordinal raw t r p event_msg_type = event_msg-IsSingle rt ts raw r p
typed_record-IsSingle rt seen ts ordinal raw t r p compacted_type =
    unfold compacted_record in ground arith
typed_record-IsSingle rt seen ts ordinal raw t r p other_type =
    unknown_value-IsSingle rt ts raw (obj r) _ _

dispatch_record-IsSingle :
    (rt : Runtime) (seen : Bool) (ts : Option Text) (ordinal : ℕ) (raw : Text) (t : Option Text)
    (r : Fields) (p : Option Fields)
    → IsSingle (dispatch_record rt seen ts ordinal raw t r p).0
unfolding dispatch_record
dispatch_record-IsSingle rt seen ts ordinal raw none r p = ground arith
dispatch_record-IsSingle rt seen ts ordinal raw (some t) r p =
    typed_record-IsSingle rt seen ts ordinal raw t r p (top_type t)

pub codex_record-IsSingle :
    (rt : Runtime) (seen : Bool) (ordinal : ℕ) (raw : Text) (r : Fields)
    → IsSingle (codex_record rt seen ordinal raw r).0
unfolding codex_record
codex_record-IsSingle rt seen ordinal raw r =
    let p = as_object (prop (lit "payload") r) in
    let ts = parse_timestamp rt r p in
    IsSingle-append ts.0 _ (parse_timestamp-IsQuiet rt r p)
      (dispatch_record-IsSingle rt seen ts.1 ordinal raw (as_string (prop (lit "type") r)) r p)
