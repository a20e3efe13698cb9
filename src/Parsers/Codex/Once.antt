-- ===== src/Parsers/Codex/Once.antt =====
-- codex.ts: what an echo says is not said again.
use distill_portal.Prelude.{
  ℕ, Text, lit, text_eq, text_eq_iff, Bool, true, false, ◌&&◌, Option, none, some, List, [], ◌∷◌,
  ◌++◌, All, ◌≡◌, ◌⊎◌, inl, inr, refl, sym, ap, ◌∙◌, arith, Option-cases, if◌then◌else◌,
}
use mathlib.Core.Path.{subst}
use distill_portal.Json.{Json, obj, Fields, prop, as_string, as_object, Runtime}
use distill_portal.Parsers.{Message, MessageKind, user, assistant, metadata}
use distill_portal.Parsers.Pushes.{Body, Push, message, warn, warn_last, line_message}
use distill_portal.Parsers.Lines.{walk_text}
use distill_portal.Parsers.Lines.Each.{Bodies, Bodies-append, Bodies-mono, All-walk_text}
use distill_portal.Parsers.Codex.Values.{parse_timestamp}
use distill_portal.Parsers.Codex.Items.{
  echo_item, item_type, typed_item, response_item, echo_message,
}
use distill_portal.Parsers.Codex.Single.{IsQuiet, parse_timestamp-IsQuiet}
use distill_portal.Parsers.Codex.{top_type, typed_record, dispatch_record, codex_record}

-- The role of a record that repeats, as a response item, what an event says: a message of the user or
-- of the assistant.
abbrev pub spoken_role : Option Text → Option MessageKind
spoken_role none = none
spoken_role (some role) =
    if text_eq role (lit "user")
    then some user
    else if text_eq role (lit "assistant")
    then some assistant
    else none

abbrev pub role_if : Bool → Option MessageKind → Option MessageKind
role_if true role = role
role_if false role = none

abbrev pub is_text : Option Text → Text → Bool
is_text none t = false
is_text (some s) t = text_eq s t

abbrev pub echo_role_of : Option Text → Option Fields → Option MessageKind
echo_role_of type none = none
echo_role_of type (some p) =
    role_if
      (is_text type (lit "response_item")
        && is_text (as_string (prop (lit "type") p)) (lit "message"))
      (spoken_role (as_string (prop (lit "role") p)))

abbrev pub echo_role_in : Option Json → Option MessageKind
echo_role_in (some (obj r)) =
    echo_role_of (as_string (prop (lit "type") r)) (as_object (prop (lit "payload") r))
echo_role_in _ = none

-- The message of a line that repeats what an event says is a row of metadata without text.
abbrev pub SaidOnce : Runtime → Message → Type 0
SaidOnce rt m = (echo_role_in (rt.parse_json m.raw) ≡ none) ⊎ ((m.kind ≡ metadata) × (m.text ≡ []))

Bodies-IsQuiet : (P : Body → Type 0) (ps : List Push) → IsQuiet ps → Bodies P ps
Bodies-IsQuiet P [] h = tt
Bodies-IsQuiet P (message b ∷ ps) h = absurd h
Bodies-IsQuiet P (warn _ _ _ ∷ ps) h = Bodies-IsQuiet P ps h
Bodies-IsQuiet P (warn_last _ _ _ ∷ ps) h = absurd h

Bodies-any : (P : Body → Type 0) (ps : List Push) → ((b : Body) → P b) → Bodies P ps
Bodies-any P [] h = tt
Bodies-any P (message b ∷ ps) h = (h b, Bodies-any P ps h)
Bodies-any P (warn _ _ _ ∷ ps) h = Bodies-any P ps h
Bodies-any P (warn_last _ _ _ ∷ ps) h = Bodies-any P ps h

-- A row without text, unless there is nothing that the record repeats.
abbrev IsEchoBody : Option MessageKind → Body → Type 0
IsEchoBody role b = (role ≡ none) ⊎ ((b.kind ≡ metadata) × (b.text ≡ []))

is_text-some : (t : Option Text) (s : Text) → is_text t s ≡ true → t ≡ some s
is_text-some none s h = cc
is_text-some (some t) s h = ap some ((text_eq_iff t s).0 h)

-- The record repeats a message of the role.
echo_role_of-some :
    (type : Option Text) (p : Fields) (k : MessageKind)
    → echo_role_of type (some p) ≡ some k
    → (type ≡ some (lit "response_item"))
      × (as_string (prop (lit "type") p) ≡ some (lit "message"))
      × (spoken_role (as_string (prop (lit "role") p)) ≡ some k)
echo_role_of-some type p k h = ground (
  arith,
  is_text-some type (lit "response_item"),
  is_text-some (as_string (prop (lit "type") p)) (lit "message"),
)

item_type-spoken :
    (role : Option Text) (k : MessageKind)
    → spoken_role role ≡ some k
    → item_type (some (lit "message")) role ≡ echo_item k
unfolding item_type lit text_eq
item_type-spoken none k h = cc
item_type-spoken (some role) k h = ground arith

-- Such a record pushes an echo.
dispatch_record-response_item :
    (rt : Runtime) (seen : Bool) (ts : Option Text) (ordinal : ℕ) (raw : Text) (t : Option Text)
    (r p : Fields)
    → t ≡ some (lit "response_item")
    → (dispatch_record rt seen ts ordinal raw t r (some p)).0
      ≡ response_item rt ts ordinal raw r (some p)
unfolding dispatch_record typed_record top_type lit text_eq
dispatch_record-response_item rt seen ts ordinal raw t r p h = rw h refl

response_item-echo :
    (rt : Runtime) (ts : Option Text) (ordinal : ℕ) (raw : Text) (r p : Fields) (k : MessageKind)
    → as_string (prop (lit "type") p) ≡ some (lit "message")
    → spoken_role (as_string (prop (lit "role") p)) ≡ some k
    → response_item rt ts ordinal raw r (some p) ≡ echo_message ts ordinal raw k
unfolding response_item
response_item-echo rt ts ordinal raw r p k type role =
    let item : item_type (as_string (prop (lit "type") p)) (as_string (prop (lit "role") p))
        ≡ echo_item k =
      rw type (item_type-spoken (as_string (prop (lit "role") p)) k role) in
    ap (typed_item rt ts ordinal raw r (as_string (prop (lit "type") p)) p) item
    ∙ unfold typed_item in refl

dispatch_record-echo :
    (rt : Runtime) (seen : Bool) (ts : Option Text) (ordinal : ℕ) (raw : Text) (t : Option Text)
    (r : Fields) (p : Option Fields)
    → Bodies (IsEchoBody (echo_role_of t p)) (dispatch_record rt seen ts ordinal raw t r p).0
dispatch_record-echo rt seen ts ordinal raw t r none =
    Bodies-any (IsEchoBody none) (dispatch_record rt seen ts ordinal raw t r none).0 (λ b. inl refl)
dispatch_record-echo rt seen ts ordinal raw t r (some p) =
    elim (Option-cases (echo_role_of t (some p))) [
      | inl e ↦
          Bodies-any (IsEchoBody (echo_role_of t (some p)))
            (dispatch_record rt seen ts ordinal raw t r (some p)).0 (λ b. inl e)
      | inr (k, e) ↦
          let (top, type, role) = echo_role_of-some t p k e in
          subst (Bodies (IsEchoBody (echo_role_of t (some p))))
            (sym (
              dispatch_record-response_item rt seen ts ordinal raw t r p top
              ∙ response_item-echo rt ts ordinal raw r p k type role))
            (unfold echo_message in (inr (refl, refl), tt))
    ]

codex_record-SaidOnce :
    (rt : Runtime) (seen : Bool) (ordinal : ℕ) (raw : Text) (r : Fields)
    → rt.parse_json raw ≡ some (obj r)
    → Bodies
        (λ b. (i : ℕ) → SaidOnce rt (line_message ordinal raw i b))
        (codex_record rt seen ordinal raw r).0
unfolding codex_record
codex_record-SaidOnce rt seen ordinal raw r e =
    let p = as_object (prop (lit "payload") r) in
    let t = as_string (prop (lit "type") r) in
    let ts = parse_timestamp rt r p in
    let pushes = ts.0 ++ (dispatch_record rt seen ts.1 ordinal raw t r p).0 in
    let bodies : Bodies (IsEchoBody (echo_role_of t p)) pushes =
      Bodies-append (IsEchoBody (echo_role_of t p)) ts.0 _
        (Bodies-IsQuiet (IsEchoBody (echo_role_of t p)) ts.0 (parse_timestamp-IsQuiet rt r p))
        (dispatch_record-echo rt seen ts.1 ordinal raw t r p) in
    Bodies-mono pushes (λ b h i. rw e h) bodies

pub walked-SaidOnce :
    (rt : Runtime) (text : Text)
    → All (SaidOnce rt) (walk_text rt (codex_record rt) false text).1.messages
walked-SaidOnce rt text =
    All-walk_text rt (codex_record rt) (SaidOnce rt) (codex_record-SaidOnce rt) false text
