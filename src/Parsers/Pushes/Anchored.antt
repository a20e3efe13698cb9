-- ===== src/Parsers/Pushes/Anchored.antt =====
-- The pushes that a parser makes for one record: every message has the optional fields of its kind,
-- and a warning with a message index comes right after a message of unknown kind.
use distill_portal.Prelude.{Bool, true, false, Option, none, some, List, [], ◌∷◌, ◌++◌, ◌≡◌}
use distill_portal.Parsers.{
  MessageKind, tool_use, tool_result, unknown, boundary, metadata, MetaCategory, echo,
  BoundarySubtype, EchoOf,
}
use distill_portal.Parsers.Pushes.{Body, Push, message, warn, warn_last}

abbrev pub is_some {ℓ} : {A : Type ℓ} → Option A → Bool
is_some none = false
is_some (some a) = true

abbrev pub is_metadata : MessageKind → Bool
is_metadata metadata = true
is_metadata _ = false

abbrev pub is_boundary : MessageKind → Bool
is_boundary boundary = true
is_boundary _ = false

abbrev pub is_tool : MessageKind → Bool
is_tool tool_use = true
is_tool tool_result = true
is_tool _ = false

abbrev pub is_echo : Option MetaCategory → Bool
is_echo (some echo) = true
is_echo _ = false

-- What types.ts requires of the optional fields: a category exactly on metadata, a subtype exactly
-- on boundaries, a back-pointer exactly on echoes, a tool name on tool messages only.
pub record IsShaped (kind : MessageKind) (tool : Option (List Prim.Native.Nat.ℕ))
    (subtype : Option BoundarySubtype) (category : Option MetaCategory) (back : Option EchoOf)
    : Type 0 where
  pub categorised : is_some category ≡ is_metadata kind
  pub divided : is_some subtype ≡ is_boundary kind
  pub echoed : is_some back ≡ is_echo category
  pub tooled : is_some tool ≡ true → is_tool kind ≡ true

abbrev pub IsBody : Body → Type 0
IsBody b = IsShaped b.kind b.tool_name b.boundary_subtype b.meta_category b.echo_of

-- `last` is the kind of the message that the previous push made, if it made one.
abbrev pub IsAnchored : Option MessageKind → List Push → Type 0
IsAnchored last [] = Unit
IsAnchored last (message b ∷ ps) = IsBody b × IsAnchored (some b.kind) ps
IsAnchored last (warn _ _ _ ∷ ps) = IsAnchored none ps
IsAnchored last (warn_last _ _ _ ∷ ps) = (last ≡ some unknown) × IsAnchored none ps

IsAnchored-mono :
    (last : Option MessageKind) (ps : List Push) → IsAnchored none ps → IsAnchored last ps
IsAnchored-mono last [] h = tt
IsAnchored-mono last (message b ∷ ps) h = h
IsAnchored-mono last (warn _ _ _ ∷ ps) h = h
IsAnchored-mono last (warn_last _ _ _ ∷ ps) (e, h) = cc

pub IsAnchored-append :
    (last : Option MessageKind) (ps qs : List Push)
    → IsAnchored last ps
    → IsAnchored none qs
    → IsAnchored last (ps ++ qs)
IsAnchored-append last [] qs h k = IsAnchored-mono last qs k
IsAnchored-append last (message b ∷ ps) qs (s, h) k = (s, IsAnchored-append (some b.kind) ps qs h k)
IsAnchored-append last (warn _ _ _ ∷ ps) qs h k = IsAnchored-append none ps qs h k
IsAnchored-append last (warn_last _ _ _ ∷ ps) qs (e, h) k = (e, IsAnchored-append none ps qs h k)
