-- ===== src/Parsers/Codex/Echo.antt =====
-- codex.ts: `resolveEchoBackPointers`, the pass after parsing. The two inner loops run over the
-- messages behind and before the current one; the outer loop passes the messages before it in reverse.
pub mod Laws
pub mod Nearest
use distill_portal.Prelude.{
  ℕ, Bool, true, false, ◌&&◌, ◌==◌, not, Option, none, some, List, [], ◌∷◌, if◌then◌else◌,
}
use distill_portal.Parsers.{
  MessageKind, user, assistant, tool_use, tool_result, system, unknown, boundary, metadata,
  MetaCategory, echo, Message, EchoOf,
}
use distill_portal.Parsers.Pushes.Anchored.{is_metadata, is_echo}

abbrev pub kind_eq : MessageKind → MessageKind → Bool
kind_eq user user = true
kind_eq assistant assistant = true
kind_eq tool_use tool_use = true
kind_eq tool_result tool_result = true
kind_eq system system = true
kind_eq unknown unknown = true
kind_eq boundary boundary = true
kind_eq metadata metadata = true
kind_eq _ _ = false

-- The back-pointer of a message that passes the three checks at the head of the loop.
abbrev pub echo_target : Message → Option EchoOf
echo_target m = if is_metadata m.kind && is_echo m.meta_category then m.echo_of else none

-- `messages[j].echoOf?.canonicalKind === target`.
abbrev pub targets : Option EchoOf → MessageKind → Bool
targets none target = false
targets (some e) target = kind_eq e.canonical_kind target

abbrev pub is_same_echo : MessageKind → Message → Bool
is_same_echo target m = is_metadata m.kind && is_echo m.meta_category && targets m.echo_of target

-- How the forward search ends.
pub data Search : Type 0 where
  found : ℕ → Search
  stopped exhausted : Search

unfoldable pub search_forward : MessageKind → List Message → Search
search_forward target [] = exhausted
search_forward target (m ∷ later) =
    let rest = search_forward target later in
    if kind_eq m.kind target
    then found m.line_ordinal
    else if is_same_echo target m
    then stopped
    else rest

-- The backward search, over the messages before the current one, the nearest first.
unfoldable pub search_backward : MessageKind → List Message → Option ℕ
search_backward target [] = none
search_backward target (m ∷ earlier) =
    let rest = search_backward target earlier in
    if kind_eq m.kind target then some m.line_ordinal else rest

abbrev pub resolved_line : Search → Option ℕ → Option ℕ
resolved_line (found line) backward = some line
resolved_line stopped backward = none
resolved_line exhausted backward = backward

-- The assignment to `m.echoOf.lineOrdinal`.
abbrev pub with_line : Message → EchoOf → Option ℕ → Message
with_line m e none = m
with_line m e (some line) = record m { echo_of = some (record e { line_ordinal = line }) }

abbrev pub resolve_target : List Message → Message → List Message → Option EchoOf → Message
resolve_target earlier m later none = m
resolve_target earlier m later (some e) = with_line m e (
    resolved_line (search_forward e.canonical_kind later)
      (search_backward e.canonical_kind earlier))

unfoldable pub resolve_echo : List Message → Message → List Message → Message
unfolding search_forward search_backward
resolve_echo earlier m later = resolve_target earlier m later (echo_target m)

-- The outer loop. A resolved message changes nothing that the later searches read.
unfoldable pub resolve_from : List Message → List Message → List Message
unfolding resolve_echo
resolve_from earlier [] = []
resolve_from earlier (m ∷ later) =
    resolve_echo earlier m later ∷ resolve_from (resolve_echo earlier m later ∷ earlier) later

unfoldable pub resolve_echo_back_pointers : List Message → List Message
unfolding resolve_from
resolve_echo_back_pointers messages = resolve_from [] messages
