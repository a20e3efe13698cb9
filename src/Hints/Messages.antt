-- ===== src/Hints/Messages.antt =====
-- renderHints.ts: the first pass of `renderHints`, a hint per message. An index that is negative or no
-- whole number is no ℕ here.
use distill_portal.Prelude.{
  ℕ, Text, lit, trim, has_prefix, Bool, true, false, not, ◌&&◌, Option, none, some, List, [], ◌∷◌,
  ◌++◌, length, ltb, ◌==◌, if◌then◌else◌,
}
use distill_portal.Parsers.{
  Message, MessageKind, user, assistant, tool_use, tool_result, system, unknown, boundary, metadata,
  ParseWarning, warning, payload,
}
use distill_portal.Hints.{
  Classification, render_normally, InlineWarning, TaskLifecycle, started, complete, RenderHint,
  standalone, lifecycle, boundary_hint, warning_only_hint, metadata_hint, classify_warning,
}
use distill_portal.Hints.Failure.{is_tool_result}
use distill_portal.Hints.Metadata.{build_metadata_hint}

abbrev pub inline_of : ParseWarning → InlineWarning
inline_of w = record {
  reason = w.reason;
  severity = w.severity;
  category = w.category;
  classification = classify_warning w;
}

abbrev pub routed_to : Option ℕ → ℕ → ℕ → Bool
routed_to none count i = false
routed_to (some j) count i = ltb j count && (j == i)

-- `inlineByIndex.get(i)` for a stream of `count` messages; no entry is the empty list.
unfoldable pub inline_at : List ParseWarning → ℕ → ℕ → List InlineWarning
unfolding classify_warning
inline_at [] count i = []
inline_at (w ∷ ws) count i =
    let rest = inline_at ws count i in
    if routed_to w.message_index count i then inline_of w ∷ rest else rest

abbrev pub is_tool_use : MessageKind → Bool
is_tool_use tool_use = true
is_tool_use _ = false

-- `pairWith[i]`, from the message and those after it; where it is set, the next message is consumed.
abbrev pub pair_with : Message → List Message → Option ℕ
pair_with m [] = none
pair_with m (next ∷ rest) =
    if is_tool_use m.kind && is_tool_result next.kind then some next.message_index else none

abbrev pub is_pair : Option ℕ → Bool
is_pair none = false
is_pair (some i) = true

unfoldable pub stray : InlineWarning
unfolding lit
stray = record {
  reason = lit "stray tool_result — no preceding tool_use";
  severity = warning;
  category = payload;
  classification = render_normally;
}

unfoldable pub task_lifecycle_of : Text → Option TaskLifecycle
unfolding lit has_prefix
task_lifecycle_of text =
    if has_prefix (lit "task_started · turn ") text
    then some started
    else if has_prefix (lit "task_complete · turn ") text
    then some complete
    else none

abbrev pub is_warning_only : Classification → Bool
is_warning_only Classification.warning_only = true
is_warning_only _ = false

unfoldable pub all_warning_only : List InlineWarning → Bool
all_warning_only [] = true
all_warning_only (w ∷ ws) = is_warning_only w.classification && all_warning_only ws

abbrev pub is_empty {ℓ} : {A : Type ℓ} → List A → Bool
is_empty [] = true
is_empty (x ∷ xs) = false

abbrev pub plain : ℕ → List InlineWarning → Option TaskLifecycle → RenderHint
plain i warnings task =
    standalone (record { message_index = i; warnings = warnings; task_lifecycle = task })

-- A message that is only there for its banner warnings is not shown.
unfoldable pub routed_hint : ℕ → List InlineWarning → RenderHint
unfolding all_warning_only
routed_hint i attached =
    if not (is_empty attached) && all_warning_only attached
    then warning_only_hint i attached
    else plain i attached none

abbrev pub suppressed_hints : ℕ → List InlineWarning → List RenderHint
suppressed_hints i [] = []
suppressed_hints i (w ∷ ws) = warning_only_hint i (w ∷ ws) ∷ []

unfoldable pub spoken_hints : Message → List InlineWarning → List RenderHint
unfolding trim routed_hint
spoken_hints m attached =
    if is_empty (trim m.text)
    then suppressed_hints m.message_index attached
    else routed_hint m.message_index attached ∷ []

abbrev pub stamped_hint : Option TaskLifecycle → ℕ → List InlineWarning → RenderHint
stamped_hint (some task) i attached = plain i attached (some task)
stamped_hint none i attached = routed_hint i attached

unfoldable pub system_hint : Message → List InlineWarning → RenderHint
unfolding task_lifecycle_of routed_hint
system_hint m attached = stamped_hint (task_lifecycle_of m.text) m.message_index attached

module _ (inline : ℕ → List InlineWarning) where
  abbrev pub partner_warnings : Option ℕ → List InlineWarning
  partner_warnings none = []
  partner_warnings (some i) = inline i

  -- The hints of one message that is not consumed, with its partner.
  abbrev pub kind_hints : MessageKind → Message → Option ℕ → List RenderHint
  kind_hints boundary m partner = boundary_hint m.message_index ∷ []
  kind_hints metadata m partner =
      metadata_hint (record { message_index = m.message_index; metadata = build_metadata_hint m })
      ∷ []
  kind_hints tool_use m partner =
      lifecycle (record {
        message_index = m.message_index;
        pair_with_index = partner;
        warnings = inline m.message_index ++ partner_warnings partner;
      })
      ∷ []
  kind_hints tool_result m partner =
      plain m.message_index (inline m.message_index ++ stray ∷ []) none ∷ []
  kind_hints user m partner = spoken_hints m (inline m.message_index)
  kind_hints assistant m partner = spoken_hints m (inline m.message_index)
  kind_hints system m partner = system_hint m (inline m.message_index) ∷ []
  kind_hints unknown m partner = routed_hint m.message_index (inline m.message_index) ∷ []

  unfoldable pub message_hints : Message → Option ℕ → List RenderHint
  unfolding spoken_hints stray system_hint routed_hint build_metadata_hint
  message_hints m partner = kind_hints m.kind m partner

  -- The loop; `consumed` is `consumedByPrev[i]`.
  unfoldable pub emit_hints : Bool → List Message → List RenderHint
  unfolding message_hints
  emit_hints consumed [] = []
  emit_hints consumed (m ∷ ms) =
      let partner = pair_with m ms in
      let rest = emit_hints (is_pair partner) ms in
      if consumed then rest else message_hints m partner ++ rest

unfoldable pub hints_of_messages : List Message → List ParseWarning → List RenderHint
unfolding emit_hints inline_at
hints_of_messages messages warnings =
    emit_hints (inline_at warnings (length messages)) false messages
