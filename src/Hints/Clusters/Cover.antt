-- ===== src/Hints/Clusters/Cover.antt =====
-- renderHints.ts: which messages the hints of a session show, and which they keep only for the banner.
use distill_portal.Prelude.{
  ℕ, Text, true, false, Option, none, some, List, [], ◌∷◌, ◌++◌, map, length, filter, ◌≡◌, refl,
  sym, ap, ◌∙◌, arith,
}
use mathlib.Core.List.{append-nil}
use distill_portal.Parsers.{
  Message, MessageKind, user, assistant, tool_use, tool_result, system, unknown, boundary, metadata,
  ParseWarning,
}
use distill_portal.Hints.{
  RenderHint, standalone, lifecycle, group_head, group_member, group_text_member, boundary_hint,
  warning_only_hint, metadata_hint, metadata_cluster_head, metadata_cluster_member, InlineWarning,
}
use distill_portal.Hints.Failure.{is_tool_result}
use distill_portal.Hints.Messages.{
  is_pair, is_empty, inline_at, system_hint, message_hints, hints_of_messages, task_lifecycle_of,
  kind_hints, emit_hints,
}
use distill_portal.Hints.Clusters.{render_hints}
use distill_portal.Hints.Clusters.Flat.{unfolded}
use distill_portal.Hints.Clusters.Gather.{
  gather, row_if, index_of, gather-unfold_all, gather-emit_hints,
}
use distill_portal.Hints.Clusters.Grouped.{unfold_all-render_hints}
use distill_portal.Hints.Clusters.Views.{
  shown, kept_for_banner, banner_only, is_stamped, is_blank, kind_shows, kind_warns, shows_body,
  only_warns, IsClassified, inline_at-IsClassified, shown-IsView, kept_for_banner-IsView,
  view-routed, view-stamped, view-spoken, shown_spoken, kept_spoken, shown_stamped, kept_stamped,
}

abbrev shown_partner : Option ℕ → List ℕ
shown_partner none = []
shown_partner (some j) = j ∷ []

abbrev no_partner : Option ℕ → List ℕ
no_partner p = []

module _ (inline : ℕ → List InlineWarning) (c : (i : ℕ) → IsClassified (inline i)) where
  shown-kind_hints :
      (k : MessageKind) (m : Message) (partner : Option ℕ)
      → (is_pair partner ≡ true → k ≡ tool_use)
      → gather shown (kind_hints inline k m partner)
        ≡ row_if (kind_shows k m (inline m.message_index)) m.message_index ++ shown_partner partner
  unfolding system_hint
  shown-kind_hints tool_use m none h = refl
  shown-kind_hints tool_use m (some j) h = refl
  shown-kind_hints k m (some j) h = ground (arith, h refl)
  shown-kind_hints boundary m none h = refl
  shown-kind_hints metadata m none h = refl
  shown-kind_hints tool_result m none h = refl
  shown-kind_hints user m none h =
      view-spoken shown true false shown-IsView m (inline m.message_index) (c m.message_index)
      ∙ shown_spoken (is_blank m) (is_empty (inline m.message_index))
          (banner_only (inline m.message_index)) m.message_index
  shown-kind_hints assistant m none h =
      view-spoken shown true false shown-IsView m (inline m.message_index) (c m.message_index)
      ∙ shown_spoken (is_blank m) (is_empty (inline m.message_index))
          (banner_only (inline m.message_index)) m.message_index
  shown-kind_hints system m none h =
      view-stamped shown true false shown-IsView (task_lifecycle_of m.text) m.message_index
        (inline m.message_index) (c m.message_index)
      ∙ shown_stamped (is_stamped (task_lifecycle_of m.text)) (banner_only (inline m.message_index))
          m.message_index
  shown-kind_hints unknown m none h =
      view-routed shown true false shown-IsView m.message_index (inline m.message_index)
        (c m.message_index)
      ∙ shown_stamped false (banner_only (inline m.message_index)) m.message_index

  kept-kind_hints :
      (k : MessageKind) (m : Message) (partner : Option ℕ)
      → (is_pair partner ≡ true → k ≡ tool_use)
      → gather kept_for_banner (kind_hints inline k m partner)
        ≡ row_if (kind_warns k m (inline m.message_index)) m.message_index ++ no_partner partner
  unfolding system_hint
  kept-kind_hints tool_use m none h = refl
  kept-kind_hints tool_use m (some j) h = refl
  kept-kind_hints k m (some j) h = ground (arith, h refl)
  kept-kind_hints boundary m none h = refl
  kept-kind_hints metadata m none h = refl
  kept-kind_hints tool_result m none h = refl
  kept-kind_hints user m none h =
      view-spoken kept_for_banner false true kept_for_banner-IsView m (inline m.message_index)
        (c m.message_index)
      ∙ kept_spoken (is_blank m) (is_empty (inline m.message_index))
          (banner_only (inline m.message_index)) m.message_index
  kept-kind_hints assistant m none h =
      view-spoken kept_for_banner false true kept_for_banner-IsView m (inline m.message_index)
        (c m.message_index)
      ∙ kept_spoken (is_blank m) (is_empty (inline m.message_index))
          (banner_only (inline m.message_index)) m.message_index
  kept-kind_hints system m none h =
      view-stamped kept_for_banner false true kept_for_banner-IsView (task_lifecycle_of m.text)
        m.message_index (inline m.message_index) (c m.message_index)
      ∙ kept_stamped (is_stamped (task_lifecycle_of m.text)) (banner_only (inline m.message_index))
          m.message_index
  kept-kind_hints unknown m none h =
      view-routed kept_for_banner false true kept_for_banner-IsView m.message_index
        (inline m.message_index) (c m.message_index)
      ∙ kept_stamped false (banner_only (inline m.message_index)) m.message_index

  shown-result :
      (n : Message)
      → is_tool_result n.kind ≡ true
      → shown_partner (some n.message_index) ≡ row_if (shows_body inline n) n.message_index
  shown-result n h = ground arith

  kept-result :
      (n : Message)
      → is_tool_result n.kind ≡ true
      → no_partner (some n.message_index) ≡ row_if (only_warns inline n) n.message_index
  kept-result n h = ground arith

gather-unfolded :
    (h : RenderHint)
    → (gather shown (unfolded h) ≡ shown h)
      × (gather kept_for_banner (unfolded h) ≡ kept_for_banner h)
gather-unfolded (standalone h) = (refl, refl)
gather-unfolded (lifecycle h) = (simp append-nil, refl)
gather-unfolded (group_head h) = (refl, refl)
gather-unfolded (group_member head h) = (simp append-nil, refl)
gather-unfolded (group_text_member head i warnings) = (refl, refl)
gather-unfolded (boundary_hint i) = (refl, refl)
gather-unfolded (warning_only_hint i warnings) = (refl, refl)
gather-unfolded (metadata_hint r) = (refl, refl)
gather-unfolded (metadata_cluster_head is hs) = (refl, refl)
gather-unfolded (metadata_cluster_member head r) = (refl, refl)

module _ (lower : Text → Text) (messages : List Message) (warnings : List ParseWarning) where
  abbrev inline : ℕ → List InlineWarning
  inline = inline_at warnings (length messages)

  -- A view of the hints of a session is that of the first pass.
  of_first_pass :
      (view : RenderHint → List ℕ)
      → ((h : RenderHint) → gather view (unfolded h) ≡ view h)
      → gather view (render_hints lower messages warnings)
        ≡ gather view (emit_hints inline false messages)
  of_first_pass view one =
      sym (gather-unfold_all view one (render_hints lower messages warnings))
      ∙ ap (gather view) (unfold_all-render_hints lower messages warnings)
      ∙ unfold hints_of_messages in refl

  -- The hints show every message of the session once and in order, a tool call just before the result
  -- that follows it, wherever the message is folded away, but for some texts. Left out are the blank
  -- ones of a person or an agent; and, where a text has warnings and all of them are for the banner
  -- only (of severity warning, on metadata), those of a person or an agent, of an unknown kind, or of
  -- the system where it neither starts nor ends a task. The messages that have a hint for the banner
  -- only are, in order, the blank ones with a warning, and the others that are left out.
  pub gather-render_hints :
      (gather shown (render_hints lower messages warnings)
        ≡ map index_of (filter (shows_body (inline_at warnings (length messages))) messages))
      × (gather kept_for_banner (render_hints lower messages warnings)
          ≡ map index_of (filter (only_warns (inline_at warnings (length messages))) messages))
  unfolding message_hints
  gather-render_hints =
      let c = inline_at-IsClassified warnings (length messages) in
      (
        of_first_pass shown (λ h. (gather-unfolded h).0)
            ∙ gather-emit_hints shown inline (shows_body inline) shown_partner refl
                (shown-result inline c) (λ m p h. shown-kind_hints inline c m.kind m p h) messages,
        of_first_pass kept_for_banner (λ h. (gather-unfolded h).1)
            ∙ gather-emit_hints kept_for_banner inline (only_warns inline) no_partner refl
                (kept-result inline c) (λ m p h. kept-kind_hints inline c m.kind m p h) messages,
      )
