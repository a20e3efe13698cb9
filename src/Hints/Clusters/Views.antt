-- ===== src/Hints/Clusters/Views.antt =====
-- renderHints.ts: the messages that a hint shows, and those that it keeps only for the banner; and what
-- of a message decides between the two.
use distill_portal.Prelude.{
  ℕ, trim, Bool, true, false, not, ◌&&◌, ◌||◌, Option, none, some, List, [], ◌∷◌, ◌++◌, All, ◌≡◌,
  refl, inl, inr, arith, Bool-cases, if◌then◌else◌,
}
use mathlib.Core.List.{append-nil}
use distill_portal.Parsers.{
  Message, MessageKind, user, assistant, system, unknown, ParseWarning, ParseWarningSeverity,
  ParseWarningCategory, warning, meta, error, info, lexer, schema, payload, timestamp,
}
use distill_portal.Hints.{
  RenderHint, standalone, lifecycle, group_head, group_member, group_text_member, boundary_hint,
  warning_only_hint, metadata_hint, metadata_cluster_head, metadata_cluster_member, InlineWarning,
  TaskLifecycle, classify, classify_warning,
}
use distill_portal.Hints.Messages.{
  is_empty, is_warning_only, all_warning_only, routed_to, inline_at, routed_hint, suppressed_hints,
  spoken_hints, stamped_hint, task_lifecycle_of, plain,
}
use distill_portal.Hints.Clusters.Gather.{gather, row_if}

abbrev pub call_and_result : ℕ → Option ℕ → List ℕ
call_and_result i none = i ∷ []
call_and_result i (some j) = i ∷ j ∷ []

-- The messages whose bodies a hint shows. A head shows none itself, its members do; a hint for the
-- banner's warnings only suppresses the body.
abbrev pub shown : RenderHint → List ℕ
shown (standalone h) = h.message_index ∷ []
shown (lifecycle h) = call_and_result h.message_index h.pair_with_index
shown (group_head h) = []
shown (group_member head h) = call_and_result h.message_index h.pair_with_index
shown (group_text_member head i warnings) = i ∷ []
shown (boundary_hint i) = i ∷ []
shown (warning_only_hint i warnings) = []
shown (metadata_hint r) = r.message_index ∷ []
shown (metadata_cluster_head is hs) = []
shown (metadata_cluster_member head r) = r.message_index ∷ []

-- The messages that a hint keeps for their warnings only.
abbrev pub kept_for_banner : RenderHint → List ℕ
kept_for_banner (warning_only_hint i warnings) = i ∷ []
kept_for_banner _ = []

-- A warning for the banner only: of severity warning, on the session's metadata.
abbrev pub is_banner : ParseWarningSeverity → ParseWarningCategory → Bool
is_banner warning meta = true
is_banner _ _ = false

abbrev pub all_banner : List InlineWarning → Bool
all_banner [] = true
all_banner (w ∷ ws) = is_banner w.severity w.category && all_banner ws

-- A message has warnings, and none for its body.
abbrev pub banner_only : List InlineWarning → Bool
banner_only ws = not (is_empty ws) && all_banner ws

abbrev pub is_stamped : Option TaskLifecycle → Bool
is_stamped none = false
is_stamped (some task) = true

abbrev pub is_blank : Message → Bool
is_blank m = is_empty (trim m.text)

-- Text of a person or an agent shows unless it is blank or has warnings for the banner only; that of
-- the system has no such test for blanks, and shows in any case where it starts or ends a task.
abbrev pub kind_shows : MessageKind → Message → List InlineWarning → Bool
kind_shows user m ws = not (is_blank m) && not (banner_only ws)
kind_shows assistant m ws = not (is_blank m) && not (banner_only ws)
kind_shows system m ws = is_stamped (task_lifecycle_of m.text) || not (banner_only ws)
kind_shows unknown m ws = not (banner_only ws)
kind_shows _ m ws = true

abbrev pub kind_warns : MessageKind → Message → List InlineWarning → Bool
kind_warns user m ws = if is_blank m then not (is_empty ws) else banner_only ws
kind_warns assistant m ws = if is_blank m then not (is_empty ws) else banner_only ws
kind_warns system m ws = not (is_stamped (task_lifecycle_of m.text)) && banner_only ws
kind_warns unknown m ws = banner_only ws
kind_warns _ m ws = false

abbrev pub shows_body : (ℕ → List InlineWarning) → Message → Bool
shows_body inline m = kind_shows m.kind m (inline m.message_index)

abbrev pub only_warns : (ℕ → List InlineWarning) → Message → Bool
only_warns inline m = kind_warns m.kind m (inline m.message_index)

-- The warnings are classified by their severity and category.
abbrev pub IsClassified : List InlineWarning → Type 0
IsClassified ws = All (λ w. w.classification ≡ classify w.severity w.category) ws

pub inline_at-IsClassified :
    (ws : List ParseWarning) (count i : ℕ) → IsClassified (inline_at ws count i)
unfolding inline_at classify_warning
inline_at-IsClassified [] count i = tt
inline_at-IsClassified (w ∷ ws) count i = elim (Bool-cases (routed_to w.message_index count i)) [
  | inl e ↦ rw e (refl, inline_at-IsClassified ws count i)
  | inr e ↦ rw e (inline_at-IsClassified ws count i)
]

is_warning_only-classify :
    (s : ParseWarningSeverity) (c : ParseWarningCategory)
    → is_warning_only (classify s c) ≡ is_banner s c
is_warning_only-classify error c = refl
is_warning_only-classify info c = refl
is_warning_only-classify warning schema = refl
is_warning_only-classify warning payload = refl
is_warning_only-classify warning lexer = refl
is_warning_only-classify warning timestamp = refl
is_warning_only-classify warning meta = refl

all_warning_only_lem :
    (ws : List InlineWarning) → IsClassified ws → all_warning_only ws ≡ all_banner ws
unfolding all_warning_only
all_warning_only_lem [] h = refl
all_warning_only_lem (w ∷ ws) (c, h) =
    rw (c, is_warning_only-classify w.severity w.category, all_warning_only_lem ws h) refl

routed_hint_lem :
    (i : ℕ) (ws : List InlineWarning)
    → IsClassified ws
    → routed_hint i ws ≡ (if banner_only ws then warning_only_hint i ws else plain i ws none)
unfolding routed_hint
routed_hint_lem i ws c = rw (all_warning_only_lem ws c) refl

-- A view that finds a message in its hints or does not, whatever its warnings are.
pub record IsView (view : RenderHint → List ℕ) (plainly banner : Bool) : Type 0 where
  pub of_plain :
      (i : ℕ) (ws : List InlineWarning) (task : Option TaskLifecycle)
      → view (plain i ws task) ≡ row_if plainly i
  pub of_banner :
      (i : ℕ) (ws : List InlineWarning) → view (warning_only_hint i ws) ≡ row_if banner i

pub shown-IsView : IsView shown true false
shown-IsView = record { of_plain = λ i ws task. refl; of_banner = λ i ws. refl }

pub kept_for_banner-IsView : IsView kept_for_banner false true
kept_for_banner-IsView = record { of_plain = λ i ws task. refl; of_banner = λ i ws. refl }

module _ (view : RenderHint → List ℕ) (plainly banner : Bool) (v : IsView view plainly banner) where
  pub view-routed :
      (i : ℕ) (ws : List InlineWarning)
      → IsClassified ws
      → gather view (routed_hint i ws ∷ []) ≡ row_if (if banner_only ws then banner else plainly) i
  view-routed i ws c = rw (routed_hint_lem i ws c) (elim (Bool-cases (banner_only ws)) [
    | inl e ↦ rw (e, v.of_banner i ws) (append-nil (row_if banner i))
    | inr e ↦ rw (e, v.of_plain i ws none) (append-nil (row_if plainly i))
  ])

  pub view-stamped :
      (task : Option TaskLifecycle) (i : ℕ) (ws : List InlineWarning)
      → IsClassified ws
      → gather view (stamped_hint task i ws ∷ [])
        ≡ row_if (if is_stamped task then plainly else if banner_only ws then banner else plainly) i
  view-stamped none i ws c = view-routed i ws c
  view-stamped (some task) i ws c = rw (v.of_plain i ws (some task)) (append-nil (row_if plainly i))

  view-suppressed :
      (i : ℕ) (ws : List InlineWarning)
      → gather view (suppressed_hints i ws) ≡ row_if (if is_empty ws then false else banner) i
  view-suppressed i [] = refl
  view-suppressed i (w ∷ ws) = rw (v.of_banner i (w ∷ ws)) (append-nil (row_if banner i))

  pub view-spoken :
      (m : Message) (ws : List InlineWarning)
      → IsClassified ws
      → gather view (spoken_hints m ws)
        ≡ row_if
            (if is_blank m
              then if is_empty ws then false else banner
              else if banner_only ws
              then banner
              else plainly)
            m.message_index
  unfolding spoken_hints
  view-spoken m ws c = elim (Bool-cases (is_blank m)) [
    | inl e ↦ rw e (view-suppressed m.message_index ws)
    | inr e ↦ rw e (view-routed m.message_index ws c)
  ]

-- The two views of a message by what it is: blank, without warnings, with warnings for the banner only,
-- stamped.
pub shown_spoken :
    (b e o : Bool) (i : ℕ)
    → row_if (if b then if e then false else false else if o then false else true) i
      ≡ row_if (not b && not o) i ++ []
shown_spoken b e o i = ground arith

pub kept_spoken :
    (b e o : Bool) (i : ℕ)
    → row_if (if b then if e then false else true else if o then true else false) i
      ≡ row_if (if b then not e else o) i ++ []
kept_spoken b e o i = ground arith

pub shown_stamped :
    (s o : Bool) (i : ℕ)
    → row_if (if s then true else if o then false else true) i ≡ row_if (s || not o) i ++ []
shown_stamped s o i = ground arith

pub kept_stamped :
    (s o : Bool) (i : ℕ)
    → row_if (if s then false else if o then true else false) i ≡ row_if (not s && o) i ++ []
kept_stamped s o i = ground arith
