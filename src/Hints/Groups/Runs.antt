-- ===== src/Hints/Groups/Runs.antt =====
-- renderHints.ts: where the groups of a session begin and end.
use distill_portal.Prelude.{
  ◌≤◌, Text, Bool, true, false, Option, none, some, List, [], ◌∷◌, ◌++◌, map, length, leb, All,
  All-append, ◌≡◌, refl, inl, inr, arith, Bool-cases, Option-cases,
}
use mathlib.Core.Path.{subst}
use mathlib.Core.List.{append-nil}
use distill_portal.Parsers.{Message}
use distill_portal.Hints.{
  RenderHint, standalone, lifecycle, group_head, group_member, group_text_member, Standalone,
  Lifecycle,
}
use distill_portal.Hints.Groups.Buffer.{bufferable-IsEntry, group_from-some, group_from-none}
use distill_portal.Hints.Groups.{
  Bufferable, call, text, bufferable, unbuffered, is_passthrough_standalone, member_of, calls,
  head_of, head_index, flush_group, group_from, group_lifecycles, group_threshold,
}

-- What a run of calls and text between two delimiters has had so far: nothing, text only, one call on
-- its own, or a group.
pub data Run : Type 0 where
  start text_only one_call grouped : Run

abbrev pub is_folded : RenderHint → Bool
is_folded (group_head h) = true
is_folded (group_member head h) = true
is_folded (group_text_member head i warnings) = true
is_folded _ = false

abbrev pub after_text : Run → Option Run
after_text start = some text_only
after_text text_only = some text_only
after_text one_call = some one_call
after_text grouped = none

abbrev pub after_call : Run → Option Run
after_call start = some one_call
after_call text_only = some one_call
after_call _ = none

module _ (lower : Text → Text) (messages : List Message) where
  abbrev pub Passes : Bufferable → Type 0
  Passes b = bufferable messages (unbuffered b) ≡ some b

  -- A run holds at most one call on its own, with the text that passes around it; or it is one group from
  -- its first entry to its last, with two calls or more and all their text. The rest are delimiters.
  pub data IsGrouped : Run → List RenderHint → Type 0 where
    end : {run : Run} → IsGrouped run []
    delimiter :
        {run : Run} {h : RenderHint} {hs : List RenderHint}
        → bufferable messages h ≡ none
        → is_folded h ≡ false
        → IsGrouped start hs
        → IsGrouped run (h ∷ hs)
    lone_text :
        {run : Run} {next : Run} {h : Standalone} {hs : List RenderHint}
        → is_passthrough_standalone messages h ≡ true
        → after_text run ≡ some next
        → IsGrouped next hs
        → IsGrouped run (standalone h ∷ hs)
    lone_call :
        {run : Run} {next : Run} {h : Lifecycle} {hs : List RenderHint}
        → after_call run ≡ some next
        → IsGrouped next hs
        → IsGrouped run (lifecycle h ∷ hs)
    group :
        {run : Run} {out hs : List RenderHint} (entries : List Bufferable)
        → run ≡ start
        → 2 ≤ length (calls entries)
        → All Passes entries
        → out
          ≡ head_of lower messages (calls entries)
            ∷ (map (member_of (head_index (calls entries))) entries ++ hs)
        → IsGrouped grouped hs
        → IsGrouped run out

  Passes-text : (h : Standalone) → Passes (text h) → is_passthrough_standalone messages h ≡ true
  unfolding bufferable
  Passes-text h p = ground arith

  -- The calls that a run has room for outside a group.
  abbrev HasRoom : Run → List Bufferable → Type 0
  HasRoom start bs = length (calls bs) ≤ 1
  HasRoom text_only bs = length (calls bs) ≤ 1
  HasRoom one_call bs = length (calls bs) ≤ 0
  HasRoom grouped bs = ⊥

  lone_run :
      (run : Run) (bs : List Bufferable) (hs : List RenderHint)
      → ((r : Run) → IsGrouped r hs)
      → All Passes bs
      → HasRoom run bs
      → IsGrouped run (map unbuffered bs ++ hs)
  unfolding calls
  lone_run run [] hs rest ps h = rest run
  lone_run grouped (b ∷ bs) hs rest ps h = absurd h
  lone_run start (call c ∷ bs) hs rest (p, ps) h =
      lone_call refl (lone_run one_call bs hs rest ps (omega arith))
  lone_run start (text t ∷ bs) hs rest (p, ps) h =
      lone_text (Passes-text t p) refl (lone_run text_only bs hs rest ps h)
  lone_run text_only (call c ∷ bs) hs rest (p, ps) h =
      lone_call refl (lone_run one_call bs hs rest ps (omega arith))
  lone_run text_only (text t ∷ bs) hs rest (p, ps) h =
      lone_text (Passes-text t p) refl (lone_run text_only bs hs rest ps h)
  lone_run one_call (call c ∷ bs) hs rest (p, ps) h = absurd (omega arith)
  lone_run one_call (text t ∷ bs) hs rest (p, ps) h =
      lone_text (Passes-text t p) refl (lone_run one_call bs hs rest ps h)

  flush_group-IsGrouped :
      (bs : List Bufferable) (hs : List RenderHint)
      → ((r : Run) → IsGrouped r hs)
      → All Passes bs
      → IsGrouped start (flush_group lower messages bs ++ hs)
  unfolding flush_group
  flush_group-IsGrouped bs hs rest ps =
      elim (Bool-cases (leb group_threshold (length (calls bs)))) [
        | inl e ↦ rw e (group bs refl (ground arith) ps refl (rest grouped))
        | inr e ↦ rw e (lone_run start bs hs rest ps (ground arith))
      ]

  Passes-bufferable : (h : RenderHint) (b : Bufferable) → bufferable messages h ≡ some b → Passes b
  Passes-bufferable h b e =
      subst (λ k. bufferable messages k ≡ some b) (bufferable-IsEntry messages h b e).0 e

  group_from-IsGrouped :
      (bs : List Bufferable) (hs : List RenderHint)
      → All Passes bs
      → All (λ h. is_folded h ≡ false) hs
      → IsGrouped start (group_from lower messages bs hs)
  group_from-IsGrouped bs [] ps fs =
      unfold group_from in
      subst (IsGrouped start) (append-nil (flush_group lower messages bs))
        (flush_group-IsGrouped bs [] (λ r. end) ps)
  group_from-IsGrouped bs (h ∷ hs) ps (f, fs) = elim (Option-cases (bufferable messages h)) [
    | inl e ↦ rw (group_from-none lower messages bs h hs e) (
        flush_group-IsGrouped bs (h ∷ group_from lower messages [] hs)
          (λ r. delimiter e f (group_from-IsGrouped [] hs tt fs)) ps)
    | inr (b, e) ↦ rw (group_from-some lower messages bs h hs b e) (
        group_from-IsGrouped (bs ++ b ∷ []) hs
          (All-append Passes bs (b ∷ []) ps (Passes-bufferable h b e, tt)) fs)
  ]

  pub group_lifecycles-IsGrouped :
      (hints : List RenderHint)
      → All (λ h. is_folded h ≡ false) hints
      → IsGrouped start (group_lifecycles lower messages hints)
  unfolding group_lifecycles
  group_lifecycles-IsGrouped hints fs = group_from-IsGrouped [] hints tt fs
