-- ===== src/RawPreview/Parts.antt =====
-- rawPreview.ts: the lines of a text that comes in pieces.
use distill_portal.Prelude.{
  ℕ, ◌+◌, ◌<◌, Text, Bool, true, false, List, [], ◌∷◌, ◌++◌, map, length, length-append, leb, All,
  split_lines, cons_first, ◌≡◌, ◌≢◌, refl, sym, ap, ◌∙◌, inl, inr, arith, Bool-cases, ◌==◌,
}
use mathlib.Core.Path.{subst}
use mathlib.Core.List.{append_assoc}
use distill_portal.Json.{Runtime}
use distill_portal.RawPreview.{RawPreviewLine, decode_line, append_line_if_room, drain}

-- The lines of a text that is cut at its line feeds: there is none after the last line feed.
abbrev pub line_parts : List Text → List Text
line_parts [] = []
line_parts ([] ∷ []) = []
line_parts ((c ∷ s) ∷ []) = (c ∷ s) ∷ []
line_parts (part ∷ next ∷ parts) = part ∷ line_parts (next ∷ parts)

-- More text after the last part.
abbrev pub then_text : List Text → Text → List Text
then_text [] t = split_lines t
then_text (part ∷ []) t = split_lines (part ++ t)
then_text (part ∷ next ∷ parts) t = part ∷ then_text (next ∷ parts) t

cons-then_text :
    (part : Text) (parts : List Text) (t : Text)
    → parts ≢ []
    → then_text (part ∷ parts) t ≡ part ∷ then_text parts t
cons-then_text part [] t h = absurd (h refl)
cons-then_text part (next ∷ parts) t h = refl

pub split_lines-ne-nil : (s : Text) → split_lines s ≢ []
unfolding split_lines
split_lines-ne-nil [] = λ h. cc
split_lines-ne-nil (c ∷ s) = ground (arith, split_lines-ne-nil s)

then_text-ne-nil : (parts : List Text) (t : Text) → then_text parts t ≢ []
then_text-ne-nil [] t = split_lines-ne-nil t
then_text-ne-nil (part ∷ []) t = split_lines-ne-nil (part ++ t)
then_text-ne-nil (part ∷ next ∷ parts) t = λ h. cc

split_lines-feed : (c : ℕ) (s : Text) → (c == 10) ≡ true → split_lines (c ∷ s) ≡ [] ∷ split_lines s
unfolding split_lines
split_lines-feed c s e = ground arith

split_lines-other :
    (c : ℕ) (s : Text) → (c == 10) ≡ false → split_lines (c ∷ s) ≡ cons_first c (split_lines s)
unfolding split_lines
split_lines-other c s e = ground arith

cons_first-then_text :
    (c : ℕ) (parts : List Text) (t : Text)
    → (c == 10) ≡ false
    → parts ≢ []
    → cons_first c (then_text parts t) ≡ then_text (cons_first c parts) t
cons_first-then_text c [] t e h = absurd (h refl)
cons_first-then_text c (part ∷ []) t e h = sym (split_lines-other c (part ++ t) e)
cons_first-then_text c (part ∷ next ∷ parts) t e h = refl

pub split_lines-append : (s t : Text) → split_lines (s ++ t) ≡ then_text (split_lines s) t
split_lines-append [] t = unfold split_lines in refl
split_lines-append (c ∷ s) t = elim (Bool-cases (c == 10)) [
  | inl e ↦
      split_lines-feed c (s ++ t) e
      ∙ ap (λ ps. [] ∷ ps) (split_lines-append s t)
      ∙ sym (cons-then_text [] (split_lines s) t (split_lines-ne-nil s))
      ∙ ap (λ ps. then_text ps t) (sym (split_lines-feed c s e))
  | inr e ↦
      split_lines-other c (s ++ t) e
      ∙ ap (cons_first c) (split_lines-append s t)
      ∙ cons_first-then_text c (split_lines s) t e (split_lines-ne-nil s)
      ∙ ap (λ ps. then_text ps t) (sym (split_lines-other c s e))
]

line_parts-cons :
    (part : Text) (parts : List Text)
    → parts ≢ []
    → line_parts (part ∷ parts) ≡ part ∷ line_parts parts
line_parts-cons part [] h = absurd (h refl)
line_parts-cons [] (next ∷ parts) h = refl
line_parts-cons (c ∷ s) (next ∷ parts) h = refl

-- A text without a line feed.
abbrev pub HasNoFeed : Text → Type 0
HasNoFeed s = All (λ c. (c == 10) ≡ false) s

pub split_lines_whole : (s : Text) → HasNoFeed s → split_lines s ≡ s ∷ []
split_lines_whole [] h = unfold split_lines in refl
split_lines_whole (c ∷ s) (h, hs) =
    split_lines-other c s h ∙ ap (cons_first c) (split_lines_whole s hs)

cons_first-HasNoFeed :
    (c : ℕ) (parts : List Text)
    → (c == 10) ≡ false
    → All HasNoFeed parts
    → All HasNoFeed (cons_first c parts)
cons_first-HasNoFeed c [] h hs = ((h, tt), tt)
cons_first-HasNoFeed c (part ∷ parts) h (p, ps) = ((h, p), ps)

pub split_lines-HasNoFeed : (s : Text) → All HasNoFeed (split_lines s)
split_lines-HasNoFeed [] = unfold split_lines in (tt, tt)
split_lines-HasNoFeed (c ∷ s) = elim (Bool-cases (c == 10)) [
  | inl e ↦ subst (All HasNoFeed) (sym (split_lines-feed c s e)) (tt, split_lines-HasNoFeed s)
  | inr e ↦
      subst (All HasNoFeed) (sym (split_lines-other c s e))
        (cons_first-HasNoFeed c (split_lines s) e (split_lines-HasNoFeed s))
]

module _ (rt : Runtime) (line_cap : ℕ) where
  abbrev pub decoded : List Text → List RawPreviewLine
  decoded parts = map (decode_line rt) (line_parts parts)

  -- What the loop over the buffer does, whatever text `t` comes later: the lines it has, and those it
  -- leaves for later, are all lines there are.
  pub record IsDrained (parts : List Text) (lines : List RawPreviewLine) (t : Text)
      (after : Text × List RawPreviewLine × Bool) : Type 0 where
    pub rest : List RawPreviewLine
    pub all_lines : lines ++ decoded (then_text parts t) ≡ after.1 ++ rest
    pub full : after.2 ≡ true → length after.1 ≡ line_cap
    pub room : after.2 ≡ false → length after.1 < line_cap
    pub left : after.2 ≡ false → rest ≡ decoded (split_lines (after.0 ++ t))
    pub plain : after.2 ≡ false → HasNoFeed after.0

  pub append_line-room :
      (lines : List RawPreviewLine) (raw : Text)
      → length lines < line_cap
      → append_line_if_room rt line_cap lines raw ≡ lines ++ decode_line rt raw ∷ []
  unfolding append_line_if_room
  append_line-room lines raw h = ground arith

  pub append_line-room_length :
      (lines : List RawPreviewLine) (raw : Text)
      → length lines < line_cap
      → length (append_line_if_room rt line_cap lines raw) ≡ length lines + 1
  append_line-room_length lines raw h =
      rw (append_line-room lines raw h)
        (omega (arith, length-append lines (decode_line rt raw ∷ [])))

  drain_one :
      (part next : Text) (parts : List Text) (lines : List RawPreviewLine) (t : Text)
      → length lines < line_cap
      → ((more : List RawPreviewLine)
          → length more < line_cap
          → IsDrained (next ∷ parts) more t (drain rt line_cap (next ∷ parts) more))
      → IsDrained (part ∷ next ∷ parts) lines t (drain rt line_cap (part ∷ next ∷ parts) lines)
  unfolding drain
  drain_one part next parts lines t h later =
      let appended = append_line_if_room rt line_cap lines part in
      let e = append_line-room lines part h in
      let n = append_line-room_length lines part h in
      let shifted : lines ++ decoded (then_text (part ∷ next ∷ parts) t)
          ≡ appended ++ decoded (then_text (next ∷ parts) t) =
        ap (λ ps. lines ++ map (decode_line rt) ps)
          (line_parts-cons part (then_text (next ∷ parts) t) (then_text-ne-nil (next ∷ parts) t))
        ∙ sym (append_assoc lines (decode_line rt part ∷ []) (decoded (then_text (next ∷ parts) t)))
        ∙ ap (λ ls. ls ++ decoded (then_text (next ∷ parts) t)) (sym e) in
      elim (Bool-cases (leb line_cap (length appended))) [
        | inl enough ↦ rw enough (record {
          rest = decoded (then_text (next ∷ parts) t);
          all_lines = shifted;
          full = λ b. ground (arith, n);
          room = λ b. cc;
          left = λ b. cc;
          plain = λ b. cc;
        })
        | inr more ↦
            let r = later appended (ground arith) in
            rw more (record {
              rest = r.rest;
              all_lines = shifted ∙ r.all_lines;
              full = r.full;
              room = r.room;
              left = r.left;
              plain = r.plain;
            })
      ]

  pub drain-IsDrained :
      (parts : List Text) (lines : List RawPreviewLine) (t : Text)
      → parts ≢ []
      → All HasNoFeed parts
      → length lines < line_cap
      → IsDrained parts lines t (drain rt line_cap parts lines)
  drain-IsDrained [] lines t p fs h = absurd (p refl)
  drain-IsDrained (part ∷ []) lines t p (f, fs) h =
      unfold drain in
      record {
        rest = decoded (split_lines (part ++ t));
        all_lines = refl;
        full = λ b. cc;
        room = λ b. h;
        left = λ b. refl;
        plain = λ b. f;
      }
  drain-IsDrained (part ∷ next ∷ parts) lines t p (f, fs) h =
      drain_one part next parts lines t h
        (λ more k. drain-IsDrained (next ∷ parts) more t (λ e. cc) fs k)
