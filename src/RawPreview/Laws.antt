-- ===== src/RawPreview/Laws.antt =====
-- rawPreview.ts: the preview of a text that comes in chunks.
use distill_portal.Prelude.{
  ℕ, zero, suc, ◌+◌, ◌<◌, Text, Bool, true, false, List, [], ◌∷◌, ◌++◌, length, length-append, leb,
  take, take_all, All-append, split_lines, ◌≡◌, refl, sym, ap, ◌∙◌, arith, ◌==◌,
}
use mathlib.Core.Path.{subst}
use mathlib.Core.List.{append-nil, append_assoc}
use distill_portal.Json.{Runtime}
use distill_portal.Stream.{Bytes, Decoder, body}
use distill_portal.Stream.Laws.{IsIncremental, arrivals, payload}
use distill_portal.RawPreview.{
  RawPreviewLine, Previewed, success, Preview, preview, decode_line, drain, last_line, on_drained,
  preview_loop, consume_raw_preview,
}
use distill_portal.RawPreview.Parts.{
  decoded, then_text, HasNoFeed, IsDrained, drain-IsDrained, split_lines-append, split_lines-ne-nil,
  split_lines-HasNoFeed, split_lines_whole, append_line-room,
}

-- What the platform documents of a decoder besides: the end of the input yields no line feed.
abbrev pub EndsPlain : Decoder → Type 0
EndsPlain d = (held : d.Held) → HasNoFeed (d.decode false held []).0

module _ (rt : Runtime) (line_cap byte_cap : ℕ) (decoder : Decoder)
    (incremental : IsIncremental decoder) (ends : EndsPlain decoder) where
  -- The preview of all lines there are.
  abbrev pub first_lines : List RawPreviewLine → ℕ → Preview
  first_lines lines bytes_read =
      preview (take line_cap lines) (leb line_cap (length lines)) false bytes_read

  pub record Previews {E : Type 0} (lines : List RawPreviewLine) (p : Previewed E) : Type 0 where
    pub bytes_read : ℕ
    pub result : p ≡ success (first_lines lines bytes_read)

  last_line_lem :
      (s : Text) (lines : List RawPreviewLine) (bytes_read : ℕ)
      → HasNoFeed s
      → length lines < line_cap
      → last_line rt line_cap s lines bytes_read
        ≡ first_lines (lines ++ decoded rt line_cap (split_lines s)) bytes_read
  last_line_lem [] lines bytes_read f h =
      unfold split_lines in
      rw (append-nil lines, take_all line_cap lines (omega arith))
        (ap (λ b. preview lines b false bytes_read) (ground arith))
  last_line_lem (c ∷ s) lines bytes_read f h =
      rw (split_lines_whole (c ∷ s) f, append_line-room rt line_cap lines (c ∷ s) h)
        (ap
          (λ ls.
            preview ls (leb line_cap (length (lines ++ decode_line rt (c ∷ s) ∷ []))) false
              bytes_read)
          (sym (
            take_all line_cap (lines ++ decode_line rt (c ∷ s) ∷ [])
              (omega (arith, length-append lines (decode_line rt (c ∷ s) ∷ []))))))

  take_front : (n : ℕ) (xs ys : List RawPreviewLine) → length xs ≡ n → take n (xs ++ ys) ≡ xs
  take_front zero [] ys h = refl
  take_front zero (x ∷ xs) ys h = absurd (omega arith)
  take_front (suc n) [] ys h = absurd (omega arith)
  take_front (suc n) (x ∷ xs) ys h = ap (λ zs. x ∷ zs) (take_front n xs ys (omega arith))

  -- The buffer holds enough lines.
  filled :
      {E : Type 0} (lines rest : List RawPreviewLine) (bytes_read : ℕ)
      → length lines ≡ line_cap
      → Previews {E = E} (lines ++ rest) (success (preview lines true false bytes_read))
  filled lines rest bytes_read h = record {
    bytes_read = bytes_read;
    result = rw (take_front line_cap lines rest h) (
        ap (λ b. success (preview lines b false bytes_read))
          (ground (arith, length-append lines rest)));
  }

  Previews-drained :
      {E : Type 0} (parts : List Text) (lines : List RawPreviewLine) (t : Text) (bytes_read : ℕ)
      (after : Text × List RawPreviewLine × Bool)
      (continue : Text → ℕ → List RawPreviewLine → Previewed E)
      → IsDrained rt line_cap parts lines t after
      → bytes_read < byte_cap
      → ((buffer : Text) (more : List RawPreviewLine)
          → HasNoFeed buffer
          → length more < line_cap
          → Previews
              (more ++ decoded rt line_cap (split_lines (buffer ++ t)))
              (continue buffer bytes_read more))
      → Previews
          (lines ++ decoded rt line_cap (then_text parts t))
          (on_drained rt line_cap byte_cap decoder after bytes_read continue)
  Previews-drained {E = E} parts lines t bytes_read (buffer, more, true) continue d h k =
      subst (λ ls. Previews {E = E} ls (success (preview more true false bytes_read)))
        (sym d.all_lines) (filled more d.rest bytes_read (d.full refl))
  Previews-drained {E = E} parts lines t bytes_read (buffer, more, false) continue d h k =
      let e : leb byte_cap bytes_read ≡ false = ground arith in
      rw e (
        subst (λ ls. Previews ls (continue buffer bytes_read more))
          (ap (λ ls. more ++ ls) (sym (d.left refl)) ∙ sym d.all_lines)
          (k buffer more (d.plain refl) (d.room refl)))

  -- The lines that are still to come, from what the decoder and the buffer hold and the chunks.
  abbrev lines_to_come : decoder.Held → Text → List Bytes → List RawPreviewLine
  lines_to_come held buffer chunks =
      decoded rt line_cap (split_lines (buffer ++ (decoder.decode false held (payload chunks)).0))

  HasNoFeed-append : (s t : Text) → HasNoFeed s → HasNoFeed t → HasNoFeed (s ++ t)
  HasNoFeed-append s t f g = All-append (λ c. (c == 10) ≡ false) s t f g

  loop_lem :
      {E : Type 0} (chunks : List Bytes) (held : decoder.Held) (buffer : Text) (bytes_read : ℕ)
      (lines : List RawPreviewLine)
      → HasNoFeed buffer
      → length lines < line_cap
      → bytes_read + length (payload chunks) < byte_cap
      → Previews {E = E}
          (lines ++ lines_to_come held buffer chunks)
          (preview_loop rt line_cap byte_cap decoder (arrivals chunks) held buffer bytes_read lines)
  unfolding preview_loop
  loop_lem [] held buffer bytes_read lines f h b =
      let s = buffer ++ (decoder.decode false held []).0 in
      record {
        bytes_read = bytes_read;
        result =
            ap success
              (last_line_lem s lines bytes_read (HasNoFeed-append buffer _ f (ends held)) h);
      }
  loop_lem {E = E} (bs ∷ chunks) held buffer bytes_read lines f h b =
      let next = decoder.decode true held bs in
      let s = buffer ++ next.0 in
      let t = (decoder.decode false next.1 (payload chunks)).0 in
      let n = length-append bs (payload chunks) in
      let all : then_text (split_lines s) t
          ≡ split_lines (buffer ++ (decoder.decode false held (bs ++ payload chunks)).0) =
        sym (split_lines-append s t)
        ∙ ap split_lines (
            append_assoc buffer next.0 t
            ∙ ap (λ u. buffer ++ u) (sym (incremental held bs (payload chunks)))) in
      subst
        (λ ps. Previews {E = E} (lines ++ decoded rt line_cap ps) (
          preview_loop rt line_cap byte_cap decoder (arrivals (bs ∷ chunks)) held buffer bytes_read
            lines))
        all
        (Previews-drained (split_lines s) lines t (bytes_read + length bs)
          (drain rt line_cap (split_lines s) lines)
          (preview_loop rt line_cap byte_cap decoder (arrivals chunks) next.1)
          (drain-IsDrained rt line_cap (split_lines s) lines t (split_lines-ne-nil s)
            (split_lines-HasNoFeed s) h)
          (omega (arith, n))
          (λ buffer' more f' h'.
            loop_lem chunks next.1 buffer' (bytes_read + length bs) more f' h' (omega (arith, n))))

  -- The preview of a stream that is not aborted, and is shorter than the cap on bytes, is that of the whole
  -- text, however it is cut into chunks, even inside a line or a character: the first lines of the text, as
  -- many as the cap on lines allows, each as the JSON value it holds or else as plain text. The cap is said
  -- to be reached exactly if the text has as many lines.
  pub consume_raw_preview_lem :
      {E : Type 0} (chunks : List Bytes)
      → 0 < line_cap
      → length (payload chunks) < byte_cap
      → Previews {E = E}
          (decoded rt line_cap
            (split_lines (decoder.decode false decoder.fresh (payload chunks)).0))
          (consume_raw_preview rt line_cap byte_cap decoder false (body (arrivals chunks)))
  unfolding consume_raw_preview
  consume_raw_preview_lem chunks h b = loop_lem chunks decoder.fresh [] 0 [] tt h (omega arith)
