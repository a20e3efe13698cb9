-- ===== src/RawPreview.antt =====
-- apps/frontend/src/features/sessions/rawPreview.ts: the first lines of a raw session, over a list of reads
-- as in Stream.
pub mod Parts
pub mod Laws
use distill_portal.Prelude.{
  ℕ, ◌+◌, ◌*◌, Text, Bool, true, false, Option, none, some, List, [], ◌∷◌, ◌++◌, length, leb, join,
  split_lines, if◌then◌else◌,
}
use distill_portal.Json.{Json, Runtime}
use distill_portal.Stream.{
  Decoder, Read, ReadResult, chunk, done, rejected, Response, refused, no_body, body,
}

pub data RawPreviewLine : Type 0 where
  json : Text → Json → RawPreviewLine
  text : Text → RawPreviewLine

pub record Preview : Type 0 where
  pub lines : List RawPreviewLine
  pub reached_line_cap : Bool
  pub reached_byte_cap : Bool
  pub bytes_read : ℕ

-- What the promise comes to; `pending`: the last read has not come back.
pub data Previewed (E : Type 0) : Type 0 where
  success : Preview → Previewed E
  abort_error pending : Previewed E
  thrown : E → Previewed E

abbrev pub raw_preview_line_cap : ℕ
raw_preview_line_cap = 20

abbrev pub raw_preview_byte_cap : ℕ
raw_preview_byte_cap = 256 * 1024

abbrev parsed_line : Text → Option Json → RawPreviewLine
parsed_line raw (some v) = json raw v
parsed_line raw none = text raw

unfoldable pub decode_line : Runtime → Text → RawPreviewLine
decode_line rt raw = parsed_line raw (rt.parse_json raw)

abbrev pub preview : List RawPreviewLine → Bool → Bool → ℕ → Preview
preview lines reached_line_cap reached_byte_cap bytes_read = record {
  lines = lines;
  reached_line_cap = reached_line_cap;
  reached_byte_cap = reached_byte_cap;
  bytes_read = bytes_read;
}

module _ (rt : Runtime) (line_cap : ℕ) where
  unfoldable pub append_line_if_room : List RawPreviewLine → Text → List RawPreviewLine
  unfolding decode_line
  append_line_if_room lines raw =
      if leb line_cap (length lines) then lines else lines ++ decode_line rt raw ∷ []

  -- The loop over the lines that are complete in the buffer, which comes cut at its line feeds: what is left in
  -- the buffer, the lines, and whether there are enough.
  unfoldable pub drain : List Text → List RawPreviewLine → Text × List RawPreviewLine × Bool
  unfolding append_line_if_room join
  drain [] lines = ([], lines, false)
  drain (part ∷ []) lines = (part, lines, false)
  drain (part ∷ next ∷ parts) lines =
      let appended = append_line_if_room lines part in
      let rest = drain (next ∷ parts) appended in
      if leb line_cap (length appended)
      then (join (10 ∷ []) (next ∷ parts), appended, true)
      else rest

  -- The last line need not end in a line feed.
  abbrev pub last_line : Text → List RawPreviewLine → ℕ → Preview
  last_line [] lines bytes_read = preview lines false false bytes_read
  last_line (c ∷ s) lines bytes_read =
      let appended = append_line_if_room lines (c ∷ s) in
      preview appended (leb line_cap (length appended)) false bytes_read

module _ (rt : Runtime) (line_cap byte_cap : ℕ) (decoder : Decoder) where
  -- A chunk, after what the loop keeps between the rounds: the decoder, the buffer, the count and the lines.
  abbrev pub on_drained :
      {E : Type 0}
      → Text × List RawPreviewLine × Bool
      → ℕ
      → (Text → ℕ → List RawPreviewLine → Previewed E)
      → Previewed E
  on_drained (buffer, lines, reached) bytes_read continue =
      if reached
      then success (preview lines true false bytes_read)
      else if leb byte_cap bytes_read
      then success (preview lines false true bytes_read)
      else continue buffer bytes_read lines

  abbrev pub on_result :
      {E : Type 0}
      → ReadResult E
      → Bool
      → decoder.Held
      → Text
      → ℕ
      → List RawPreviewLine
      → (decoder.Held → Text → ℕ → List RawPreviewLine → Previewed E)
      → Previewed E
  on_result (rejected e) aborted held buffer bytes_read lines continue =
      if aborted then abort_error else thrown e
  on_result done aborted held buffer bytes_read lines continue =
      if aborted
      then abort_error
      else success
          (last_line rt line_cap (buffer ++ (decoder.decode false held []).0) lines bytes_read)
  on_result (chunk value) aborted held buffer bytes_read lines continue =
      let next = decoder.decode true held value in
      on_drained (drain rt line_cap (split_lines (buffer ++ next.0)) lines)
        (bytes_read + length value) (continue next.1)

  unfoldable pub preview_loop :
      {E : Type 0} → List (Read E) → decoder.Held → Text → ℕ → List RawPreviewLine → Previewed E
  unfolding drain append_line_if_room split_lines
  preview_loop [] held buffer bytes_read lines = pending
  preview_loop (r ∷ reads) held buffer bytes_read lines =
      let round =
        on_result r.result r.aborted_after held buffer bytes_read lines (preview_loop reads) in
      if r.aborted_before then abort_error else round

  -- The response is one that the request has brought; a refused one never gets here.
  abbrev on_body : {E : Type 0} → Response E → Previewed E
  on_body (refused e) = thrown e
  on_body no_body = success (preview [] false false 0)
  on_body (body reads) = preview_loop reads decoder.fresh [] 0 []

  unfoldable pub consume_raw_preview : {E : Type 0} → Bool → Response E → Previewed E
  unfolding preview_loop
  consume_raw_preview aborted response = if aborted then abort_error else on_body response
