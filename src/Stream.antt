-- ===== src/Stream.antt =====
-- apps/frontend/src/features/sessions/streamRawText.ts: the loop that reads the raw text of a session up to
-- a cap. What the browser answers is a list of reads, each with the abort signal before and after it;
-- the decoder is a parameter.
pub mod Laws
use distill_portal.Prelude.{
  ℕ, ◌+◌, ◌-◌, ◌*◌, Text, Bool, true, false, Option, none, some, List, [], ◌∷◌, ◌++◌, length, take,
  ltb, if◌then◌else◌,
}

abbrev pub Bytes : Type 0
Bytes = List ℕ

-- `TextDecoder`: `decode stream state bytes` gives the text and the bytes it holds back; without
-- `stream` it holds nothing back.
pub record Decoder : Type 1 where
  pub Held : Type 0
  pub fresh : Held
  pub decode : Bool → Held → Bytes → Text × Held

-- What `reader.read()` comes to.
pub data ReadResult (E : Type 0) : Type 0 where
  chunk : Bytes → ReadResult E
  done : ReadResult E
  rejected : E → ReadResult E

pub record Read (E : Type 0) : Type 0 where
  pub aborted_before : Bool
  pub result : ReadResult E
  pub aborted_after : Bool

pub record StreamResult : Type 0 where
  pub text : Text
  pub total_bytes : ℕ
  pub truncated : Bool

-- The response: an error of the request, or the reads of its body, if it has one.
pub data Response (E : Type 0) : Type 0 where
  refused : E → Response E
  no_body : Response E
  body : List (Read E) → Response E

-- `pending`: the last read has not come back.
pub data Outcome (E : Type 0) : Type 0 where
  finished : StreamResult → Outcome E
  abort_error pending : Outcome E
  thrown : E → Outcome E

abbrev pub stream_raw_text_byte_cap : ℕ
stream_raw_text_byte_cap = 5 * 1024 * 1024

-- `if (decoded.length > 0) chunks.push(decoded)`.
abbrev pub push_decoded : Text → List Text → List Text
push_decoded [] chunks = chunks
push_decoded (c ∷ s) chunks = chunks ++ (c ∷ s) ∷ []

-- `chunks.join("")`.
abbrev pub joined : List Text → Text
joined [] = []
joined (s ∷ chunks) = s ++ joined chunks

module _ {E : Type 0} (decoder : Decoder) (cap : ℕ) where
  -- The end of the body, or the cap: what is decoded last, and the result.
  abbrev pub finish : Text → List Text → ℕ → Bool → Outcome E
  finish decoded chunks total truncated = finished (record {
    text = joined (push_decoded decoded chunks);
    total_bytes = total;
    truncated = truncated;
  })

  -- One round after `read()` came back; `continue` is the next round.
  abbrev pub on_result :
      ReadResult E
      → Bool
      → decoder.Held
      → List Text
      → ℕ
      → (decoder.Held → List Text → ℕ → Outcome E)
      → Outcome E
  on_result (rejected e) aborted held chunks total continue =
      if aborted then abort_error else thrown e
  on_result done aborted held chunks total continue =
      if aborted then abort_error else finish (decoder.decode false held []).0 chunks total false
  on_result (chunk value) aborted held chunks total continue =
      let room = cap - total in
      let next = decoder.decode true held value in
      if ltb cap (total + length value)
      then finish (decoder.decode false held (take room value)).0 chunks (total + room) true
      else continue next.1 (push_decoded next.0 chunks) (total + length value)

  unfoldable pub read_loop : List (Read E) → decoder.Held → List Text → ℕ → Outcome E
  read_loop [] held chunks total = pending
  read_loop (r ∷ reads) held chunks total =
      let round = on_result r.result r.aborted_after held chunks total (read_loop reads) in
      if r.aborted_before then abort_error else round

  unfoldable pub on_response : Response E → Outcome E
  unfolding read_loop
  on_response (refused e) = thrown e
  on_response no_body = finished (record { text = []; total_bytes = 0; truncated = false })
  on_response (body reads) = read_loop reads decoder.fresh [] 0

  unfoldable pub stream_raw_text : Bool → Response E → Outcome E
  unfolding on_response
  stream_raw_text aborted response = if aborted then abort_error else on_response response
