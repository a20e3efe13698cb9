-- ===== src/Stream/Laws.antt =====
-- streamRawText.ts: the text and the byte count of a stream that is read to its end or to the cap.
use distill_portal.Prelude.{
  ℕ, zero, suc, take-nil, ◌+◌, ◌-◌, ◌≤◌, Text, Bool, true, false, List, [], ◌∷◌, ◌++◌, length,
  length-append, take, ltb, min, ◌≡◌, refl, sym, ap, ◌∙◌, arith, Bool-cases, inl, inr,
}
use mathlib.Core.List.{append-nil, append_assoc}
use distill_portal.Stream.{
  Bytes, Decoder, Read, chunk, done, body, Outcome, finished, push_decoded, joined, read_loop,
  on_response, stream_raw_text,
}

-- What the platform documents of a decoder: decoding in pieces with `stream`, and the last without,
-- gives the text of the whole.
abbrev pub IsIncremental : Decoder → Type 0
IsIncremental d =
    (held : d.Held) (front back : Bytes)
    → (d.decode false held (front ++ back)).0
      ≡ (d.decode true held front).0 ++ (d.decode false (d.decode true held front).1 back).0

-- A read that is not aborted and brings bytes.
abbrev pub arrival : {E : Type 0} → Bytes → Read E
arrival bs = record { aborted_before = false; result = chunk bs; aborted_after = false }

abbrev pub ending : {E : Type 0} → Read E
ending = record { aborted_before = false; result = done; aborted_after = false }

abbrev pub arrivals : {E : Type 0} → List Bytes → List (Read E)
arrivals [] = ending ∷ []
arrivals (bs ∷ chunks) = arrival bs ∷ arrivals chunks

-- The bytes of all chunks.
abbrev pub payload : List Bytes → Bytes
payload [] = []
payload (bs ∷ chunks) = bs ++ payload chunks

joined-snoc : (chunks : List Text) (s : Text) → joined (chunks ++ s ∷ []) ≡ joined chunks ++ s
joined-snoc [] s = append-nil s
joined-snoc (t ∷ chunks) s =
    ap (λ r. t ++ r) (joined-snoc chunks s) ∙ sym (append_assoc t (joined chunks) s)

joined-push_decoded :
    (s : Text) (chunks : List Text) → joined (push_decoded s chunks) ≡ joined chunks ++ s
joined-push_decoded [] chunks = sym (append-nil (joined chunks))
joined-push_decoded (c ∷ s) chunks = joined-snoc chunks (c ∷ s)

take-append_front : (n : ℕ) (xs ys : Bytes) → n ≤ length xs → take n (xs ++ ys) ≡ take n xs
take-append_front zero xs ys le = refl
take-append_front (suc n) [] ys le = absurd (omega arith)
take-append_front (suc n) (x ∷ xs) ys le =
    ap (λ zs. x ∷ zs) (take-append_front n xs ys (omega arith))

take-append_back :
    (n : ℕ) (xs ys : Bytes) → length xs ≤ n → take n (xs ++ ys) ≡ xs ++ take (n - length xs) ys
take-append_back n [] ys le = ap (λ k. take k ys) (omega arith)
take-append_back zero (x ∷ xs) ys le = absurd (omega arith)
take-append_back (suc n) (x ∷ xs) ys le =
    let same : suc n - suc (length xs) ≡ n - length xs = omega arith in
    ap (λ zs. x ∷ zs)
      (take-append_back n xs ys (omega arith) ∙ ap (λ k. xs ++ take k ys) (sym same))

finished_eq :
    {E : Type 0} {s s' : Text} {n n' : ℕ} {b b' : Bool}
    → s ≡ s'
    → n ≡ n'
    → b ≡ b'
    → ◌≡◌ {A = Outcome E}
        (finished (record { text = s; total_bytes = n; truncated = b }))
        (finished (record { text = s'; total_bytes = n'; truncated = b' }))
finished_eq e f g = rw (e, f, g) refl

module _ (decoder : Decoder) (cap : ℕ) (incremental : IsIncremental decoder) where
  -- The text that is still to come, after `total` bytes.
  rest_text : decoder.Held → ℕ → Bytes → Text
  rest_text held total bytes = (decoder.decode false held (take (cap - total) bytes)).0

  rest_text_cut :
      (held : decoder.Held) (total : ℕ) (bs rest : Bytes)
      → cap - total ≤ length bs
      → (decoder.decode false held (take (cap - total) bs)).0 ≡ rest_text held total (bs ++ rest)
  unfolding rest_text
  rest_text_cut held total bs rest le =
      ap (λ zs. (decoder.decode false held zs).0) (sym (take-append_front (cap - total) bs rest le))

  rest_text_chunk :
      (held : decoder.Held) (total : ℕ) (bs rest : Bytes)
      → total + length bs ≤ cap
      → (decoder.decode true held bs).0
          ++ rest_text (decoder.decode true held bs).1 (total + length bs) rest
        ≡ rest_text held total (bs ++ rest)
  unfolding rest_text
  rest_text_chunk held total bs rest le =
      let n : cap - (total + length bs) ≡ cap - total - length bs = omega arith in
      ap
        (λ k.
          (decoder.decode true held bs).0
          ++ (decoder.decode false (decoder.decode true held bs).1 (take k rest)).0)
        n
      ∙ sym (incremental held bs (take (cap - total - length bs) rest))
      ∙ ap (λ zs. (decoder.decode false held zs).0)
          (sym (take-append_back (cap - total) bs rest (omega arith)))

  loop_lem :
      {E : Type 0} (chunks : List Bytes) (held : decoder.Held) (texts : List Text) (total : ℕ)
      → total ≤ cap
      → read_loop {E = E} decoder cap (arrivals chunks) held texts total
        ≡ finished (record {
          text = joined texts ++ rest_text held total (payload chunks);
          total_bytes = min cap (total + length (payload chunks));
          truncated = ltb cap (total + length (payload chunks));
        })
  unfolding read_loop
  loop_lem {E = E} [] held texts total le =
      finished_eq
        (joined-push_decoded (decoder.decode false held []).0 texts
          ∙ ap (λ s. joined texts ++ s)
              (unfold rest_text in
                ap (λ zs. (decoder.decode false held zs).0) (sym (take-nil (cap - total)))))
        (omega arith) (ground arith)
  loop_lem {E = E} (bs ∷ chunks) held texts total le =
      let rest = payload chunks in
      let len = length-append bs rest in
      elim (Bool-cases (ltb cap (total + length bs))) [
        | inl over ↦ rw over (
            finished_eq
              (joined-push_decoded (decoder.decode false held (take (cap - total) bs)).0 texts
                ∙ ap (λ s. joined texts ++ s) (rest_text_cut held total bs rest (ground arith)))
              (ground (arith, len)) (ground (arith, len)))
        | inr fits ↦
            let d = decoder.decode true held bs in
            let below : total + length bs ≤ cap = ground arith in
            let h =
              loop_lem {E = E} chunks d.1 (push_decoded d.0 texts) (total + length bs) below in
            rw fits (
              h
              ∙ finished_eq
                  (ap (λ s. s ++ rest_text d.1 (total + length bs) rest)
                      (joined-push_decoded d.0 texts)
                    ∙ append_assoc (joined texts) d.0 (rest_text d.1 (total + length bs) rest)
                    ∙ ap (λ s. joined texts ++ s) (rest_text_chunk held total bs rest below))
                  (omega (arith, len)) (ground (arith, len)))
      ]

  -- A stream that is not aborted and whose reads bring chunks and then the end gives the text of the
  -- first `cap` bytes of all chunks, decoded as one: however the bytes are cut into chunks, even
  -- inside a character. The byte count is theirs, and is exactly the cap where the text is cut;
  -- and the text is cut exactly if the chunks hold more bytes than the cap.
  pub stream_raw_text_lem :
      {E : Type 0} (chunks : List Bytes)
      → stream_raw_text {E = E} decoder cap false (body (arrivals chunks))
        ≡ finished (record {
          text = (decoder.decode false decoder.fresh (take cap (payload chunks))).0;
          total_bytes = min cap (length (payload chunks));
          truncated = ltb cap (length (payload chunks));
        })
  unfolding stream_raw_text on_response
  stream_raw_text_lem chunks =
      loop_lem chunks decoder.fresh [] 0 (omega arith)
      ∙ finished_eq
          (unfold rest_text in
            ap (λ k. (decoder.decode false decoder.fresh (take k (payload chunks))).0)
              (omega arith))
          (omega arith) (ground arith)
