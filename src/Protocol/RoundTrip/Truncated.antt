-- ===== src/Protocol/RoundTrip/Truncated.antt =====
-- Frames that are cut short: a stream that ends too early, and a packet that lost its end.
use side_alsa.Base.{
  ℕ, zero, suc, ◌+◌, ◌-◌, ◌<◌, ◌≤◌, ◌≡◌, refl, ap, inl, inr, List, [], ◌∷◌, ◌++◌, ok, err, ltb,
  length, take, arith, Bool-cases, length-append, length-take, ◌⊎◌, ◌∙◌,
}
use side_alsa.Protocol.Types.{io, malformed_payload}
use side_alsa.Protocol.Frame.{
  max_frame_payload, encode_frame, decode_frame, read_frame, read_exact, decode_request,
  decode_response, read_request, read_response,
}
use side_alsa.Protocol.RoundTrip.Frames.{
  header, encode_frame_lem, header_payload_len-header, read_exact-append,
}

take_over :
    (xs ys : List ℕ) (k : ℕ) → length xs ≤ k → take k (xs ++ ys) ≡ xs ++ take (k - length xs) ys
take_over [] ys k h = ap (λ t. take t ys) (omega arith)
take_over (x ∷ xs) ys zero h = absurd (omega arith)
take_over (x ∷ xs) ys (suc k) h =
    let e : suc k - length (x ∷ xs) ≡ k - length xs = omega arith in
    rw e (ap (λ t. x ∷ t) (take_over xs ys k (omega arith)))

read_exact-short : (n : ℕ) (stream : List ℕ) → length stream < n → read_exact n stream ≡ err io
unfolding read_exact
read_exact-short n stream h = ground arith

module _ (code : ℕ) (payload : List ℕ) {frame : List ℕ} (k : ℕ)
    (made : encode_frame code payload ≡ ok frame) (cut : k < length frame) where
  -- What is left is shorter than a header, or a header with too little behind it.
  Short : Type 0
  Short =
      (length (take k frame) < 12)
      ⊎ ((rest : List ℕ) × (take k frame ≡ header code (length payload) ++ rest)
          × (length rest < length payload)
          × (length payload ≤ max_frame_payload))

  take-Short : Short
  unfolding Short
  take-Short =
      let (e, fits) = encode_frame_lem code payload made in
      let size : length frame ≡ 12 + length payload =
        ap length e ∙ length-append (header code (length payload)) payload in
      elim (Bool-cases (ltb k 12)) [
        | inl early ↦ inl (ground (arith, length-take k frame))
        | inr late ↦ inr (
          take (k - 12) payload,
          ap (take k) e ∙ take_over (header code (length payload)) payload k (ground arith),
          ground (arith, size, length-take (k - 12) payload),
          fits,
        )
      ]

  read_frame-take : read_frame (take k frame) ≡ err io
  unfolding read_frame Short
  read_frame-take = elim take-Short [
    | inl early ↦ rw (read_exact-short 12 (take k frame) early) refl
    | inr (rest, e, short, fits) ↦ rw e (
        ground (
          arith,
          read_exact-append (header code (length payload)) rest,
          header_payload_len-header code (length payload) [] fits,
          read_exact-short (length payload) rest short,
        ))
  ]

  decode_frame-take : decode_frame (take k frame) ≡ err malformed_payload
  unfolding decode_frame Short
  decode_frame-take = elim take-Short [
    | inl early ↦ ground arith
    | inr (rest, e, short, fits) ↦ rw e (
        ground (
          arith,
          header_payload_len-header code (length payload) rest fits,
          length-append (header code (length payload)) rest,
        ))
  ]

  -- A frame of any code and payload that loses any part of its end is never taken for a message:
  -- from a stream that ends there, neither a request nor a response is read, but the error of an
  -- early end, and as a packet it is malformed.
  pub read_request-take :
      (read_request (take k frame) ≡ err io)
      × (read_response (take k frame) ≡ err io)
      × (decode_request (take k frame) ≡ err malformed_payload)
      × (decode_response (take k frame) ≡ err malformed_payload)
  unfolding read_request read_response decode_request decode_response
  read_request-take = (
    rw read_frame-take refl,
    rw read_frame-take refl,
    rw decode_frame-take refl,
    rw decode_frame-take refl,
  )
