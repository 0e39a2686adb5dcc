-- ===== src/Protocol/RoundTrip/Frames.antt =====
-- Frames: what `encode_frame` makes, `decode_frame` and `read_frame` take apart, also in a stream.
use side_alsa.Base.{
  ℕ, ◌+◌, ◌*◌, ◌/◌, ◌%◌, ◌<◌, ◌≤◌, ◌≡◌, List, [], ◌∷◌, ◌++◌, ok, length, u16_mod, u32_mod, arith,
  length-append, take-append, drop-append,
}
use side_alsa.Protocol.Wire.{to_le_bytes, from_le_bytes}
use side_alsa.Protocol.Frame.{
  max_frame_payload, encode_frame, decode_frame, read_frame, header_payload_len, read_exact,
}

-- The twelve bytes of a header.
abbrev pub header : ℕ → ℕ → List ℕ
header code n =
    0x53
    ∷ 0x41
    ∷ 0x4c
    ∷ 0x53
    ∷ 17
    ∷ 0
    ∷ (code % 256)
    ∷ (code / 256 % 256)
    ∷ (n % 256)
    ∷ (n / 256 % 256)
    ∷ (n / 256 / 256 % 256)
    ∷ (n / 256 / 256 / 256 % 256)
    ∷ []

mod-u32 : (n : ℕ) → n ≤ max_frame_payload → n % u32_mod ≡ n
mod-u32 n h = omega arith

pub encode_frame_lem :
    (code : ℕ) (payload : List ℕ) {frame : List ℕ}
    → encode_frame code payload ≡ ok frame
    → (frame ≡ header code (length payload) ++ payload) × (length payload ≤ max_frame_payload)
unfolding encode_frame to_le_bytes
encode_frame_lem code payload h = ground (arith, mod-u32 (length payload))

u32_digits :
    (n : ℕ)
    → n ≤ max_frame_payload
    → n % 256
        + 256
          * (n / 256 % 256
              + 256 * (n / 256 / 256 % 256 + 256 * (n / 256 / 256 / 256 % 256 + 256 * 0)))
      ≡ n
u32_digits n h = omega arith

pub header_payload_len-header :
    (code n : ℕ) (payload : List ℕ)
    → n ≤ max_frame_payload
    → header_payload_len (header code n ++ payload) ≡ ok n
unfolding header_payload_len from_le_bytes
header_payload_len-header code n payload h = ground (arith, u32_digits n h)

pub read_exact-append : (bs rest : List ℕ) → read_exact (length bs) (bs ++ rest) ≡ ok (bs, rest)
unfolding read_exact
read_exact-append bs rest =
    ground (arith, length-append bs rest, take-append bs rest, drop-append bs rest)

-- A frame is decoded to the code and the payload that it was made of.
pub decode_frame-encode_frame :
    (code : ℕ) (payload : List ℕ) {frame : List ℕ}
    → code < u16_mod
    → encode_frame code payload ≡ ok frame
    → decode_frame frame ≡ ok (code, payload)
unfolding decode_frame from_le_bytes
decode_frame-encode_frame code payload {frame = frame} small h =
    let (e, fits) = encode_frame_lem code payload h in
    rw e (
      ground (
        arith,
        header_payload_len-header code (length payload) payload fits,
        length-append (header code (length payload)) payload,
        digits,
      ))
  where
    digits : code % 256 + 256 * (code / 256 % 256 + 256 * 0) ≡ code
    digits = omega arith

-- From a stream that begins with a frame, exactly that frame is read, whatever follows.
pub read_frame-encode_frame :
    (code : ℕ) (payload rest : List ℕ) {frame : List ℕ}
    → encode_frame code payload ≡ ok frame
    → read_frame (frame ++ rest) ≡ ok (frame, rest)
unfolding read_frame
read_frame-encode_frame code payload rest {frame = frame} h =
    let (e, fits) = encode_frame_lem code payload h in
    rw e (
      ground (
        arith,
        read_exact-append (header code (length payload)) (payload ++ rest),
        header_payload_len-header code (length payload) [] fits,
        read_exact-append payload rest,
      ))

pub length-le_of_encode_frame :
    (code : ℕ) (payload : List ℕ) {frame : List ℕ}
    → encode_frame code payload ≡ ok frame
    → length payload ≤ max_frame_payload
length-le_of_encode_frame code payload h = (encode_frame_lem code payload h).1
