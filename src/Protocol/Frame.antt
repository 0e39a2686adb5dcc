-- ===== src/Protocol/Frame.antt =====
-- The frame around a payload, and the entry points of crates/sidealsa-protocol/src/lib.rs:
-- four bytes of magic, the version, the code, the length of the payload, and the payload.
use side_alsa.Base.{
  ℕ, ◌+◌, ◌*◌, ◌%◌, not, List, [], ◌∷◌, ◌++◌, Result, ok, err, and_then, ltb, ◌==◌, if◌then◌else◌,
  length, get_or, take, drop, u32_mod,
}
use side_alsa.Base.Text.{bytes_eq}
use side_alsa.Protocol.Types.{
  ProtocolError, io, invalid_magic, malformed_payload, unsupported_version, frame_too_large,
  Request, Response,
}
use side_alsa.Protocol.Codes.{request_to_u16, request_try_from, response_to_u16, response_try_from}
use side_alsa.Protocol.Wire.{to_le_bytes, from_le_bytes}
use side_alsa.Protocol.Encode.{encode_request_payload, encode_response_payload}
use side_alsa.Protocol.Decode.{decode_request_payload, decode_response_payload}

abbrev pub protocol_version : ℕ
protocol_version = 17

-- *b"SALS"
abbrev pub protocol_magic : List ℕ
protocol_magic = 0x53 ∷ 0x41 ∷ 0x4c ∷ 0x53 ∷ []

abbrev pub max_frame_payload : ℕ
max_frame_payload = 64 * 1024

unfoldable pub encode_frame : ℕ → List ℕ → Result ProtocolError (List ℕ)
encode_frame code payload =
    if ltb max_frame_payload (length payload)
    then err (frame_too_large (length payload))
    else ok (
        protocol_magic
        ++ (to_le_bytes 2 protocol_version
            ++ (to_le_bytes 2 code ++ (to_le_bytes 4 (length payload % u32_mod) ++ payload))))

-- `u16::from_le_bytes([bytes[i], bytes[i + 1]])`, and the same of four bytes
abbrev pub u16_at : List ℕ → ℕ → ℕ
u16_at bytes i = from_le_bytes (get_or bytes i 0 ∷ get_or bytes (i + 1) 0 ∷ [])

abbrev pub u32_at : List ℕ → ℕ → ℕ
u32_at bytes i = from_le_bytes (
    get_or bytes i 0
    ∷ get_or bytes (i + 1) 0
    ∷ get_or bytes (i + 2) 0
    ∷ get_or bytes (i + 3) 0
    ∷ [])

-- `reader.read_exact(&mut [0; n])` on a stream whose bytes to come are the list: the bytes read and
-- the stream afterwards, or the error of an early end.
unfoldable pub read_exact : ℕ → List ℕ → Result ProtocolError (List ℕ × List ℕ)
read_exact n stream = if ltb (length stream) n then err io else ok (take n stream, drop n stream)

-- The checks that `read_frame` and `decode_frame` share, up to the length of the payload.
unfoldable pub header_payload_len : List ℕ → Result ProtocolError ℕ
unfolding bytes_eq
header_payload_len header =
    if not (bytes_eq (take 4 header) protocol_magic)
    then err invalid_magic
    else if not (u16_at header 4 == protocol_version)
    then err (unsupported_version (u16_at header 4))
    else if ltb max_frame_payload (u32_at header 8)
    then err (frame_too_large (u32_at header 8))
    else ok (u32_at header 8)

unfoldable pub read_frame : List ℕ → Result ProtocolError (List ℕ × List ℕ)
unfolding read_exact header_payload_len
read_frame stream = and_then (read_exact 12 stream) λ header.
    and_then (header_payload_len header.0) λ payload_len.
      and_then (read_exact payload_len header.1) λ body. ok (header.0 ++ body.0, body.1)

unfoldable pub decode_frame : List ℕ → Result ProtocolError (ℕ × List ℕ)
unfolding header_payload_len
decode_frame frame =
    if ltb (length frame) 12
    then err malformed_payload
    else and_then (header_payload_len frame) λ payload_len.
      if not (length frame == 12 + payload_len)
      then err malformed_payload
      else ok (u16_at frame 6, drop 12 frame)

unfoldable pub encode_request : Request → Result ProtocolError (List ℕ)
encode_request request =
    and_then (encode_request_payload request) λ r. encode_frame (request_to_u16 r.0) r.1

unfoldable pub encode_response : Response → Result ProtocolError (List ℕ)
encode_response response =
    and_then (encode_response_payload response) λ r. encode_frame (response_to_u16 r.0) r.1

unfoldable pub decode_request : List ℕ → Result ProtocolError Request
decode_request frame =
    and_then (decode_frame frame)
      λ r. and_then (request_try_from r.0) λ code. decode_request_payload code r.1

unfoldable pub decode_response : List ℕ → Result ProtocolError Response
decode_response frame =
    and_then (decode_frame frame)
      λ r. and_then (response_try_from r.0) λ code. decode_response_payload code r.1

-- The writer is the bytes written so far; the reader is the bytes to come.
unfoldable pub write_request : List ℕ → Request → Result ProtocolError (List ℕ)
write_request writer request = and_then (encode_request request) λ frame. ok (writer ++ frame)

unfoldable pub write_response : List ℕ → Response → Result ProtocolError (List ℕ)
write_response writer response = and_then (encode_response response) λ frame. ok (writer ++ frame)

unfoldable pub read_request : List ℕ → Result ProtocolError (Request × List ℕ)
read_request reader =
    and_then (read_frame reader) λ r. and_then (decode_request r.0) λ request. ok (request, r.1)

unfoldable pub read_response : List ℕ → Result ProtocolError (Response × List ℕ)
read_response reader =
    and_then (read_frame reader) λ r. and_then (decode_response r.0) λ response. ok (response, r.1)
