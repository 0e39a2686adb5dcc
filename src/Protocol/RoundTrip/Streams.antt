-- ===== src/Protocol/RoundTrip/Streams.antt =====
-- The entry points: whole messages through `encode_*`, `decode_*`, `write_*` and `read_*`.
use side_alsa.Base.{
  ℕ, ◌+◌, ◌<◌, ◌≤◌, ◌≡◌, List, ◌∷◌, ◌++◌, Result, ok, err, and_then, and_then-eq-ok, Result-cases,
  inl, inr, length, u16_mod, u64_mod, arith, lt→ltb, length-append,
}
use side_alsa.Protocol.Types.{ProtocolError, Request, Response}
use side_alsa.Protocol.Codes.{
  RequestCode, ResponseCode, direction_to_u8, request_to_u16, response_to_u16,
  request_try_from-request_to_u16, response_try_from-response_to_u16,
}
use side_alsa.Protocol.Wire.{put_u8, put_u16, put_u64, put_string, to_le_bytes}
use side_alsa.Protocol.Encode.{encode_request_payload, encode_response_payload}
use side_alsa.Protocol.Frame.{
  max_frame_payload, encode_frame, read_frame, encode_request, decode_request, encode_response,
  decode_response, write_request, read_request, write_response, read_response,
}
use side_alsa.Protocol.RoundTrip.Values.{length-to_le_bytes}
use side_alsa.Protocol.RoundTrip.Messages.{
  IsRequest, IsResponse, decode_request_payload-encode_request_payload,
  decode_response_payload-encode_response_payload,
}
use side_alsa.Protocol.RoundTrip.Frames.{
  decode_frame-encode_frame, read_frame-encode_frame, length-le_of_encode_frame,
}

request_to_u16-lt : (c : RequestCode) → request_to_u16 c < u16_mod
unfolding request_to_u16
request_to_u16-lt c = ground arith

response_to_u16-lt : (c : ResponseCode) → response_to_u16 c < u16_mod
unfolding response_to_u16
response_to_u16-lt c = ground arith

pub decode_request-encode_request :
    (r : Request) {frame : List ℕ}
    → IsRequest r
    → encode_request r ≡ ok frame
    → decode_request frame ≡ ok r
unfolding encode_request decode_request
decode_request-encode_request r {frame = frame} v h =
    let ((code, payload), h1, h2) =
      and_then-eq-ok (encode_request_payload r) (λ q. encode_frame (request_to_u16 q.0) q.1) h in
    let small : length payload < u64_mod = omega (arith, length-le_of_encode_frame _ payload h2) in
    rw
      (
        decode_frame-encode_frame (request_to_u16 code) payload (request_to_u16-lt code) h2,
        request_try_from-request_to_u16 code,
      )
      (decode_request_payload-encode_request_payload r v h1 small)

pub decode_response-encode_response :
    (r : Response) {frame : List ℕ}
    → IsResponse r
    → encode_response r ≡ ok frame
    → decode_response frame ≡ ok r
unfolding encode_response decode_response
decode_response-encode_response r {frame = frame} v h =
    let ((code, payload), h1, h2) =
      and_then-eq-ok (encode_response_payload r) (λ q. encode_frame (response_to_u16 q.0) q.1) h in
    let small : length payload < u64_mod = omega (arith, length-le_of_encode_frame _ payload h2) in
    rw
      (
        decode_frame-encode_frame (response_to_u16 code) payload (response_to_u16-lt code) h2,
        response_try_from-response_to_u16 code,
      )
      (decode_response_payload-encode_response_payload r v h1 small)

-- The text of a request leaves room for its two bytes of length in a frame.
abbrev pub Fits : Request → Type 0
Fits (Request.open_shared port_id) = length port_id + 2 ≤ max_frame_payload
Fits _ = Unit

encode_frame-total :
    (code : ℕ) (payload : List ℕ)
    → length payload ≤ max_frame_payload
    → (frame : List ℕ) × (encode_frame code payload ≡ ok frame)
unfolding encode_frame
encode_frame-total code payload h = elim (Result-cases (encode_frame code payload)) [
  | inl made ↦ made
  | inr (e, failed) ↦ absurd (ground arith)
]

-- A payload in the bounds of a frame.
abbrev Made : Result ProtocolError (RequestCode × List ℕ) → Type 0
Made (ok r) = length r.1 ≤ max_frame_payload
Made (err e) = ⊥

encode_request_payload-Made : (r : Request) → Fits r → Made (encode_request_payload r)
unfolding encode_request_payload put_u8 put_u16 put_u64 put_string
encode_request_payload-Made (Request.hello version) f = omega (arith, length-to_le_bytes 2 version)
encode_request_payload-Made (Request.open_pro_direction direction token0 token1) f = omega (
  arith,
  length-append (direction_to_u8 direction ∷ to_le_bytes 8 token0) (to_le_bytes 8 token1),
  length-to_le_bytes 8 token0,
  length-to_le_bytes 8 token1,
)
encode_request_payload-Made (Request.open_shared port_id) f =
    rw (lt→ltb (length port_id) u16_mod (omega arith)) (
      omega (
        arith,
        length-append (to_le_bytes 2 (length port_id)) port_id,
        length-to_le_bytes 2 (length port_id),
      ))
encode_request_payload-Made (Request.start session_id) f =
    omega (arith, length-to_le_bytes 8 session_id)
encode_request_payload-Made (Request.start_pro_aligned session_id) f =
    omega (arith, length-to_le_bytes 8 session_id)
encode_request_payload-Made (Request.stop session_id) f =
    omega (arith, length-to_le_bytes 8 session_id)
encode_request_payload-Made (Request.close session_id) f =
    omega (arith, length-to_le_bytes 8 session_id)
encode_request_payload-Made _ f = omega arith

pub encode_request-total : (r : Request) → Fits r → (frame : List ℕ) × (encode_request r ≡ ok frame)
unfolding encode_request
encode_request-total r f = made (encode_request_payload r) (encode_request_payload-Made r f)
  where
    made :
        (p : Result ProtocolError (RequestCode × List ℕ))
        → Made p
        → (frame : List ℕ) × (and_then p (λ q. encode_frame (request_to_u16 q.0) q.1) ≡ ok frame)
    made (ok q) m = encode_frame-total (request_to_u16 q.0) q.1 m
    made (err e) m = absurd m

read_frame-encode_request :
    (r : Request) (rest : List ℕ) {frame : List ℕ}
    → encode_request r ≡ ok frame
    → read_frame (frame ++ rest) ≡ ok (frame, rest)
unfolding encode_request
read_frame-encode_request r rest h =
    let (q, h1, h2) =
      and_then-eq-ok (encode_request_payload r) (λ q. encode_frame (request_to_u16 q.0) q.1) h in
    read_frame-encode_frame (request_to_u16 q.0) q.1 rest h2

read_frame-encode_response :
    (r : Response) (rest : List ℕ) {frame : List ℕ}
    → encode_response r ≡ ok frame
    → read_frame (frame ++ rest) ≡ ok (frame, rest)
unfolding encode_response
read_frame-encode_response r rest h =
    let (q, h1, h2) =
      and_then-eq-ok (encode_response_payload r) (λ q. encode_frame (response_to_u16 q.0) q.1) h in
    read_frame-encode_frame (response_to_u16 q.0) q.1 rest h2

-- Every request whose numbers are in range and whose text is UTF-8 and fits is written; what is
-- written is appended to what stood there, and from a stream that begins with it the same request
-- is read, with what follows left in the stream.
pub read_request-write_request :
    (r : Request) (writer : List ℕ)
    → IsRequest r
    → Fits r
    → (frame : List ℕ) × (write_request writer r ≡ ok (writer ++ frame))
      × ((rest : List ℕ) → read_request (frame ++ rest) ≡ ok (r, rest))
unfolding write_request read_request
read_request-write_request r writer v f =
    let (frame, h) = encode_request-total r f in
    (
      frame,
      rw h,
      λ rest. rw (read_frame-encode_request r rest h, decode_request-encode_request r v h),
    )

-- A response whose numbers are in range and whose texts are UTF-8, if it is written at all, is
-- appended to what stood there, and from a stream that begins with it the same response is read,
-- with what follows left in the stream.
pub read_response-write_response :
    (r : Response) (writer : List ℕ) {out : List ℕ}
    → IsResponse r
    → write_response writer r ≡ ok out
    → (frame : List ℕ) × (out ≡ writer ++ frame)
      × ((rest : List ℕ) → read_response (frame ++ rest) ≡ ok (r, rest))
unfolding write_response read_response
read_response-write_response r writer v w =
    let (frame, h, e) = and_then-eq-ok (encode_response r) (λ frame. ok (writer ++ frame)) w in
    (
      frame,
      cc,
      λ rest. rw (read_frame-encode_response r rest h, decode_response-encode_response r v h),
    )
