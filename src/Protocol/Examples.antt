-- ===== src/Protocol/Examples.antt =====
-- Runs of the protocol's code, and its theorems at concrete inputs.
use side_alsa.Base.{
  ℕ, ◌+◌, ◌-◌, ◌*◌, ◌^◌, ◌≤◌, ◌<◌, ◌≡◌, ◌↔◌, refl, true, none, some, List, [], ◌∷◌, ◌++◌, ok, err,
  take, wrapping_add, arith,
}
use side_alsa.Protocol.Types.{
  io, malformed_payload, SharedRegionInfo, Request, Response, PortDirection,
}
use side_alsa.Protocol.Utf8.{is_utf8}
use side_alsa.Protocol.Codes.{request_to_u16, response_to_u16, direction_to_u8}
use side_alsa.Protocol.Wire.{to_le_bytes, put_u8, put_u32, put_u64, put_string}
use side_alsa.Protocol.Encode.{encode_request_payload, encode_response_payload}
use side_alsa.Protocol.Frame.{
  encode_frame, encode_request, encode_response, write_request, read_request, write_response,
  read_response, decode_request, decode_response,
}
use side_alsa.Protocol.RoundTrip.Truncated.{read_request-take}
use side_alsa.Protocol.RoundTrip.Streams.{read_request-write_request, read_response-write_response}
use side_alsa.Protocol.Layout.{SharedRegionLayout, new, slot_offset}
use side_alsa.Protocol.Layout.Bounds.{
  IsLayout, new-IsLayout, new-total, slot_offset-inside, slot_offset-disjoint,
}
use side_alsa.Protocol.Sequence.{half_range, sequence_order, sequence_is_after, sequence_is_before}
use side_alsa.Protocol.Sequence.Laws.{sequence_is_after_iff, sequence_order_lem}

-- A request for the port "mic".
abbrev open_mic : Request
open_mic = Request.open_shared (109 ∷ 105 ∷ 99 ∷ [])

-- A header of 12 bytes, and a text with its length.
encode_request-open_mic :
    encode_request open_mic
    ≡ ok (83 ∷ 65 ∷ 76 ∷ 83 ∷ 17 ∷ 0 ∷ 4 ∷ 0 ∷ 5 ∷ 0 ∷ 0 ∷ 0 ∷ 3 ∷ 0 ∷ 109 ∷ 105 ∷ 99 ∷ [])
unfolding encode_request encode_request_payload put_string encode_frame to_le_bytes request_to_u16
encode_request-open_mic = refl

read_request-write_request_example :
    (frame : List ℕ) × (write_request (7 ∷ []) open_mic ≡ ok (7 ∷ frame))
    × ((rest : List ℕ) → read_request (frame ++ rest) ≡ ok (open_mic, rest))
unfolding is_utf8
read_request-write_request_example = read_request-write_request open_mic (7 ∷ []) refl (omega arith)

-- A frame with two bytes of payload, and all of it but the last one.
abbrev two_bytes : List ℕ
two_bytes = 83 ∷ 65 ∷ 76 ∷ 83 ∷ 17 ∷ 0 ∷ 1 ∷ 0 ∷ 2 ∷ 0 ∷ 0 ∷ 0 ∷ 17 ∷ 0 ∷ []

encode_frame-two_bytes : encode_frame 1 (17 ∷ 0 ∷ []) ≡ ok two_bytes
unfolding encode_frame to_le_bytes
encode_frame-two_bytes = refl

read_request-take_example :
    (read_request (take 13 two_bytes) ≡ err io)
    × (read_response (take 13 two_bytes) ≡ err io)
    × (decode_request (take 13 two_bytes) ≡ err malformed_payload)
    × (decode_response (take 13 two_bytes) ≡ err malformed_payload)
read_request-take_example =
    read_request-take 1 (17 ∷ 0 ∷ []) 13 encode_frame-two_bytes (omega arith)

-- Two slots of 2 frames of 3 channels.
abbrev small : SharedRegionLayout
small = record {
  size = 704;
  period_frames = 2;
  playback_channels = 3;
  capture_channels = 1;
  slot_count = 2;
  slot_stride = 128;
  capture_offset = 192;
  playback_offset = 448;
}

new-small : new 2 3 1 2 ≡ ok small
unfolding new
new-small = refl

abbrev small_info : SharedRegionInfo
small_info = record {
  size = 704;
  period_frames = 2;
  playback_channels = 3;
  capture_channels = 1;
  slot_count = 2;
  slot_stride = 128;
  capture_offset = 192;
  playback_offset = 448;
}

abbrev opened : Response
opened = Response.open_shared 5 PortDirection.capture small_info

abbrev opened_bytes : List ℕ
opened_bytes =
    83 ∷ 65 ∷ 76 ∷ 83 ∷ 17 ∷ 0 ∷ 9 ∷ 0 ∷ 57 ∷ 0 ∷ 0 ∷ 0 ∷ 5 ∷ 0 ∷ 0 ∷ 0 ∷ 0 ∷ 0 ∷ 0 ∷ 0 ∷ 2 ∷ 192
    ∷ 2 ∷ 0 ∷ 0 ∷ 0 ∷ 0 ∷ 0 ∷ 0 ∷ 2 ∷ 0 ∷ 0 ∷ 0 ∷ 3 ∷ 0 ∷ 0 ∷ 0 ∷ 1 ∷ 0 ∷ 0 ∷ 0 ∷ 2 ∷ 0 ∷ 0 ∷ 0
    ∷ 128 ∷ 0 ∷ 0 ∷ 0 ∷ 0 ∷ 0 ∷ 0 ∷ 0 ∷ 192 ∷ 0 ∷ 0 ∷ 0 ∷ 0 ∷ 0 ∷ 0 ∷ 0 ∷ 192 ∷ 1 ∷ 0 ∷ 0 ∷ 0 ∷ 0
    ∷ 0 ∷ 0 ∷ []

opened-written : write_response [] opened ≡ ok opened_bytes
unfolding write_response encode_response encode_response_payload put_u64 put_u8 put_u32 encode_frame
    to_le_bytes response_to_u16 direction_to_u8
opened-written = refl

read_response-write_response_example :
    (frame : List ℕ) × (opened_bytes ≡ [] ++ frame)
    × ((rest : List ℕ) → read_response (frame ++ rest) ≡ ok (opened, rest))
read_response-write_response_example =
    read_response-write_response opened [] (omega arith) opened-written

new-IsLayout_example :
    IsLayout small
    × (small.period_frames ≡ 2)
    × (small.playback_channels ≡ 3)
    × (small.capture_channels ≡ 1)
    × (small.slot_count ≡ 2)
new-IsLayout_example = new-IsLayout 2 3 1 2 new-small

-- 16 slots of 256 frames of 8 channels
new-total_example : (l : SharedRegionLayout) × (new 256 8 2 16 ≡ ok l)
new-total_example =
    new-total 256 8 2 16 (omega arith) (omega arith) (omega arith) (omega arith) (omega arith)

slot_offset-inside_example :
    (slot_offset small 192 1 ≡ some 320)
    × (192 + 1 * 128 + 128 ≤ 448)
    × (slot_offset small 448 1 ≡ some 576)
    × (448 + 1 * 128 + 128 ≤ 704)
slot_offset-inside_example = slot_offset-inside small 1 (omega arith) (omega arith)

slot_offset-first : slot_offset small 448 0 ≡ some 448
unfolding slot_offset
slot_offset-first = refl

slot_offset-second : slot_offset small 448 1 ≡ some 576
unfolding slot_offset
slot_offset-second = refl

slot_offset-disjoint_example : (1 < 2) × (448 + 128 ≤ 576)
slot_offset-disjoint_example =
    slot_offset-disjoint small 448 0 1 (omega arith) slot_offset-first slot_offset-second

-- Across the wrap: 5 lies 8 behind the largest number but two.
sequence_is_after_iff_example :
    (sequence_is_after (wrapping_add (2 ^ 64 - 3) 8) (2 ^ 64 - 3) ≡ true)
    ↔ ((0 < 8) × (8 < half_range))
sequence_is_after_iff_example = sequence_is_after_iff (2 ^ 64 - 3) 8 (omega arith) (omega arith)

sequence_order_lem_example :
    ((sequence_is_before (wrapping_add 5 (2 ^ 64 - 8)) 5 ≡ true) ↔ (half_range < 2 ^ 64 - 8))
    × (sequence_is_before 5 (2 ^ 64 - 8) ≡ sequence_is_after (2 ^ 64 - 8) 5)
    × ((sequence_order 5 (2 ^ 64 - 8) ≡ none) ↔ (wrapping_add (2 ^ 64 - 8) half_range ≡ 5))
sequence_order_lem_example = sequence_order_lem 5 (2 ^ 64 - 8) (omega arith) (omega arith)
