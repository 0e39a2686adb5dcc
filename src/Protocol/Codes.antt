-- ===== src/Protocol/Codes.antt =====
-- The message codes of crates/sidealsa-protocol/src/lib.rs: each enum's numbers (`as`) and the
-- `TryFrom` that reads a number back.
use side_alsa.Base.{ℕ, ◌≡◌, refl, arith, Result, ok, err, ◌==◌, if◌then◌else◌}
use side_alsa.Protocol.Types.{
  PortDirection, ErrorCode, ProtocolError, unknown_direction, unknown_request, unknown_response,
  unknown_error,
}

pub data RequestCode : Type 0 where
  hello get_info open_pro open_shared start stop close get_stats : RequestCode
  open_pro_direction start_pro_aligned : RequestCode

pub data ResponseCode : Type 0 where
  open_pro_direction hello info open_pro open_shared ack busy unsupported : ResponseCode
  stats error : ResponseCode

unfoldable pub direction_to_u8 : PortDirection → ℕ
direction_to_u8 PortDirection.playback = 1
direction_to_u8 PortDirection.capture = 2

unfoldable pub direction_try_from : ℕ → Result ProtocolError PortDirection
direction_try_from value =
    if value == 1
    then ok PortDirection.playback
    else if value == 2
    then ok PortDirection.capture
    else err (unknown_direction value)

unfoldable pub request_to_u16 : RequestCode → ℕ
request_to_u16 RequestCode.hello = 1
request_to_u16 RequestCode.get_info = 2
request_to_u16 RequestCode.open_pro = 3
request_to_u16 RequestCode.open_shared = 4
request_to_u16 RequestCode.start = 5
request_to_u16 RequestCode.stop = 6
request_to_u16 RequestCode.close = 7
request_to_u16 RequestCode.get_stats = 8
request_to_u16 RequestCode.open_pro_direction = 9
request_to_u16 RequestCode.start_pro_aligned = 10

unfoldable pub request_try_from : ℕ → Result ProtocolError RequestCode
request_try_from value =
    if value == 1
    then ok RequestCode.hello
    else if value == 2
    then ok RequestCode.get_info
    else if value == 3
    then ok RequestCode.open_pro
    else if value == 4
    then ok RequestCode.open_shared
    else if value == 5
    then ok RequestCode.start
    else if value == 6
    then ok RequestCode.stop
    else if value == 7
    then ok RequestCode.close
    else if value == 8
    then ok RequestCode.get_stats
    else if value == 9
    then ok RequestCode.open_pro_direction
    else if value == 10
    then ok RequestCode.start_pro_aligned
    else err (unknown_request value)

unfoldable pub response_to_u16 : ResponseCode → ℕ
response_to_u16 ResponseCode.open_pro_direction = 10
response_to_u16 ResponseCode.hello = 1
response_to_u16 ResponseCode.info = 2
response_to_u16 ResponseCode.open_pro = 3
response_to_u16 ResponseCode.open_shared = 9
response_to_u16 ResponseCode.ack = 4
response_to_u16 ResponseCode.busy = 5
response_to_u16 ResponseCode.unsupported = 6
response_to_u16 ResponseCode.stats = 7
response_to_u16 ResponseCode.error = 8

unfoldable pub response_try_from : ℕ → Result ProtocolError ResponseCode
response_try_from value =
    if value == 1
    then ok ResponseCode.hello
    else if value == 2
    then ok ResponseCode.info
    else if value == 3
    then ok ResponseCode.open_pro
    else if value == 9
    then ok ResponseCode.open_shared
    else if value == 10
    then ok ResponseCode.open_pro_direction
    else if value == 4
    then ok ResponseCode.ack
    else if value == 5
    then ok ResponseCode.busy
    else if value == 6
    then ok ResponseCode.unsupported
    else if value == 7
    then ok ResponseCode.stats
    else if value == 8
    then ok ResponseCode.error
    else err (unknown_response value)

unfoldable pub error_to_u16 : ErrorCode → ℕ
error_to_u16 ErrorCode.invalid_request = 1
error_to_u16 ErrorCode.not_owner = 2
error_to_u16 ErrorCode.bad_state = 3
error_to_u16 ErrorCode.internal = 4

unfoldable pub error_try_from : ℕ → Result ProtocolError ErrorCode
error_try_from value =
    if value == 1
    then ok ErrorCode.invalid_request
    else if value == 2
    then ok ErrorCode.not_owner
    else if value == 3
    then ok ErrorCode.bad_state
    else if value == 4
    then ok ErrorCode.internal
    else err (unknown_error value)

pub direction_try_from-direction_to_u8 :
    (d : PortDirection) → direction_try_from (direction_to_u8 d) ≡ ok d
unfolding direction_try_from direction_to_u8
direction_try_from-direction_to_u8 PortDirection.playback = refl
direction_try_from-direction_to_u8 PortDirection.capture = refl

pub request_try_from-request_to_u16 : (c : RequestCode) → request_try_from (request_to_u16 c) ≡ ok c
unfolding request_try_from request_to_u16
request_try_from-request_to_u16 c = ground arith

pub response_try_from-response_to_u16 :
    (c : ResponseCode) → response_try_from (response_to_u16 c) ≡ ok c
unfolding response_try_from response_to_u16
response_try_from-response_to_u16 c = ground arith

pub error_try_from-error_to_u16 : (c : ErrorCode) → error_try_from (error_to_u16 c) ≡ ok c
unfolding error_try_from error_to_u16
error_try_from-error_to_u16 c = ground arith
