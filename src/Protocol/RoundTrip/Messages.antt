-- ===== src/Protocol/RoundTrip/Messages.antt =====
-- Requests and responses: the payload of each is read back as the message that was written.
use side_alsa.Base.{
  ℕ, ◌+◌, ◌<◌, ◌≡◌, sym, subst, ◌∙◌, List, [], append-nil, ok, and_then-eq-ok, length, u16_mod,
  u32_mod, u64_mod, arith, ==_iff,
}
use side_alsa.Protocol.Types.{PortDirection, ErrorCode, Request, Response}
use side_alsa.Protocol.Codes.{
  RequestCode, ResponseCode, direction_to_u8, direction_try_from-direction_to_u8, error_to_u16,
  error_try_from-error_to_u16,
}
use side_alsa.Protocol.Wire.{Encoder, Decode, new, finish}
use side_alsa.Protocol.Encode.{with_code, encode_request_payload, encode_response_payload}
use side_alsa.Protocol.Decode.{
  return, finished, decode_request_payload, decode_response_payload, decode_request_body,
  decode_response_body,
}
use side_alsa.Protocol.RoundTrip.Rules.{
  Reads, RoundTrips, RoundTrips-seq, RoundTrips-last, RoundTrips-check, Reads-return, ok-injective,
}
use side_alsa.Protocol.RoundTrip.Values.{
  IsText, RoundTrips-u8, RoundTrips-u16, RoundTrips-u32, RoundTrips-u64, RoundTrips-string,
}
use side_alsa.Protocol.RoundTrip.Records.{
  IsRegionInfo, IsDevice, RoundTrips-shared_info, RoundTrips-info,
}
use side_alsa.Protocol.RoundTrip.Counters.{IsStats, RoundTrips-stats}

-- The numbers of a request are in the ranges of their types, and its text is UTF-8.
abbrev pub IsRequest : Request → Type 0
IsRequest (Request.hello version) = version < u16_mod
IsRequest Request.get_info = Unit
IsRequest Request.open_pro = Unit
IsRequest (Request.open_pro_direction direction token0 token1) =
    (token0 < u64_mod) × (token1 < u64_mod)
IsRequest (Request.open_shared port_id) = IsText port_id
IsRequest (Request.start session_id) = session_id < u64_mod
IsRequest (Request.start_pro_aligned session_id) = session_id < u64_mod
IsRequest (Request.stop session_id) = session_id < u64_mod
IsRequest (Request.close session_id) = session_id < u64_mod
IsRequest Request.get_stats = Unit

-- The same of a response.
abbrev pub IsResponse : Response → Type 0
IsResponse (Response.open_pro_direction session_id direction shared) =
    (session_id < u64_mod) × IsRegionInfo shared
IsResponse (Response.hello version features) = (version < u16_mod) × (features < u32_mod)
IsResponse (Response.info d) = IsDevice d
IsResponse (Response.open_pro session_id shared) = (session_id < u64_mod) × IsRegionInfo shared
IsResponse (Response.open_shared session_id direction shared) =
    (session_id < u64_mod) × IsRegionInfo shared
IsResponse Response.ack = Unit
IsResponse Response.busy = Unit
IsResponse Response.unsupported = Unit
IsResponse (Response.stats s) = IsStats s
IsResponse (Response.error code message) = IsText message

direction_to_u8-lt : (d : PortDirection) → direction_to_u8 d < 256
unfolding direction_to_u8
direction_to_u8-lt PortDirection.playback = omega arith
direction_to_u8-lt PortDirection.capture = omega arith

-- A reader that takes a whole payload succeeds with `finish`.
finished-Reads :
    {A : Type 0} {p : Decode A} {a : A} (payload : List ℕ)
    → length payload < u64_mod
    → Reads p payload a
    → finished p payload ≡ ok a
unfolding finished new finish
finished-Reads payload small h = rw (
  h (new payload) [] (record { inside = omega arith; small = small }) (sym (append-nil payload)),
  (==_iff (0 + length payload) (length payload)).1 (omega arith),
)

-- The payload that an encoder leaves of an empty vector.
Reads-payload :
    {C A : Type 0} {code code' : C} {e : Encoder} {p : Decode A} {a : A} {payload : List ℕ}
    → RoundTrips e p a
    → with_code code e ≡ ok (code', payload)
    → (code ≡ code') × Reads p payload a
Reads-payload {code = code} {e = e} {p = p} {a = a} {payload = payload} h w =
    let (out, h1, h2) = and_then-eq-ok (e []) (λ q. ok (code, q)) w in
    let (bs, e1, r) = h [] out h1 in
    let same : out ≡ payload = cc in
    let all : payload ≡ bs = sym same ∙ e1 in (cc, subst (λ q. Reads p q a) (sym all) r)

-- A message without fields.
RoundTrips-unit : {A : Type 0} (a : A) → RoundTrips ok (return a) a
RoundTrips-unit a payload out w = ([], ok-injective w ∙ sym (append-nil payload), Reads-return a)

request-Reads :
    (r : Request) {code : RequestCode} {payload : List ℕ}
    → IsRequest r
    → encode_request_payload r ≡ ok (code, payload)
    → Reads (decode_request_body code) payload r
unfolding encode_request_payload decode_request_body
request-Reads (Request.hello version) v w =
    let read =
      Reads-payload {code = RequestCode.hello} {p = decode_request_body RequestCode.hello}
        (RoundTrips-last Request.hello version (RoundTrips-u16 version v)) w in
    rw (← read.0) read.1
request-Reads Request.get_info v w =
    let read =
      Reads-payload {code = RequestCode.get_info} {p = decode_request_body RequestCode.get_info}
        (RoundTrips-unit Request.get_info) w in
    rw (← read.0) read.1
request-Reads Request.open_pro v w =
    let read =
      Reads-payload {code = RequestCode.open_pro} {p = decode_request_body RequestCode.open_pro}
        (RoundTrips-unit Request.open_pro) w in
    rw (← read.0) read.1
request-Reads (Request.open_pro_direction direction token0 token1) v w =
    let read =
      Reads-payload {code = RequestCode.open_pro_direction}
        {p = decode_request_body RequestCode.open_pro_direction}
        (RoundTrips-seq _ (direction_to_u8 direction)
          (RoundTrips-u8 (direction_to_u8 direction) (direction_to_u8-lt direction))
          (RoundTrips-check _ _ direction (direction_try_from-direction_to_u8 direction) (
            RoundTrips-seq _ token0 (RoundTrips-u64 token0 v.0) (
              RoundTrips-last (Request.open_pro_direction direction token0) token1
                (RoundTrips-u64 token1 v.1)))))
        w in
    rw (← read.0) read.1
request-Reads (Request.open_shared port_id) v w =
    let read =
      Reads-payload {code = RequestCode.open_shared}
        {p = decode_request_body RequestCode.open_shared}
        (RoundTrips-last Request.open_shared port_id (RoundTrips-string port_id v)) w in
    rw (← read.0) read.1
request-Reads (Request.start session_id) v w =
    let read =
      Reads-payload {code = RequestCode.start} {p = decode_request_body RequestCode.start}
        (RoundTrips-last Request.start session_id (RoundTrips-u64 session_id v)) w in
    rw (← read.0) read.1
request-Reads (Request.start_pro_aligned session_id) v w =
    let read =
      Reads-payload {code = RequestCode.start_pro_aligned}
        {p = decode_request_body RequestCode.start_pro_aligned}
        (RoundTrips-last Request.start_pro_aligned session_id (RoundTrips-u64 session_id v)) w in
    rw (← read.0) read.1
request-Reads (Request.stop session_id) v w =
    let read =
      Reads-payload {code = RequestCode.stop} {p = decode_request_body RequestCode.stop}
        (RoundTrips-last Request.stop session_id (RoundTrips-u64 session_id v)) w in
    rw (← read.0) read.1
request-Reads (Request.close session_id) v w =
    let read =
      Reads-payload {code = RequestCode.close} {p = decode_request_body RequestCode.close}
        (RoundTrips-last Request.close session_id (RoundTrips-u64 session_id v)) w in
    rw (← read.0) read.1
request-Reads Request.get_stats v w =
    let read =
      Reads-payload {code = RequestCode.get_stats} {p = decode_request_body RequestCode.get_stats}
        (RoundTrips-unit Request.get_stats) w in
    rw (← read.0) read.1

error_to_u16-lt : (c : ErrorCode) → error_to_u16 c < u16_mod
unfolding error_to_u16
error_to_u16-lt c = ground arith

response-Reads :
    (r : Response) {code : ResponseCode} {payload : List ℕ}
    → IsResponse r
    → encode_response_payload r ≡ ok (code, payload)
    → Reads (decode_response_body code) payload r
unfolding encode_response_payload decode_response_body
response-Reads (Response.open_pro_direction session_id direction shared) v w =
    let read =
      Reads-payload {code = ResponseCode.open_pro_direction}
        {p = decode_response_body ResponseCode.open_pro_direction}
        (RoundTrips-seq _ session_id (RoundTrips-u64 session_id v.0) (
          RoundTrips-seq _ (direction_to_u8 direction)
            (RoundTrips-u8 (direction_to_u8 direction) (direction_to_u8-lt direction))
            (RoundTrips-check _ _ direction (direction_try_from-direction_to_u8 direction) (
              RoundTrips-last (Response.open_pro_direction session_id direction) shared
                (RoundTrips-shared_info shared v.1)))))
        w in
    rw (← read.0) read.1
response-Reads (Response.hello version features) v w =
    let read =
      Reads-payload {code = ResponseCode.hello} {p = decode_response_body ResponseCode.hello}
        (RoundTrips-seq _ version (RoundTrips-u16 version v.0)
          (RoundTrips-last (Response.hello version) features (RoundTrips-u32 features v.1)))
        w in
    rw (← read.0) read.1
response-Reads (Response.info d) v w =
    let read =
      Reads-payload {code = ResponseCode.info} {p = decode_response_body ResponseCode.info}
        (RoundTrips-last Response.info d (RoundTrips-info d v)) w in
    rw (← read.0) read.1
response-Reads (Response.open_pro session_id shared) v w =
    let read =
      Reads-payload {code = ResponseCode.open_pro} {p = decode_response_body ResponseCode.open_pro}
        (RoundTrips-seq _ session_id (RoundTrips-u64 session_id v.0) (
          RoundTrips-last (Response.open_pro session_id) shared
            (RoundTrips-shared_info shared v.1)))
        w in
    rw (← read.0) read.1
response-Reads (Response.open_shared session_id direction shared) v w =
    let read =
      Reads-payload {code = ResponseCode.open_shared}
        {p = decode_response_body ResponseCode.open_shared}
        (RoundTrips-seq _ session_id (RoundTrips-u64 session_id v.0) (
          RoundTrips-seq _ (direction_to_u8 direction)
            (RoundTrips-u8 (direction_to_u8 direction) (direction_to_u8-lt direction))
            (RoundTrips-check _ _ direction (direction_try_from-direction_to_u8 direction) (
              RoundTrips-last (Response.open_shared session_id direction) shared
                (RoundTrips-shared_info shared v.1)))))
        w in
    rw (← read.0) read.1
response-Reads Response.ack v w =
    let read =
      Reads-payload {code = ResponseCode.ack} {p = decode_response_body ResponseCode.ack}
        (RoundTrips-unit Response.ack) w in
    rw (← read.0) read.1
response-Reads Response.busy v w =
    let read =
      Reads-payload {code = ResponseCode.busy} {p = decode_response_body ResponseCode.busy}
        (RoundTrips-unit Response.busy) w in
    rw (← read.0) read.1
response-Reads Response.unsupported v w =
    let read =
      Reads-payload {code = ResponseCode.unsupported}
        {p = decode_response_body ResponseCode.unsupported} (RoundTrips-unit Response.unsupported)
        w in
    rw (← read.0) read.1
response-Reads (Response.stats s) v w =
    let read =
      Reads-payload {code = ResponseCode.stats} {p = decode_response_body ResponseCode.stats}
        (RoundTrips-last Response.stats s (RoundTrips-stats s v)) w in
    rw (← read.0) read.1
response-Reads (Response.error code message) v w =
    let read =
      Reads-payload {code = ResponseCode.error} {p = decode_response_body ResponseCode.error}
        (RoundTrips-seq _ (error_to_u16 code)
          (RoundTrips-u16 (error_to_u16 code) (error_to_u16-lt code))
          (RoundTrips-check _ _ code (error_try_from-error_to_u16 code)
            (RoundTrips-last (Response.error code) message (RoundTrips-string message v))))
        w in
    rw (← read.0) read.1

-- The payload of a request in range is read back as that request.
pub decode_request_payload-encode_request_payload :
    (r : Request) {code : RequestCode} {payload : List ℕ}
    → IsRequest r
    → encode_request_payload r ≡ ok (code, payload)
    → length payload < u64_mod
    → decode_request_payload code payload ≡ ok r
unfolding decode_request_payload
decode_request_payload-encode_request_payload r {payload = payload} v w small =
    finished-Reads payload small (request-Reads r v w)

pub decode_response_payload-encode_response_payload :
    (r : Response) {code : ResponseCode} {payload : List ℕ}
    → IsResponse r
    → encode_response_payload r ≡ ok (code, payload)
    → length payload < u64_mod
    → decode_response_payload code payload ≡ ok r
unfolding decode_response_payload
decode_response_payload-encode_response_payload r {payload = payload} v w small =
    finished-Reads payload small (response-Reads r v w)
