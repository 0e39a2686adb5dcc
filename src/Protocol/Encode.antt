-- ===== src/Protocol/Encode.antt =====
-- The `encode_*` functions of crates/sidealsa-protocol/src/lib.rs that build a payload.
use side_alsa.Base.{ℕ, Bool, true, false, List, [], ◌∷◌, Result, ok, and_then, ok_or, length}
use side_alsa.Protocol.Types.{
  ProtocolError, too_many_items, SharedRegionInfo, PortInfo, DeviceInfo, SharedPlaybackPortStats,
  Stats, Request, Response,
}
use side_alsa.Protocol.Codes.{RequestCode, ResponseCode, direction_to_u8, error_to_u16}
use side_alsa.Protocol.Wire.{Encoder, put_u8, put_u16, put_u32, put_u64, put_string, u16_try_from}

-- Two statements on the same payload, the first with `?`.
infixl 5 ◌>>◌
abbrev pub ◌>>◌ : Encoder → Encoder → Encoder
◌>>◌ e k payload = and_then (e payload) k

-- `for item in items { body }`
unfoldable pub for_each : {A : Type 0} → (A → Encoder) → List A → Encoder
for_each body [] payload = ok payload
for_each body (x ∷ xs) payload = and_then (body x payload) (for_each body xs)

-- The length of a list as a `u16`, in front of its items.
unfoldable pub put_count : ℕ → Encoder
unfolding u16_try_from
put_count n payload =
    and_then (ok_or (u16_try_from n) too_many_items) λ count. put_u16 count payload

unfoldable pub encode_shared_info : SharedRegionInfo → Encoder
encode_shared_info s = do
  put_u64 s.size
  put_u32 s.period_frames
  put_u32 s.playback_channels
  put_u32 s.capture_channels
  put_u32 s.slot_count
  put_u64 s.slot_stride
  put_u64 s.capture_offset
  put_u64 s.playback_offset

unfoldable pub encode_port : PortInfo → Encoder
unfolding for_each put_count
encode_port port = do
  put_string port.id
  put_string port.name
  put_count (length port.channels)
  for_each put_u32 port.channels

unfoldable pub encode_ports : List PortInfo → Encoder
unfolding for_each put_count encode_port
encode_ports ports = do put_count (length ports); for_each encode_port ports

unfoldable pub encode_info : DeviceInfo → Encoder
unfolding encode_ports
encode_info d = do
  put_string d.name
  put_u64 d.profile_fingerprint
  put_u32 d.rate
  put_u32 d.period_size
  put_u32 d.hardware_period_size
  put_u32 d.buffer_size
  put_u32 d.shared_buffer_size
  put_u32 d.pro_latency_periods
  put_u32 d.pro_output_latency_frames
  put_u32 d.pro_realtime_priority
  put_u32 d.shared_latency_periods
  put_u32 d.playback_channels
  put_u32 d.capture_channels
  encode_ports d.playback_ports
  encode_ports d.capture_ports

unfoldable pub bool_to_u64 : Bool → ℕ
bool_to_u64 false = 0
bool_to_u64 true = 1

-- The array of counters that `encode_stats` walks.
unfoldable pub stats_values : Stats → List ℕ
unfolding bool_to_u64
stats_values s =
    s.generation
    ∷ s.sample_position
    ∷ s.playback_position
    ∷ s.capture_position
    ∷ s.hw_playback_xruns
    ∷ s.hw_capture_xruns
    ∷ s.playback_delay_frames
    ∷ s.capture_delay_frames
    ∷ s.playback_delay_min_frames
    ∷ s.playback_delay_max_frames
    ∷ s.playback_ring_delay_frames
    ∷ s.playback_ring_delay_min_frames
    ∷ s.playback_ring_delay_max_frames
    ∷ s.playback_driver_delay_frames
    ∷ s.playback_driver_delay_min_frames
    ∷ s.playback_driver_delay_max_frames
    ∷ s.capture_delay_min_frames
    ∷ s.capture_delay_max_frames
    ∷ s.playback_target_overshoot_max_frames
    ∷ s.pro_wait_budget_min_nanos
    ∷ s.pro_wait_budget_max_nanos
    ∷ s.pro_ready_wait_max_nanos
    ∷ s.playback_write_max_nanos
    ∷ s.capture_to_playback_write_nanos
    ∷ s.capture_to_playback_write_min_nanos
    ∷ s.capture_to_playback_write_max_nanos
    ∷ s.duplex_pointer_phase_nanos
    ∷ s.duplex_pointer_phase_min_nanos
    ∷ s.duplex_pointer_phase_max_nanos
    ∷ s.duplex_pointer_phase_samples
    ∷ s.linked_phase_attempts
    ∷ s.linked_phase_rebases
    ∷ s.linked_phase_score_nanos
    ∷ (bool_to_u64 s.linked_phase_target_met)
    ∷ s.playback_low_watermarks
    ∷ s.pro_deadline_misses
    ∷ s.pro_client_deadline_misses
    ∷ s.pro_core_deadline_misses
    ∷ s.pro_capture_overruns
    ∷ s.pro_expired_capture_blocks
    ∷ s.pro_playback_submit_failures
    ∷ s.pro_realtime_failures
    ∷ s.pro_callback_overruns
    ∷ s.pro_callback_max_nanos
    ∷ s.pro_playback_blocks
    ∷ s.pro_playback_nonzero_blocks
    ∷ s.shared_underruns
    ∷ s.shared_overruns
    ∷ s.timeline_resets
    ∷ s.periods_processed
    ∷ []

unfoldable pub port_stats_values : SharedPlaybackPortStats → List ℕ
port_stats_values s =
    s.underruns ∷ s.last_underrun_sequence ∷ s.last_underrun_nanos ∷ s.last_sequence_lag_periods
    ∷ s.max_sequence_lag_periods ∷ s.expired_playback_periods ∷ s.playback_submit_failures
    ∷ s.playback_xruns ∷ []

unfoldable pub encode_port_stats : SharedPlaybackPortStats → Encoder
unfolding for_each port_stats_values
encode_port_stats s = do put_string s.port_id; for_each put_u64 (port_stats_values s)

unfoldable pub encode_stats : Stats → Encoder
unfolding for_each put_count encode_port_stats stats_values
encode_stats s = do
  for_each put_u64 (stats_values s)
  put_count (length s.shared_playback_ports)
  for_each encode_port_stats s.shared_playback_ports

-- The code with the payload that the encoder makes of an empty vector.
abbrev pub with_code : {C : Type 0} → C → Encoder → Result ProtocolError (C × List ℕ)
with_code code e = and_then (e []) λ payload. ok (code, payload)

unfoldable pub encode_request_payload : Request → Result ProtocolError (RequestCode × List ℕ)
encode_request_payload (Request.hello version) = with_code RequestCode.hello (put_u16 version)
encode_request_payload Request.get_info = ok (RequestCode.get_info, [])
encode_request_payload Request.open_pro = ok (RequestCode.open_pro, [])
encode_request_payload (Request.open_pro_direction direction token0 token1) =
    with_code RequestCode.open_pro_direction
      (do put_u8 (direction_to_u8 direction); put_u64 token0; put_u64 token1)
encode_request_payload (Request.open_shared port_id) =
    with_code RequestCode.open_shared (put_string port_id)
encode_request_payload (Request.start session_id) = with_code RequestCode.start (put_u64 session_id)
encode_request_payload (Request.start_pro_aligned session_id) =
    with_code RequestCode.start_pro_aligned (put_u64 session_id)
encode_request_payload (Request.stop session_id) = with_code RequestCode.stop (put_u64 session_id)
encode_request_payload (Request.close session_id) = with_code RequestCode.close (put_u64 session_id)
encode_request_payload Request.get_stats = ok (RequestCode.get_stats, [])

unfoldable pub encode_response_payload : Response → Result ProtocolError (ResponseCode × List ℕ)
unfolding encode_shared_info encode_info encode_stats
encode_response_payload (Response.open_pro_direction session_id direction shared) =
    with_code ResponseCode.open_pro_direction
      (do put_u64 session_id; put_u8 (direction_to_u8 direction); encode_shared_info shared)
encode_response_payload (Response.hello version features) =
    with_code ResponseCode.hello (do put_u16 version; put_u32 features)
encode_response_payload (Response.info d) = with_code ResponseCode.info (encode_info d)
encode_response_payload (Response.open_pro session_id shared) =
    with_code ResponseCode.open_pro (do put_u64 session_id; encode_shared_info shared)
encode_response_payload (Response.open_shared session_id direction shared) =
    with_code ResponseCode.open_shared
      (do put_u64 session_id; put_u8 (direction_to_u8 direction); encode_shared_info shared)
encode_response_payload Response.ack = ok (ResponseCode.ack, [])
encode_response_payload Response.busy = ok (ResponseCode.busy, [])
encode_response_payload Response.unsupported = ok (ResponseCode.unsupported, [])
encode_response_payload (Response.stats s) = with_code ResponseCode.stats (encode_stats s)
encode_response_payload (Response.error code message) =
    with_code ResponseCode.error (do put_u16 (error_to_u16 code); put_string message)
