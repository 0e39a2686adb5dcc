-- ===== src/Protocol/Decode.antt =====
-- The `decode_*` functions of crates/sidealsa-protocol/src/lib.rs that read a payload.
use side_alsa.Base.{ℕ, zero, suc, not, List, [], ◌∷◌, Result, ok, and_then, ◌==◌}
use side_alsa.Protocol.Types.{
  ProtocolError, SharedRegionInfo, PortInfo, DeviceInfo, SharedPlaybackPortStats, Stats, Request,
  Response,
}
use side_alsa.Protocol.Codes.{RequestCode, ResponseCode, direction_try_from, error_try_from}
use side_alsa.Protocol.Wire.{
  Decode, read_u8, read_u16, read_u32, read_u64, read_string, new, finish,
}

infixl 5 ◌>>=◌
abbrev pub ◌>>=◌ : {A B : Type 0} → Decode A → (A → Decode B) → Decode B
◌>>=◌ p f d = and_then (p d) λ r. f r.0 r.1

abbrev pub return : {A : Type 0} → A → Decode A
return a d = ok (a, d)

-- A conversion that may fail, with `?`.
abbrev pub check : {A : Type 0} → Result ProtocolError A → Decode A
check r d = and_then r λ a. ok (a, d)

-- `for _ in 0..count { items.push(read) }`
unfoldable pub repeat : {A : Type 0} → ℕ → Decode A → Decode (List A)
repeat zero p = return []
repeat (suc n) p = do x ← p; xs ← repeat n p; return (x ∷ xs)

unfoldable pub decode_shared_info : Decode SharedRegionInfo
decode_shared_info = do
  size ← read_u64
  period_frames ← read_u32
  playback_channels ← read_u32
  capture_channels ← read_u32
  slot_count ← read_u32
  slot_stride ← read_u64
  capture_offset ← read_u64
  playback_offset ← read_u64
  return (record {
    size = size;
    period_frames = period_frames;
    playback_channels = playback_channels;
    capture_channels = capture_channels;
    slot_count = slot_count;
    slot_stride = slot_stride;
    capture_offset = capture_offset;
    playback_offset = playback_offset;
  })

unfoldable pub decode_port : Decode PortInfo
unfolding repeat
decode_port = do
  id ← read_string
  name ← read_string
  channel_count ← read_u16
  channels ← repeat channel_count read_u32
  return (record { id = id; name = name; channels = channels })

unfoldable pub decode_ports : Decode (List PortInfo)
unfolding repeat decode_port
decode_ports = do count ← read_u16; repeat count decode_port

unfoldable pub decode_info : Decode DeviceInfo
unfolding decode_ports
decode_info = do
  name ← read_string
  profile_fingerprint ← read_u64
  rate ← read_u32
  period_size ← read_u32
  hardware_period_size ← read_u32
  buffer_size ← read_u32
  shared_buffer_size ← read_u32
  pro_latency_periods ← read_u32
  pro_output_latency_frames ← read_u32
  pro_realtime_priority ← read_u32
  shared_latency_periods ← read_u32
  playback_channels ← read_u32
  capture_channels ← read_u32
  playback_ports ← decode_ports
  capture_ports ← decode_ports
  return (record {
    name = name;
    profile_fingerprint = profile_fingerprint;
    rate = rate;
    period_size = period_size;
    hardware_period_size = hardware_period_size;
    buffer_size = buffer_size;
    shared_buffer_size = shared_buffer_size;
    pro_latency_periods = pro_latency_periods;
    pro_output_latency_frames = pro_output_latency_frames;
    pro_realtime_priority = pro_realtime_priority;
    shared_latency_periods = shared_latency_periods;
    playback_channels = playback_channels;
    capture_channels = capture_channels;
    playback_ports = playback_ports;
    capture_ports = capture_ports;
  })

unfoldable pub decode_port_stats : Decode SharedPlaybackPortStats
decode_port_stats = do
  port_id ← read_string
  underruns ← read_u64
  last_underrun_sequence ← read_u64
  last_underrun_nanos ← read_u64
  last_sequence_lag_periods ← read_u64
  max_sequence_lag_periods ← read_u64
  expired_playback_periods ← read_u64
  playback_submit_failures ← read_u64
  playback_xruns ← read_u64
  return (record {
    port_id = port_id;
    underruns = underruns;
    last_underrun_sequence = last_underrun_sequence;
    last_underrun_nanos = last_underrun_nanos;
    last_sequence_lag_periods = last_sequence_lag_periods;
    max_sequence_lag_periods = max_sequence_lag_periods;
    expired_playback_periods = expired_playback_periods;
    playback_submit_failures = playback_submit_failures;
    playback_xruns = playback_xruns;
  })

unfoldable pub decode_stats : Decode Stats
unfolding repeat decode_port_stats
decode_stats = do
  generation ← read_u64
  sample_position ← read_u64
  playback_position ← read_u64
  capture_position ← read_u64
  hw_playback_xruns ← read_u64
  hw_capture_xruns ← read_u64
  playback_delay_frames ← read_u64
  capture_delay_frames ← read_u64
  playback_delay_min_frames ← read_u64
  playback_delay_max_frames ← read_u64
  playback_ring_delay_frames ← read_u64
  playback_ring_delay_min_frames ← read_u64
  playback_ring_delay_max_frames ← read_u64
  playback_driver_delay_frames ← read_u64
  playback_driver_delay_min_frames ← read_u64
  playback_driver_delay_max_frames ← read_u64
  capture_delay_min_frames ← read_u64
  capture_delay_max_frames ← read_u64
  playback_target_overshoot_max_frames ← read_u64
  pro_wait_budget_min_nanos ← read_u64
  pro_wait_budget_max_nanos ← read_u64
  pro_ready_wait_max_nanos ← read_u64
  playback_write_max_nanos ← read_u64
  capture_to_playback_write_nanos ← read_u64
  capture_to_playback_write_min_nanos ← read_u64
  capture_to_playback_write_max_nanos ← read_u64
  duplex_pointer_phase_nanos ← read_u64
  duplex_pointer_phase_min_nanos ← read_u64
  duplex_pointer_phase_max_nanos ← read_u64
  duplex_pointer_phase_samples ← read_u64
  linked_phase_attempts ← read_u64
  linked_phase_rebases ← read_u64
  linked_phase_score_nanos ← read_u64
  linked_phase_target_met ← read_u64
  playback_low_watermarks ← read_u64
  pro_deadline_misses ← read_u64
  pro_client_deadline_misses ← read_u64
  pro_core_deadline_misses ← read_u64
  pro_capture_overruns ← read_u64
  pro_expired_capture_blocks ← read_u64
  pro_playback_submit_failures ← read_u64
  pro_realtime_failures ← read_u64
  pro_callback_overruns ← read_u64
  pro_callback_max_nanos ← read_u64
  pro_playback_blocks ← read_u64
  pro_playback_nonzero_blocks ← read_u64
  shared_underruns ← read_u64
  shared_overruns ← read_u64
  timeline_resets ← read_u64
  periods_processed ← read_u64
  port_count ← read_u16
  shared_playback_ports ← repeat port_count decode_port_stats
  return (record {
    generation = generation;
    sample_position = sample_position;
    playback_position = playback_position;
    capture_position = capture_position;
    hw_playback_xruns = hw_playback_xruns;
    hw_capture_xruns = hw_capture_xruns;
    playback_delay_frames = playback_delay_frames;
    capture_delay_frames = capture_delay_frames;
    playback_delay_min_frames = playback_delay_min_frames;
    playback_delay_max_frames = playback_delay_max_frames;
    playback_ring_delay_frames = playback_ring_delay_frames;
    playback_ring_delay_min_frames = playback_ring_delay_min_frames;
    playback_ring_delay_max_frames = playback_ring_delay_max_frames;
    playback_driver_delay_frames = playback_driver_delay_frames;
    playback_driver_delay_min_frames = playback_driver_delay_min_frames;
    playback_driver_delay_max_frames = playback_driver_delay_max_frames;
    capture_delay_min_frames = capture_delay_min_frames;
    capture_delay_max_frames = capture_delay_max_frames;
    playback_target_overshoot_max_frames = playback_target_overshoot_max_frames;
    pro_wait_budget_min_nanos = pro_wait_budget_min_nanos;
    pro_wait_budget_max_nanos = pro_wait_budget_max_nanos;
    pro_ready_wait_max_nanos = pro_ready_wait_max_nanos;
    playback_write_max_nanos = playback_write_max_nanos;
    capture_to_playback_write_nanos = capture_to_playback_write_nanos;
    capture_to_playback_write_min_nanos = capture_to_playback_write_min_nanos;
    capture_to_playback_write_max_nanos = capture_to_playback_write_max_nanos;
    duplex_pointer_phase_nanos = duplex_pointer_phase_nanos;
    duplex_pointer_phase_min_nanos = duplex_pointer_phase_min_nanos;
    duplex_pointer_phase_max_nanos = duplex_pointer_phase_max_nanos;
    duplex_pointer_phase_samples = duplex_pointer_phase_samples;
    linked_phase_attempts = linked_phase_attempts;
    linked_phase_rebases = linked_phase_rebases;
    linked_phase_score_nanos = linked_phase_score_nanos;
    linked_phase_target_met = not (linked_phase_target_met == 0);
    playback_low_watermarks = playback_low_watermarks;
    pro_deadline_misses = pro_deadline_misses;
    pro_client_deadline_misses = pro_client_deadline_misses;
    pro_core_deadline_misses = pro_core_deadline_misses;
    pro_capture_overruns = pro_capture_overruns;
    pro_expired_capture_blocks = pro_expired_capture_blocks;
    pro_playback_submit_failures = pro_playback_submit_failures;
    pro_realtime_failures = pro_realtime_failures;
    pro_callback_overruns = pro_callback_overruns;
    pro_callback_max_nanos = pro_callback_max_nanos;
    pro_playback_blocks = pro_playback_blocks;
    pro_playback_nonzero_blocks = pro_playback_nonzero_blocks;
    shared_underruns = shared_underruns;
    shared_overruns = shared_overruns;
    timeline_resets = timeline_resets;
    periods_processed = periods_processed;
    shared_playback_ports = shared_playback_ports;
  })

-- The read of the fields that follow the code, by the code.
unfoldable pub decode_request_body : RequestCode → Decode Request
decode_request_body RequestCode.hello = do version ← read_u16; return (Request.hello version)
decode_request_body RequestCode.get_info = return Request.get_info
decode_request_body RequestCode.open_pro = return Request.open_pro
decode_request_body RequestCode.open_pro_direction = do
  value ← read_u8
  direction ← check (direction_try_from value)
  token0 ← read_u64
  token1 ← read_u64
  return (Request.open_pro_direction direction token0 token1)
decode_request_body RequestCode.open_shared = do
  port_id ← read_string
  return (Request.open_shared port_id)
decode_request_body RequestCode.start = do session_id ← read_u64; return (Request.start session_id)
decode_request_body RequestCode.start_pro_aligned = do
  session_id ← read_u64
  return (Request.start_pro_aligned session_id)
decode_request_body RequestCode.stop = do session_id ← read_u64; return (Request.stop session_id)
decode_request_body RequestCode.close = do session_id ← read_u64; return (Request.close session_id)
decode_request_body RequestCode.get_stats = return Request.get_stats

unfoldable pub decode_response_body : ResponseCode → Decode Response
unfolding decode_shared_info decode_info decode_stats
decode_response_body ResponseCode.open_pro_direction = do
  session_id ← read_u64
  value ← read_u8
  direction ← check (direction_try_from value)
  shared ← decode_shared_info
  return (Response.open_pro_direction session_id direction shared)
decode_response_body ResponseCode.hello = do
  version ← read_u16
  features ← read_u32
  return (Response.hello version features)
decode_response_body ResponseCode.info = do d ← decode_info; return (Response.info d)
decode_response_body ResponseCode.open_pro = do
  session_id ← read_u64
  shared ← decode_shared_info
  return (Response.open_pro session_id shared)
decode_response_body ResponseCode.open_shared = do
  session_id ← read_u64
  value ← read_u8
  direction ← check (direction_try_from value)
  shared ← decode_shared_info
  return (Response.open_shared session_id direction shared)
decode_response_body ResponseCode.ack = return Response.ack
decode_response_body ResponseCode.busy = return Response.busy
decode_response_body ResponseCode.unsupported = return Response.unsupported
decode_response_body ResponseCode.stats = do s ← decode_stats; return (Response.stats s)
decode_response_body ResponseCode.error = do
  value ← read_u16
  code ← check (error_try_from value)
  message ← read_string
  return (Response.error code message)

-- `let value = ...; decoder.finish()?; Ok(value)`
unfoldable pub finished : {A : Type 0} → Decode A → List ℕ → Result ProtocolError A
unfolding new finish
finished p payload = and_then (p (new payload)) λ r. and_then (finish r.1) λ _. ok r.0

unfoldable pub decode_request_payload : RequestCode → List ℕ → Result ProtocolError Request
unfolding finished decode_request_body
decode_request_payload code payload = finished (decode_request_body code) payload

unfoldable pub decode_response_payload : ResponseCode → List ℕ → Result ProtocolError Response
unfolding finished decode_response_body
decode_response_payload code payload = finished (decode_response_body code) payload
