-- ===== src/Protocol/Types.antt =====
-- The messages of crates/sidealsa-protocol/src/lib.rs. A `String` is the list of its bytes, an
-- integer is a natural number, and a signed 64-bit integer is its bit pattern.
use side_alsa.Base.{ℕ, Bool, List}

pub data PortDirection : Type 0 where
  playback capture : PortDirection

pub data ErrorCode : Type 0 where
  invalid_request not_owner bad_state internal : ErrorCode

pub data ProtocolError : Type 0 where
  io invalid_magic malformed_payload too_many_items layout_overflow : ProtocolError
  unsupported_version frame_too_large unknown_request unknown_response : ℕ → ProtocolError
  unknown_error unknown_direction string_too_long : ℕ → ProtocolError

pub record SharedRegionInfo : Type 0 where
  pub size : ℕ
  pub period_frames : ℕ
  pub playback_channels : ℕ
  pub capture_channels : ℕ
  pub slot_count : ℕ
  pub slot_stride : ℕ
  pub capture_offset : ℕ
  pub playback_offset : ℕ

pub record PortInfo : Type 0 where
  pub id : List ℕ
  pub name : List ℕ
  pub channels : List ℕ

pub record DeviceInfo : Type 0 where
  pub name : List ℕ
  pub profile_fingerprint : ℕ
  pub rate : ℕ
  pub period_size : ℕ
  pub hardware_period_size : ℕ
  pub buffer_size : ℕ
  pub shared_buffer_size : ℕ
  pub pro_latency_periods : ℕ
  pub pro_output_latency_frames : ℕ
  pub pro_realtime_priority : ℕ
  pub shared_latency_periods : ℕ
  pub playback_channels : ℕ
  pub capture_channels : ℕ
  pub playback_ports : List PortInfo
  pub capture_ports : List PortInfo

pub record SharedPlaybackPortStats : Type 0 where
  pub port_id : List ℕ
  pub underruns : ℕ
  pub last_underrun_sequence : ℕ
  pub last_underrun_nanos : ℕ
  pub last_sequence_lag_periods : ℕ
  pub max_sequence_lag_periods : ℕ
  pub expired_playback_periods : ℕ
  pub playback_submit_failures : ℕ
  pub playback_xruns : ℕ

pub record Stats : Type 0 where
  pub generation : ℕ
  pub sample_position : ℕ
  pub playback_position : ℕ
  pub capture_position : ℕ
  pub hw_playback_xruns : ℕ
  pub hw_capture_xruns : ℕ
  pub playback_delay_frames : ℕ
  pub capture_delay_frames : ℕ
  pub playback_delay_min_frames : ℕ
  pub playback_delay_max_frames : ℕ
  pub playback_ring_delay_frames : ℕ
  pub playback_ring_delay_min_frames : ℕ
  pub playback_ring_delay_max_frames : ℕ
  pub playback_driver_delay_frames : ℕ
  pub playback_driver_delay_min_frames : ℕ
  pub playback_driver_delay_max_frames : ℕ
  pub capture_delay_min_frames : ℕ
  pub capture_delay_max_frames : ℕ
  pub playback_target_overshoot_max_frames : ℕ
  pub pro_wait_budget_min_nanos : ℕ
  pub pro_wait_budget_max_nanos : ℕ
  pub pro_ready_wait_max_nanos : ℕ
  pub playback_write_max_nanos : ℕ
  pub capture_to_playback_write_nanos : ℕ
  pub capture_to_playback_write_min_nanos : ℕ
  pub capture_to_playback_write_max_nanos : ℕ
  pub duplex_pointer_phase_nanos : ℕ
  pub duplex_pointer_phase_min_nanos : ℕ
  pub duplex_pointer_phase_max_nanos : ℕ
  pub duplex_pointer_phase_samples : ℕ
  pub linked_phase_attempts : ℕ
  pub linked_phase_rebases : ℕ
  pub linked_phase_score_nanos : ℕ
  pub linked_phase_target_met : Bool
  pub playback_low_watermarks : ℕ
  pub pro_deadline_misses : ℕ
  pub pro_client_deadline_misses : ℕ
  pub pro_core_deadline_misses : ℕ
  pub pro_capture_overruns : ℕ
  pub pro_expired_capture_blocks : ℕ
  pub pro_playback_submit_failures : ℕ
  pub pro_realtime_failures : ℕ
  pub pro_callback_overruns : ℕ
  pub pro_callback_max_nanos : ℕ
  pub pro_playback_blocks : ℕ
  pub pro_playback_nonzero_blocks : ℕ
  pub shared_underruns : ℕ
  pub shared_overruns : ℕ
  pub timeline_resets : ℕ
  pub periods_processed : ℕ
  pub shared_playback_ports : List SharedPlaybackPortStats

pub data Request : Type 0 where
  hello : ℕ → Request
  get_info open_pro : Request
  -- the direction, and the two words of the group token
  open_pro_direction : PortDirection → ℕ → ℕ → Request
  open_shared : List ℕ → Request
  start start_pro_aligned stop close : ℕ → Request
  get_stats : Request

pub data Response : Type 0 where
  open_pro_direction : ℕ → PortDirection → SharedRegionInfo → Response
  hello : ℕ → ℕ → Response
  info : DeviceInfo → Response
  open_pro : ℕ → SharedRegionInfo → Response
  open_shared : ℕ → PortDirection → SharedRegionInfo → Response
  ack busy unsupported : Response
  stats : Stats → Response
  error : ErrorCode → List ℕ → Response
