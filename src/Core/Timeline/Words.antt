-- ===== src/Core/Timeline/Words.antt =====
-- `HardwareTimeline` of crates/sidealsa-core/src/timeline.rs: its words and the statistics that are
-- read from them.
use side_alsa.Base.{ℕ, Bool, List, replicate}
use side_alsa.Base.Int.{ℤ, pos}

pub data StreamDirection : Type 0 where
  playback capture : StreamDirection

abbrev pub pro_timing_slot_count : ℕ
pro_timing_slot_count = 8

abbrev pub phase_sample_count : ℕ
phase_sample_count = 128

pub record ProTimingSlot : Type 0 where
  pub sequence : ℕ
  pub capture_read_nanos : ℕ

pub record HardwareTimeline : Type 0 where
  pub generation : ℕ
  pub sample_position : ℕ
  pub playback_position : ℕ
  pub capture_position : ℕ
  pub playback_xruns : ℕ
  pub capture_xruns : ℕ
  pub playback_delay_frames : ℕ
  pub capture_delay_frames : ℕ
  pub playback_delay_min_frames : ℕ
  pub playback_delay_max_frames : ℕ
  pub playback_ring_delay_frames : ℕ
  pub playback_ring_delay_min_frames : ℕ
  pub playback_ring_delay_max_frames : ℕ
  pub playback_driver_delay_frames : ℕ
  pub playback_driver_delay_min_frames : ℕ
  pub playback_driver_delay_max_frames : ℕ
  pub capture_delay_min_frames : ℕ
  pub capture_delay_max_frames : ℕ
  pub playback_target_overshoot_max_frames : ℕ
  pub pro_wait_budget_min_nanos : ℕ
  pub pro_wait_budget_max_nanos : ℕ
  pub pro_ready_wait_max_nanos : ℕ
  pub playback_write_max_nanos : ℕ
  pub capture_to_playback_write_nanos : ℕ
  pub capture_to_playback_write_min_nanos : ℕ
  pub capture_to_playback_write_max_nanos : ℕ
  pub duplex_pointer_phase_samples : List ℤ
  pub duplex_pointer_phase_sample_count : ℕ
  pub linked_phase_result_epoch : ℕ
  pub linked_phase_attempts : ℕ
  pub linked_phase_rebases : ℕ
  pub linked_phase_score_nanos : ℕ
  pub linked_phase_target_met : ℕ
  pub pro_timing : List ProTimingSlot
  pub playback_low_watermarks : ℕ
  pub pro_deadline_misses : ℕ
  pub pro_client_deadline_misses : ℕ
  pub pro_core_deadline_misses : ℕ
  pub pro_capture_overruns : ℕ
  pub pro_playback_blocks : ℕ
  pub pro_playback_nonzero_blocks : ℕ
  pub shared_underruns : ℕ
  pub shared_overruns : ℕ
  pub timeline_resets : ℕ
  pub periods_processed : ℕ

pub record HardwareStats : Type 0 where
  pub generation : ℕ
  pub sample_position : ℕ
  pub playback_position : ℕ
  pub capture_position : ℕ
  pub hw_playback_xruns : ℕ
  pub hw_capture_xruns : ℕ
  pub playback_delay_frames : ℕ
  pub capture_delay_frames : ℕ
  pub playback_delay_min_frames : ℕ
  pub playback_delay_max_frames : ℕ
  pub playback_ring_delay_frames : ℕ
  pub playback_ring_delay_min_frames : ℕ
  pub playback_ring_delay_max_frames : ℕ
  pub playback_driver_delay_frames : ℕ
  pub playback_driver_delay_min_frames : ℕ
  pub playback_driver_delay_max_frames : ℕ
  pub capture_delay_min_frames : ℕ
  pub capture_delay_max_frames : ℕ
  pub playback_target_overshoot_max_frames : ℕ
  pub pro_wait_budget_min_nanos : ℕ
  pub pro_wait_budget_max_nanos : ℕ
  pub pro_ready_wait_max_nanos : ℕ
  pub playback_write_max_nanos : ℕ
  pub capture_to_playback_write_nanos : ℕ
  pub capture_to_playback_write_min_nanos : ℕ
  pub capture_to_playback_write_max_nanos : ℕ
  pub duplex_pointer_phase_nanos : ℤ
  pub duplex_pointer_phase_min_nanos : ℤ
  pub duplex_pointer_phase_max_nanos : ℤ
  pub duplex_pointer_phase_samples : ℕ
  pub linked_phase_attempts : ℕ
  pub linked_phase_rebases : ℕ
  pub linked_phase_score_nanos : ℕ
  pub linked_phase_target_met : Bool
  pub playback_low_watermarks : ℕ
  pub pro_deadline_misses : ℕ
  pub pro_client_deadline_misses : ℕ
  pub pro_core_deadline_misses : ℕ
  pub pro_capture_overruns : ℕ
  pub pro_playback_blocks : ℕ
  pub pro_playback_nonzero_blocks : ℕ
  pub shared_underruns : ℕ
  pub shared_overruns : ℕ
  pub timeline_resets : ℕ
  pub periods_processed : ℕ

abbrev pub no_slot : ProTimingSlot
no_slot = record { sequence = 0; capture_read_nanos = 0 }

-- `HardwareTimeline::default()`
abbrev pub new_timeline : HardwareTimeline
new_timeline = record {
  generation = 0;
  sample_position = 0;
  playback_position = 0;
  capture_position = 0;
  playback_xruns = 0;
  capture_xruns = 0;
  playback_delay_frames = 0;
  capture_delay_frames = 0;
  playback_delay_min_frames = 0;
  playback_delay_max_frames = 0;
  playback_ring_delay_frames = 0;
  playback_ring_delay_min_frames = 0;
  playback_ring_delay_max_frames = 0;
  playback_driver_delay_frames = 0;
  playback_driver_delay_min_frames = 0;
  playback_driver_delay_max_frames = 0;
  capture_delay_min_frames = 0;
  capture_delay_max_frames = 0;
  playback_target_overshoot_max_frames = 0;
  pro_wait_budget_min_nanos = 0;
  pro_wait_budget_max_nanos = 0;
  pro_ready_wait_max_nanos = 0;
  playback_write_max_nanos = 0;
  capture_to_playback_write_nanos = 0;
  capture_to_playback_write_min_nanos = 0;
  capture_to_playback_write_max_nanos = 0;
  duplex_pointer_phase_samples = replicate phase_sample_count (pos 0);
  duplex_pointer_phase_sample_count = 0;
  linked_phase_result_epoch = 0;
  linked_phase_attempts = 0;
  linked_phase_rebases = 0;
  linked_phase_score_nanos = 0;
  linked_phase_target_met = 0;
  pro_timing = replicate pro_timing_slot_count no_slot;
  playback_low_watermarks = 0;
  pro_deadline_misses = 0;
  pro_client_deadline_misses = 0;
  pro_core_deadline_misses = 0;
  pro_capture_overruns = 0;
  pro_playback_blocks = 0;
  pro_playback_nonzero_blocks = 0;
  shared_underruns = 0;
  shared_overruns = 0;
  timeline_resets = 0;
  periods_processed = 0;
}
