-- ===== src/Core/Timeline.antt =====
-- The calls of `HardwareTimeline` of crates/sidealsa-core/src/timeline.rs. Each is one uninterrupted
-- run on the words of the timeline; an atomic counter wraps at 64 bits. `none` is a call that spins
-- because the calibration's epoch is odd, which a writer leaves only inside its own call.
pub mod Words
pub mod Extremes
pub mod Counters
pub mod Phase
use side_alsa.Base.{
  ℕ, zero, suc, ◌+◌, ◌-◌, ◌*◌, ◌/◌, ◌%◌, min, Bool, true, false, not, ◌||◌, Option, none, some,
  List, [], ◌∷◌, ltb, ◌==◌, if◌then◌else◌, length, get_or, set, wrapping_add, saturating_add,
}
use side_alsa.Base.Int.{ℤ, pos, ◌-ℤ◌, pos_part, leb_ℤ}
use side_alsa.Core.Latency.{sort, i64_saturate}
use Words.{
  StreamDirection, pro_timing_slot_count, phase_sample_count, ProTimingSlot, HardwareTimeline,
  HardwareStats, no_slot,
}

-- `update_minimum` and `update_maximum`: the word afterwards. A minimum is kept plus one, so that 0
-- means that there is none yet.
unfoldable pub update_minimum : ℕ → ℕ → ℕ
update_minimum current value =
    let encoded = saturating_add value 1 in
    if current == 0 || ltb encoded current then encoded else current

unfoldable pub update_maximum : ℕ → ℕ → ℕ
update_maximum current value = if ltb current value then value else current

unfoldable pub decode_minimum : ℕ → ℕ
decode_minimum encoded = encoded - 1

unfoldable pub linked_phase_calibration : HardwareTimeline → Option (ℕ × ℕ × Bool)
linked_phase_calibration t =
    if not (t.linked_phase_result_epoch % 2 == 0)
    then none
    else some
        (t.linked_phase_attempts, t.linked_phase_score_nanos, not (t.linked_phase_target_met == 0))

-- The samples at `count` places from `start` on, going round.
unfoldable pub read_phase : List ℤ → ℕ → ℕ → List ℤ
read_phase samples start zero = []
read_phase samples start (suc count) =
    get_or samples (start % phase_sample_count) (pos 0) ∷ read_phase samples (start + 1) count

-- The median, the least and the greatest of the samples kept, and how many were recorded.
unfoldable pub duplex_pointer_phase : HardwareTimeline → ℤ × ℤ × ℤ × ℕ
unfolding read_phase sort
duplex_pointer_phase t =
    let total = t.duplex_pointer_phase_sample_count in
    let count = min total phase_sample_count in
    let samples = sort (read_phase t.duplex_pointer_phase_samples (total - count) count) in
    if count == 0 then (pos 0, pos 0, pos 0, 0) else (
      get_or samples (count / 2) (pos 0),
      get_or samples 0 (pos 0),
      get_or samples (count - 1) (pos 0),
      total,
    )

-- The record of `snapshot`, from the calibration and the phase that it has read.
unfoldable pub snapshot_with : ℕ × ℕ × Bool → ℤ × ℤ × ℤ × ℕ → HardwareTimeline → HardwareStats
unfolding decode_minimum
snapshot_with (attempts, score_nanos, target_met) (phase, phase_min, phase_max, phase_samples) t =
    record {
      generation = t.generation;
      sample_position = t.sample_position;
      playback_position = t.playback_position;
      capture_position = t.capture_position;
      hw_playback_xruns = t.playback_xruns;
      hw_capture_xruns = t.capture_xruns;
      playback_delay_frames = t.playback_delay_frames;
      capture_delay_frames = t.capture_delay_frames;
      playback_delay_min_frames = decode_minimum t.playback_delay_min_frames;
      playback_delay_max_frames = t.playback_delay_max_frames;
      playback_ring_delay_frames = t.playback_ring_delay_frames;
      playback_ring_delay_min_frames = decode_minimum t.playback_ring_delay_min_frames;
      playback_ring_delay_max_frames = t.playback_ring_delay_max_frames;
      playback_driver_delay_frames = t.playback_driver_delay_frames;
      playback_driver_delay_min_frames = decode_minimum t.playback_driver_delay_min_frames;
      playback_driver_delay_max_frames = t.playback_driver_delay_max_frames;
      capture_delay_min_frames = decode_minimum t.capture_delay_min_frames;
      capture_delay_max_frames = t.capture_delay_max_frames;
      playback_target_overshoot_max_frames = t.playback_target_overshoot_max_frames;
      pro_wait_budget_min_nanos = decode_minimum t.pro_wait_budget_min_nanos;
      pro_wait_budget_max_nanos = t.pro_wait_budget_max_nanos;
      pro_ready_wait_max_nanos = t.pro_ready_wait_max_nanos;
      playback_write_max_nanos = t.playback_write_max_nanos;
      capture_to_playback_write_nanos = t.capture_to_playback_write_nanos;
      capture_to_playback_write_min_nanos = decode_minimum t.capture_to_playback_write_min_nanos;
      capture_to_playback_write_max_nanos = t.capture_to_playback_write_max_nanos;
      duplex_pointer_phase_nanos = phase;
      duplex_pointer_phase_min_nanos = phase_min;
      duplex_pointer_phase_max_nanos = phase_max;
      duplex_pointer_phase_samples = phase_samples;
      linked_phase_attempts = attempts;
      linked_phase_rebases = t.linked_phase_rebases;
      linked_phase_score_nanos = score_nanos;
      linked_phase_target_met = target_met;
      playback_low_watermarks = t.playback_low_watermarks;
      pro_deadline_misses = t.pro_deadline_misses;
      pro_client_deadline_misses = t.pro_client_deadline_misses;
      pro_core_deadline_misses = t.pro_core_deadline_misses;
      pro_capture_overruns = t.pro_capture_overruns;
      pro_playback_blocks = t.pro_playback_blocks;
      pro_playback_nonzero_blocks = t.pro_playback_nonzero_blocks;
      shared_underruns = t.shared_underruns;
      shared_overruns = t.shared_overruns;
      timeline_resets = t.timeline_resets;
      periods_processed = t.periods_processed;
    }

unfoldable pub snapshot : HardwareTimeline → Option HardwareStats
unfolding linked_phase_calibration duplex_pointer_phase snapshot_with
snapshot t = elim (linked_phase_calibration t) [
  | none ↦ none
  | some calibration ↦ some (snapshot_with calibration (duplex_pointer_phase t) t)
]

unfoldable pub update_playback_position : ℕ → HardwareTimeline → HardwareTimeline
update_playback_position position t = record t { playback_position = position }

unfoldable pub update_capture_position : ℕ → HardwareTimeline → HardwareTimeline
update_capture_position position t = record t { capture_position = position }

unfoldable pub processed_frames : ℕ → ℕ → HardwareTimeline → HardwareTimeline
processed_frames frames periods t = record t {
  sample_position = wrapping_add t.sample_position frames;
  periods_processed = wrapping_add t.periods_processed periods;
}

-- `u64::try_from(delay_frames).unwrap_or(0)` is the positive part.
unfoldable pub update_pcm_delay : StreamDirection → ℤ → ℕ → HardwareTimeline → HardwareTimeline
unfolding update_minimum update_maximum
update_pcm_delay StreamDirection.playback delay period_frames t =
    let frames = pos_part delay in
    record t {
      playback_delay_frames = frames;
      playback_delay_min_frames = update_minimum t.playback_delay_min_frames frames;
      playback_delay_max_frames = update_maximum t.playback_delay_max_frames frames;
      playback_low_watermarks =
          if ltb frames period_frames
          then wrapping_add t.playback_low_watermarks 1
          else t.playback_low_watermarks;
    }
update_pcm_delay StreamDirection.capture delay period_frames t =
    let frames = pos_part delay in
    record t {
      capture_delay_frames = frames;
      capture_delay_min_frames = update_minimum t.capture_delay_min_frames frames;
      capture_delay_max_frames = update_maximum t.capture_delay_max_frames frames;
    }

unfoldable pub record_playback_target_overshoot : ℕ → HardwareTimeline → HardwareTimeline
unfolding update_maximum
record_playback_target_overshoot frames t = record t {
  playback_target_overshoot_max_frames =
      update_maximum t.playback_target_overshoot_max_frames frames;
}

abbrev pub min_ℤ : ℤ → ℤ → ℤ
min_ℤ a b = if leb_ℤ a b then a else b

unfoldable pub update_playback_delay_breakdown : ℤ → ℤ → ℤ → HardwareTimeline → HardwareTimeline
unfolding update_minimum update_maximum
update_playback_delay_breakdown total available buffer t =
    let ring = pos_part (i64_saturate (buffer -ℤ min_ℤ available buffer)) in
    let driver = pos_part total - ring in
    record t {
      playback_ring_delay_frames = ring;
      playback_ring_delay_min_frames = update_minimum t.playback_ring_delay_min_frames ring;
      playback_ring_delay_max_frames = update_maximum t.playback_ring_delay_max_frames ring;
      playback_driver_delay_frames = driver;
      playback_driver_delay_min_frames = update_minimum t.playback_driver_delay_min_frames driver;
      playback_driver_delay_max_frames = update_maximum t.playback_driver_delay_max_frames driver;
    }

unfoldable pub record_pro_wait_budget : ℕ → HardwareTimeline → HardwareTimeline
unfolding update_minimum update_maximum
record_pro_wait_budget nanos t = record t {
  pro_wait_budget_min_nanos = update_minimum t.pro_wait_budget_min_nanos nanos;
  pro_wait_budget_max_nanos = update_maximum t.pro_wait_budget_max_nanos nanos;
}

unfoldable pub record_pro_ready_wait : ℕ → HardwareTimeline → HardwareTimeline
unfolding update_maximum
record_pro_ready_wait nanos t = record t {
  pro_ready_wait_max_nanos = update_maximum t.pro_ready_wait_max_nanos nanos;
}

unfoldable pub record_playback_write : ℕ → HardwareTimeline → HardwareTimeline
unfolding update_maximum
record_playback_write nanos t = record t {
  playback_write_max_nanos = update_maximum t.playback_write_max_nanos nanos;
}

-- The epoch is claimed from an even value, and is even again at the end.
unfoldable pub record_linked_phase_calibration :
    ℕ → ℕ → Bool → HardwareTimeline → Option HardwareTimeline
record_linked_phase_calibration attempts score_nanos target_met t =
    if not (t.linked_phase_result_epoch % 2 == 0)
    then none
    else some (record t {
      linked_phase_result_epoch = wrapping_add (t.linked_phase_result_epoch + 1) 1;
      linked_phase_attempts = attempts;
      linked_phase_score_nanos = score_nanos;
      linked_phase_target_met = (if target_met then 1 else 0);
    })

unfoldable pub record_pro_capture_read : ℕ → ℕ → HardwareTimeline → HardwareTimeline
record_pro_capture_read sequence nanos t = record t {
  pro_timing =
      set t.pro_timing (sequence % pro_timing_slot_count)
        (record { sequence = sequence; capture_read_nanos = nanos });
}

unfoldable pub pro_capture_elapsed_nanos : ℕ → ℕ → HardwareTimeline → Option ℕ
pro_capture_elapsed_nanos sequence nanos t =
    let slot = get_or t.pro_timing (sequence % pro_timing_slot_count) no_slot in
    if not (slot.sequence == sequence)
    then none
    else if slot.capture_read_nanos == 0 || ltb nanos slot.capture_read_nanos
    then none
    else some (nanos - slot.capture_read_nanos)

unfoldable pub record_pro_playback_write : ℕ → ℕ → HardwareTimeline → HardwareTimeline
unfolding pro_capture_elapsed_nanos update_minimum update_maximum
record_pro_playback_write sequence nanos t = elim (pro_capture_elapsed_nanos sequence nanos t) [
  | none ↦ t
  | some duration ↦ record t {
    capture_to_playback_write_nanos = duration;
    capture_to_playback_write_min_nanos =
        update_minimum t.capture_to_playback_write_min_nanos duration;
    capture_to_playback_write_max_nanos =
        update_maximum t.capture_to_playback_write_max_nanos duration;
  }
]

unfoldable pub record_duplex_pointer_phase : ℤ → HardwareTimeline → HardwareTimeline
record_duplex_pointer_phase nanos t =
    let count = t.duplex_pointer_phase_sample_count in
    record t {
      duplex_pointer_phase_samples =
          set t.duplex_pointer_phase_samples (count % phase_sample_count) nanos;
      duplex_pointer_phase_sample_count = wrapping_add count 1;
    }

unfoldable pub record_pro_deadline_miss : HardwareTimeline → HardwareTimeline
record_pro_deadline_miss t = record t {
  pro_deadline_misses = wrapping_add t.pro_deadline_misses 1;
  pro_client_deadline_misses = wrapping_add t.pro_client_deadline_misses 1;
}

unfoldable pub record_pro_core_deadline_miss : HardwareTimeline → HardwareTimeline
record_pro_core_deadline_miss t = record t {
  pro_deadline_misses = wrapping_add t.pro_deadline_misses 1;
  pro_core_deadline_misses = wrapping_add t.pro_core_deadline_misses 1;
}

unfoldable pub record_pro_capture_overrun : HardwareTimeline → HardwareTimeline
record_pro_capture_overrun t = record t {
  pro_capture_overruns = wrapping_add t.pro_capture_overruns 1;
}

unfoldable pub record_pro_playback_block : Bool → HardwareTimeline → HardwareTimeline
record_pro_playback_block nonzero t = record t {
  pro_playback_blocks = wrapping_add t.pro_playback_blocks 1;
  pro_playback_nonzero_blocks =
      if nonzero
      then wrapping_add t.pro_playback_nonzero_blocks 1
      else t.pro_playback_nonzero_blocks;
}

unfoldable pub record_shared_underrun : HardwareTimeline → HardwareTimeline
record_shared_underrun t = record t { shared_underruns = wrapping_add t.shared_underruns 1 }

unfoldable pub record_shared_overrun : HardwareTimeline → HardwareTimeline
record_shared_overrun t = record t { shared_overruns = wrapping_add t.shared_overruns 1 }

unfoldable pub record_hardware_xrun : StreamDirection → HardwareTimeline → HardwareTimeline
record_hardware_xrun StreamDirection.playback t = record t {
  playback_xruns = wrapping_add t.playback_xruns 1;
}
record_hardware_xrun StreamDirection.capture t = record t {
  capture_xruns = wrapping_add t.capture_xruns 1;
}

unfoldable pub reset_after_stream_restart : HardwareTimeline → HardwareTimeline
reset_after_stream_restart t = record t {
  generation = wrapping_add t.generation 1;
  timeline_resets = wrapping_add t.timeline_resets 1;
  duplex_pointer_phase_sample_count = 0;
}

unfoldable pub reset_after_hardware_restart : HardwareTimeline → Option HardwareTimeline
unfolding reset_after_stream_restart record_linked_phase_calibration
reset_after_hardware_restart t =
    record_linked_phase_calibration 0 0 false (reset_after_stream_restart t)

unfoldable pub reset_after_hardware_rebase : HardwareTimeline → HardwareTimeline
reset_after_hardware_rebase t = record t {
  generation = wrapping_add t.generation 1;
  timeline_resets = wrapping_add t.timeline_resets 1;
  linked_phase_rebases = wrapping_add t.linked_phase_rebases 1;
  duplex_pointer_phase_sample_count = 0;
}
