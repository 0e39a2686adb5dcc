-- ===== src/Config/Device.antt =====
-- `HardwareConfig::validate`, in parts, and `PcmConfig::validate`.
pub mod Accepted
use side_alsa.Base.{
  ℕ, ◌+◌, ◌-◌, ◌*◌, ◌/◌, Bool, true, false, not, ◌&&◌, ◌||◌, Option, none, some, Result, ok, err,
  ltb, leb, ◌==◌, if◌then◌else◌, saturating_add_u32, saturating_mul_u32, is_multiple_of,
}
use side_alsa.Base.Text.{is_empty, trim}
use side_alsa.Protocol.Types.{PortDirection}
use side_alsa.Config.Types.{
  Check, HardwareConfig, PcmConfig, StartupLoopbackConfig, bad_loopback_target,
  bad_pro_realtime_priority, bad_realtime_priority, buffer_below_period, direct_buffer_unaligned,
  empty_device_name, empty_pcm_device, guard_below_hardware_period, guard_not_below_period,
  guard_with_direct, guard_with_long_lead, guard_without_link, guard_without_packet_buffer,
  guard_without_write_space, hardware_period_not_divisor, loopback_out_of_range,
  loopback_without_direct, phase_with_direct, phase_without_zero_lead, pro_latency_too_long,
  pro_priority_too_high, reject, shared_buffer_below_two_periods, shared_buffer_too_large,
  shared_buffer_unaligned, shared_latency_too_long, too_many_phase_attempts, zero_buffer_size,
  zero_channels, zero_hardware_period_size, zero_lead_without_link, zero_period_size,
  zero_playback_queue_periods, zero_rate, ◌>>◌,
}
use side_alsa.Config.Derived.{
  max_shared_buffer_periods, effective_duplex_link, effective_hardware_period_size,
  uses_event_driven_linked_pro,
}

abbrev pub max_pro_latency_periods : ℕ
max_pro_latency_periods = 7

abbrev pub max_shared_latency_periods : ℕ
max_shared_latency_periods = 7

abbrev pub max_realtime_priority : ℕ
max_realtime_priority = 99

abbrev pub max_linked_phase_attempts : ℕ
max_linked_phase_attempts = 64

-- The name, the rate, the periods and the buffer.
unfoldable pub validate_geometry : HardwareConfig → Check
unfolding trim effective_hardware_period_size uses_event_driven_linked_pro
validate_geometry c =
    let hardware_period_size = effective_hardware_period_size c in
    reject (is_empty (trim c.name)) empty_device_name
    >> reject (c.rate == 0) zero_rate
    >> reject (c.period_size == 0) zero_period_size
    >> reject (hardware_period_size == 0) zero_hardware_period_size
    >> reject
        (ltb c.period_size hardware_period_size
          || not (is_multiple_of c.period_size hardware_period_size))
        hardware_period_not_divisor
    >> reject (c.buffer_size == 0) zero_buffer_size
    >> reject (ltb c.buffer_size c.period_size) buffer_below_period
    >> reject
        (uses_event_driven_linked_pro c && not (is_multiple_of c.buffer_size hardware_period_size))
        direct_buffer_unaligned

-- `if let Some(shared_buffer_size)`, and the queue.
unfoldable pub validate_shared_buffer : HardwareConfig → Option ℕ → Check
validate_shared_buffer c none = ok tt
validate_shared_buffer c (some shared_buffer_size) =
    reject (ltb shared_buffer_size (saturating_mul_u32 c.period_size 2))
      shared_buffer_below_two_periods
    >> reject (not (is_multiple_of shared_buffer_size c.period_size)) shared_buffer_unaligned
    >> reject (ltb (saturating_mul_u32 c.period_size max_shared_buffer_periods) shared_buffer_size)
        shared_buffer_too_large

-- `self.playback_queue_periods == Some(0)`
is_some_zero : Option ℕ → Bool
is_some_zero none = false
is_some_zero (some n) = n == 0

-- `if let Some(guard_frames)`
unfoldable pub validate_guard : HardwareConfig → Option ℕ → Check
unfolding effective_hardware_period_size effective_duplex_link uses_event_driven_linked_pro
validate_guard c none = ok tt
validate_guard c (some guard_frames) =
    let hardware_period_size = effective_hardware_period_size c in
    let write_frames = if c.pro_latency_periods == 0 then c.period_size else hardware_period_size in
    reject (uses_event_driven_linked_pro c) guard_with_direct
    >> reject (not (effective_duplex_link c)) guard_without_link
    >> reject (ltb 1 c.pro_latency_periods) guard_with_long_lead
    >> reject
        (c.pro_latency_periods == 1
          && ltb c.buffer_size (saturating_add_u32 c.period_size hardware_period_size))
        guard_without_packet_buffer
    >> reject (ltb guard_frames hardware_period_size) guard_below_hardware_period
    >> reject (ltb (c.buffer_size - write_frames) guard_frames) guard_without_write_space
    >> reject
        (c.pro_latency_periods == 0
          && ltb hardware_period_size c.period_size
          && leb c.period_size guard_frames)
        guard_not_below_period

-- The latencies and the phase calibration.
unfoldable pub validate_latency : HardwareConfig → Check
unfolding effective_duplex_link uses_event_driven_linked_pro
validate_latency c =
    reject (ltb max_pro_latency_periods c.pro_latency_periods) pro_latency_too_long
    >> reject (c.pro_latency_periods == 0 && not (effective_duplex_link c)) zero_lead_without_link
    >> reject (ltb max_linked_phase_attempts c.linked_phase_max_attempts) too_many_phase_attempts
    >> reject
        (ltb 0 c.linked_phase_max_attempts
          && (not (effective_duplex_link c) || not (c.pro_latency_periods == 0)))
        phase_without_zero_lead
    >> reject (uses_event_driven_linked_pro c && ltb 0 c.linked_phase_max_attempts)
        phase_with_direct
    >> reject (ltb max_shared_latency_periods c.shared_latency_periods) shared_latency_too_long

-- `priority == 0 || priority > MAX_REALTIME_PRIORITY`
abbrev pub bad_priority : ℕ → Bool
bad_priority priority = priority == 0 || ltb max_realtime_priority priority

unfoldable pub validate_pro_priority : HardwareConfig → Option ℕ → Check
validate_pro_priority c none = ok tt
validate_pro_priority c (some priority) =
    reject (bad_priority priority) bad_pro_realtime_priority
    >> reject (c.realtime && ltb (c.realtime_priority - 2) priority) pro_priority_too_high

unfoldable pub validate_pcm : PortDirection → PcmConfig → Check
unfolding trim
validate_pcm direction pcm =
    reject (is_empty (trim pcm.device)) (empty_pcm_device direction)
    >> reject (pcm.channels == 0) (zero_channels direction)

unfoldable pub validate_loopback : HardwareConfig → Option StartupLoopbackConfig → Check
unfolding uses_event_driven_linked_pro
validate_loopback c none = ok tt
validate_loopback c (some loopback) =
    reject (not (uses_event_driven_linked_pro c)) loopback_without_direct
    >> reject
        (leb c.playback.channels loopback.playback_channel
          || leb c.capture.channels loopback.capture_channel)
        loopback_out_of_range
    >> reject (loopback.target_frames == 0 || ltb (c.rate / 10) loopback.target_frames)
        bad_loopback_target

unfoldable pub validate_device : HardwareConfig → Check
unfolding validate_geometry validate_shared_buffer is_some_zero validate_guard validate_latency
    validate_pro_priority validate_pcm validate_loopback
validate_device c =
    validate_geometry c
    >> validate_shared_buffer c c.shared_buffer_size
    >> reject (is_some_zero c.playback_queue_periods) zero_playback_queue_periods
    >> validate_guard c c.linked_playback_guard_frames
    >> validate_latency c
    >> reject (bad_priority c.realtime_priority) bad_realtime_priority
    >> validate_pro_priority c c.pro_realtime_priority
    >> validate_pcm PortDirection.playback c.playback
    >> validate_pcm PortDirection.capture c.capture
    >> validate_loopback c c.startup_loopback
