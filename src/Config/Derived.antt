-- ===== src/Config/Derived.antt =====
-- What `HardwareConfig` derives from its fields. The numbers are `u32`.
use side_alsa.Base.{
  ℕ, ◌-◌, ◌*◌, ◌/◌, min, max, Bool, not, ◌&&◌, ◌||◌, Option, none, some, ltb, leb, ◌==◌,
  if◌then◌else◌, saturating_mul, saturating_add_u32, saturating_mul_u32, div_ceil,
}
use side_alsa.Base.Text.{bytes_eq}
use side_alsa.Config.Types.{HardwareConfig}

abbrev pub max_shared_buffer_periods : ℕ
max_shared_buffer_periods = 8

abbrev pub direct_write_reserve_divisor : ℕ
direct_write_reserve_divisor = 4

-- `option.unwrap_or(default)`
abbrev pub unwrap_or {ℓ} : {A : Type ℓ} → Option A → A → A
unwrap_or none default = default
unwrap_or (some a) default = a

unfoldable pub direct_pro_write_reserve_frames : ℕ → ℕ → ℕ
direct_pro_write_reserve_frames period rate =
    min (div_ceil period direct_write_reserve_divisor) (div_ceil rate 3000)

unfoldable pub effective_duplex_link : HardwareConfig → Bool
effective_duplex_link c = unwrap_or c.duplex_link (bytes_eq c.playback.device c.capture.device)

unfoldable pub effective_hardware_period_size : HardwareConfig → ℕ
effective_hardware_period_size c = unwrap_or c.hardware_period_size c.period_size

unfoldable pub uses_event_driven_linked_pro : HardwareConfig → Bool
uses_event_driven_linked_pro c =
    effective_duplex_link c && c.pro_latency_periods == 0 && not c.playback_timer_scheduling

unfoldable pub effective_pro_realtime_priority : HardwareConfig → ℕ
effective_pro_realtime_priority c =
    if not c.realtime || leb c.realtime_priority 2
    then 0
    else unwrap_or c.pro_realtime_priority (c.realtime_priority - 2)

-- The product of two `u32` fits the `u64` that it is taken in.
unfoldable pub pro_handoff_nanos : HardwareConfig → ℕ
unfolding direct_pro_write_reserve_frames uses_event_driven_linked_pro
pro_handoff_nanos c =
    if c.pro_handoff_auto && uses_event_driven_linked_pro c
    then (c.period_size - direct_pro_write_reserve_frames c.period_size c.rate)
      * 1_000_000_000
      / max c.rate 1
    else saturating_mul c.pro_handoff_us 1_000

unfoldable pub effective_linked_playback_guard_frames : HardwareConfig → ℕ
unfolding effective_hardware_period_size
effective_linked_playback_guard_frames c =
    unwrap_or c.linked_playback_guard_frames (effective_hardware_period_size c)

unfoldable pub uses_staged_pro_packets : HardwareConfig → Bool
unfolding effective_hardware_period_size
uses_staged_pro_packets c =
    let hardware_period = effective_hardware_period_size c in
    effective_duplex_link c
    && c.pro_latency_periods == 1
    && ltb hardware_period c.period_size
    && leb (saturating_add_u32 c.period_size hardware_period) c.buffer_size

unfoldable pub effective_pro_output_latency_frames : HardwareConfig → ℕ
unfolding uses_staged_pro_packets effective_hardware_period_size
effective_pro_output_latency_frames c =
    let base = saturating_mul_u32 c.period_size (max c.pro_latency_periods 1) in
    if uses_staged_pro_packets c
    then saturating_add_u32 base (effective_hardware_period_size c)
    else base

-- `value.clamp(low, high)`
abbrev pub clamp : ℕ → ℕ → ℕ → ℕ
clamp low high value = min (max value low) high

unfoldable pub effective_shared_buffer_size : HardwareConfig → ℕ
effective_shared_buffer_size c = unwrap_or c.shared_buffer_size (
    saturating_mul_u32 c.period_size
      (clamp 2 max_shared_buffer_periods (div_ceil c.buffer_size c.period_size)))
