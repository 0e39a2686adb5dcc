-- ===== src/Config/Timing.antt =====
-- `TimingSettings`, which are taken from a device's configuration and applied to it.
use side_alsa.Base.{ℕ, ◌≡◌, refl, Bool, Option}
use side_alsa.Config.Types.{HardwareConfig}

pub record TimingSettings : Type 0 where
  pub rate : ℕ
  pub period_size : ℕ
  pub hardware_period_size : Option ℕ
  pub buffer_size : ℕ
  pub shared_buffer_size : Option ℕ
  pub playback_queue_periods : Option ℕ
  pub playback_timer_scheduling : Bool
  pub duplex_link : Option Bool
  pub linked_playback_guard_frames : Option ℕ
  pub linked_phase_max_attempts : ℕ
  pub pro_latency_periods : ℕ
  pub pro_handoff_us : ℕ
  pub pro_handoff_auto : Bool
  pub pro_realtime_priority : Option ℕ
  pub shared_latency_periods : ℕ
  pub shared_playback_repeat_on_underrun : Bool
  pub realtime : Bool
  pub realtime_priority : ℕ

unfoldable pub from : HardwareConfig → TimingSettings
from config = record {
  rate = config.rate;
  period_size = config.period_size;
  hardware_period_size = config.hardware_period_size;
  buffer_size = config.buffer_size;
  shared_buffer_size = config.shared_buffer_size;
  playback_queue_periods = config.playback_queue_periods;
  playback_timer_scheduling = config.playback_timer_scheduling;
  duplex_link = config.duplex_link;
  linked_playback_guard_frames = config.linked_playback_guard_frames;
  linked_phase_max_attempts = config.linked_phase_max_attempts;
  pro_latency_periods = config.pro_latency_periods;
  pro_handoff_us = config.pro_handoff_us;
  pro_handoff_auto = config.pro_handoff_auto;
  pro_realtime_priority = config.pro_realtime_priority;
  shared_latency_periods = config.shared_latency_periods;
  shared_playback_repeat_on_underrun = config.shared_playback_repeat_on_underrun;
  realtime = config.realtime;
  realtime_priority = config.realtime_priority;
}

unfoldable pub apply_to : TimingSettings → HardwareConfig → HardwareConfig
apply_to t config = record config {
  rate = t.rate;
  period_size = t.period_size;
  hardware_period_size = t.hardware_period_size;
  buffer_size = t.buffer_size;
  shared_buffer_size = t.shared_buffer_size;
  playback_queue_periods = t.playback_queue_periods;
  playback_timer_scheduling = t.playback_timer_scheduling;
  duplex_link = t.duplex_link;
  linked_playback_guard_frames = t.linked_playback_guard_frames;
  linked_phase_max_attempts = t.linked_phase_max_attempts;
  pro_latency_periods = t.pro_latency_periods;
  pro_handoff_us = t.pro_handoff_us;
  pro_handoff_auto = t.pro_handoff_auto;
  pro_realtime_priority = t.pro_realtime_priority;
  shared_latency_periods = t.shared_latency_periods;
  shared_playback_repeat_on_underrun = t.shared_playback_repeat_on_underrun;
  realtime = t.realtime;
  realtime_priority = t.realtime_priority;
}

-- Settings that are applied to a device are what is read from it afterwards, the last ones applied
-- hold, and applying those that a device has changes nothing of it.
pub from-apply_to :
    (t u : TimingSettings) (config : HardwareConfig)
    → (from (apply_to t config) ≡ t)
      × (apply_to t (apply_to u config) ≡ apply_to t config)
      × (apply_to (from config) config ≡ config)
unfolding from apply_to
from-apply_to t u config = (refl, refl, refl)
