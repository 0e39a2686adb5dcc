-- ===== src/Config/Types.antt =====
-- `Profile` and its parts. A string is the list of its bytes.
use side_alsa.Base.{ℕ, ◌≡◌, refl, Bool, true, false, Option, List, Result, ok, err}
use side_alsa.Protocol.Types.{PortDirection}

abbrev pub Text : Type 0
Text = List ℕ

pub record StartupLoopbackConfig : Type 0 where
  pub playback_channel : ℕ
  pub capture_channel : ℕ
  pub target_frames : ℕ

pub data SampleFormat : Type 0 where
  s32_le : SampleFormat

pub record PcmConfig : Type 0 where
  pub device : Text
  pub channels : ℕ
  pub format : SampleFormat

pub record HardwareConfig : Type 0 where
  pub name : Text
  pub rate : ℕ
  pub period_size : ℕ
  pub hardware_period_size : Option ℕ
  pub buffer_size : ℕ
  pub shared_buffer_size : Option ℕ
  pub playback_queue_periods : Option ℕ
  pub playback_timer_scheduling : Bool
  pub duplex_link : Option Bool
  pub linked_playback_guard_frames : Option ℕ
  pub linked_phase_max_attempts : ℕ
  pub pro_latency_periods : ℕ
  pub pro_handoff_us : ℕ
  pub pro_handoff_auto : Bool
  pub pro_realtime_priority : Option ℕ
  pub shared_latency_periods : ℕ
  pub shared_playback_repeat_on_underrun : Bool
  pub realtime : Bool
  pub realtime_priority : ℕ
  pub startup_loopback : Option StartupLoopbackConfig
  pub playback : PcmConfig
  pub capture : PcmConfig

pub record PortConfig : Type 0 where
  pub id : Text
  pub name : Text
  pub channels : List ℕ
  pub positions : Option (List Text)

pub record PortsConfig : Type 0 where
  pub playback : List PortConfig
  pub capture : List PortConfig

pub record PipeWireConfig : Type 0 where
  pub playback_headroom_frames : ℕ
  pub capture_headroom_frames : ℕ
  pub playback_start_delay_frames : ℕ

-- `IntegrationConfig` holds nothing else.
pub record IntegrationConfig : Type 0 where
  pub pipewire : PipeWireConfig

pub record Profile : Type 0 where
  pub device : HardwareConfig
  pub integration : IntegrationConfig
  pub ports : PortsConfig

-- The messages of `ProfileError::Invalid`, with what they print.
pub data Reason : Type 0 where
  empty_device_name zero_rate zero_period_size zero_hardware_period_size : Reason
  hardware_period_not_divisor zero_buffer_size buffer_below_period : Reason
  direct_buffer_unaligned : Reason
  shared_buffer_below_two_periods shared_buffer_unaligned shared_buffer_too_large : Reason
  zero_playback_queue_periods : Reason
  guard_with_direct guard_without_link guard_with_long_lead guard_without_packet_buffer : Reason
  guard_below_hardware_period guard_without_write_space guard_not_below_period : Reason
  pro_latency_too_long zero_lead_without_link : Reason
  too_many_phase_attempts phase_without_zero_lead phase_with_direct : Reason
  shared_latency_too_long bad_realtime_priority : Reason
  bad_pro_realtime_priority pro_priority_too_high : Reason
  loopback_without_direct loopback_out_of_range bad_loopback_target : Reason
  empty_pcm_device zero_channels : PortDirection → Reason
  playback_headroom capture_headroom playback_start_delay : Reason
  empty_port_id : Reason
  bad_port_id bad_positions duplicate_port_id : Text → Reason
  empty_port_name control_in_port_name no_channels : Text → Reason
  channel_outside : PortDirection → Text → ℕ → ℕ → Reason
  channel_mapped_twice : PortDirection → ℕ → Reason

-- The errors of reading, parsing and editing a file come from elsewhere.
pub data ProfileError : Type 0 where
  io parse edit : ProfileError
  invalid : Reason → ProfileError

abbrev pub Check : Type 0
Check = Result ProfileError (Unit {0})

-- `if test { return Err(ProfileError::Invalid(reason)); }`
abbrev pub reject : Bool → Reason → Check
reject true reason = err (invalid reason)
reject false reason = ok tt

infixl 5 ◌>>◌
abbrev pub ◌>>◌ : Check → Check → Check
ok _ >> k = k
err e >> k = err e

pub >>-eq-ok : (m k : Check) → (m >> k) ≡ ok tt → (m ≡ ok tt) × (k ≡ ok tt)
>>-eq-ok (ok tt) k h = (refl, h)
>>-eq-ok (err e) k h = cc

pub reject-eq-ok : (b : Bool) (reason : Reason) → reject b reason ≡ ok tt → b ≡ false
reject-eq-ok true reason h = cc
reject-eq-ok false reason h = refl
