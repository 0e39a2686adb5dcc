-- ===== src/Config/Examples.antt =====
-- A profile with a direct link, and the theorems on it.
use side_alsa.Base.{
  ℕ, ◌+◌, ◌*◌, ◌≤◌, ◌≡◌, refl, true, false, none, some, List, [], ◌∷◌, ok, err, arith,
}
use side_alsa.Base.Text.{bytes_eq}
use side_alsa.Protocol.Types.{PortDirection}
use side_alsa.Config.Types.{
  Profile, HardwareConfig, PcmConfig, SampleFormat, PortConfig, invalid, channel_mapped_twice,
  duplicate_port_id, guard_with_direct,
}
use side_alsa.Config.Derived.{
  effective_duplex_link, uses_event_driven_linked_pro, pro_handoff_nanos,
  direct_pro_write_reserve_frames,
}
use side_alsa.Config.Device.{validate_device}
use side_alsa.Config.Device.Accepted.{
  IsMultiple, effective_shared_buffer_size-IsMultiple, pro_handoff_nanos-reserve,
}
use side_alsa.Config.Profile.{validate}
use side_alsa.Config.Profile.Accepted.{IsProfile, validate-IsProfile}

abbrev hw : PcmConfig
hw = record { device = 104 ∷ 119 ∷ []; channels = 4; format = SampleFormat.s32_le }

abbrev card : HardwareConfig
card = record {
  name = 99 ∷ [];
  rate = 48000;
  period_size = 64;
  hardware_period_size = some 32;
  buffer_size = 192;
  shared_buffer_size = none;
  playback_queue_periods = none;
  playback_timer_scheduling = false;
  duplex_link = none;
  linked_playback_guard_frames = none;
  linked_phase_max_attempts = 0;
  pro_latency_periods = 0;
  pro_handoff_us = 0;
  pro_handoff_auto = true;
  pro_realtime_priority = none;
  shared_latency_periods = 1;
  shared_playback_repeat_on_underrun = true;
  realtime = true;
  realtime_priority = 80;
  startup_loopback = none;
  playback = hw;
  capture = hw;
}

abbrev port : ℕ → List ℕ → PortConfig
port id channels = record { id = id ∷ []; name = id ∷ []; channels = channels; positions = none }

abbrev pub profile : Profile
profile = record {
  device = card;
  integration = record {
    pipewire = record {
      playback_headroom_frames = 0;
      capture_headroom_frames = 0;
      playback_start_delay_frames = 0;
    };
  };
  ports = record {
    playback = port 97 (1 ∷ 0 ∷ []) ∷ port 98 (3 ∷ []) ∷ [];
    capture = port 99 (0 ∷ []) ∷ [];
  };
}

card_accepted : validate_device card ≡ ok tt
unfolding validate_device bytes_eq
card_accepted = refl

profile_accepted : validate profile ≡ ok tt
unfolding validate bytes_eq
profile_accepted = refl

-- Channel 1 in two ports, and an id in both directions.
channel_twice :
    validate (record profile {
      ports = record profile.ports { playback = port 97 (1 ∷ 0 ∷ []) ∷ port 98 (1 ∷ []) ∷ [] };
    })
    ≡ err (invalid (channel_mapped_twice PortDirection.playback 1))
unfolding validate bytes_eq
channel_twice = refl

id_twice :
    validate (record profile { ports = record profile.ports { capture = port 98 (0 ∷ []) ∷ [] } })
    ≡ err (invalid (duplicate_port_id (98 ∷ [])))
unfolding validate bytes_eq
id_twice = refl

guard_refused :
    validate_device (record card { linked_playback_guard_frames = some 32 })
    ≡ err (invalid guard_with_direct)
unfolding validate_device bytes_eq
guard_refused = refl

-- 16 frames are kept of the period of 64.
handoff : pro_handoff_nanos card ≡ 1000000
unfolding pro_handoff_nanos effective_duplex_link bytes_eq
handoff = refl

validate-IsProfile_example : IsProfile profile
validate-IsProfile_example = validate-IsProfile profile profile_accepted

effective_shared_buffer_size-IsMultiple_example : (periods : ℕ) × IsMultiple card periods
effective_shared_buffer_size-IsMultiple_example =
    effective_shared_buffer_size-IsMultiple card card_accepted (omega arith)

pro_handoff_nanos-reserve_example :
    (1 ≤ direct_pro_write_reserve_frames 64 48000)
    × (pro_handoff_nanos card * 48000 + direct_pro_write_reserve_frames 64 48000 * 1_000_000_000
        ≤ 64 * 1_000_000_000)
pro_handoff_nanos-reserve_example =
    pro_handoff_nanos-reserve card card_accepted refl
      (unfold uses_event_driven_linked_pro effective_duplex_link bytes_eq in refl)
