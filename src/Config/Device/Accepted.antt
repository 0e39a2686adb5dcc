-- ===== src/Config/Device/Accepted.antt =====
-- The devices that validation accepts, and what is derived from them.
use native.Mathlib.Nat.{div-add-mod, mul-le-mul_left, le_of_mul-le-mul_left, div-mul-le_self}
use side_alsa.Base.{
  ℕ, ◌+◌, ◌-◌, ◌*◌, ◌/◌, ◌%◌, ◌≤◌, ◌<◌, ◌≡◌, ◌⊎◌, inl, inr, min, max, true, false, ok, u32_mod,
  saturating_mul_u32, arith, Option-cases,
}
use side_alsa.Protocol.Types.{PortDirection}
use side_alsa.Config.Types.{HardwareConfig, PcmConfig, >>-eq-ok, reject-eq-ok}
use side_alsa.Config.Derived.{
  effective_duplex_link, effective_hardware_period_size, uses_event_driven_linked_pro,
  pro_handoff_nanos, direct_pro_write_reserve_frames, effective_pro_realtime_priority,
  effective_shared_buffer_size,
}
use side_alsa.Config.Device.{
  validate_geometry, validate_shared_buffer, validate_latency, validate_pro_priority, validate_pcm,
  validate_device, bad_priority,
}

pub record IsGeometry (c : HardwareConfig) : Type 0 where
  pub rate_pos : 0 < c.rate
  pub hardware_period_pos : 0 < effective_hardware_period_size c
  pub hardware_period_le : effective_hardware_period_size c ≤ c.period_size
  pub hardware_period_divides : c.period_size % effective_hardware_period_size c ≡ 0
  pub period_le_buffer : c.period_size ≤ c.buffer_size
  pub direct_aligned :
      (uses_event_driven_linked_pro c ≡ false)
      ⊎ (c.buffer_size % effective_hardware_period_size c ≡ 0)

validate_geometry-ok : (c : HardwareConfig) → validate_geometry c ≡ ok tt → IsGeometry c
unfolding validate_geometry
validate_geometry-ok c h = ground arith

-- The latencies in range, and no lead of 0 without a link.
pub record IsLatency (c : HardwareConfig) : Type 0 where
  pub pro_le : c.pro_latency_periods ≤ 7
  pub shared_le : c.shared_latency_periods ≤ 7
  pub lead_or_link : (0 < c.pro_latency_periods) ⊎ (effective_duplex_link c ≡ true)
  pub attempts_le : c.linked_phase_max_attempts ≤ 64
  pub attempts_linked :
      (c.linked_phase_max_attempts ≡ 0)
      ⊎ ((effective_duplex_link c ≡ true)
          × (c.pro_latency_periods ≡ 0)
          × (c.playback_timer_scheduling ≡ true))

validate_latency-ok : (c : HardwareConfig) → validate_latency c ≡ ok tt → IsLatency c
unfolding validate_latency
validate_latency-ok c h = ground arith

-- The Pro thread runs at least two below the hardware thread, or without priority.
pub record IsRanked (c : HardwareConfig) : Type 0 where
  pub pos : 0 < c.realtime_priority
  pub le : c.realtime_priority ≤ 99
  pub pro_le :
      (effective_pro_realtime_priority c ≡ 0)
      ⊎ (effective_pro_realtime_priority c + 2 ≤ c.realtime_priority)

validate_priority-ok :
    (c : HardwareConfig)
    → bad_priority c.realtime_priority ≡ false
    → validate_pro_priority c c.pro_realtime_priority ≡ ok tt
    → IsRanked c
unfolding validate_pro_priority effective_pro_realtime_priority
validate_priority-ok c g h = elim (Option-cases c.pro_realtime_priority) [
  | inl e ↦ ground arith
  | inr (p, e) ↦ ground arith
]

pub record IsMultiple (c : HardwareConfig) (periods : ℕ) : Type 0 where
  pub ge : 2 ≤ periods
  pub le : periods ≤ 8
  pub exact : effective_shared_buffer_size c ≡ c.period_size * periods

-- A multiple of a period, between two bounds in periods.
multiple-bounds :
    (p d low high : ℕ)
    → 0 < d
    → p % d ≡ 0
    → d * low ≤ p
    → p ≤ d * high
    → (low ≤ p / d) × (p / d ≤ high) × (p ≡ d * (p / d))
multiple-bounds p d low high pos exact ge le =
    let e : d * (p / d) + p % d ≡ p = div-add-mod p d in
    let f : p ≡ d * (p / d) = omega arith in
    let g : d * low ≤ d * (p / d) = omega arith in
    let h : d * (p / d) ≤ d * high = omega arith in
    (le_of_mul-le-mul_left g pos, le_of_mul-le-mul_left h pos, f)

saturating_mul_u32-fits : (a b : ℕ) → a * b < u32_mod → saturating_mul_u32 a b ≡ a * b
saturating_mul_u32-fits a b h = ground arith

validate_shared-ok :
    (c : HardwareConfig)
    → 0 < c.period_size
    → c.period_size * 8 < u32_mod
    → validate_shared_buffer c c.shared_buffer_size ≡ ok tt
    → (periods : ℕ) × IsMultiple c periods
unfolding validate_shared_buffer effective_shared_buffer_size
validate_shared-ok c pos small h = elim (Option-cases c.shared_buffer_size) [
  | inl e ↦
      let k = min (max ((c.buffer_size + c.period_size - 1) / c.period_size) 2) 8 in
      let ge : 2 ≤ k = omega arith in
      let le : k ≤ 8 = omega arith in
      let fits : c.period_size * k < u32_mod = grind (arith, mul-le-mul_left c.period_size le) in
      (k, record { ge = ge; le = le; exact = rw e (saturating_mul_u32-fits c.period_size k fits) })
  | inr (p, e) ↦
      let divides : p % c.period_size ≡ 0 = ground arith in
      let (ge, le, exact) =
        multiple-bounds p c.period_size 2 8 pos divides (ground arith) (ground arith) in
      (p / c.period_size, record { ge = ge; le = le; exact = rw e exact })
]

-- What an accepted device satisfies, but for its texts and its guard.
pub record IsDevice (c : HardwareConfig) : Type 0 where
  pub geometry : IsGeometry c
  pub latency : IsLatency c
  pub priority : IsRanked c
  pub playback_channels : 0 < c.playback.channels
  pub capture_channels : 0 < c.capture.channels

validate_pcm-ok :
    (direction : PortDirection) (pcm : PcmConfig)
    → validate_pcm direction pcm ≡ ok tt
    → 0 < pcm.channels
unfolding validate_pcm
validate_pcm-ok direction pcm h = ground arith

device-parts :
    (c : HardwareConfig)
    → validate_device c ≡ ok tt
    → (validate_geometry c ≡ ok tt)
      × (validate_shared_buffer c c.shared_buffer_size ≡ ok tt)
      × (validate_latency c ≡ ok tt)
      × (bad_priority c.realtime_priority ≡ false)
      × (validate_pro_priority c c.pro_realtime_priority ≡ ok tt)
      × (validate_pcm PortDirection.playback c.playback ≡ ok tt)
      × (validate_pcm PortDirection.capture c.capture ≡ ok tt)
unfolding validate_device
device-parts c h =
    let (h9, loopback) = >>-eq-ok _ _ h in
    let (h8, capture) = >>-eq-ok _ _ h9 in
    let (h7, playback) = >>-eq-ok _ _ h8 in
    let (h6, pro) = >>-eq-ok _ _ h7 in
    let (h5, priority) = >>-eq-ok _ _ h6 in
    let (h4, latency) = >>-eq-ok _ _ h5 in
    let (h3, guard) = >>-eq-ok _ _ h4 in
    let (h2, queue) = >>-eq-ok _ _ h3 in
    let (geometry, shared) = >>-eq-ok _ _ h2 in
    (geometry, shared, latency, reject-eq-ok _ _ priority, pro, playback, capture)

-- A device that validation accepts has a positive rate, periods that fit the buffer and are
-- multiples of the hardware's, and of which a direct link's buffer is one; latencies and phase
-- attempts in range, the latter only with a timer-driven link without lead; priorities in range,
-- the Pro thread's two below the hardware's or none; and channels in both directions.
pub validate_device-IsDevice : (c : HardwareConfig) → validate_device c ≡ ok tt → IsDevice c
validate_device-IsDevice c h =
    let (geometry, shared, latency, priority, pro, playback, capture) = device-parts c h in
    record {
      geometry = validate_geometry-ok c geometry;
      latency = validate_latency-ok c latency;
      priority = validate_priority-ok c priority pro;
      playback_channels = validate_pcm-ok PortDirection.playback c.playback playback;
      capture_channels = validate_pcm-ok PortDirection.capture c.capture capture;
    }

-- The shared buffer of an accepted device, whose period times 8 fits 32 bits, is from 2 to 8 whole
-- periods long, whether it is set or derived from the device's buffer.
pub effective_shared_buffer_size-IsMultiple :
    (c : HardwareConfig)
    → validate_device c ≡ ok tt
    → c.period_size * 8 < u32_mod
    → (periods : ℕ) × IsMultiple c periods
effective_shared_buffer_size-IsMultiple c h small =
    let (geometry, shared, _, _, _, _, _) = device-parts c h in
    let g = validate_geometry-ok c geometry in
    validate_shared-ok c (omega (arith, g.hardware_period_pos, g.hardware_period_le)) small shared

reserve :
    (period rate : ℕ)
    → 0 < period
    → 0 < rate
    → (1 ≤ direct_pro_write_reserve_frames period rate)
      × (direct_pro_write_reserve_frames period rate ≤ period)
unfolding direct_pro_write_reserve_frames
reserve period rate p r = (omega arith, omega arith)

-- The automatic handoff of an accepted device with a direct link is early enough to leave the
-- frames of the write reserve, at least one, to the end of the period.
pub pro_handoff_nanos-reserve :
    (c : HardwareConfig)
    → validate_device c ≡ ok tt
    → c.pro_handoff_auto ≡ true
    → uses_event_driven_linked_pro c ≡ true
    → (1 ≤ direct_pro_write_reserve_frames c.period_size c.rate)
      × (pro_handoff_nanos c * c.rate
            + direct_pro_write_reserve_frames c.period_size c.rate * 1_000_000_000
          ≤ c.period_size * 1_000_000_000)
unfolding pro_handoff_nanos
pro_handoff_nanos-reserve c h auto direct =
    let g = (validate_device-IsDevice c h).geometry in
    let pos : 0 < c.period_size = omega (arith, g.hardware_period_pos, g.hardware_period_le) in
    let (ge, le) = reserve c.period_size c.rate pos g.rate_pos in
    let frames = c.period_size - direct_pro_write_reserve_frames c.period_size c.rate in
    let bound = div-mul-le_self (frames * 1_000_000_000) c.rate in
    let one : max c.rate 1 ≡ c.rate = omega (arith, g.rate_pos) in
    (ge, rw (direct, auto, one) (omega arith))
