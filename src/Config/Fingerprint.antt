-- ===== src/Config/Fingerprint.antt =====
-- The fingerprints of a profile and of its timing: FNV-1a over the fields.
use Prim.Native.Nat.{bit_xor}
use side_alsa.Base.{
  ℕ, ◌*◌, ◌%◌, Bool, true, false, ◌&&◌, Option, none, some, List, [], ◌∷◌, ◌++◌, ◌==◌,
  if◌then◌else◌, length, u64_mod,
}
use side_alsa.Base.Text.{codes}
use side_alsa.Protocol.Wire.{to_le_bytes}
use side_alsa.Config.Types.{
  Text, Profile, PcmConfig, PortConfig, PipeWireConfig, StartupLoopbackConfig, SampleFormat, s32_le,
}
use side_alsa.Config.Timing.{TimingSettings, from}

-- `hash: &mut u64`: the hash afterwards.
abbrev pub Hasher : Type 0
Hasher = ℕ → ℕ

abbrev pub fnv_offset : ℕ
fnv_offset = 0xcbf29ce484222325

abbrev pub fnv_prime : ℕ
fnv_prime = 0x100000001b3

infixl 5 ◌>>◌
abbrev pub ◌>>◌ : Hasher → Hasher → Hasher
◌>>◌ f g hash = g (f hash)

unfoldable pub hash_bytes : List ℕ → Hasher
hash_bytes [] hash = hash
hash_bytes (byte ∷ bytes) hash = hash_bytes bytes (bit_xor hash byte * fnv_prime % u64_mod)

unfoldable pub hash_u32 : ℕ → Hasher
unfolding hash_bytes to_le_bytes
hash_u32 setting = hash_bytes (to_le_bytes 4 setting)

unfoldable pub hash_u64 : ℕ → Hasher
unfolding hash_bytes to_le_bytes
hash_u64 setting = hash_bytes (to_le_bytes 8 setting)

unfoldable pub hash_bool : Bool → Hasher
unfolding hash_bytes
hash_bool setting = hash_bytes ((if setting then 1 else 0) ∷ [])

unfoldable pub hash_optional_u32 : Option ℕ → Hasher
unfolding hash_bool hash_u32
hash_optional_u32 none = hash_bool false
hash_optional_u32 (some setting) = hash_bool true >> hash_u32 setting

unfoldable pub hash_optional_bool : Option Bool → Hasher
unfolding hash_bool
hash_optional_bool none = hash_bool false
hash_optional_bool (some setting) = hash_bool true >> hash_bool setting

unfoldable pub hash_string : Text → Hasher
unfolding hash_u64 hash_bytes
hash_string setting = hash_u64 (length setting) >> hash_bytes setting

format_byte : SampleFormat → ℕ
format_byte s32_le = 0

unfoldable pub hash_pcm : PcmConfig → Hasher
unfolding hash_string hash_u32 hash_bytes format_byte
hash_pcm pcm = do
  hash_string pcm.device
  hash_u32 pcm.channels
  hash_bytes (format_byte pcm.format ∷ [])

-- `for item in items`
unfoldable pub hash_each : {A : Type 0} → (A → Hasher) → List A → Hasher
hash_each hash_item [] hash = hash
hash_each hash_item (item ∷ items) hash = hash_each hash_item items (hash_item item hash)

hash_port : PortConfig → Hasher
unfolding hash_string hash_u64 hash_u32 hash_each
hash_port port = do
  hash_string port.id
  hash_string port.name
  hash_u64 (length port.channels)
  hash_each hash_u32 port.channels

unfoldable pub hash_ports : List PortConfig → Hasher
unfolding hash_u64 hash_each hash_port
hash_ports ports = do hash_u64 (length ports); hash_each hash_port ports

unfoldable pub timing_fingerprint : TimingSettings → ℕ
unfolding hash_u32 hash_optional_u32 hash_bool hash_optional_bool hash_string
timing_fingerprint t =
    let fields : Hasher = do
      hash_u32 t.rate
      hash_u32 t.period_size
      hash_optional_u32 t.hardware_period_size
      hash_u32 t.buffer_size
      hash_optional_u32 t.shared_buffer_size
      hash_optional_u32 t.playback_queue_periods
      hash_bool t.playback_timer_scheduling
      hash_optional_bool t.duplex_link
      hash_optional_u32 t.linked_playback_guard_frames
      hash_u32 t.linked_phase_max_attempts
      hash_u32 t.pro_latency_periods
      hash_u32 t.pro_handoff_us
      hash_optional_u32 t.pro_realtime_priority
      hash_u32 t.shared_latency_periods
      hash_bool t.shared_playback_repeat_on_underrun
      hash_bool t.realtime
      hash_u32 t.realtime_priority
    in let hash = fields fnv_offset in
      if t.pro_handoff_auto then hash_string (codes "pro_handoff_auto") hash else hash

-- `policy != IntegrationConfig::default()`
is_default : PipeWireConfig → Bool
is_default policy =
    policy.playback_headroom_frames == 128
    && policy.capture_headroom_frames == 0
    && policy.playback_start_delay_frames == 256

hash_loopback : Option StartupLoopbackConfig → Hasher
unfolding hash_string hash_u32
hash_loopback none hash = hash
hash_loopback (some loopback) hash =
    (do
      hash_string (codes "startup_loopback")
      hash_u32 loopback.playback_channel
      hash_u32 loopback.capture_channel
      hash_u32 loopback.target_frames)
      hash

hash_policy : PipeWireConfig → Hasher
unfolding hash_string hash_u32
hash_policy policy = do
  hash_string (codes "integration.pipewire")
  hash_u32 policy.playback_headroom_frames
  hash_u32 policy.capture_headroom_frames
  hash_u32 policy.playback_start_delay_frames

hash_positions : PortConfig → Hasher
unfolding hash_string hash_u64 hash_each
hash_positions port = elim port.positions [
  | none ↦ λ hash. hash
  | some positions ↦ do
    hash_string (codes "port.positions")
    hash_string port.id
    hash_u64 (length positions)
    hash_each hash_string positions
]

unfoldable pub fingerprint : Profile → ℕ
unfolding hash_u64 timing_fingerprint from hash_string hash_pcm hash_ports hash_loopback is_default
    hash_policy hash_each hash_positions
fingerprint p =
    let policy = p.integration.pipewire in
    let fields : Hasher = do
      hash_u64 (timing_fingerprint (from p.device))
      hash_string p.device.name
      hash_pcm p.device.playback
      hash_pcm p.device.capture
      hash_ports p.ports.playback
      hash_ports p.ports.capture
      hash_loopback p.device.startup_loopback
      (if is_default policy then (λ hash. hash) else hash_policy policy)
      hash_each hash_positions (p.ports.playback ++ p.ports.capture)
    in fields fnv_offset
