-- ===== src/Daemon/Playback.antt =====
-- The playback of a shared port, `SharedAudioPortBridge` of crates/sidealsa-daemon/src/state.rs.
-- Each call runs without interruption but for the second look that it takes at the session and the
-- timeline, whose outcome is an argument.
pub mod Prepared
pub mod Repeats
use side_alsa.Base.{
  ℕ, ◌+◌, ◌-◌, ◌*◌, ◌^◌, max, Bool, true, false, not, ◌&&◌, ◌||◌, Option, none, some, List, [], ◌∷◌,
  map, ltb, ◌==◌, if◌then◌else◌, wrapping_add, wrapping_sub, u64_mod, length,
}
use side_alsa.Base.Int.{ℤ, pos, negsuc}
use side_alsa.Client.Slots.{PlaybackConsume}
use side_alsa.Client.Region.{
  SharedRegion, client_running, establish_activation, try_consume_playback,
}
use side_alsa.Core.Routing.{for_frames, update_at, saturating_add_i32}
use side_alsa.Core.Timeline.Words.{HardwareTimeline}
use side_alsa.Core.Timeline.{record_shared_underrun}
use side_alsa.Daemon.Session.{
  SessionState, client_starting, set_hardware_generation, notify_playback,
}

abbrev pub max_repeated_playback_periods : ℕ
max_repeated_playback_periods = 4

pub record SharedPlaybackIdentity : Type 0 where
  pub session_id : ℕ
  pub lifecycle_generation : ℕ
  pub hardware_generation : ℕ

pub record PreparedSharedPlayback : Type 0 where
  pub sequence : ℕ
  pub identity : SharedPlaybackIdentity
  pub fresh : Bool

-- The words of `EndpointSlot` about playback that was missed.
pub record PlaybackMisses : Type 0 where
  pub playback_underruns : ℕ
  pub last_playback_underrun_sequence : ℕ
  pub last_playback_underrun_nanos : ℕ
  pub last_playback_sequence_lag_periods : ℕ
  pub max_playback_sequence_lag_periods : ℕ

-- The fields that playback uses; a sample of `scratch` is a word of 32 bits, as in a region.
pub record SharedAudioPortBridge : Type 0 where
  pub channels : List ℕ
  pub period_frames : ℕ
  pub physical_channels : ℕ
  pub latency_periods : ℕ
  pub repeat_on_underrun : Bool
  pub scratch : List ℕ
  pub last_valid_playback : Option SharedPlaybackIdentity
  pub repeated_periods : ℕ
  pub observed_hardware_generation : Option ℕ
  pub prepared : Option PreparedSharedPlayback
  pub misses : PlaybackMisses

-- The session is that of the port, the timeline that of the daemon.
pub record PortState : Type 0 where
  pub session : SessionState
  pub bridge : SharedAudioPortBridge
  pub timeline : HardwareTimeline

unfoldable pub same_identity : SharedPlaybackIdentity → SharedPlaybackIdentity → Bool
same_identity a b =
    a.session_id == b.session_id
    && a.lifecycle_generation == b.lifecycle_generation
    && a.hardware_generation == b.hardware_generation

-- `self.last_valid_playback == Some(identity)`
unfoldable pub is_last_valid : Option SharedPlaybackIdentity → SharedPlaybackIdentity → Bool
unfolding same_identity
is_last_valid none identity = false
is_last_valid (some last) identity = same_identity last identity

-- `self.last_valid_playback = None`
abbrev pub forget : SharedAudioPortBridge → SharedAudioPortBridge
forget b = record b { last_valid_playback = none }

-- `self.prepared.take()`; a fresh one that was never committed is not repeated.
unfoldable pub take_prepared :
    Option PreparedSharedPlayback → SharedAudioPortBridge → SharedAudioPortBridge
take_prepared none b = record b { prepared = none }
take_prepared (some p) b =
    if p.fresh
    then record b { prepared = none; last_valid_playback = none }
    else record b { prepared = none }

-- `self.observed_hardware_generation.replace(..)`, and what follows from a change.
unfoldable pub observe : Option ℕ → ℕ → SharedAudioPortBridge → SharedAudioPortBridge
observe none generation b = record b { observed_hardware_generation = some generation }
observe (some previous) generation b =
    if previous == generation
    then record b { observed_hardware_generation = some generation }
    else record b { observed_hardware_generation = some generation; last_valid_playback = none }

unfoldable pub playback_sequence_lag : ℕ → ℕ → ℕ
playback_sequence_lag expected last_published =
    let distance = wrapping_sub expected last_published in
    if ltb distance (2 ^ 63) then distance else 0

unfoldable pub record_playback_miss : ℕ → ℕ → ℕ → Bool → PlaybackMisses → PlaybackMisses
record_playback_miss sequence now_nanos lag starts_outage m = record {
  playback_underruns =
      if starts_outage then wrapping_add m.playback_underruns 1 else m.playback_underruns;
  last_playback_underrun_sequence = sequence;
  last_playback_underrun_nanos = now_nanos;
  last_playback_sequence_lag_periods = lag;
  max_playback_sequence_lag_periods = max m.max_playback_sequence_lag_periods lag;
}

abbrev pub notify : SessionState → SessionState
notify s = record s {
  endpoint = record s.endpoint { events = notify_playback ∷ s.endpoint.events };
}

abbrev pub with_region : SharedRegion → SessionState → SessionState
with_region region s = record s { endpoint = record s.endpoint { region = region } }

-- The end of the branch of a miss: the last valid period is repeated, kept, or forgotten.
unfoldable pub repeat_last :
    ℕ → SharedPlaybackIdentity → SharedAudioPortBridge → SharedAudioPortBridge
unfolding is_last_valid
repeat_last sequence identity b =
    if b.repeat_on_underrun
      && is_last_valid b.last_valid_playback identity
      && ltb b.repeated_periods max_repeated_playback_periods
    then record b {
      repeated_periods = b.repeated_periods + 1;
      prepared = some (record { sequence = sequence; identity = identity; fresh = false });
    }
    else if not (is_last_valid b.last_valid_playback identity)
    then forget b
    else b

-- The branch of a period that was not there.
unfoldable pub miss : ℕ → ℕ → ℕ → SharedPlaybackIdentity → PortState → PortState
unfolding playback_sequence_lag record_playback_miss record_shared_underrun repeat_last
miss sequence expected now_nanos identity c =
    let armed = c.session.armed == identity.session_id in
    let outage = c.session.outage == identity.session_id in
    let lag =
      playback_sequence_lag expected c.session.endpoint.region.header.client_playback_sequence in
    let b = record c.bridge {
      misses = record_playback_miss expected now_nanos lag armed c.bridge.misses;
    } in
    if not armed && not outage then record c { session = notify c.session } else record {
      session = notify (
          if armed
          then record c.session { armed = 0; outage = identity.session_id }
          else c.session);
      bridge = repeat_last sequence identity b;
      timeline = if armed then record_shared_underrun c.timeline else c.timeline;
    }

abbrev pub is_consumed : PlaybackConsume → Bool
is_consumed PlaybackConsume.ready = true
is_consumed PlaybackConsume.late = false
is_consumed PlaybackConsume.missing = false

-- From the consumption on; `current` is `session_is_current`.
unfoldable pub consume : ℕ → ℕ → Bool → SharedPlaybackIdentity → PortState → PortState
unfolding try_consume_playback miss
consume sequence now_nanos current identity c =
    let expected = wrapping_sub sequence c.bridge.latency_periods in
    let ((outcome, published, scratch), region) =
      try_consume_playback expected c.bridge.scratch c.session.endpoint.region in
    let session = with_region region c.session in
    let bridge = record c.bridge { scratch = scratch } in
    if is_consumed outcome && current
    then record c {
      session = notify session;
      bridge = record bridge {
        prepared = some (record { sequence = sequence; identity = identity; fresh = true });
      };
    }
    else if not (is_consumed outcome) && current
    then miss sequence expected now_nanos identity (record c { session = session; bridge = bridge })
    else record c { session = notify session; bridge = forget bridge }

unfoldable pub prepare_playback : ℕ → ℕ → Bool → PortState → PortState
unfolding take_prepared observe establish_activation set_hardware_generation consume
prepare_playback sequence now_nanos current c =
    let generation = c.timeline.generation in
    let b =
      observe c.bridge.observed_hardware_generation generation
        (take_prepared c.bridge.prepared c.bridge) in
    let region = set_hardware_generation generation c.session.endpoint.region in
    let region1 : SharedRegion = record region {
      header = record region.header { cycle_sequence = sequence };
    } in
    let s = with_region region1 c.session in
    let (activated, region2) = establish_activation sequence region1 in
    let s' = with_region region2 s in
    let identity : SharedPlaybackIdentity = record {
      session_id = s.active;
      lifecycle_generation = s.lifecycle_generation;
      hardware_generation = generation;
    } in
    let state = region2.header.client_state in
    if s.active == 0 || not (s.endpoint.session_id == s.active)
    then record c { session = s; bridge = forget b }
    else if activated
    then record c { session = notify s'; bridge = forget b }
    else if state == client_starting
    then record c { session = notify s'; bridge = forget b }
    else if not (state == client_running)
    then record c { session = s'; bridge = forget b }
    else consume sequence now_nanos current identity (record c { session = s'; bridge = b })

-- A word of a region as an `i32`.
unfoldable pub as_i32 : ℕ → ℤ
as_i32 word = if ltb word (2 ^ 31) then pos word else negsuc (2 ^ 32 - 1 - word)

-- The loops of `commit_prepared`; `none` is a panic.
unfoldable pub mix : SharedAudioPortBridge → List ℤ → Option (List ℤ)
unfolding for_frames update_at as_i32
mix b physical =
    for_frames (λ p l. update_at saturating_add_i32 (map as_i32 b.scratch) l p) b.period_frames 0
      b.channels b.physical_channels physical

-- Whether the session is still the one that playback was prepared for.
unfoldable pub is_current : ℕ → PreparedSharedPlayback → PortState → Bool
is_current sequence p c =
    p.sequence == sequence
    && c.session.endpoint.session_id == p.identity.session_id
    && c.session.active == p.identity.session_id
    && c.session.lifecycle_generation == p.identity.lifecycle_generation
    && c.timeline.generation == p.identity.hardware_generation
    && c.session.endpoint.region.header.client_state == client_running

-- The branch of playback that is fresh.
unfoldable pub commit_fresh : PreparedSharedPlayback → PortState → PortState
commit_fresh p c =
    let id = p.identity.session_id in
    record c {
      session = record c.session {
        outage = if c.session.outage == id then 0 else c.session.outage;
        armed = if c.session.armed == 0 then id else c.session.armed;
      };
      bridge = record c.bridge { last_valid_playback = some p.identity; repeated_periods = 0 };
    }

unfoldable pub commit_prepared : ℕ → List ℤ → PortState → Option (List ℤ) × PortState
unfolding mix is_current commit_fresh
commit_prepared sequence physical c = elim c.bridge.prepared [
  | none ↦ (some physical, c)
  | some p ↦
      let taken : PortState = record c { bridge = record c.bridge { prepared = none } } in
      if not (is_current sequence p c)
      then (some physical, record taken { bridge = forget taken.bridge })
      else (mix c.bridge physical, (if p.fresh then commit_fresh p taken else taken))
]
