-- ===== src/Client/Region.antt =====
-- `SharedRegion` of crates/sidealsa-client/src/shared.rs: the counters of its header, and the calls
-- that publish and consume playback and capture. An atomic counter wraps at 64 bits.
pub mod Activation
pub mod Playback
pub mod Race
use side_alsa.Base.{
  ℕ, zero, suc, ◌+◌, ◌*◌, ◌%◌, max, Bool, true, false, not, ◌&&◌, ◌||◌, Option, none, some, List,
  [], ◌∷◌, ltb, ◌==◌, if◌then◌else◌, wrapping_add, u64_mod, replicate,
}
use side_alsa.Client.Slots.{
  Slot, Ring, slot_free, slot_ready, is_ready, PlaybackConsume, Outcome, try_publish,
  try_consume_exact,
}
use side_alsa.Protocol.Layout.{SharedRegionLayout}

-- The atomic words of `SharedRegionHeader`.
pub record Header : Type 0 where
  pub cycle_sequence : ℕ
  pub playback_sequence : ℕ
  pub lifecycle_generation : ℕ
  pub hardware_generation : ℕ
  pub client_state : ℕ
  pub activation_state : ℕ
  pub start_sequence : ℕ
  pub capture_discontinuities : ℕ
  pub client_expired_capture_blocks : ℕ
  pub client_expired_playback_periods : ℕ
  pub client_playback_submit_failures : ℕ
  pub client_playback_xruns : ℕ
  pub client_playback_sequence : ℕ
  pub client_realtime_failures : ℕ
  pub client_callback_overruns : ℕ
  pub client_callback_max_nanos : ℕ

pub record SharedRegion : Type 0 where
  pub header : Header
  pub capture_samples : ℕ
  pub playback_samples : ℕ
  pub capture : Ring
  pub playback : Ring

-- `SHARED_CLIENT_IDLE` and so on
abbrev pub client_idle : ℕ
client_idle = 0

abbrev pub client_running : ℕ
client_running = 2

abbrev pub new_header : Header
new_header = record {
  cycle_sequence = 0;
  playback_sequence = 0;
  lifecycle_generation = 0;
  hardware_generation = 0;
  client_state = client_idle;
  activation_state = 0;
  start_sequence = 0;
  capture_discontinuities = 0;
  client_expired_capture_blocks = 0;
  client_expired_playback_periods = 0;
  client_playback_submit_failures = 0;
  client_playback_xruns = 0;
  client_playback_sequence = 0;
  client_realtime_failures = 0;
  client_callback_overruns = 0;
  client_callback_max_nanos = 0;
}

-- `SharedSlotHeader::new()`, before any samples.
abbrev pub new_slot : Slot
new_slot = record { state = slot_free; sequence = 0; published_nanos = 0; audio = [] }

-- The region that `initialize` leaves, with the sample counts of `map`.
unfoldable pub initialize : SharedRegionLayout → SharedRegion
initialize l = record {
  header = new_header;
  capture_samples = l.period_frames * l.capture_channels;
  playback_samples = l.period_frames * l.playback_channels;
  capture = replicate l.slot_count new_slot;
  playback = replicate l.slot_count new_slot;
}

unfoldable pub set_client_state : ℕ → SharedRegion → SharedRegion
set_client_state state r = record r { header = record r.header { client_state = state } }

unfoldable pub record_client_expired_playback_periods : ℕ → SharedRegion → SharedRegion
record_client_expired_playback_periods periods r = record r {
  header = record r.header {
    client_expired_playback_periods = wrapping_add r.header.client_expired_playback_periods periods;
  };
}

unfoldable pub record_client_callback_timing : ℕ → ℕ → SharedRegion → SharedRegion
record_client_callback_timing duration_nanos period_nanos r =
    let longest = max r.header.client_callback_max_nanos duration_nanos in
    let overruns = r.header.client_callback_overruns in
    record r {
      header = record r.header {
        client_callback_max_nanos = longest;
        client_callback_overruns =
            if ltb period_nanos duration_nanos then wrapping_add overruns 1 else overruns;
      };
    }

reset_ring : Ring → Ring
reset_ring [] = []
reset_ring (slot ∷ ring) = record slot { state = slot_free; sequence = 0 } ∷ reset_ring ring

unfoldable pub reset_slots : SharedRegion → SharedRegion
unfolding reset_ring set_client_state
reset_slots r = record (set_client_state client_idle r) {
  capture = reset_ring r.capture;
  playback = reset_ring r.playback;
}

-- A capture block carries no time of publication.
unfoldable pub try_publish_capture : ℕ → ℕ → List ℕ → SharedRegion → Bool × ℕ × SharedRegion
try_publish_capture producer sequence samples r =
    if r.capture_samples == 0
    then (false, producer, r)
    else let (published, ring, producer') =
        try_publish r.capture_samples sequence (some 0) samples producer r.capture in
      (published, producer', record r { capture = ring })

-- What `try_publish` does to the header when it stamps a block, and the count of failures.
playback_published : ℕ → Bool → Header → Header
playback_published sequence true h = record h {
  client_playback_sequence = sequence;
  client_state = client_running;
}
playback_published sequence false h = record h {
  client_playback_submit_failures = wrapping_add h.client_playback_submit_failures 1;
}

-- `clock` is the answer of `monotonic_nanos`.
unfoldable pub try_client_publish_playback :
    Option ℕ → ℕ → ℕ → List ℕ → SharedRegion → Bool × ℕ × SharedRegion
unfolding playback_published
try_client_publish_playback clock producer sequence samples r =
    if r.playback_samples == 0
    then (false, producer, r)
    else let (published, ring, producer') =
        try_publish r.playback_samples sequence clock samples producer r.playback in
      (
        published,
        producer',
        record r { playback = ring; header = playback_published sequence published r.header },
      )

unfoldable pub try_consume_playback_before_with_timestamp :
    ℕ → ℕ → List ℕ → SharedRegion → Outcome × SharedRegion
try_consume_playback_before_with_timestamp sequence cutoff_nanos samples r =
    let (outcome, ring) =
      try_consume_exact r.playback_samples sequence (some cutoff_nanos) samples r.playback in
    (outcome, record r { playback = ring })

-- `try_consume_playback`, whose result is whether the outcome is `ready`.
unfoldable pub try_consume_playback : ℕ → List ℕ → SharedRegion → Outcome × SharedRegion
try_consume_playback sequence samples r =
    let (outcome, ring) = try_consume_exact r.playback_samples sequence none samples r.playback in
    (outcome, record r { playback = ring })

any_ready : ℕ → Ring → Bool
any_ready sequence [] = false
any_ready sequence (slot ∷ ring) =
    (is_ready slot && slot.sequence == sequence) || any_ready sequence ring

unfoldable pub has_ready_playback : ℕ → SharedRegion → Bool
unfolding any_ready is_ready
has_ready_playback sequence r =
    if r.playback_samples == 0 then false else any_ready sequence r.playback

-- `activation_token`: the two low bits of the shifted generation are 0, so `|` adds the state.
unfoldable pub activation_token : ℕ → ℕ → ℕ
activation_token generation state = generation * 4 % u64_mod + state

-- `SHARED_ACTIVATION_PENDING` and so on
abbrev pub activation_pending : ℕ
activation_pending = 0

abbrev pub activation_ready_state : ℕ
activation_ready_state = 2

-- A word that no one holds is exchanged for the pending one at once; one that is held claimed, which
-- no other thread changes in an uninterrupted run, is overwritten with it at the deadline.
unfoldable pub reset_activation : SharedRegion → SharedRegion
unfolding activation_token
reset_activation r = record r {
  header = record r.header {
    activation_state = activation_token r.header.lifecycle_generation activation_pending;
  };
}

unfoldable pub set_lifecycle_generation : ℕ → SharedRegion → SharedRegion
set_lifecycle_generation generation r = record r {
  header = record r.header { lifecycle_generation = generation };
}

-- One uninterrupted run: the word is claimed, the start is set, and the word becomes ready.
unfoldable pub establish_activation : ℕ → SharedRegion → Bool × SharedRegion
unfolding activation_token
establish_activation sequence r =
    let generation = r.header.lifecycle_generation in
    let ready = activation_token generation activation_ready_state in
    if r.header.activation_state == activation_token generation activation_pending
    then (
      true,
      record r { header = record r.header { start_sequence = sequence; activation_state = ready } },
    )
    else (not (r.header.activation_state == ready), r)

unfoldable pub activation_ready : SharedRegion → Bool
unfolding activation_token
activation_ready r =
    r.header.activation_state
    == activation_token r.header.lifecycle_generation activation_ready_state
