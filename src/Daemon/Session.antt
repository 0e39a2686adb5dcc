-- ===== src/Daemon/Session.antt =====
-- `SessionState` of crates/sidealsa-daemon/src/state.rs. Each call runs without interruption, so a
-- `compare_exchange` succeeds exactly if the word is the expected one, and the waits for idle
-- readers and commits, which return without a change of what is kept here, are left out.
pub mod Lifecycle
pub mod Diagnostics
use side_alsa.Base.{
  ℕ, ◌+◌, ◌-◌, ◌%◌, ◌^◌, Bool, true, false, not, ◌&&◌, ◌||◌, Option, none, some, List, [], ◌∷◌,
  ◌++◌, Result, ok, err, ◌==◌, if◌then◌else◌, u64_mod, wrapping_add,
}
use side_alsa.Protocol.Layout.{SharedRegionLayout}
use side_alsa.Client.Region.{
  SharedRegion, initialize, client_idle, set_client_state, reset_slots, reset_activation,
  set_lifecycle_generation,
}

-- `SESSION_CLOSING`
abbrev pub session_closing : ℕ
session_closing = 2 ^ 64 - 1

-- `SHARED_CLIENT_STARTING`
abbrev pub client_starting : ℕ
client_starting = 1

-- The calls of `SharedEvents`, whose descriptors belong to the system.
pub data EventCall : Type 0 where
  notify_capture notify_playback notify_playback_ready drain : EventCall

-- `events` holds the calls made on them, the latest first.
pub record SessionEndpoint : Type 0 where
  pub session_id : ℕ
  pub region : SharedRegion
  pub events : List EventCall

pub record ClientPlaybackDiagnostics : Type 0 where
  pub expired_playback_periods : ℕ
  pub playback_submit_failures : ℕ
  pub playback_xruns : ℕ

-- `endpoint` and `retired_client_playback` are those of the `EndpointSlot`; `playback_epoch` says
-- whether the session has the epoch of playback, which all such sessions share.
pub record SessionState : Type 0 where
  pub endpoint : SessionEndpoint
  pub retired_client_playback : ClientPlaybackDiagnostics
  pub owner : ℕ
  pub active : ℕ
  pub lifecycle_generation : ℕ
  pub lifecycle_hardware_generation : ℕ
  pub armed : ℕ
  pub outage : ℕ
  pub warmup_blocks : ℕ
  pub playback_epoch : Bool

unfoldable pub set_hardware_generation : ℕ → SharedRegion → SharedRegion
set_hardware_generation generation r = record r {
  header = record r.header { hardware_generation = generation };
}

-- `SessionEndpoint::create`, once its resources are there.
unfoldable pub create : ℕ → SharedRegionLayout → SessionEndpoint
unfolding initialize
create session_id layout = record {
  session_id = session_id;
  region = initialize layout;
  events = [];
}

-- `SessionState::new`, with the layout of its first endpoint.
unfoldable pub new : SharedRegionLayout → Bool → SessionState
unfolding create
new layout playback_epoch = record {
  endpoint = create 0 layout;
  retired_client_playback = record {
    expired_playback_periods = 0;
    playback_submit_failures = 0;
    playback_xruns = 0;
  };
  owner = 0;
  active = 0;
  lifecycle_generation = 0;
  lifecycle_hardware_generation = 0;
  armed = 0;
  outage = 0;
  warmup_blocks = 0;
  playback_epoch = playback_epoch;
}

-- What `EndpointSlot::replace` adds to the diagnostics of a region that it retires, and what
-- `playback_diagnostics` adds to them for the current region.
unfoldable pub add_client_playback :
    ClientPlaybackDiagnostics → SharedRegion → ClientPlaybackDiagnostics
add_client_playback d r = record {
  expired_playback_periods =
      wrapping_add d.expired_playback_periods r.header.client_expired_playback_periods;
  playback_submit_failures =
      wrapping_add d.playback_submit_failures r.header.client_playback_submit_failures;
  playback_xruns = wrapping_add d.playback_xruns r.header.client_playback_xruns;
}

-- `EndpointSlot::replace`
unfoldable pub replace : SessionEndpoint → SessionState → SessionState
unfolding add_client_playback
replace endpoint s = record s {
  endpoint = endpoint;
  retired_client_playback = add_client_playback s.retired_client_playback s.endpoint.region;
}

-- The client's part of `EndpointSlot::playback_diagnostics`.
unfoldable pub playback_diagnostics : SessionState → ClientPlaybackDiagnostics
unfolding add_client_playback
playback_diagnostics s = add_client_playback s.retired_client_playback s.endpoint.region

-- `try_open_layout`, given what the creation of the resources gives; the layout stands for the
-- region's info and its descriptors.
unfoldable pub try_open_layout :
    {E : Type 0}
    → ℕ
    → ℕ
    → Result E SharedRegionLayout
    → SessionState
    → Result E (Option SharedRegionLayout) × SessionState
unfolding create set_hardware_generation replace
try_open_layout session_id hardware_generation (err error) s =
    if not (s.owner == 0) then (ok none, s) else (err error, record s { owner = 0 })
try_open_layout session_id hardware_generation (ok layout) s =
    if not (s.owner == 0)
    then (ok none, s)
    else let endpoint = create session_id layout in
      (
        ok (some layout),
        replace
            (record endpoint {
              region = set_hardware_generation hardware_generation endpoint.region;
            })
            (record s { owner = session_id }),
      )

-- What `start` does to the endpoint before it makes the session active.
unfoldable pub prepare_endpoint : ℕ → ℕ → SessionEndpoint → SessionEndpoint
unfolding set_hardware_generation reset_slots reset_activation set_lifecycle_generation
    set_client_state
prepare_endpoint generation hardware_generation endpoint = record endpoint {
  region = set_client_state client_starting (
      reset_activation (
        set_hardware_generation hardware_generation
          (set_lifecycle_generation generation (reset_slots endpoint.region))));
  events = drain ∷ endpoint.events;
}

unfoldable pub start : ℕ → ℕ → SessionState → Bool × SessionState
unfolding prepare_endpoint
start session_id hardware_generation s =
    if not (s.owner == session_id) || not (s.active == 0)
    then (false, s)
    else if not (s.endpoint.session_id == session_id)
    then (false, s)
    else let generation = wrapping_add s.lifecycle_generation 1 in
      (
        true,
        record s {
          endpoint = prepare_endpoint generation hardware_generation s.endpoint;
          lifecycle_generation = generation;
          lifecycle_hardware_generation = hardware_generation;
          active = session_id;
          armed = 0;
          outage = 0;
          warmup_blocks = 0;
        },
      )

-- `bump_playback_epoch`
unfoldable pub bump_playback_epoch : SessionState → ℕ → ℕ
bump_playback_epoch s epoch = if s.playback_epoch then wrapping_add epoch 1 else epoch

-- The end of `stop` and `close`: the reader is woken, and what it left is cleared.
unfoldable pub clear : SessionState → SessionState
unfolding reset_slots
clear s = record s {
  endpoint = record s.endpoint {
    region = reset_slots s.endpoint.region;
    events = drain ∷ notify_playback_ready ∷ s.endpoint.events;
  };
  armed = 0;
  outage = 0;
  warmup_blocks = 0;
}

-- `stop` also takes the epoch of playback and gives it back.
unfoldable pub stop : ℕ → SessionState → ℕ → Bool × SessionState × ℕ
unfolding clear bump_playback_epoch
stop session_id s epoch =
    if s.active == session_id
    then (true, clear (record s { active = 0 }), bump_playback_epoch s epoch)
    else (false, s, epoch)

-- The owner is `SESSION_CLOSING` in between, which no one sees here.
unfoldable pub close : ℕ → SessionState → ℕ → Bool × SessionState × ℕ
unfolding clear bump_playback_epoch
close session_id s epoch =
    if not (s.owner == session_id)
    then (false, s, epoch)
    else let was_active = s.active == session_id in
      (
        true,
        clear (record s { owner = 0; active = if was_active then 0 else s.active }),
        (if was_active then bump_playback_epoch s epoch else epoch),
      )
