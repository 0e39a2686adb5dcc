-- ===== src/Daemon/Examples.antt =====
-- Runs of the daemon's sessions, and its theorems at concrete inputs.
use side_alsa.Base.{
  ℕ, ◌+◌, ◌-◌, ◌^◌, ◌≡◌, ◌≢◌, ◌⊎◌, ◌≤◌, ◌<◌, refl, true, false, ◌||◌, ◌==◌, if◌then◌else◌, none,
  some, List, [], ◌∷◌, ok, err, length, All, Distinct, u32_mod, u64_mod, arith, inr,
}
use side_alsa.Protocol.Types.{playback, capture}
use side_alsa.Protocol.Layout.{SharedRegionLayout}
use side_alsa.Daemon.Endpoint.{Action, reader, replace, holding, run, new_slot}
use side_alsa.Daemon.Endpoint.Invariant.{count}
use side_alsa.Daemon.Endpoint.Safety.{IsLive, run-IsLive}
use side_alsa.Daemon.Session as Session
use side_alsa.Daemon.Session.{SessionState, try_open_layout, playback_diagnostics, session_closing}
use side_alsa.Daemon.Session.Lifecycle.{
  Refines, open_phase, start_phase, stop_phase, close_phase, is_opened, session-Refines,
}
use side_alsa.Daemon.Session.Diagnostics.{playback_diagnostics-kept}
use side_alsa.Base.Int.{pos, ◌+ℤ◌}
use side_alsa.Client.Slots.{try_consume_exact}
use side_alsa.Core.Timeline.Words.{new_timeline}
use side_alsa.Daemon.Playback.{
  SharedAudioPortBridge, PortState, prepare_playback, commit_prepared, mix,
}
use side_alsa.Daemon.Playback.Prepared.{commit_prepared-prepare_playback}
use side_alsa.Daemon.Playback.Repeats.{Period, repeats, is_stalled, repeats-le}
use side_alsa.Daemon.Ownership.{
  DaemonState, new, is_session_id, next_session_id_within, next_session_id,
}
use side_alsa.Daemon.Ownership.Calls.{owns}
use side_alsa.Daemon.Ownership.Ids.{next_session_id-ends}
use side_alsa.Daemon.Ownership.Invariant.{
  Inv, Call, call_open_pro_direction, call_start, call_close, perform_all,
}
use side_alsa.Daemon.Ownership.Invariant.Kept.{new-perform_all}

-- A reader holds the first endpoint while it is replaced: it is freed once the reader is gone.
abbrev actions : List Action
actions =
    reader 0
    ∷ reader 0
    ∷ reader 0
    ∷ reader 0
    ∷ replace
    ∷ replace
    ∷ reader 1
    ∷ replace
    ∷ reader 0
    ∷ reader 1
    ∷ replace
    ∷ []

frees : (run actions (new_slot 2)).freed ≡ 0 ∷ []
unfolding run
frees = refl

waits :
    (run
      (reader 0 ∷ reader 0 ∷ reader 0 ∷ reader 0 ∷ replace ∷ replace ∷ replace ∷ [])
      (new_slot 2)).freed
    ≡ []
unfolding run
waits = refl

run-IsLive_example :
    let s = run actions (new_slot 2) in
    All (IsLive s.freed) s.readers
    × IsLive s.freed (holding s.reader_epoch s.current)
    × Distinct s.freed
    × (s.even_activity ≡ count true s.readers)
    × (s.odd_activity ≡ count false s.readers)
    × (length s.readers < u32_mod)
run-IsLive_example = run-IsLive 2 actions (omega arith)

abbrev layout : SharedRegionLayout
layout = record {
  size = 4096;
  period_frames = 2;
  playback_channels = 1;
  capture_channels = 1;
  slot_count = 2;
  slot_stride = 64;
  capture_offset = 128;
  playback_offset = 256;
}

-- A session that 5 owns, and that runs.
abbrev session : SessionState
session = record (Session.new layout true) {
  endpoint = record (Session.new layout true).endpoint { session_id = 5 };
  owner = 5;
  active = 5;
}

session-Refines_example :
    (let (outcome, s') = try_open_layout {E = ℕ} 5 1 (ok layout) session in
      Refines session (open_phase 5) (is_opened outcome) s')
    × (let (outcome, s') = try_open_layout {E = ℕ} 5 1 (err 9) session in
        Refines session (λ p. (false, p)) (is_opened outcome) s')
    × (let (done, s') = Session.start 5 1 session in Refines session (start_phase 5) done s')
    × (let (done, s', epoch') = Session.stop 5 session 3 in Refines session (stop_phase 5) done s')
    × (let (done, s', epoch') = Session.close 5 session 3 in
        Refines session (close_phase 5) done s')
session-Refines_example =
    session-Refines 5 1 3 layout 9 session (λ e. omega (arith, e))
      (record { active_owner = inr refl; endpoint_owner = inr refl })

playback_diagnostics-kept_example :
    (playback_diagnostics (try_open_layout {E = ℕ} 5 1 (ok layout) session).1
      ≡ playback_diagnostics session)
    × (playback_diagnostics (Session.start 5 1 session).1 ≡ playback_diagnostics session)
    × (playback_diagnostics (Session.stop 5 session 3).1 ≡ playback_diagnostics session)
    × (playback_diagnostics (Session.close 5 session 3).1 ≡ playback_diagnostics session)
playback_diagnostics-kept_example = playback_diagnostics-kept 5 1 3 (ok layout) session

-- The last id but for that of a closing session is followed by 1.
wraps : next_session_id (2 ^ 64 - 1) ≡ (1, 2)
unfolding next_session_id
wraps = refl

next_session_id-ends_example :
    (next_session_id_within 3 (2 ^ 64 - 1) ≡ some (next_session_id (2 ^ 64 - 1)))
    × (is_session_id (next_session_id (2 ^ 64 - 1)).0 ≡ true)
    × ((next_session_id (2 ^ 64 - 1)).1 < u64_mod)
    × ((next_session_id (2 ^ 64 - 1)).0
        ≡ (if (2 ^ 64 - 1) == 0 || (2 ^ 64 - 1) == (u64_mod - 1) then 1 else 2 ^ 64 - 1))
next_session_id-ends_example = next_session_id-ends (2 ^ 64 - 1) (omega arith)

-- A peer opens both directions, another is refused, and both are closed.
abbrev calls : List (Call ℕ)
calls =
    call_open_pro_direction 10 100 (1, 2) playback 7 (ok layout)
    ∷ call_open_pro_direction 11 100 (1, 2) capture 7 (ok layout)
    ∷ call_open_pro_direction 10 100 (1, 2) capture 7 (ok layout)
    ∷ call_start 2 7
    ∷ call_close 1
    ∷ []

abbrev daemon : DaemonState
daemon = new layout layout ((97 ∷ [], playback, layout) ∷ [])

remaining : owns 2 (perform_all calls daemon) ≡ true
unfolding perform_all new owns
remaining = refl

closed_one : owns 1 (perform_all calls daemon) ≡ false
unfolding perform_all new owns
closed_one = refl

new-perform_all_example :
    Inv 6 (perform_all calls (new layout layout ((97 ∷ [], playback, layout) ∷ [])))
new-perform_all_example =
    new-perform_all layout layout ((97 ∷ [], playback, layout) ∷ []) calls (omega arith)

-- A session whose client runs and delivers nothing, and the bridge after a period that it delivered.
abbrev stalled : SessionState
stalled = record session {
  armed = 5;
  endpoint = record session.endpoint {
    region = record session.endpoint.region {
      header = record session.endpoint.region.header { client_state = 2; activation_state = 2 };
    };
  };
}

abbrev bridge : SharedAudioPortBridge
bridge = record {
  channels = 1 ∷ [];
  period_frames = 2;
  physical_channels = 2;
  latency_periods = 1;
  repeat_on_underrun = true;
  scratch = 7 ∷ 4294967295 ∷ [];
  last_valid_playback =
      some (record { session_id = 5; lifecycle_generation = 0; hardware_generation = 0 });
  repeated_periods = 0;
  observed_hardware_generation = some 0;
  prepared = none;
  misses = record {
    playback_underruns = 0;
    last_playback_underrun_sequence = 0;
    last_playback_underrun_nanos = 0;
    last_playback_sequence_lag_periods = 0;
    max_playback_sequence_lag_periods = 0;
  };
}

abbrev period : Period
period = record {
  sequence = 9;
  now_nanos = 1000;
  current = true;
  before = stalled;
  before_timeline = new_timeline;
  after = stalled;
  after_timeline = new_timeline;
  physical = pos 1 ∷ pos 2 ∷ pos 3 ∷ pos 4 ∷ [];
}

abbrev periods : List Period
periods = period ∷ period ∷ period ∷ period ∷ period ∷ period ∷ []

stalls : is_stalled periods bridge ≡ true
unfolding is_stalled prepare_playback Session.new try_consume_exact
stalls = refl

four_repeats : repeats periods bridge ≡ 4
unfolding repeats prepare_playback Session.new try_consume_exact
four_repeats = refl

repeats-le_example : repeats periods bridge + 0 ≤ 4
repeats-le_example = repeats-le periods bridge (omega arith) stalls

-- The samples 7 and -1 are added to the second channel.
heard :
    let b =
      (prepare_playback 9 1000 true
        (record { session = stalled; bridge = bridge; timeline = new_timeline })).bridge in
    (commit_prepared 9 period.physical
      (record { session = stalled; bridge = b; timeline = new_timeline })).0
    ≡ some (pos 1 ∷ pos 9 ∷ pos 3 ∷ pos 3 ∷ [])
unfolding prepare_playback commit_prepared Session.new try_consume_exact ◌+ℤ◌
heard = refl

commit_prepared-prepare_playback_example :
    let before : PortState = record {
      session = stalled;
      bridge = bridge;
      timeline = new_timeline;
    } in
    let b = (prepare_playback 9 1000 true before).bridge in
    let after : PortState = record { session = stalled; bridge = b; timeline = new_timeline } in
    let sound = (commit_prepared 9 period.physical after).0 in
    (sound ≡ some period.physical)
    ⊎ ((sound ≡ mix b period.physical)
        × (period.sequence ≡ 9)
        × (stalled.active ≢ 0)
        × (stalled.active ≡ stalled.active)
        × (stalled.endpoint.session_id ≡ stalled.active)
        × (stalled.lifecycle_generation ≡ stalled.lifecycle_generation)
        × (new_timeline.generation ≡ new_timeline.generation)
        × (stalled.endpoint.region.header.client_state ≡ 2)
        × (stalled.endpoint.region.header.client_state ≡ 2))
commit_prepared-prepare_playback_example =
    commit_prepared-prepare_playback 9 9 1000 true
      (record { session = stalled; bridge = bridge; timeline = new_timeline }) stalled new_timeline
      period.physical
