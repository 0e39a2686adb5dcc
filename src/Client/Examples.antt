-- ===== src/Client/Examples.antt =====
-- Runs of the shared region's code, and its theorems at concrete inputs.
use mathlib.Core.List.{Perm}
use side_alsa.Base.{
  ℕ, ◌⊎◌, List, ◌≡◌, refl, true, false, some, [], ◌∷◌, length, arith, wrapping_add,
}
use side_alsa.Protocol.Sequence.{sequence_is_after, sequence_is_before}
use side_alsa.Client.Slots.{Ring, slot_at, PlaybackConsume, try_consume_exact, try_publish}
use side_alsa.Client.Slots.Contents.{contents, keep_after, find_exact, given_up}
use side_alsa.Client.Slots.Publish.{
  PublishOutcome, try_publish-PublishOutcome, try_publish-contents,
}
use side_alsa.Client.Region.{
  SharedRegion, set_lifecycle_generation, reset_activation, initialize, new_header, new_slot,
  activation_token, establish_activation, activation_ready, client_running,
  try_client_publish_playback, try_consume_playback_before_with_timestamp,
}
use side_alsa.Client.Capture.{
  discard_capture_through, try_client_read_valid_capture, try_client_read_capture,
  oldest_valid_client_capture_sequence, ready_capture_slots, earlier,
}
use side_alsa.Client.Capture.Discard.{count_expired, discard_capture_through_lem}
use side_alsa.Client.Capture.Valid.{ReadOutcome, try_client_read_valid_capture-ReadOutcome}
use side_alsa.Client.Region.Activation.{establish_activation-reset_activation}
use side_alsa.Client.Region.Race.{Race, Side, first_side, second_side, advance, run, alone}
use side_alsa.Client.Region.Race.Agreement.{FirstWon, SecondWon, run-agrees}
use side_alsa.Client.Region.Playback.{playback_roundtrip}

-- A ready block before number 4, one with it, one behind it, and a slot that is being written.
abbrev ring : Ring
ring =
    record { state = 1; sequence = 3; published_nanos = 50; audio = 8 ∷ 9 ∷ [] }
    ∷ record { state = 1; sequence = 4; published_nanos = 60; audio = 5 ∷ 6 ∷ [] }
    ∷ record { state = 1; sequence = 5; published_nanos = 70; audio = 2 ∷ 3 ∷ [] }
    ∷ record { state = 2; sequence = 6; published_nanos = 0; audio = 0 ∷ 0 ∷ [] }
    ∷ []

-- What that run comes to.
try_consume_exact-ring : try_consume_exact 2 4 (some 65) (0 ∷ 0 ∷ 1 ∷ []) ring ≡ (
  (PlaybackConsume.ready, some 60, 5 ∷ 6 ∷ 1 ∷ []),
  record { state = 0; sequence = 3; published_nanos = 50; audio = 8 ∷ 9 ∷ [] }
      ∷ record { state = 0; sequence = 4; published_nanos = 60; audio = 5 ∷ 6 ∷ [] }
      ∷ record { state = 1; sequence = 5; published_nanos = 70; audio = 2 ∷ 3 ∷ [] }
      ∷ record { state = 2; sequence = 6; published_nanos = 0; audio = 0 ∷ 0 ∷ [] }
      ∷ [],
)
unfolding try_consume_exact sequence_is_after
try_consume_exact-ring = refl

-- The second slot is the only one that is free.
abbrev idle : Ring
idle =
    record { state = 1; sequence = 3; published_nanos = 50; audio = 8 ∷ 9 ∷ [] }
    ∷ record { state = 0; sequence = 2; published_nanos = 40; audio = 5 ∷ 6 ∷ [] }
    ∷ []

abbrev filled_ring : Ring
filled_ring =
    record { state = 1; sequence = 3; published_nanos = 50; audio = 8 ∷ 9 ∷ [] }
    ∷ record { state = 1; sequence = 4; published_nanos = 90; audio = 7 ∷ 1 ∷ [] }
    ∷ []

try_publish-idle : try_publish 2 4 (some 90) (7 ∷ 1 ∷ []) 0 idle ≡ (true, filled_ring, 0)
unfolding try_publish
try_publish-idle = refl

try_publish-PublishOutcome_example :
    PublishOutcome 2 4 90 (7 ∷ 1 ∷ []) 0 idle (try_publish 2 4 (some 90) (7 ∷ 1 ∷ []) 0 idle)
try_publish-PublishOutcome_example =
    try_publish-PublishOutcome 2 4 90 (7 ∷ 1 ∷ []) 0 idle (omega arith) (omega arith)

try_publish-contents_example :
    (length filled_ring ≡ 2)
    × Perm
        (contents filled_ring)
        (record { sequence = 4; published_nanos = 90; audio = 7 ∷ 1 ∷ [] } ∷ contents idle)
try_publish-contents_example =
    try_publish-contents 2 4 90 (7 ∷ 1 ∷ []) 0 idle (omega arith) (omega arith) try_publish-idle

-- A new region with two slots of 2 playback samples.
abbrev fresh : SharedRegion
fresh = record {
  header = new_header;
  capture_samples = 0;
  playback_samples = 2;
  capture = new_slot ∷ new_slot ∷ [];
  playback = new_slot ∷ new_slot ∷ [];
}

-- It is the one that a layout of 2 frames and 1 playback channel is mapped to.
initialize-fresh :
    initialize (record {
      size = 704;
      period_frames = 2;
      playback_channels = 1;
      capture_channels = 0;
      slot_count = 2;
      slot_stride = 128;
      capture_offset = 192;
      playback_offset = 448;
    })
    ≡ fresh
unfolding initialize
initialize-fresh = refl

-- A region that is ready in generation 1.
abbrev established : SharedRegion
established = record fresh {
  header = record new_header { lifecycle_generation = 1; activation_state = 6 };
}

establish_activation-reset_activation_example :
    let r0 = set_lifecycle_generation 2 established in
    let r1 = reset_activation r0 in
    let (won, r2) = establish_activation 30 r1 in
    (activation_ready r0 ≡ false)
    × (activation_ready r1 ≡ false)
    × (won ≡ true)
    × (activation_ready r2 ≡ true)
    × (r2.header.start_sequence ≡ 30)
establish_activation-reset_activation_example =
    establish_activation-reset_activation 1 2 30 established (omega arith) (omega arith)
      (omega arith) (unfold activation_token in refl)

abbrev played : SharedRegion
played = record fresh {
  playback =
      record { state = 1; sequence = 4; published_nanos = 30; audio = 7 ∷ 1 ∷ [] }
      ∷ record { state = 0; sequence = 0; published_nanos = 0; audio = [] }
      ∷ [];
  header = record fresh.header { client_playback_sequence = 4; client_state = client_running };
}

try_client_publish_playback-fresh :
    try_client_publish_playback (some 30) 0 4 (7 ∷ 1 ∷ []) fresh ≡ (true, 1, played)
unfolding try_client_publish_playback try_publish
try_client_publish_playback-fresh = refl

playback_roundtrip_example :
    (try_consume_playback_before_with_timestamp 4 35 (0 ∷ 0 ∷ 0 ∷ []) played).0
    ≡ (PlaybackConsume.ready, some 30, 7 ∷ 1 ∷ 0 ∷ [])
playback_roundtrip_example =
    playback_roundtrip 30 35 0 4 (7 ∷ 1 ∷ []) (0 ∷ 0 ∷ 0 ∷ []) fresh (omega arith) (omega arith)
      (omega arith) (omega arith) (omega arith) (unfold contents find_exact in refl)
      try_client_publish_playback-fresh

-- A region with four capture slots: number 9 has expired, and 11 is nearer to the minimum than 12.
abbrev captured : SharedRegion
captured = record fresh {
  capture_samples = 2;
  capture =
      record { state = 1; sequence = 12; published_nanos = 0; audio = 1 ∷ 2 ∷ [] }
      ∷ record { state = 1; sequence = 9; published_nanos = 0; audio = 3 ∷ 4 ∷ [] }
      ∷ record { state = 1; sequence = 11; published_nanos = 0; audio = 5 ∷ 6 ∷ [] }
      ∷ record { state = 0; sequence = 10; published_nanos = 0; audio = 7 ∷ 8 ∷ [] }
      ∷ [];
}

discard_capture_through_lem_example :
    let r' = discard_capture_through 11 10 captured in
    (contents r'.capture ≡ keep_after 11 (contents captured.capture))
    × (length r'.capture ≡ 4)
    × ((i : ℕ) → slot_at r'.capture i ≡ given_up 11 (slot_at captured.capture i))
    × (r' ≡ record captured {
      capture = r'.capture;
      header = record captured.header {
        client_expired_capture_blocks =
            wrapping_add 0 (count_expired 11 10 (contents captured.capture));
      };
    })
discard_capture_through_lem_example =
    discard_capture_through_lem 11 10 captured (omega arith) (omega arith)

try_client_read_valid_capture-ReadOutcome_example :
    let ((found, consumer', samples'), r') =
      try_client_read_valid_capture 1 10 (0 ∷ 0 ∷ 9 ∷ []) captured in
    ReadOutcome 10 2 1 (0 ∷ 0 ∷ 9 ∷ []) captured.capture (found, consumer', samples', r'.capture)
try_client_read_valid_capture-ReadOutcome_example =
    try_client_read_valid_capture-ReadOutcome 1 10 (0 ∷ 0 ∷ 9 ∷ []) captured (omega arith)
      (omega arith) (omega arith)

-- What that read comes to.
try_client_read_valid_capture-captured :
    (try_client_read_valid_capture 1 10 (0 ∷ 0 ∷ 9 ∷ []) captured).0 ≡ (some 11, 3, 5 ∷ 6 ∷ 9 ∷ [])
unfolding try_client_read_valid_capture sequence_is_before
try_client_read_valid_capture-captured = refl

-- The oldest block is the same, and the block that has expired is counted.
oldest-captured :
    let (found, r') = oldest_valid_client_capture_sequence 10 captured in
    (found ≡ some 11) × (r'.header.client_expired_capture_blocks ≡ 1) × (ready_capture_slots r' ≡ 2)
unfolding oldest_valid_client_capture_sequence ready_capture_slots sequence_is_before
oldest-captured = (refl, refl, refl)

-- Without a minimum the earliest block is read.
try_client_read_capture-captured :
    (try_client_read_capture 0 (0 ∷ 0 ∷ []) captured).0 ≡ (some 9, 2, 3 ∷ 4 ∷ [])
unfolding try_client_read_capture sequence_is_before earlier
try_client_read_capture-captured = refl

-- The second side claims first, and the first side finds the word claimed.
abbrev schedule : List Side
schedule = second_side ∷ first_side ∷ second_side ∷ second_side ∷ []

abbrev pending_race : Race
pending_race = record (alone fresh) { activation_state = 4 }

run-agrees_example :
    (FirstWon 1 7 9 (run 1 7 9 schedule pending_race)
      × FirstWon 1 7 9 (run 1 7 9 schedule (run 1 7 9 schedule pending_race)))
    ⊎ (SecondWon 1 7 9 (run 1 7 9 schedule pending_race)
        × SecondWon 1 7 9 (run 1 7 9 schedule (run 1 7 9 schedule pending_race)))
unfolding run advance activation_token
run-agrees_example =
    run-agrees 1 7 9 schedule schedule pending_race (omega arith) refl refl refl refl
