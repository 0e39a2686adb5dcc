-- ===== src/Client/Region/Playback.antt =====
-- The playback calls of the region: what they do to its header, and a block's way through it.
use side_alsa.Base.{
  ℕ, ◌≤◌, ◌<◌, ◌≡◌, true, Option, none, some, List, ◌++◌, length, take, drop, wrapping_add, arith,
  if◌then◌else◌,
}
use side_alsa.Client.Slots.{PlaybackConsume, try_publish}
use side_alsa.Client.Slots.Contents.{contents, find_exact}
use side_alsa.Client.Slots.Publish.{try_consume_exact-try_publish}
use side_alsa.Client.Region.{
  SharedRegion, client_running, try_client_publish_playback,
  try_consume_playback_before_with_timestamp,
}

-- In a region with playback channels, a publication that succeeds is announced by its sequence
-- number and by a running client; one that fails is counted and announces nothing.
pub try_client_publish_playback-header :
    (clock : Option ℕ) (producer sequence : ℕ) (samples : List ℕ) (r : SharedRegion)
    → 0 < r.playback_samples
    → let (published, _, r') = try_client_publish_playback clock producer sequence samples r in
      r'.header ≡ (
        if published
        then record r.header { client_playback_sequence = sequence; client_state = client_running }
        else record r.header {
          client_playback_submit_failures = wrapping_add r.header.client_playback_submit_failures 1;
        })
unfolding try_client_publish_playback
try_client_publish_playback-header clock producer sequence samples r some_playback = ground arith

-- A period of playback that the client publishes, with a time by the cutoff and under a sequence
-- number that no ready block has, is what the daemon then reads under that number: its samples, at
-- the start of the daemon's buffer, with the time of its publication.
pub playback_roundtrip :
    (nanos cutoff producer sequence : ℕ) (samples buffer : List ℕ) (r : SharedRegion)
    {producer' : ℕ} {r' : SharedRegion}
    → 0 < r.playback_samples
    → r.playback_samples ≤ length samples
    → r.playback_samples ≤ length buffer
    → 0 < nanos
    → nanos ≤ cutoff
    → find_exact sequence (contents r.playback) ≡ none
    → try_client_publish_playback (some nanos) producer sequence samples r ≡ (true, producer', r')
    → (try_consume_playback_before_with_timestamp sequence cutoff buffer r').0 ≡ (
      PlaybackConsume.ready,
      some nanos,
      take r.playback_samples samples ++ drop r.playback_samples buffer,
    )
unfolding try_client_publish_playback try_consume_playback_before_with_timestamp
playback_roundtrip nanos cutoff producer sequence samples buffer r {producer'} {r'} pos room space
      stamped early absent done =
    rw samples_kept (
      try_consume_exact-try_publish r.playback_samples sequence nanos cutoff samples buffer producer
        r.playback pos room space stamped early absent published)
  where
    samples_kept : r'.playback_samples ≡ r.playback_samples
    samples_kept = ground arith

    published :
        try_publish r.playback_samples sequence (some nanos) samples producer r.playback
        ≡ (true, r'.playback, producer')
    published = ground arith
