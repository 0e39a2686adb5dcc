-- ===== src/Client/Capture/Discard.antt =====
-- What discarding leaves of the capture blocks, and which of them it counts as expired.
use side_alsa.Base.{
  ℕ, ◌+◌, ◌<◌, ◌≡◌, refl, not, ◌&&◌, List, [], ◌∷◌, if◌then◌else◌, length, arith, wrapping_add,
  u64_mod,
}
use side_alsa.Protocol.Sequence.{sequence_is_after, sequence_is_before}
use side_alsa.Client.Slots.{Ring, slot_at}
use side_alsa.Client.Slots.Contents.{
  Block, contents, keep_after, cleared, contents-cleared, length-cleared, given_up, slot_at-cleared,
}
use side_alsa.Client.Region.{SharedRegion}
use side_alsa.Client.Capture.{discard_loop, discard_capture_through}

-- How many blocks come before a minimum, of those that do not come after another number.
unfoldable pub count_expired : ℕ → ℕ → List Block → ℕ
count_expired through minimum [] = 0
count_expired through minimum (b ∷ bs) =
    (if not (sequence_is_after b.sequence through) && sequence_is_before b.sequence minimum
      then 1
      else 0)
    + count_expired through minimum bs

discard_loop-cleared :
    (through minimum : ℕ) (ring : Ring)
    → discard_loop through minimum ring
      ≡ (cleared through ring, count_expired through minimum (contents ring))
unfolding discard_loop cleared contents count_expired
discard_loop-cleared through minimum [] = refl
discard_loop-cleared through minimum (s ∷ ring) =
    ground (arith, discard_loop-cleared through minimum ring)

-- The region that discarding leaves.
discard_capture_through-cleared :
    (through minimum : ℕ) (r : SharedRegion)
    → 0 < r.capture_samples
    → r.header.client_expired_capture_blocks < u64_mod
    → discard_capture_through through minimum r ≡ record r {
      capture = cleared through r.capture;
      header = record r.header {
        client_expired_capture_blocks =
            wrapping_add r.header.client_expired_capture_blocks
              (count_expired through minimum (contents r.capture));
      };
    }
unfolding discard_capture_through
discard_capture_through-cleared through minimum r some_capture small =
    ground (arith, discard_loop-cleared through minimum r.capture)

-- In a region with capture, discarding it through a sequence number leaves exactly the blocks that
-- come after it, and counts as expired those of the others that come before the minimum. Slot by
-- slot, a ready slot whose block does not come after the number becomes free with all else kept, and
-- every other slot, those being written or read included, is as it was; of the rest of the region
-- only the count of expired blocks changes.
pub discard_capture_through_lem :
    (through minimum : ℕ) (r : SharedRegion)
    → 0 < r.capture_samples
    → r.header.client_expired_capture_blocks < u64_mod
    → let r' = discard_capture_through through minimum r in
      (contents r'.capture ≡ keep_after through (contents r.capture))
      × (length r'.capture ≡ length r.capture)
      × ((i : ℕ) → slot_at r'.capture i ≡ given_up through (slot_at r.capture i))
      × (r' ≡ record r {
        capture = r'.capture;
        header = record r.header {
          client_expired_capture_blocks =
              wrapping_add r.header.client_expired_capture_blocks
                (count_expired through minimum (contents r.capture));
        };
      })
discard_capture_through_lem through minimum r some_capture small =
    rw (discard_capture_through-cleared through minimum r some_capture small) (
      contents-cleared through r.capture,
      length-cleared through r.capture,
      slot_at-cleared through r.capture,
      refl,
    )
