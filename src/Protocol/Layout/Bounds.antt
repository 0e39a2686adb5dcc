-- ===== src/Protocol/Layout/Bounds.antt =====
-- The layout that `new` returns: the rings fit the region and one another, and their slots are
-- aligned, hold a period of audio each, and do not overlap.
use side_alsa.Base.{
  ℕ, ◌+◌, ◌-◌, ◌*◌, ◌%◌, ◌≤◌, ◌<◌, ◌≡◌, ◌^◌, max, inl, inr, some, Result-cases, ok, u64_mod, arith,
}
use native.Mathlib.Nat.{mul-le-mul}
use side_alsa.Protocol.Layout.{
  SharedRegionLayout, place, new, slot_offset, shared_alignment, region_header_size,
  slot_header_size, sample_size,
}

-- The bytes of a slot's header and of a period of audio in the wider direction.
abbrev pub slot_bytes : SharedRegionLayout → ℕ
slot_bytes l =
    slot_header_size
    + max l.period_frames 1 * max l.playback_channels l.capture_channels * sample_size

pub record IsLayout (l : SharedRegionLayout) : Type 0 where
  pub nonempty : 0 < l.slot_count
  pub header_fits : region_header_size ≤ l.capture_offset
  pub ring_aligned : l.capture_offset % shared_alignment ≡ 0
  pub stride_aligned : l.slot_stride % shared_alignment ≡ 0
  pub slot_fits : slot_bytes l ≤ l.slot_stride
  pub stride_tight : l.slot_stride < slot_bytes l + shared_alignment
  pub playback_behind : l.playback_offset ≡ l.capture_offset + l.slot_stride * l.slot_count
  pub size_exact : l.size ≡ l.playback_offset + l.slot_stride * l.slot_count
  pub addressable : l.size < u64_mod

place-IsLayout :
    (frames playback capture n : ℕ) {l : SharedRegionLayout}
    → 0 < n
    → place frames playback capture n ≡ ok l
    → IsLayout l
unfolding place
place-IsLayout frames playback capture n pos h = ground arith

-- What `new` accepts is laid out well and as it was asked for: the rings lie behind the header and
-- one another and fill the region, which can be addressed, and a slot is aligned and holds its
-- header and a period of audio in the wider direction, with less than an alignment to spare.
pub new-IsLayout :
    (frames playback capture n : ℕ) {l : SharedRegionLayout}
    → new frames playback capture n ≡ ok l
    → IsLayout l
      × (l.period_frames ≡ frames)
      × (l.playback_channels ≡ playback)
      × (l.capture_channels ≡ capture)
      × (l.slot_count ≡ n)
unfolding new
new-IsLayout frames playback capture n {l} h =
    let v = place-IsLayout frames playback capture n {l = l} (ground arith) (ground arith) in
    (v, ground arith, ground arith, ground arith, ground arith)

ring_bound : (stride n : ℕ) → stride ≤ 2 ^ 31 → n ≤ 2 ^ 30 → stride * n ≤ 2 ^ 61
ring_bound stride n h k =
    omega (arith, mul-le-mul {n₁ = stride} {m₁ = n} {n₂ = 2 ^ 31} {m₂ = 2 ^ 30} h k)

-- A region of 1 to 2^30 slots, of 1 to 2^28 samples each, is never refused.
pub new-total :
    (frames playback capture n : ℕ)
    → 0 < frames
    → 0 < max playback capture
    → 0 < n
    → frames * max playback capture ≤ 2 ^ 28
    → n ≤ 2 ^ 30
    → (l : SharedRegionLayout) × (new frames playback capture n ≡ ok l)
unfolding new
new-total frames playback capture n hf hc hn small few =
    elim (Result-cases (new frames playback capture n)) [
      | inl made ↦ made
      | inr (e, failed) ↦ absurd (
          ground (
            arith,
            one,
            ring_bound (64 + max frames 1 * max playback capture * 4) n,
            ring_bound
                (64
                  + max frames 1 * max playback capture * 4
                  + (64 - (64 + max frames 1 * max playback capture * 4) % 64))
                n,
          ))
    ]
  where
    one : max frames 1 ≡ frames
    one = omega arith

-- The slots before number `i` and that slot end before the end of a ring of `n`.
slot_end : (i n stride : ℕ) → i < n → i * stride + stride ≤ stride * n
slot_end i n stride h = grind arith

-- In a layout as `new` makes it, a slot of either ring is found where its number says, and ends
-- inside its ring.
pub slot_offset-inside :
    (l : SharedRegionLayout) (i : ℕ)
    → IsLayout l
    → i < l.slot_count
    → (slot_offset l l.capture_offset i ≡ some (l.capture_offset + i * l.slot_stride))
      × (l.capture_offset + i * l.slot_stride + l.slot_stride ≤ l.playback_offset)
      × (slot_offset l l.playback_offset i ≡ some (l.playback_offset + i * l.slot_stride))
      × (l.playback_offset + i * l.slot_stride + l.slot_stride ≤ l.size)
unfolding slot_offset
slot_offset-inside l i v h = ground (arith, slot_end i l.slot_count l.slot_stride h)

-- Where two numbers, the first less than the second, are found in one ring, the second is a slot's,
-- and the first slot ends by the start of the second.
pub slot_offset-disjoint :
    (l : SharedRegionLayout) (ring i j : ℕ) {a b : ℕ}
    → i < j
    → slot_offset l ring i ≡ some a
    → slot_offset l ring j ≡ some b
    → (j < l.slot_count) × (a + l.slot_stride ≤ b)
unfolding slot_offset
slot_offset-disjoint l ring i j h p q = ground (arith, slot_end i j l.slot_stride h)
