-- ===== src/Client/Capture.antt =====
-- The reading and the discarding of capture by a client, of crates/sidealsa-client/src/shared.rs.
-- Each function is one uninterrupted run.
pub mod Discard
pub mod Selection
pub mod Valid
use side_alsa.Base.{
  ℕ, zero, suc, ◌+◌, ◌%◌, Bool, true, false, not, ◌&&◌, ◌||◌, Option, none, some, List, [], ◌∷◌,
  ltb, ◌==◌, if◌then◌else◌, length, set, wrapping_add, wrapping_sub,
}
use side_alsa.Protocol.Sequence.{sequence_is_after, sequence_is_before}
use side_alsa.Client.Slots.{
  Slot, Ring, slot_free, slot_at, next_index, is_ready, reclaim_ready_slot, copy_into,
}
use side_alsa.Client.Region.{SharedRegion}

count_ready : Ring → ℕ
count_ready [] = 0
count_ready (slot ∷ ring) = (if is_ready slot then 1 else 0) + count_ready ring

unfoldable pub ready_capture_slots : SharedRegion → ℕ
unfolding count_ready
ready_capture_slots r = count_ready r.capture

-- `minimum_sequence.is_none_or(|minimum| !sequence_is_before(sequence, minimum))`
since : Option ℕ → ℕ → Bool
since none sequence = true
since (some minimum) sequence = not (sequence_is_before sequence minimum)

any_since : Option ℕ → Ring → Bool
any_since minimum [] = false
any_since minimum (slot ∷ ring) =
    (is_ready slot && since minimum slot.sequence) || any_since minimum ring

unfoldable pub has_ready_capture_since : Option ℕ → SharedRegion → Bool
unfolding any_since since
has_ready_capture_since minimum r =
    if r.capture_samples == 0 then false else any_since minimum r.capture

-- The counter of expired blocks after `n` more.
unfoldable pub expire_more : ℕ → SharedRegion → SharedRegion
expire_more n r = record r {
  header = record r.header {
    client_expired_capture_blocks = wrapping_add r.header.client_expired_capture_blocks n;
  };
}

-- One round of `discard_capture_through`: the slot afterwards, and 1 if its block has expired.
unfoldable pub discard_slot : ℕ → ℕ → Slot → Slot × ℕ
unfolding is_ready
discard_slot through minimum slot =
    if not (is_ready slot)
    then (slot, 0)
    else if sequence_is_after slot.sequence through
    then (slot, 0)
    else (
      record slot { state = slot_free },
      if sequence_is_before slot.sequence minimum then 1 else 0,
    )

unfoldable pub discard_loop : ℕ → ℕ → Ring → Ring × ℕ
unfolding discard_slot
discard_loop through minimum [] = ([], 0)
discard_loop through minimum (slot ∷ ring) =
    let (slot', n) = discard_slot through minimum slot in
    let (ring', m) = discard_loop through minimum ring in (slot' ∷ ring', n + m)

unfoldable pub discard_capture_through : ℕ → ℕ → SharedRegion → SharedRegion
unfolding discard_loop expire_more
discard_capture_through through minimum r =
    if r.capture_samples == 0
    then r
    else let (ring, expired) = discard_loop through minimum r.capture in
      let r' = record r { capture = ring } in if expired == 0 then r' else expire_more expired r'

-- `selected.is_none_or(|current| distance < current_distance)`
unfoldable pub nearer : {A : Type 0} → Option (A × ℕ) → A → ℕ → Option (A × ℕ)
nearer none x distance = some (x, distance)
nearer (some (y, current)) x distance =
    if ltb distance current then some (x, distance) else some (y, current)

-- One round of the loops that look for the oldest valid block: a block before the minimum is
-- reclaimed and counted, and any other is selected if it is nearer to the minimum.
unfoldable pub select_slot :
    {A : Type 0} → ℕ → Slot → A → Option (A × ℕ) → Option (A × ℕ) × Slot × ℕ
unfolding is_ready reclaim_ready_slot nearer
select_slot minimum slot x selected =
    if not (is_ready slot)
    then (selected, slot, 0)
    else if sequence_is_before slot.sequence minimum
    then (selected, reclaim_ready_slot slot, 1)
    else (nearer selected x (wrapping_sub slot.sequence minimum), slot, 0)

unfoldable pub oldest_loop : ℕ → Option (ℕ × ℕ) → Ring → Option (ℕ × ℕ) × Ring × ℕ
unfolding select_slot
oldest_loop minimum selected [] = (selected, [], 0)
oldest_loop minimum selected (slot ∷ ring) =
    let (selected', slot', n) = select_slot minimum slot slot.sequence selected in
    let (found, ring', m) = oldest_loop minimum selected' ring in (found, slot' ∷ ring', n + m)

unfoldable pub oldest_valid_client_capture_sequence : ℕ → SharedRegion → Option ℕ × SharedRegion
unfolding oldest_loop expire_more
oldest_valid_client_capture_sequence minimum r =
    if r.capture_samples == 0
    then (none, r)
    else let (found, ring, expired) = oldest_loop minimum none r.capture in
      (
        elim found [ none ↦ none | some (sequence, distance) ↦ some sequence ],
        expire_more expired (record r { capture = ring }),
      )

-- The result of a read, the consumer's index, its buffer, and the ring.
abbrev pub Read : Type 0
Read = Option ℕ × ℕ × List ℕ × Ring

-- The part of both reads behind the choice of a slot.
unfoldable pub read_slot : ℕ → ℕ → ℕ → ℕ → List ℕ → Ring → Read
unfolding is_ready next_index copy_into
read_slot sample_count index sequence consumer samples ring =
    let slot = slot_at ring index in
    let freed = set ring index (record slot { state = slot_free }) in
    if not (is_ready slot)
    then (none, consumer, samples, ring)
    else if not (slot.sequence == sequence)
    then (none, consumer, samples, freed)
    else (
      some sequence,
      next_index index (length ring),
      copy_into sample_count slot.audio samples,
      freed,
    )

-- `for offset in 0..slot_count` of `try_client_read_valid_capture`, from some offset on.
unfoldable pub valid_loop :
    ℕ → ℕ → ℕ → ℕ → Option ((ℕ × ℕ) × ℕ) → ℕ → Ring → Option ((ℕ × ℕ) × ℕ) × Ring × ℕ
unfolding select_slot
valid_loop zero offset minimum consumer selected expired ring = (selected, ring, expired)
valid_loop (suc rounds) offset minimum consumer selected expired ring =
    let index = (consumer + offset) % length ring in
    let slot = slot_at ring index in
    let (selected', slot', n) = select_slot minimum slot (index, slot.sequence) selected in
    valid_loop rounds (offset + 1) minimum consumer selected' (expired + n) (set ring index slot')

-- The part of `try_client_read_valid_capture` behind its loop.
unfoldable pub read_selected : ℕ → Option ((ℕ × ℕ) × ℕ) → ℕ → List ℕ → Ring → Read
unfolding read_slot
read_selected sample_count none consumer samples ring = (none, consumer, samples, ring)
read_selected sample_count (some ((index, sequence), distance)) consumer samples ring =
    read_slot sample_count index sequence consumer samples ring

unfoldable pub try_client_read_valid_capture :
    ℕ → ℕ → List ℕ → SharedRegion → (Option ℕ × ℕ × List ℕ) × SharedRegion
unfolding valid_loop read_selected expire_more
try_client_read_valid_capture consumer minimum samples r =
    if r.capture_samples == 0 || ltb (length samples) r.capture_samples
    then ((none, consumer, samples), r)
    else let (selected, ring, expired) =
        valid_loop (length r.capture) 0 minimum consumer none 0 r.capture in
      let (found, consumer', samples', ring') =
        read_selected r.capture_samples selected consumer samples ring in
      ((found, consumer', samples'), expire_more expired (record r { capture = ring' }))

-- One round of `next_ready_capture_slot`.
unfoldable pub earlier : Option (ℕ × ℕ) → ℕ → Slot → Option (ℕ × ℕ)
unfolding is_ready
earlier none index slot = if is_ready slot then some (index, slot.sequence) else none
earlier (some (first, current)) index slot =
    if is_ready slot && sequence_is_before slot.sequence current
    then some (index, slot.sequence)
    else some (first, current)

next_loop : ℕ → ℕ → ℕ → Option (ℕ × ℕ) → Ring → Option (ℕ × ℕ)
next_loop zero offset consumer selected ring = selected
next_loop (suc rounds) offset consumer selected ring =
    let index = (consumer + offset) % length ring in
    next_loop rounds (offset + 1) consumer (earlier selected index (slot_at ring index)) ring

unfoldable pub next_ready_capture_slot : ℕ → SharedRegion → Option (ℕ × ℕ)
unfolding next_loop
next_ready_capture_slot consumer r =
    if r.capture_samples == 0 then none else next_loop (length r.capture) 0 consumer none r.capture

unfoldable pub try_client_read_capture :
    ℕ → List ℕ → SharedRegion → (Option ℕ × ℕ × List ℕ) × SharedRegion
unfolding next_ready_capture_slot read_slot
try_client_read_capture consumer samples r =
    if r.capture_samples == 0 || ltb (length samples) r.capture_samples
    then ((none, consumer, samples), r)
    else elim (next_ready_capture_slot consumer r) [
      | none ↦ ((none, consumer, samples), r)
      | some (index, sequence) ↦
          let (found, consumer', samples', ring) =
            read_slot r.capture_samples index sequence consumer samples r.capture in
          ((found, consumer', samples'), record r { capture = ring })
    ]
