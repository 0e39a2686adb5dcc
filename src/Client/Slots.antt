-- ===== src/Client/Slots.antt =====
-- The rings of slots of crates/sidealsa-client/src/shared.rs. A ring is the list of its slots, and a
-- sample, which is only moved, is a natural number. Each function is one uninterrupted run: a
-- `compare_exchange` succeeds exactly if the state is the expected one.
pub mod Contents
pub mod Consume
pub mod Publish
use side_alsa.Base.{
  ℕ, zero, suc, ◌+◌, ◌%◌, Bool, true, false, not, ◌&&◌, ◌||◌, Option, none, some, List, [], ◌∷◌,
  ◌++◌, ltb, ◌==◌, if◌then◌else◌, length, get_or, set, take, drop,
}
use side_alsa.Protocol.Sequence.{sequence_is_after}

-- `SHARED_SLOT_FREE` and so on
abbrev pub slot_free : ℕ
slot_free = 0

abbrev pub slot_ready : ℕ
slot_ready = 1

abbrev pub slot_writing : ℕ
slot_writing = 2

abbrev pub slot_reading : ℕ
slot_reading = 3

-- `SharedSlotHeader`, and the samples behind it.
pub record Slot : Type 0 where
  pub state : ℕ
  pub sequence : ℕ
  pub published_nanos : ℕ
  pub audio : List ℕ

abbrev pub Ring : Type 0
Ring = List Slot

-- What stands for a slot out of range, which no index below reaches.
abbrev pub no_slot : Slot
no_slot = record { state = slot_writing; sequence = 0; published_nanos = 0; audio = [] }

abbrev pub slot_at : Ring → ℕ → Slot
slot_at ring index = get_or ring index no_slot

unfoldable pub next_index : ℕ → ℕ → ℕ
next_index index slot_count = (index + 1) % slot_count

unfoldable pub is_ready : Slot → Bool
is_ready slot = slot.state == slot_ready

-- The state passes through `slot_reading` on the way to `slot_free`.
unfoldable pub reclaim_ready_slot : Slot → Slot
unfolding is_ready
reclaim_ready_slot slot = if is_ready slot then record slot { state = slot_free } else slot

pub data PlaybackConsume : Type 0 where
  ready late missing : PlaybackConsume

-- One round of the scan of `try_consume_exact`: the first slot with the expected sequence is kept,
-- later ones are left alone, and all others that are ready are reclaimed.
unfoldable pub scan_slot : ℕ → ℕ → Option ℕ → Slot → Option ℕ × Slot
unfolding is_ready reclaim_ready_slot
scan_slot expected index exact slot =
    if not (is_ready slot)
    then (exact, slot)
    else if sequence_is_after slot.sequence expected
    then (exact, slot)
    else if slot.sequence == expected
    then elim exact [
      | none ↦ (some index, slot)
      | some first ↦ (some first, reclaim_ready_slot slot)
    ]
    else (exact, reclaim_ready_slot slot)

-- `for index in 0..slot_count`; a round reads and writes its own slot alone.
unfoldable pub scan : ℕ → ℕ → Option ℕ → Ring → Option ℕ × Ring
unfolding scan_slot
scan expected index exact [] = (exact, [])
scan expected index exact (slot ∷ ring) =
    let (exact', slot') = scan_slot expected index exact slot in
    let (found, ring') = scan expected (index + 1) exact' ring in (found, slot' ∷ ring')

-- What the caller of a read sees: the outcome, the time of publication, and its buffer.
abbrev pub Outcome : Type 0
Outcome = PlaybackConsume × Option ℕ × List ℕ

-- `samples[..sample_count].copy_from_slice(audio)`
unfoldable pub copy_into : ℕ → List ℕ → List ℕ → List ℕ
copy_into sample_count audio samples = take sample_count audio ++ drop sample_count samples

-- `(published != 0).then_some(published)`
unfoldable pub timestamp : ℕ → Option ℕ
timestamp published = if published == 0 then none else some published

-- `cutoff.is_some_and(|cutoff| published == 0 || published > cutoff)`
unfoldable pub is_late : Option ℕ → ℕ → Bool
is_late none published = false
is_late (some cutoff) published = published == 0 || ltb cutoff published

-- The part of `try_consume_exact` behind its scan.
unfoldable pub take_exact : ℕ → ℕ → Option ℕ → List ℕ → Option ℕ → Ring → Outcome × Ring
unfolding is_ready timestamp is_late copy_into
take_exact sample_count expected cutoff samples none ring =
    ((PlaybackConsume.missing, none, samples), ring)
take_exact sample_count expected cutoff samples (some index) ring =
    let slot = slot_at ring index in
    let freed = set ring index (record slot { state = slot_free }) in
    let published = slot.published_nanos in
    if not (is_ready slot)
    then ((PlaybackConsume.missing, none, samples), ring)
    else if not (slot.sequence == expected)
    then ((PlaybackConsume.missing, none, samples), freed)
    else if is_late cutoff published
    then ((PlaybackConsume.late, timestamp published, samples), freed)
    else (
      (PlaybackConsume.ready, timestamp published, copy_into sample_count slot.audio samples),
      freed,
    )

unfoldable pub try_consume_exact : ℕ → ℕ → Option ℕ → List ℕ → Ring → Outcome × Ring
unfolding scan take_exact
try_consume_exact sample_count expected cutoff samples ring =
    if sample_count == 0
    then ((PlaybackConsume.missing, none, samples), ring)
    else if ltb (length samples) sample_count
    then ((PlaybackConsume.missing, none, samples), ring)
    else let (exact, ring') = scan expected 0 none ring in
      take_exact sample_count expected cutoff samples exact ring'

-- A slot with the block that is written into it.
unfoldable pub filled : ℕ → ℕ → List ℕ → Slot
filled sequence published audio = record {
  state = slot_ready;
  sequence = sequence;
  published_nanos = published;
  audio = audio;
}

-- What `try_publish` leaves: whether it published, the ring, and the producer's index.
abbrev pub Published : Type 0
Published = Bool × Ring × ℕ

-- The body of the loop of `try_publish` once a free slot is claimed. `published` is the clock's
-- answer for a stamped block (`none` if it fails) and 0 for one that is not stamped.
unfoldable pub publish_at : ℕ → ℕ → Option ℕ → List ℕ → ℕ → Ring → ℕ → Published
unfolding filled next_index
publish_at sample_count sequence published samples producer ring index =
    let slot = slot_at ring index in
    let audio = take sample_count samples in
    elim published [
      | none ↦ (
        false,
        set ring index (record slot { state = slot_free; sequence = sequence; audio = audio }),
        producer,
      )
      | some nanos ↦
          (true, set ring index (filled sequence nanos audio), next_index index (length ring))
    ]

-- `for offset in 0..slot_count` from some offset on.
unfoldable pub publish_loop : ℕ → ℕ → ℕ → ℕ → Option ℕ → List ℕ → ℕ → Ring → Published
unfolding publish_at
publish_loop zero offset sample_count sequence published samples producer ring =
    (false, ring, producer)
publish_loop (suc rounds) offset sample_count sequence published samples producer ring =
    let index = (producer + offset) % length ring in
    let rest =
      publish_loop rounds (offset + 1) sample_count sequence published samples producer ring in
    if (slot_at ring index).state == slot_free
    then publish_at sample_count sequence published samples producer ring index
    else rest

unfoldable pub try_publish : ℕ → ℕ → Option ℕ → List ℕ → ℕ → Ring → Published
unfolding publish_loop
try_publish sample_count sequence published samples producer ring =
    if sample_count == 0
    then (false, ring, producer)
    else if ltb (length samples) sample_count
    then (false, ring, producer)
    else publish_loop (length ring) 0 sample_count sequence published samples producer ring
