-- ===== src/Client/Slots/Contents.antt =====
-- The abstract view of a ring: the blocks that are ready, by the order of their slots.
use side_alsa.Base.{
  ℕ, zero, suc, ◌≡◌, refl, ap, not, ◌&&◌, Option, none, some, List, [], ◌∷◌, ◌==◌, if◌then◌else◌,
  length, arith,
}
use side_alsa.Protocol.Sequence.{sequence_is_after}
use side_alsa.Client.Slots.{Slot, Ring, slot_free, slot_at, is_ready, reclaim_ready_slot}

-- The sequence number, the time of publication, and the samples.
pub record Block : Type 0 where
  pub sequence : ℕ
  pub published_nanos : ℕ
  pub audio : List ℕ

abbrev pub block : Slot → Block
block s = record { sequence = s.sequence; published_nanos = s.published_nanos; audio = s.audio }

unfoldable pub contents : Ring → List Block
unfolding is_ready
contents [] = []
contents (s ∷ ring) = if is_ready s then block s ∷ contents ring else contents ring

-- The blocks that come after a sequence number.
unfoldable pub keep_after : ℕ → List Block → List Block
keep_after e [] = []
keep_after e (b ∷ bs) =
    if sequence_is_after b.sequence e then b ∷ keep_after e bs else keep_after e bs

-- The first block with a sequence number.
unfoldable pub find_exact : ℕ → List Block → Option Block
find_exact e [] = none
find_exact e (b ∷ bs) = if b.sequence == e then some b else find_exact e bs

-- A ring without the ready blocks that do not come after a sequence number.
unfoldable pub cleared : ℕ → Ring → Ring
unfolding reclaim_ready_slot
cleared e [] = []
cleared e (s ∷ ring) =
    (if sequence_is_after s.sequence e then s else reclaim_ready_slot s) ∷ cleared e ring

pub contents-cleared :
    (e : ℕ) (ring : Ring) → contents (cleared e ring) ≡ keep_after e (contents ring)
unfolding contents cleared keep_after
contents-cleared e [] = refl
contents-cleared e (s ∷ ring) = ground (arith, contents-cleared e ring)

pub length-cleared : (e : ℕ) (ring : Ring) → length (cleared e ring) ≡ length ring
unfolding cleared
length-cleared e [] = refl
length-cleared e (s ∷ ring) = ap suc (length-cleared e ring)

-- What becomes of a slot when the blocks that do not come after a number are given up: a ready one
-- of them is free, with all else kept, and any other is as it was.
abbrev pub given_up : ℕ → Slot → Slot
given_up e s =
    if is_ready s && not (sequence_is_after s.sequence e) then record s { state = slot_free } else s

pub slot_at-cleared :
    (e : ℕ) (ring : Ring) (i : ℕ) → slot_at (cleared e ring) i ≡ given_up e (slot_at ring i)
unfolding cleared is_ready
slot_at-cleared e [] i = refl
slot_at-cleared e (s ∷ ring) zero = ground arith
slot_at-cleared e (s ∷ ring) (suc i) = slot_at-cleared e ring i
