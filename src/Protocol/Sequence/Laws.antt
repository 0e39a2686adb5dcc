-- ===== src/Protocol/Sequence/Laws.antt =====
-- Sequence numbers compare by the shorter way round, also across the wrap.
use side_alsa.Base.{ℕ, ◌+◌, ◌<◌, ◌≡◌, ◌↔◌, true, none, u64_mod, wrapping_add, wrapping_sub, arith}
use side_alsa.Protocol.Sequence.{half_range, sequence_order, sequence_is_after, sequence_is_before}

-- The distance from a number to the one that lies `d` steps ahead of it is `d`.
wrapping_sub-wrapping_add :
    (r d : ℕ) → r < u64_mod → d < u64_mod → wrapping_sub (wrapping_add r d) r ≡ d
wrapping_sub-wrapping_add r d hr hd = omega arith

-- Among 64-bit numbers, one is after another exactly if it lies ahead of it by more than nothing
-- and less than half the range, whether or not the count wraps in between.
pub sequence_is_after_iff :
    (r d : ℕ)
    → r < u64_mod
    → d < u64_mod
    → (sequence_is_after (wrapping_add r d) r ≡ true) ↔ ((0 < d) × (d < half_range))
unfolding sequence_is_after
sequence_is_after_iff r d hr hd = ground (arith, wrapping_sub-wrapping_add r d hr hd)

-- Among 64-bit numbers, one is before another exactly if it lies ahead of it by more than half the
-- range, whether or not the count wraps in between.
sequence_is_before_iff :
    (r d : ℕ)
    → r < u64_mod
    → d < u64_mod
    → (sequence_is_before (wrapping_add r d) r ≡ true) ↔ (half_range < d)
unfolding sequence_is_before
sequence_is_before_iff r d hr hd = ground (arith, wrapping_sub-wrapping_add r d hr hd)

-- One 64-bit number is before another exactly when that is after it.
sequence_is_before-swap :
    (a b : ℕ) → a < u64_mod → b < u64_mod → sequence_is_before a b ≡ sequence_is_after b a
unfolding sequence_is_before sequence_is_after
sequence_is_before-swap a b ha hb = ground arith

-- The 64-bit numbers that cannot be ordered are those that lie half the range apart.
sequence_order-none_iff :
    (a b : ℕ)
    → a < u64_mod
    → b < u64_mod
    → (sequence_order a b ≡ none) ↔ (wrapping_add b half_range ≡ a)
unfolding sequence_order
sequence_order-none_iff a b ha hb = ground arith

-- The order of 64-bit numbers is transitive where the two distances together stay below half the
-- range.
pub sequence_is_after_trans :
    (a b c : ℕ)
    → a < u64_mod
    → b < u64_mod
    → c < u64_mod
    → wrapping_sub a b + wrapping_sub b c < half_range
    → sequence_is_after a b ≡ true
    → sequence_is_after b c ≡ true
    → sequence_is_after a c ≡ true
unfolding sequence_is_after
sequence_is_after_trans a b c ha hb hc near h k = ground arith

-- Among 64-bit numbers, one is before another exactly if it lies ahead of it by more than half the
-- range, whether or not the count wraps in between; it is before it exactly when the other is after
-- it; and the two that cannot be ordered are those that lie half the range apart.
pub sequence_order_lem :
    (r d : ℕ)
    → r < u64_mod
    → d < u64_mod
    → ((sequence_is_before (wrapping_add r d) r ≡ true) ↔ (half_range < d))
      × (sequence_is_before r d ≡ sequence_is_after d r)
      × ((sequence_order r d ≡ none) ↔ (wrapping_add d half_range ≡ r))
sequence_order_lem r d hr hd = (
  sequence_is_before_iff r d hr hd,
  sequence_is_before-swap r d hr hd,
  sequence_order-none_iff r d hr hd,
)
