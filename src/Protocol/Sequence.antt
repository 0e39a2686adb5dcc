-- ===== src/Protocol/Sequence.antt =====
-- `sequence_order` of crates/sidealsa-protocol/src/lib.rs: the order of wrapping sequence numbers.
pub mod Laws
use Prim.Native.Nat.{Ordering}
use side_alsa.Base.{
  ℕ, ◌^◌, Bool, true, false, Option, none, some, ltb, ◌==◌, if◌then◌else◌, wrapping_sub,
}

abbrev pub half_range : ℕ
half_range = 2 ^ 63

unfoldable pub sequence_order : ℕ → ℕ → Option Ordering
sequence_order candidate reference =
    let distance = wrapping_sub candidate reference in
    if distance == 0
    then some Ordering.eq
    else if ltb distance half_range
    then some Ordering.gt
    else if distance == half_range
    then none
    else some Ordering.lt

unfoldable pub sequence_is_after : ℕ → ℕ → Bool
unfolding sequence_order
sequence_is_after candidate reference = elim (sequence_order candidate reference) [
  | some o ↦ elim o [ Ordering.gt ↦ true | _ ↦ false ]
  | none ↦ false
]

unfoldable pub sequence_is_before : ℕ → ℕ → Bool
unfolding sequence_order
sequence_is_before candidate reference = elim (sequence_order candidate reference) [
  | some o ↦ elim o [ Ordering.lt ↦ true | _ ↦ false ]
  | none ↦ false
]
