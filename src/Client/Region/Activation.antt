-- ===== src/Client/Region/Activation.antt =====
-- The first of the two sides to establish an activation decides its start.
use side_alsa.Base.{◌<◌, ◌≢◌, ◌^◌, ℕ, ◌≡◌, true, false, arith}
use side_alsa.Client.Region.{
  SharedRegion, activation_token, activation_pending, establish_activation, activation_ready,
  activation_ready_state, reset_activation, set_lifecycle_generation,
}

-- While an activation is pending, the call that establishes it sets the start and makes it ready;
-- a later call of the same generation is refused and changes nothing.
pub establish_activation-once :
    (first second : ℕ) (r : SharedRegion)
    → r.header.activation_state ≡ activation_token r.header.lifecycle_generation activation_pending
    → let (won, r') = establish_activation first r in
      (won ≡ true)
      × (r'.header.start_sequence ≡ first)
      × (activation_ready r' ≡ true)
      × (establish_activation second r' ≡ (false, r'))
unfolding establish_activation activation_ready
establish_activation-once first second r pending = ground arith

-- With generations below 2^62, a region that was ready for one generation is not ready for the next
-- until it is established again, even before it is reset; and after a reset it is pending, so that
-- the next call that establishes it wins.
pub establish_activation-reset_activation :
    (old generation sequence : ℕ) (r : SharedRegion)
    → old < 2 ^ 62
    → generation < 2 ^ 62
    → old ≢ generation
    → r.header.activation_state ≡ activation_token old activation_ready_state
    → let r0 = set_lifecycle_generation generation r in
      let r1 = reset_activation r0 in
      let (won, r2) = establish_activation sequence r1 in
      (activation_ready r0 ≡ false)
      × (activation_ready r1 ≡ false)
      × (won ≡ true)
      × (activation_ready r2 ≡ true)
      × (r2.header.start_sequence ≡ sequence)
unfolding establish_activation activation_ready reset_activation set_lifecycle_generation
establish_activation-reset_activation old generation sequence r small small' apart ready =
    ground arith
