-- ===== src/Client/Region/Race.antt =====
-- Two sides that establish one activation at the same time: `establish_activation` by its atomic
-- steps, in any order of the sides. Neither side resets the activation meanwhile.
pub mod Agreement
use side_alsa.Base.{
  ℕ, ◌^◌, ◌<◌, ◌≡◌, ◌≢◌, ◌⊎◌, inl, inr, refl, sym, subst, ◌∙◌, Bool, true, false, not, Option, none,
  some, List, [], ◌∷◌, ◌==◌, if◌then◌else◌, arith, Bool-cases,
}
use side_alsa.Client.Region.{
  SharedRegion, establish_activation, activation_token, activation_pending, activation_ready_state,
}

-- `SHARED_ACTIVATION_CLAIMED`
abbrev pub activation_claimed : ℕ
activation_claimed = 1

-- Where a side stands in `establish_activation`: before its `compare_exchange`, behind it with the
-- word claimed, behind the store of the start, or returned, having won, or having lost with a
-- result.
pub data Stage : Type 0 where
  idle claimed stored won : Stage
  lost : Bool → Stage

-- The two words that both sides write, and the stage of each side.
pub record Race : Type 0 where
  pub activation_state : ℕ
  pub start_sequence : ℕ
  pub first : Stage
  pub second : Stage

-- The next atomic step of a side: its stage and the two words afterwards.
unfoldable pub advance : (generation sequence : ℕ) → Stage → ℕ → ℕ → Stage × ℕ × ℕ
unfolding activation_token
advance generation sequence idle word start =
    if word == activation_token generation activation_pending
    then (claimed, activation_token generation activation_claimed, start)
    else (lost (not (word == activation_token generation activation_ready_state)), word, start)
advance generation sequence claimed word start = (stored, word, sequence)
advance generation sequence stored word start =
    (won, activation_token generation activation_ready_state, start)
advance generation sequence won word start = (won, word, start)
advance generation sequence (lost result) word start = (lost result, word, start)

pub data Side : Type 0 where
  first_side second_side : Side

module _ (generation s1 s2 : ℕ) where
  unfoldable pub step : Side → Race → Race
  unfolding advance
  step first_side w =
      let (stage, word, start) =
        advance generation s1 w.first w.activation_state w.start_sequence in
      record w { first = stage; activation_state = word; start_sequence = start }
  step second_side w =
      let (stage, word, start) =
        advance generation s2 w.second w.activation_state w.start_sequence in
      record w { second = stage; activation_state = word; start_sequence = start }

  unfoldable pub run : List Side → Race → Race
  unfolding step
  run [] w = w
  run (side ∷ sides) w = run sides (step side w)

-- What a call returns, once it has.
abbrev pub returned : Stage → Option Bool
returned won = some true
returned (lost result) = some result
returned _ = none

abbrev pub alone : SharedRegion → Race
alone r = record {
  activation_state = r.header.activation_state;
  start_sequence = r.header.start_sequence;
  first = idle;
  second = idle;
}

-- Three steps of one side without the other are one run of `establish_activation`: they leave the
-- same two words and return the same result, whatever the activation was.
run-establish_activation :
    (sequence other : ℕ) (r : SharedRegion)
    → let (result, r') = establish_activation sequence r in
      let w =
        run r.header.lifecycle_generation sequence other
          (first_side ∷ first_side ∷ first_side ∷ [])
          (alone r) in
      (returned w.first ≡ some result)
      × (w.activation_state ≡ r'.header.activation_state)
      × (w.start_sequence ≡ r'.header.start_sequence)
unfolding run establish_activation
run-establish_activation sequence other r =
    elim (Bool-cases (
      r.header.activation_state
      == activation_token r.header.lifecycle_generation activation_pending)) [
        | inl pending ↦ rw pending (refl, refl, refl)
        | inr taken ↦ rw taken (refl, refl, refl)
      ]
