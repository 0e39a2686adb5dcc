-- ===== src/Client/Region/Race/Agreement.antt =====
-- What two sides that establish one activation agree on, by an invariant of all their steps.
use side_alsa.Base.{
  ℕ, ◌^◌, ◌<◌, ◌≡◌, ◌≢◌, ◌⊎◌, inl, inr, refl, sym, subst, ◌∙◌, true, false, not, List, [], ◌∷◌,
  ◌==◌, arith, Bool-cases,
}
use side_alsa.Client.Region.{activation_token, activation_pending, activation_ready_state}
use side_alsa.Client.Region.Race.{
  activation_claimed, Stage, idle, claimed, stored, won, lost, Race, Side, first_side, second_side,
  advance, step, run,
}

module _ (generation s1 s2 : ℕ) where
  -- The stage of the side that claimed the word, with what it knows of the words.
  abbrev Holds : Stage → ℕ → ℕ → ℕ → Type 0
  Holds idle sequence word start = ⊥
  Holds claimed sequence word start = word ≡ activation_token generation activation_claimed
  Holds stored sequence word start =
      (word ≡ activation_token generation activation_claimed) × (start ≡ sequence)
  Holds won sequence word start =
      (word ≡ activation_token generation activation_ready_state) × (start ≡ sequence)
  Holds (lost result) sequence word start = ⊥

  -- The stage of the other side.
  abbrev Behind : Stage → ℕ → Type 0
  Behind idle word = Unit
  Behind (lost true) word = Unit
  Behind (lost false) word = word ≡ activation_token generation activation_ready_state
  Behind _ word = ⊥

  abbrev Inv : Race → Type 0
  Inv w =
      ((w.first ≡ idle)
        × (w.second ≡ idle)
        × (w.activation_state ≡ activation_token generation activation_pending))
      ⊎ (Holds w.first s1 w.activation_state w.start_sequence × Behind w.second w.activation_state)
      ⊎ (Holds w.second s2 w.activation_state w.start_sequence × Behind w.first w.activation_state)

  -- The three tokens differ.
  tokens :
      (generation < 2 ^ 62)
      → (activation_token generation activation_pending
          ≢ activation_token generation activation_claimed)
        × (activation_token generation activation_pending
            ≢ activation_token generation activation_ready_state)
        × (activation_token generation activation_claimed
            ≢ activation_token generation activation_ready_state)
  unfolding activation_token
  tokens small = omega arith

  Behind-ready :
      (other : Stage) (word : ℕ)
      → Behind other word
      → Behind other (activation_token generation activation_ready_state)
  Behind-ready idle word b = tt
  Behind-ready (lost true) word b = tt
  Behind-ready (lost false) word b = refl
  Behind-ready claimed word b = b
  Behind-ready stored word b = b
  Behind-ready won word b = b

  -- The holder goes on; what the other side knows stays true.
  advance-Holds :
      (sequence : ℕ) (stage other : Stage) (word start : ℕ)
      → Holds stage sequence word start
      → Behind other word
      → let (stage', word', start') = advance generation sequence stage word start in
        Holds stage' sequence word' start' × Behind other word'
  unfolding advance
  advance-Holds sequence idle other word start h b = absurd h
  advance-Holds sequence claimed other word start h b = ((h, refl), b)
  advance-Holds sequence stored other word start h b = ((refl, h.1), Behind-ready other word b)
  advance-Holds sequence won other word start h b = (h, b)
  advance-Holds sequence (lost result) other word start h b = absurd h

  -- A word that is held is not pending.
  Holds-not_pending :
      (sequence : ℕ) (stage : Stage) (word start : ℕ)
      → generation < 2 ^ 62
      → Holds stage sequence word start
      → (word == activation_token generation activation_pending) ≡ false
  Holds-not_pending sequence idle word start small h = absurd h
  Holds-not_pending sequence claimed word start small h = ground (arith, tokens small)
  Holds-not_pending sequence stored word start small h = ground (arith, tokens small)
  Holds-not_pending sequence won word start small h = ground (arith, tokens small)
  Holds-not_pending sequence (lost result) word start small h = absurd h

  lost-Behind :
      (word : ℕ)
      → Behind (lost (not (word == activation_token generation activation_ready_state))) word
  lost-Behind word =
      elim (Bool-cases (word == activation_token generation activation_ready_state)) [
        | inl same ↦ rw same (ground arith)
        | inr other ↦ rw other tt
      ]

  -- The other side's steps change neither word.
  advance-Behind :
      (sequence : ℕ) (stage : Stage) (word start : ℕ)
      → (word == activation_token generation activation_pending) ≡ false
      → Behind stage word
      → let (stage', word', start') = advance generation sequence stage word start in
        Behind stage' word × (word' ≡ word) × (start' ≡ start)
  unfolding advance
  advance-Behind sequence idle word start held b = rw held (lost-Behind word, refl, refl)
  advance-Behind sequence claimed word start held b = absurd b
  advance-Behind sequence stored word start held b = absurd b
  advance-Behind sequence won word start held b = absurd b
  advance-Behind sequence (lost result) word start held b = (b, refl, refl)

  advance-idle :
      (sequence : ℕ) (stage : Stage) (word start : ℕ)
      → stage ≡ idle
      → word ≡ activation_token generation activation_pending
      → let (stage', word', start') = advance generation sequence stage word start in
        Holds stage' sequence word' start'
  unfolding advance
  advance-idle sequence stage word start i p = rw (i, p) (ground arith)

  idle-Behind : (stage : Stage) (word : ℕ) → stage ≡ idle → Behind stage word
  idle-Behind stage word i = rw i tt

  step-Inv :
      (side : Side) (w : Race) → generation < 2 ^ 62 → Inv w → Inv (step generation s1 s2 side w)
  unfolding step
  step-Inv first_side w small (inl (i, j, p)) = inr (
      inl
        (advance-idle s1 w.first w.activation_state w.start_sequence i p, idle-Behind w.second _ j))
  step-Inv second_side w small (inl (i, j, p)) = inr (
      inr
        (advance-idle s2 w.second w.activation_state w.start_sequence j p, idle-Behind w.first _ i))
  step-Inv first_side w small (inr (inl (h, b))) =
      inr (inl (advance-Holds s1 w.first w.second w.activation_state w.start_sequence h b))
  step-Inv second_side w small (inr (inr (h, b))) =
      inr (inr (advance-Holds s2 w.second w.first w.activation_state w.start_sequence h b))
  step-Inv second_side w small (inr (inl (h, b))) =
      let held = Holds-not_pending s1 w.first w.activation_state w.start_sequence small h in
      let (b', e, f) = advance-Behind s2 w.second w.activation_state w.start_sequence held b in
      inr (inl (rw (e, f) (h, b')))
  step-Inv first_side w small (inr (inr (h, b))) =
      let held = Holds-not_pending s2 w.second w.activation_state w.start_sequence small h in
      let (b', e, f) = advance-Behind s1 w.first w.activation_state w.start_sequence held b in
      inr (inr (rw (e, f) (h, b')))

  run-Inv :
      (sides : List Side) (w : Race)
      → generation < 2 ^ 62
      → Inv w
      → Inv (run generation s1 s2 sides w)
  unfolding run
  run-Inv [] w small v = v
  run-Inv (side ∷ sides) w small v =
      run-Inv sides (step generation s1 s2 side w) small (step-Inv side w small v)

  -- A side has won: the activation is ready, with its start, and the other side has not won.
  abbrev pub FirstWon : Race → Type 0
  FirstWon w =
      (w.first ≡ won)
      × (w.second ≢ won)
      × (w.activation_state ≡ activation_token generation activation_ready_state)
      × (w.start_sequence ≡ s1)

  abbrev pub SecondWon : Race → Type 0
  SecondWon w =
      (w.second ≡ won)
      × (w.first ≢ won)
      × (w.activation_state ≡ activation_token generation activation_ready_state)
      × (w.start_sequence ≡ s2)

  Holds-won :
      (sequence : ℕ) (stage : Stage) (word start : ℕ)
      → generation < 2 ^ 62
      → Holds stage sequence word start
      → word ≡ activation_token generation activation_ready_state
      → (stage ≡ won) × (start ≡ sequence)
  Holds-won sequence idle word start small h r = absurd h
  Holds-won sequence claimed word start small h r = absurd ((tokens small).2 (sym h ∙ r))
  Holds-won sequence stored word start small h r = absurd ((tokens small).2 (sym h.0 ∙ r))
  Holds-won sequence won word start small h r = (refl, h.1)
  Holds-won sequence (lost result) word start small h r = absurd h

  Behind-not_won : (stage : Stage) (word : ℕ) → Behind stage word → stage ≢ won
  Behind-not_won idle word b e = ground arith
  Behind-not_won claimed word b e = b
  Behind-not_won stored word b e = b
  Behind-not_won won word b e = b
  Behind-not_won (lost result) word b e = ground arith

  ready-Won :
      (w : Race)
      → generation < 2 ^ 62
      → Inv w
      → w.activation_state ≡ activation_token generation activation_ready_state
      → FirstWon w ⊎ SecondWon w
  ready-Won w small (inl (i, j, p)) r = absurd ((tokens small).1 (sym p ∙ r))
  ready-Won w small (inr (inl (h, b))) r =
      let (e, f) = Holds-won s1 w.first w.activation_state w.start_sequence small h r in
      inl (e, Behind-not_won w.second w.activation_state b, r, f)
  ready-Won w small (inr (inr (h, b))) r =
      let (e, f) = Holds-won s2 w.second w.activation_state w.start_sequence small h r in
      inr (e, Behind-not_won w.first w.activation_state b, r, f)

  won_first-Inv : (w : Race) → Inv w → w.first ≡ won → FirstWon w
  won_first-Inv w (inl (i, j, p)) e = absurd (ground arith)
  won_first-Inv w (inr (inl (h, b))) e =
      let held = subst (λ stage. Holds stage s1 w.activation_state w.start_sequence) e h in
      (e, Behind-not_won w.second w.activation_state b, held.0, held.1)
  won_first-Inv w (inr (inr (h, b))) e = absurd (Behind-not_won w.first w.activation_state b e)

  won_second-Inv : (w : Race) → Inv w → w.second ≡ won → SecondWon w
  won_second-Inv w (inl (i, j, p)) e = absurd (ground arith)
  won_second-Inv w (inr (inl (h, b))) e = absurd (Behind-not_won w.second w.activation_state b e)
  won_second-Inv w (inr (inr (h, b))) e =
      let held = subst (λ stage. Holds stage s2 w.activation_state w.start_sequence) e h in
      (e, Behind-not_won w.first w.activation_state b, held.0, held.1)

  step-won_first :
      (side : Side) (w : Race) → w.first ≡ won → (step generation s1 s2 side w).first ≡ won
  unfolding step
  step-won_first first_side w e = rw e refl
  step-won_first second_side w e = e

  step-won_second :
      (side : Side) (w : Race) → w.second ≡ won → (step generation s1 s2 side w).second ≡ won
  unfolding step
  step-won_second first_side w e = e
  step-won_second second_side w e = rw e refl

  run-won_first :
      (sides : List Side) (w : Race) → w.first ≡ won → (run generation s1 s2 sides w).first ≡ won
  unfolding run
  run-won_first [] w e = e
  run-won_first (side ∷ sides) w e =
      run-won_first sides (step generation s1 s2 side w) (step-won_first side w e)

  run-won_second :
      (sides : List Side) (w : Race) → w.second ≡ won → (run generation s1 s2 sides w).second ≡ won
  unfolding run
  run-won_second [] w e = e
  run-won_second (side ∷ sides) w e =
      run-won_second sides (step generation s1 s2 side w) (step-won_second side w e)

  -- Two sides establish a pending activation of a generation below 2^62, their atomic steps in any
  -- order, and no one resets it. Once it is ready, one side has won and the other has not, the
  -- start is the winner's, and whatever steps of the two follow, the activation stays ready with
  -- that start.
  pub run-agrees :
      (sides more : List Side) (w : Race)
      → generation < 2 ^ 62
      → w.first ≡ idle
      → w.second ≡ idle
      → w.activation_state ≡ activation_token generation activation_pending
      → (run generation s1 s2 sides w).activation_state
        ≡ activation_token generation activation_ready_state
      → (FirstWon (run generation s1 s2 sides w)
          × FirstWon (run generation s1 s2 more (run generation s1 s2 sides w)))
        ⊎ (SecondWon (run generation s1 s2 sides w)
            × SecondWon (run generation s1 s2 more (run generation s1 s2 sides w)))
  run-agrees sides more w small i j p ready =
      let v = run-Inv sides w small (inl (i, j, p)) in
      let v' = run-Inv more (run generation s1 s2 sides w) small v in
      elim (ready-Won (run generation s1 s2 sides w) small v ready) [
        | inl won1 ↦ inl (
          won1,
          won_first-Inv (run generation s1 s2 more (run generation s1 s2 sides w)) v'
              (run-won_first more (run generation s1 s2 sides w) won1.0),
        )
        | inr won2 ↦ inr (
          won2,
          won_second-Inv (run generation s1 s2 more (run generation s1 s2 sides w)) v'
              (run-won_second more (run generation s1 s2 sides w) won2.0),
        )
      ]
