-- ===== src/Daemon/Session/Lifecycle.antt =====
-- A session from its opening to its close.
use side_alsa.Base.{
  ℕ, ◌≡◌, ◌≢◌, ◌⊎◌, Bool, true, false, Option, none, some, Result, ok, err, ◌==◌, if◌then◌else◌,
  arith,
}
use side_alsa.Protocol.Layout.{SharedRegionLayout}
use side_alsa.Daemon.Session.{SessionState, try_open_layout, start, stop, close}

-- Only the owner is active, and the endpoint is the owner's.
pub record IsSession (s : SessionState) : Type 0 where
  pub active_owner : (s.active ≡ 0) ⊎ (s.active ≡ s.owner)
  pub endpoint_owner : (s.owner ≡ 0) ⊎ (s.endpoint.session_id ≡ s.owner)

-- A session as its clients see it.
pub data Phase : Type 0 where
  closed : Phase
  opened running : ℕ → Phase

unfoldable pub phase : SessionState → Phase
phase s = if s.owner == 0 then closed else if s.active == 0 then opened s.owner else running s.owner

abbrev pub open_phase : ℕ → Phase → Bool × Phase
open_phase id closed = (true, opened id)
open_phase id (opened owner) = (false, opened owner)
open_phase id (running owner) = (false, running owner)

abbrev pub start_phase : ℕ → Phase → Bool × Phase
start_phase id closed = (false, closed)
start_phase id (opened owner) = if owner == id then (true, running owner) else (false, opened owner)
start_phase id (running owner) = (false, running owner)

abbrev pub stop_phase : ℕ → Phase → Bool × Phase
stop_phase id closed = (false, closed)
stop_phase id (opened owner) = (false, opened owner)
stop_phase id (running owner) = if owner == id then (true, opened owner) else (false, running owner)

abbrev pub close_phase : ℕ → Phase → Bool × Phase
close_phase id closed = (false, closed)
close_phase id (opened owner) = if owner == id then (true, closed) else (false, opened owner)
close_phase id (running owner) = if owner == id then (true, closed) else (false, running owner)

-- Whether a session was opened.
abbrev pub is_opened : {E : Type 0} → Result E (Option SharedRegionLayout) → Bool
is_opened (err e) = false
is_opened (ok none) = false
is_opened (ok (some layout)) = true

-- An implementation of a change of phase: what is refused or fails changes no word of the session.
abbrev pub Refines : SessionState → (Phase → Bool × Phase) → Bool → SessionState → Type 0
Refines s spec done s' =
    IsSession s' × ((done, phase s') ≡ spec (phase s)) × ((done ≡ true) ⊎ (s' ≡ s))

phase-cases :
    (s : SessionState)
    → ((s.owner ≡ 0) × (phase s ≡ closed))
      ⊎ (((s.owner ≢ 0) × (s.active ≡ 0) × (phase s ≡ opened s.owner))
          ⊎ ((s.owner ≢ 0) × (s.active ≢ 0) × (phase s ≡ running s.owner)))
unfolding phase
phase-cases s = ground arith

module _ (id : ℕ) (pos : id ≢ 0) (s : SessionState) (v : IsSession s) where
  open-Refines :
      (E : Type 0) (hardware_generation : ℕ) (layout : SharedRegionLayout)
      → let (outcome, s') = try_open_layout {E = E} id hardware_generation (ok layout) s in
        Refines s (open_phase id) (is_opened outcome) s'
  unfolding try_open_layout phase
  open-Refines E g layout = ground arith

  open_error-Refines :
      {E : Type 0} (hardware_generation : ℕ) (error : E)
      → let (outcome, s') = try_open_layout {E = E} id hardware_generation (err error) s in
        Refines s (λ p. (false, p)) (is_opened outcome) s'
  unfolding try_open_layout phase
  open_error-Refines g error = ground arith

  start-Refines :
      (hardware_generation : ℕ)
      → let (done, s') = start id hardware_generation s in Refines s (start_phase id) done s'
  unfolding start phase
  start-Refines g = ground arith

  stop-Refines :
      (epoch : ℕ) → let (done, s', epoch') = stop id s epoch in Refines s (stop_phase id) done s'
  unfolding stop phase
  stop-Refines epoch = ground arith

  close-Refines :
      (epoch : ℕ) → let (done, s', epoch') = close id s epoch in Refines s (close_phase id) done s'
  unfolding close phase
  close-Refines epoch = ground arith

-- For an id that is not 0 and a session whose endpoint is its owner's and that only its owner can
-- have started: opening it succeeds exactly if it is closed and the resources are there; starting it
-- succeeds exactly for the owner of a session that is opened and not running, stopping it for the
-- owner of one that is running, and closing it for the owner of any. Each leaves such a session in
-- the phase that follows, and one that does not succeed leaves every word of it as it was.
pub session-Refines :
    {E : Type 0} (id : ℕ) (generation epoch : ℕ) (layout : SharedRegionLayout) (error : E)
    (s : SessionState)
    → id ≢ 0
    → IsSession s
    → (let (outcome, s') = try_open_layout {E = E} id generation (ok layout) s in
        Refines s (open_phase id) (is_opened outcome) s')
      × (let (outcome, s') = try_open_layout id generation (err error) s in
          Refines s (λ p. (false, p)) (is_opened outcome) s')
      × (let (done, s') = start id generation s in Refines s (start_phase id) done s')
      × (let (done, s', epoch') = stop id s epoch in Refines s (stop_phase id) done s')
      × (let (done, s', epoch') = close id s epoch in Refines s (close_phase id) done s')
session-Refines id generation epoch layout error s pos v = (
  open-Refines id pos s v _ generation layout,
  open_error-Refines id pos s v generation error,
  start-Refines id pos s v generation,
  stop-Refines id pos s v epoch,
  close-Refines id pos s v epoch,
)
