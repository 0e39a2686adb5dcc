-- ===== src/Daemon/Ownership/Invariant.antt =====
-- What holds of the daemon's sessions between any two calls.
pub mod Closed
pub mod Running
pub mod Taken
pub mod Exclusive
pub mod Kept
pub mod Opened
use side_alsa.Base.{
  ℕ, ◌+◌, ◌%◌, ◌^◌, ◌≡◌, ◌≢◌, ◌<◌, ◌≤◌, ◌⊎◌, inl, inr, refl, Bool, true, false, not, ◌&&◌, ◌||◌,
  Option, none, some, List, [], ◌∷◌, Result, ok, err, ◌==◌, if◌then◌else◌, u64_mod, All, arith,
  Bool-cases,
}
use side_alsa.Protocol.Types.{PortDirection, playback, capture}
use side_alsa.Protocol.Layout.{SharedRegionLayout}
use side_alsa.Config.Types.{Text}
use side_alsa.Daemon.Session.{SessionState}
use side_alsa.Daemon.Session.Lifecycle.{IsSession}
use side_alsa.Daemon.Ownership.{
  ProOwnership, SharedPortState, DaemonState, unowned, classic, split, open_pro, open_pro_direction,
}
use side_alsa.Daemon.Ownership.Calls.{open_shared, start, start_pro_aligned, stop, close}

-- A direction is owned by the one recorded, and by no one else.
abbrev pub Holds : Option ℕ → ℕ → Type 0
Holds none owner = owner ≡ 0
Holds (some id) owner = (owner ≡ id) × (id ≢ 0)

-- The record of the owners agrees with the sessions: unowned sessions are closed, a classic owner
-- has no capture session beside its own, and one of two directions is open, by a named peer.
abbrev pub Agrees : ProOwnership → ℕ → ℕ → Type 0
Agrees unowned pro pro_capture = (pro ≡ 0) × (pro_capture ≡ 0)
Agrees (classic id) pro pro_capture = (pro ≡ id) × (id ≢ 0) × (pro_capture ≡ 0)
Agrees (split pid uid token p c) pro pro_capture =
    Holds p pro × Holds c pro_capture × ((pro ≢ 0) ⊎ (pro_capture ≢ 0)) × (pid ≢ 0)

-- A shared port whose session is one, and whose owner is below the next id.
abbrev pub IsPort : ℕ → SharedPortState → Type 0
IsPort next_session port = IsSession port.session × (port.session.owner < next_session)

-- Ids are handed out in order, so those in use are below the next one; `n` bounds it.
pub record Inv (n : ℕ) (d : DaemonState) : Type 0 where
  pub pro : IsSession d.pro
  pub pro_capture : IsSession d.pro_capture
  pub shared : All (IsPort d.next_session) d.shared
  pub agrees : Agrees d.pro_ownership d.pro.owner d.pro_capture.owner
  pub apart : (d.pro.owner ≡ 0) ⊎ (d.pro.owner ≢ d.pro_capture.owner)
  pub pro_lt : d.pro.owner < d.next_session
  pub capture_lt : d.pro_capture.owner < d.next_session
  pub next_le : d.next_session ≤ n

-- The calls of a client or of a connection that ends.
pub data Call (E : Type 0) : Type 0 where
  call_open_pro : ℕ → Result E SharedRegionLayout → Call E
  call_open_pro_direction : ℕ → ℕ → ℕ × ℕ → PortDirection → ℕ → Result E SharedRegionLayout → Call E
  call_open_shared : Text → ℕ → Result E SharedRegionLayout → Call E
  call_start call_start_pro_aligned : ℕ → ℕ → Call E
  call_stop call_close : ℕ → Call E

unfoldable pub perform : {E : Type 0} → Call E → DaemonState → DaemonState
unfolding open_pro open_pro_direction open_shared start start_pro_aligned stop close
perform (call_open_pro generation created) d = (open_pro generation created d).1
perform (call_open_pro_direction pid uid token direction generation created) d =
    (open_pro_direction pid uid token direction generation created d).1
perform (call_open_shared port_id generation created) d =
    (open_shared port_id generation created d).1
perform (call_start id generation) d = (start id generation d).1
perform (call_start_pro_aligned id generation) d = (start_pro_aligned id generation d).1
perform (call_stop id) d = (stop id d).1
perform (call_close id) d = (close id d).1

unfoldable pub perform_all : {E : Type 0} → List (Call E) → DaemonState → DaemonState
unfolding perform
perform_all [] d = d
perform_all (c ∷ calls) d = perform_all calls (perform c d)
