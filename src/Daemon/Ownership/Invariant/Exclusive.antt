-- ===== src/Daemon/Ownership/Invariant/Exclusive.antt =====
-- Who may open a Pro session.
use side_alsa.Base.{ℕ, ◌≡◌, ◌≢◌, ◌⊎◌}
use side_alsa.Protocol.Types.{PortDirection}
use side_alsa.Daemon.Ownership.{
  pro_opened, direction_opened, session_of, ProOwnership, DaemonState, unowned, classic, split,
  pro_opened, direction_opened, session_of,
}

-- Neither Pro session is open.
abbrev pub BothClosed : DaemonState → Type 0
BothClosed d = (d.pro.owner ≡ 0) × (d.pro_capture.owner ≡ 0)

-- A Pro session is recorded as that of this process and user, with this token.
abbrev pub OwnedBy : ℕ → ℕ → ℕ × ℕ → ProOwnership → Type 0
OwnedBy pid uid token unowned = ⊥
OwnedBy pid uid token (classic owner) = ⊥
OwnedBy pid uid token (split pid' uid' token' p c) =
    (pid' ≡ pid) × (uid' ≡ uid) × (token'.0 ≡ token.0) × (token'.1 ≡ token.1)

-- A process and a token that are not 0 may open a direction if neither is open, or if the other one
-- is theirs and this one is closed.
abbrev pub MayOpen : ℕ → ℕ → ℕ × ℕ → PortDirection → DaemonState → Type 0
MayOpen pid uid token direction d =
    (pid ≢ 0)
    × ((token.0 ≢ 0) ⊎ (token.1 ≢ 0))
    × (BothClosed d
        ⊎ (OwnedBy pid uid token d.pro_ownership × ((session_of direction d).owner ≡ 0)))

module _ (pid uid : ℕ) (token : ℕ × ℕ) where
  -- The part of `MayOpen` that is about the owners.
  Allowed : PortDirection → ProOwnership → DaemonState → Type 0
  Allowed direction o d =
      BothClosed d ⊎ (OwnedBy pid uid token o × ((session_of direction d).owner ≡ 0))
