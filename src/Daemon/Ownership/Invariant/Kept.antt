-- ===== src/Daemon/Ownership/Invariant/Kept.antt =====
-- Every call keeps the invariant.
use side_alsa.Base.{length, suc, ℕ, ◌+◌, ◌≡◌, ◌<◌, inl, refl, List, [], ◌∷◌, All, arith}
use side_alsa.Protocol.Types.{PortDirection}
use side_alsa.Protocol.Layout.{SharedRegionLayout}
use side_alsa.Config.Types.{Text}
use side_alsa.Daemon.Session.{session_closing}
use side_alsa.Daemon.Ownership.{new, new_ports, DaemonState}
use side_alsa.Daemon.Ownership.Invariant.Opened.{
  open_pro-Inv, open_pro_direction-Inv, open_shared-Inv,
}
use side_alsa.Daemon.Ownership.Invariant.Taken.{weaken}
use side_alsa.Daemon.Ownership.Invariant.{
  IsPort, Inv, Call, call_open_pro, call_open_pro_direction, call_open_shared, call_start,
  call_start_pro_aligned, call_stop, call_close, perform, perform_all,
}
use side_alsa.Daemon.Ownership.Invariant.Running.{
  start-Leaves, start_pro_aligned-Leaves, stop-Leaves,
}
use side_alsa.Daemon.Ownership.Invariant.Closed.{close-Leaves}

perform-Inv :
    {E : Type 0} (n : ℕ) (c : Call E) (d : DaemonState)
    → Inv n d
    → n < session_closing
    → Inv (n + 1) (perform c d)
unfolding perform
perform-Inv n (call_open_pro generation created) d v room =
    open_pro-Inv n generation created d v room
perform-Inv n (call_open_pro_direction pid uid token direction generation created) d v room =
    open_pro_direction-Inv n pid uid token direction generation created d v room
perform-Inv n (call_open_shared port_id generation created) d v room =
    open_shared-Inv n port_id generation created d v room
perform-Inv n (call_start id generation) d v room =
    weaken n _ (start-Leaves n id generation d v).inv
perform-Inv n (call_start_pro_aligned id generation) d v room =
    weaken n _ (start_pro_aligned-Leaves n id generation d v).inv
perform-Inv n (call_stop id) d v room = weaken n _ (stop-Leaves n id d v).inv
perform-Inv n (call_close id) d v room = weaken n _ (close-Leaves n id d v).inv

perform_all-Inv :
    {E : Type 0} (n : ℕ) (calls : List (Call E)) (d : DaemonState)
    → Inv n d
    → n + length calls < session_closing
    → Inv (n + length calls) (perform_all calls d)
unfolding perform_all
perform_all-Inv n [] d v room = let e : n + 0 ≡ n = omega arith in rw e v
perform_all-Inv n (c ∷ calls) d v room =
    let e : n + suc (length calls) ≡ n + 1 + length calls = omega arith in
    rw e (
      perform_all-Inv (n + 1) calls (perform c d) (perform-Inv n c d v (omega arith)) (omega arith))

new-Inv :
    (pro pro_capture : SharedRegionLayout)
    (ports : List (Text × PortDirection × SharedRegionLayout))
    → Inv 1 (new pro pro_capture ports)
unfolding new
new-Inv pro pro_capture ports = record {
  pro = record { active_owner = inl refl; endpoint_owner = inl refl };
  pro_capture = record { active_owner = inl refl; endpoint_owner = inl refl };
  shared = shared ports;
  agrees = (refl, refl);
  apart = inl refl;
  pro_lt = omega arith;
  capture_lt = omega arith;
  next_le = omega arith;
}
  where
    shared :
        (ports : List (Text × PortDirection × SharedRegionLayout))
        → All (IsPort 1) (new_ports ports)
    shared [] = tt
    shared (p ∷ ports) =
        ((record { active_owner = inl refl; endpoint_owner = inl refl }, omega arith), shared ports)

-- After any calls that open, start, stop and close sessions of a new daemon, fewer than 2^64 - 2: a
-- session is active only for its owner and has the owner's endpoint, the record of the owners of
-- the Pro sessions agrees with the sessions, no id owns both of them, and the owner of every
-- session, Pro or shared, is below the next id.
pub new-perform_all :
    {E : Type 0} (pro pro_capture : SharedRegionLayout)
    (ports : List (Text × PortDirection × SharedRegionLayout)) (calls : List (Call E))
    → 1 + length calls < session_closing
    → Inv (1 + length calls) (perform_all calls (new pro pro_capture ports))
new-perform_all pro pro_capture ports calls room =
    perform_all-Inv 1 calls (new pro pro_capture ports) (new-Inv pro pro_capture ports) room
