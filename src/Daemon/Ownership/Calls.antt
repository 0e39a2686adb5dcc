-- ===== src/Daemon/Ownership/Calls.antt =====
-- The calls of `DaemonState` that are given the id of a session, and `open_shared`.
use side_alsa.Base.{
  ℕ, Bool, true, false, not, ◌&&◌, ◌||◌, Option, none, some, List, [], ◌∷◌, Result, ok, err, ◌==◌,
  if◌then◌else◌,
}
use side_alsa.Base.Text.{bytes_eq}
use side_alsa.Protocol.Types.{PortDirection}
use side_alsa.Protocol.Layout.{SharedRegionLayout}
use side_alsa.Config.Types.{Text}
use side_alsa.Daemon.Session.{SessionState, try_open_layout}
use side_alsa.Daemon.Session as Session
use side_alsa.Daemon.Ownership.{
  ProOwnership, SharedPortState, DaemonState, OpenSharedError, unowned, classic, split,
  unknown_port, resources, is_session_id, next_session_id, is_none,
}

-- The fields of `SharedOpen`; the layout stands for the region's info and its descriptors.
pub record SharedOpen : Type 0 where
  pub session_id : ℕ
  pub direction : PortDirection
  pub layout : SharedRegionLayout

-- `.find(|port| port.id.as_ref() == port_id)`, and a change of the port found.
unfoldable pub find_port : Text → List SharedPortState → Option SharedPortState
find_port port_id [] = none
find_port port_id (port ∷ ports) =
    if bytes_eq port.id port_id then some port else find_port port_id ports

unfoldable pub update_port : Text → SessionState → List SharedPortState → List SharedPortState
update_port port_id session [] = []
update_port port_id session (port ∷ ports) =
    if bytes_eq port.id port_id
    then record port { session = session } ∷ ports
    else port ∷ update_port port_id session ports

abbrev pub shared_open :
    {E : Type 0}
    → ℕ
    → PortDirection
    → Result E (Option SharedRegionLayout)
    → Result (OpenSharedError E) (Option SharedOpen)
shared_open id direction (err e) = err (resources e)
shared_open id direction (ok none) = ok none
shared_open id direction (ok (some layout)) =
    ok (some (record { session_id = id; direction = direction; layout = layout }))

unfoldable pub open_shared :
    {E : Type 0}
    → Text
    → ℕ
    → Result E SharedRegionLayout
    → DaemonState
    → Result (OpenSharedError E) (Option SharedOpen) × DaemonState
unfolding find_port update_port next_session_id try_open_layout
open_shared port_id generation created d = elim (find_port port_id d.shared) [
  | none ↦ (err (unknown_port port_id), d)
  | some port ↦
      let (id, next') = next_session_id d.next_session in
      let (outcome, session) = try_open_layout id generation created port.session in
      (
        shared_open id port.direction outcome,
        record d { next_session = next'; shared = update_port port_id session d.shared },
      )
]

-- `self.shared.iter().any(|port| call(port.session))`; the epoch of playback is passed along.
unfoldable pub any_session :
    (SessionState → ℕ → Bool × SessionState × ℕ)
    → List SharedPortState
    → ℕ
    → Bool × List SharedPortState × ℕ
any_session call [] epoch = (false, [], epoch)
any_session call (port ∷ ports) epoch =
    let (done, session, epoch') = call port.session epoch in
    let (later, ports', epoch'') = any_session call ports epoch' in
    let port' : SharedPortState = record port { session = session } in
    if done then (true, port' ∷ ports, epoch') else (later, port' ∷ ports', epoch'')

abbrev pub with_shared : Bool × List SharedPortState × ℕ → DaemonState → Bool × DaemonState
with_shared (done, shared, epoch) d = (done, record d { shared = shared; playback_epoch = epoch })

unfoldable pub start : ℕ → ℕ → DaemonState → Bool × DaemonState
unfolding any_session Session.start
start id generation d =
    let (done, pro') = Session.start id generation d.pro in
    let (capture_done, pro_capture') = Session.start id generation d.pro_capture in
    if not (is_session_id id)
    then (false, d)
    else if d.pro_capture.owner == id || d.pro.owner == id
    then (if d.pro_capture.owner == id
        then (capture_done, record d { pro_capture = pro_capture' })
        else if not (d.pro.owner == id)
        then (false, d)
        else if not (d.pro.active == 0)
        then (false, d)
        else (done, record d { pro = pro' }))
    else with_shared
        (any_session
          (λ session epoch.
            let (done', session') = Session.start id generation session in (done', session', epoch))
          d.shared d.playback_epoch)
        d

-- `option == Some(id)`
abbrev pub is_some : Option ℕ → ℕ → Bool
is_some none id = false
is_some (some n) id = n == id

unfoldable pub start_pro_aligned : ℕ → ℕ → DaemonState → Bool × DaemonState
unfolding Session.start
start_pro_aligned id generation d = elim d.pro_ownership [
  | unowned ↦ (false, d)
  | classic owner ↦ (false, d)
  | split pid uid token p c ↦
      let (done, pro') = Session.start id generation d.pro in
      let (capture_done, pro_capture') = Session.start id generation d.pro_capture in
      if is_some p id
      then (if not (d.pro.active == 0)
          then (false, d)
          else if not done
          then (false, record d { pro_pair_start = (false, d.pro_pair_start.1); pro = pro' })
          else (true, record d { pro_pair_start = (true, d.pro_pair_start.1); pro = pro' }))
      else if is_some c id
      then (if not (d.pro_capture.active == 0)
          then (false, d)
          else if not capture_done
          then (
            false,
            record d { pro_pair_start = (d.pro_pair_start.0, false); pro_capture = pro_capture' },
          )
          else (
            true,
            record d { pro_pair_start = (d.pro_pair_start.0, true); pro_capture = pro_capture' },
          ))
      else (false, d)
]

unfoldable pub stop : ℕ → DaemonState → Bool × DaemonState
unfolding any_session Session.stop
stop id d =
    let (capture_done, pro_capture', epoch) = Session.stop id d.pro_capture d.playback_epoch in
    let (done, pro', epoch') = Session.stop id d.pro epoch in
    if not (is_session_id id)
    then (false, d)
    else if capture_done
    then (
      true,
      record d {
        pro_capture = pro_capture';
        playback_epoch = epoch;
        pro_pair_start = (d.pro_pair_start.0, false);
      },
    )
    else if done
    then (
      true,
      record d {
        pro_capture = pro_capture';
        pro = pro';
        playback_epoch = epoch';
        pro_pair_start = (false, d.pro_pair_start.1);
      },
    )
    else with_shared (any_session (Session.stop id) d.shared epoch')
        (record d { pro_capture = pro_capture'; pro = pro'; playback_epoch = epoch' })

-- The ownership and the bits once a Pro session is closed.
unfoldable pub disown : ℕ → ProOwnership → Bool × Bool → ProOwnership × (Bool × Bool)
disown id unowned bits = (unowned, bits)
disown id (classic owner) bits = ((if owner == id then unowned else classic owner), bits)
disown id (split pid uid token p c) bits =
    let p' = if is_some p id then none else p in
    let c' = if is_some c id then none else c in
    (
      (if is_none p' && is_none c' then unowned else split pid uid token p' c'),
      ((if is_some p id then false else bits.0), (if is_some c id then false else bits.1)),
    )

unfoldable pub close : ℕ → DaemonState → Bool × DaemonState
unfolding any_session Session.close disown
close id d =
    let (done, pro', epoch) = Session.close id d.pro d.playback_epoch in
    let (capture_done, pro_capture', epoch') = Session.close id d.pro_capture epoch in
    let (ownership, bits) = disown id d.pro_ownership d.pro_pair_start in
    if not (is_session_id id)
    then (false, d)
    else if done
    then (
      true,
      record d {
        pro = pro';
        playback_epoch = epoch;
        pro_ownership = ownership;
        pro_pair_start = bits;
      },
    )
    else if capture_done
    then (
      true,
      record d {
        pro = pro';
        pro_capture = pro_capture';
        playback_epoch = epoch';
        pro_ownership = ownership;
        pro_pair_start = bits;
      },
    )
    else with_shared (any_session (Session.close id) d.shared epoch')
        (record d { pro = pro'; pro_capture = pro_capture'; playback_epoch = epoch' })

unfoldable pub any_owner : ℕ → List SharedPortState → Bool
any_owner id [] = false
any_owner id (port ∷ ports) = port.session.owner == id || any_owner id ports

unfoldable pub owns : ℕ → DaemonState → Bool
unfolding any_owner
owns id d =
    is_session_id id && (d.pro.owner == id || d.pro_capture.owner == id || any_owner id d.shared)
