-- ===== src/Daemon/Ownership.antt =====
-- The sessions of `DaemonState` of crates/sidealsa-daemon/src/state.rs and who owns them. Each call
-- runs without interruption, as the lock of `pro_ownership` makes those on Pro sessions; the
-- generation of the hardware, and what the creation of resources gives, are arguments.
pub mod Calls
pub mod Ids
pub mod Invariant
use side_alsa.Base.{
  ℕ, zero, suc, ◌+◌, ◌-◌, ◌%◌, ◌^◌, Bool, true, false, not, ◌&&◌, ◌||◌, Option, none, some, List,
  [], ◌∷◌, Result, ok, err, ◌==◌, if◌then◌else◌, u64_mod, wrapping_add,
}
use side_alsa.Base.Text.{bytes_eq}
use side_alsa.Protocol.Types.{PortDirection, playback, capture}
use side_alsa.Protocol.Layout.{SharedRegionLayout}
use side_alsa.Config.Types.{Text}
use side_alsa.Daemon.Session as Session
use side_alsa.Daemon.Session.{SessionState, try_open_layout, session_closing}

pub data ProOwnership : Type 0 where
  unowned : ProOwnership
  classic : ℕ → ProOwnership
  -- `peer_pid`, `peer_uid`, `token`, `playback` and `capture`
  split : ℕ → ℕ → ℕ × ℕ → Option ℕ → Option ℕ → ProOwnership

pub record SharedPortState : Type 0 where
  pub id : Text
  pub direction : PortDirection
  pub session : SessionState

-- `pro_pair_start` is its two bits, that of playback first.
pub record DaemonState : Type 0 where
  pub pro_pair_start : Bool × Bool
  pub pro : SessionState
  pub pro_capture : SessionState
  pub pro_ownership : ProOwnership
  pub shared : List SharedPortState
  pub next_session : ℕ
  pub playback_epoch : ℕ

pub data OpenSharedError (E : Type 0) : Type 0 where
  unknown_port : Text → OpenSharedError E
  resources : E → OpenSharedError E

-- `session_id != 0 && session_id != SESSION_CLOSING`
abbrev pub is_session_id : ℕ → Bool
is_session_id id = not (id == 0) && not (id == session_closing)

-- The loop of `next_session_id`, on fuel: the id and the word afterwards.
unfoldable pub next_session_id_within : ℕ → ℕ → Option (ℕ × ℕ)
next_session_id_within zero next_session = none
next_session_id_within (suc fuel) next_session =
    let next' = wrapping_add next_session 1 in
    let rest = next_session_id_within fuel next' in
    if is_session_id next_session then some (next_session, next') else rest

-- Two ids in a row are skipped at most.
unfoldable pub next_session_id : ℕ → ℕ × ℕ
unfolding next_session_id_within
next_session_id next_session = elim (next_session_id_within 3 next_session) [
  | none ↦ (0, next_session)
  | some taken ↦ taken
]

-- The owner of the Pro session, and what was opened.
abbrev pub ProOpen : Type 0 → Type 0
ProOpen E = Result E (Option (ℕ × SharedRegionLayout))

-- `opened.map(|(shared, fds)| (session_id, shared, fds))`
abbrev pub with_id : {E : Type 0} → ℕ → Result E (Option SharedRegionLayout) → ProOpen E
with_id id (err e) = err e
with_id id (ok none) = ok none
with_id id (ok (some layout)) = ok (some (id, layout))

abbrev pub pro_opened :
    {E : Type 0}
    → ℕ
    → ProOwnership
    → Result E (Option SharedRegionLayout) × SessionState
    → DaemonState
    → ProOpen E × DaemonState
pro_opened id ownership (ok (some layout), session) d =
    (with_id id (ok (some layout)), record d { pro = session; pro_ownership = ownership })
pro_opened id ownership (outcome, session) d = (with_id id outcome, record d { pro = session })

unfoldable pub open_pro :
    {E : Type 0} → ℕ → Result E SharedRegionLayout → DaemonState → ProOpen E × DaemonState
unfolding next_session_id try_open_layout
open_pro generation created d = elim d.pro_ownership [
  | unowned ↦
      let (id, next') = next_session_id d.next_session in
      pro_opened id (classic id) (try_open_layout id generation created d.pro)
        (record d { next_session = next' })
  | classic owner ↦ (ok none, d)
  | split pid uid token p c ↦ (ok none, d)
]

abbrev pub is_none : Option ℕ → Bool
is_none none = true
is_none (some id) = false

-- The arms of `match &*ownership` that go on.
unfoldable pub may_open_direction : ℕ → ℕ → ℕ × ℕ → PortDirection → ProOwnership → Bool
may_open_direction peer_pid peer_uid token direction unowned = true
may_open_direction peer_pid peer_uid token direction (classic owner) = false
may_open_direction peer_pid peer_uid token playback (split pid uid capability p c) =
    pid == peer_pid
    && uid == peer_uid
    && (capability.0 == token.0 && capability.1 == token.1)
    && is_none p
may_open_direction peer_pid peer_uid token capture (split pid uid capability p c) =
    pid == peer_pid
    && uid == peer_uid
    && (capability.0 == token.0 && capability.1 == token.1)
    && is_none c

-- The ownership once a direction is opened.
unfoldable pub own_direction : ℕ → ℕ → ℕ × ℕ → PortDirection → ℕ → ProOwnership → ProOwnership
own_direction peer_pid peer_uid token playback id unowned =
    split peer_pid peer_uid token (some id) none
own_direction peer_pid peer_uid token capture id unowned =
    split peer_pid peer_uid token none (some id)
own_direction peer_pid peer_uid token direction id (classic owner) = classic owner
own_direction peer_pid peer_uid token playback id (split pid uid capability p c) =
    split pid uid capability (some id) c
own_direction peer_pid peer_uid token capture id (split pid uid capability p c) =
    split pid uid capability p (some id)

abbrev pub set_session : PortDirection → SessionState → DaemonState → DaemonState
set_session playback s d = record d { pro = s }
set_session capture s d = record d { pro_capture = s }

abbrev pub session_of : PortDirection → DaemonState → SessionState
session_of playback d = d.pro
session_of capture d = d.pro_capture

abbrev pub direction_opened :
    {E : Type 0}
    → PortDirection
    → ℕ
    → ProOwnership
    → Result E (Option SharedRegionLayout) × SessionState
    → DaemonState
    → ProOpen E × DaemonState
direction_opened direction id ownership (ok (some layout), s) d = (
  with_id id (ok (some layout)),
  set_session direction s (record d { pro_ownership = ownership }),
)
direction_opened direction id ownership (outcome, s) d =
    (with_id id outcome, set_session direction s d)

unfoldable pub open_pro_direction :
    {E : Type 0}
    → ℕ
    → ℕ
    → ℕ × ℕ
    → PortDirection
    → ℕ
    → Result E SharedRegionLayout
    → DaemonState
    → ProOpen E × DaemonState
unfolding next_session_id try_open_layout may_open_direction own_direction
open_pro_direction peer_pid peer_uid token direction generation created d =
    if (token.0 == 0 && token.1 == 0) || peer_pid == 0
    then (ok none, d)
    else if not (may_open_direction peer_pid peer_uid token direction d.pro_ownership)
    then (ok none, d)
    else let (id, next') = next_session_id d.next_session in
      direction_opened direction id
        (own_direction peer_pid peer_uid token direction id d.pro_ownership)
        (try_open_layout id generation created (session_of direction d))
        (record d { next_session = next' })

-- The ports of the profile, as `SharedPortState::new` makes them; only playback has the epoch.
unfoldable pub new_ports : List (Text × PortDirection × SharedRegionLayout) → List SharedPortState
unfolding Session.new
new_ports [] = []
new_ports ((id, direction, layout) ∷ ports) =
    record {
      id = id;
      direction = direction;
      session = Session.new layout (elim direction [ playback ↦ true | capture ↦ false ]);
    }
    ∷ new_ports ports

-- `DaemonState::new`, given the layouts of its regions, once their resources are there; of its
-- fields, those that the calls on sessions use.
unfoldable pub new :
    SharedRegionLayout
    → SharedRegionLayout
    → List (Text × PortDirection × SharedRegionLayout)
    → DaemonState
unfolding Session.new new_ports
new pro pro_capture ports = record {
  pro_pair_start = (false, false);
  pro = Session.new pro true;
  pro_capture = Session.new pro_capture false;
  pro_ownership = unowned;
  shared = new_ports ports;
  next_session = 1;
  playback_epoch = 0;
}

-- `matches!(*ownership, ProOwnership::None)`
abbrev pub is_unowned : ProOwnership → Bool
is_unowned unowned = true
is_unowned (classic owner) = false
is_unowned (split pid uid token p c) = false
