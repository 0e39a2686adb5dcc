-- ===== src/Daemon/Ownership/Invariant/Opened.antt =====
-- The calls that open sessions keep the invariant.
use side_alsa.Base.{
  ℕ, ◌+◌, ◌≡◌, ◌≢◌, ◌<◌, inl, inr, refl, true, ◌&&◌, ◌||◌, Option, none, some, List, [], ◌∷◌,
  Result, ok, err, ◌==◌, All, arith, Bool-cases, Option-cases, subst,
}
use side_alsa.Base.Text.{bytes_eq}
use side_alsa.Protocol.Types.{PortDirection, playback, capture}
use side_alsa.Protocol.Layout.{SharedRegionLayout}
use side_alsa.Config.Types.{Text}
use side_alsa.Daemon.Session.{SessionState, try_open_layout, session_closing}
use side_alsa.Daemon.Session.Lifecycle.{IsSession}
use side_alsa.Daemon.Ownership.{
  ProOwnership, SharedPortState, DaemonState, unowned, classic, split, open_pro, open_pro_direction,
  next_session_id, may_open_direction, own_direction, pro_opened, direction_opened, session_of,
}
use side_alsa.Daemon.Ownership.Calls.{open_shared, update_port, find_port}
use side_alsa.Daemon.Ownership.Invariant.{Agrees, IsPort, Inv}
use side_alsa.Daemon.Ownership.Invariant.Taken.{
  Effect, try_open_layout-Effect, Taken, taken, weaken, same-pro, same-capture,
}

pro_opened-Inv :
    {E : Type 0} (n id : ℕ) (outcome : Result E (Option SharedRegionLayout)) (s' : SessionState)
    (d : DaemonState)
    → Taken n id d
    → d.pro_ownership ≡ unowned
    → IsSession s'
    → Effect id outcome d.pro s'
    → Inv n (pro_opened id (classic id) (outcome, s') d).1
pro_opened-Inv n id (ok (some layout)) s' d t o w f =
    let agrees = rw o at t.inv.agrees in
    record {
      pro = w;
      pro_capture = t.inv.pro_capture;
      shared = t.inv.shared;
      agrees = (f.1, t.id_pos, agrees.1);
      apart = inr (omega (arith, f.1, t.capture_ne));
      pro_lt = omega (arith, f.1, t.id_lt);
      capture_lt = t.inv.capture_lt;
      next_le = t.inv.next_le;
    }
pro_opened-Inv n id (ok none) s' d t o w f = same-pro n s' d t.inv w f
pro_opened-Inv n id (err e) s' d t o w f = same-pro n s' d t.inv w f

pub open_pro-Inv :
    {E : Type 0} (n generation : ℕ) (created : Result E SharedRegionLayout) (d : DaemonState)
    → Inv n d
    → n < session_closing
    → Inv (n + 1) (open_pro generation created d).1
unfolding open_pro
open_pro-Inv n generation created d v room = go d.pro_ownership refl
  where
    go : (o : ProOwnership) → d.pro_ownership ≡ o → Inv (n + 1) (open_pro generation created d).1
    go unowned e =
        let (id, next') = next_session_id d.next_session in
        let t = taken n d v room in
        let (w, f) = try_open_layout-Effect id generation created d.pro v.pro in
        let (outcome, s') = try_open_layout id generation created d.pro in
        rw (e, open_pro)
          (pro_opened-Inv (n + 1) id outcome s' (record d { next_session = next' }) t e w f)
    go (classic id) e = rw (e, open_pro) (weaken n d v)
    go (split pid uid token p c) e = rw (e, open_pro) (weaken n d v)

-- Recording the owner of a direction that may be opened.
own_direction-Agrees :
    (pid uid : ℕ) (token : ℕ × ℕ) (direction : PortDirection) (id : ℕ) (o : ProOwnership)
    (pro pro_capture : ℕ)
    → pid ≢ 0
    → id ≢ 0
    → may_open_direction pid uid token direction o ≡ true
    → Agrees o pro pro_capture
    → Agrees
        (own_direction pid uid token direction id o)
        (elim direction [ playback ↦ id | capture ↦ pro ])
        (elim direction [ playback ↦ pro_capture | capture ↦ id ])
unfolding own_direction may_open_direction
own_direction-Agrees pid uid token playback id unowned a b q pos m h =
    ((refl, pos), h.1, inl pos, q)
own_direction-Agrees pid uid token capture id unowned a b q pos m h = (h.0, (refl, pos), inr pos, q)
own_direction-Agrees pid uid token direction id (classic owner) a b q pos m h = cc
own_direction-Agrees pid uid token playback id (split p u t x y) a b q pos m h =
    ((refl, pos), h.1, inl pos, h.3)
own_direction-Agrees pid uid token capture id (split p u t x y) a b q pos m h =
    (h.0, (refl, pos), inr pos, h.3)

direction_opened-Inv :
    {E : Type 0} (n pid uid : ℕ) (token : ℕ × ℕ) (direction : PortDirection) (id : ℕ)
    (outcome : Result E (Option SharedRegionLayout)) (s' : SessionState) (d : DaemonState)
    → Taken n id d
    → pid ≢ 0
    → may_open_direction pid uid token direction d.pro_ownership ≡ true
    → IsSession s'
    → Effect id outcome (session_of direction d) s'
    → Inv n
        (direction_opened direction id
          (own_direction pid uid token direction id d.pro_ownership)
          (outcome, s')
          d).1
direction_opened-Inv n pid uid token playback id (ok (some layout)) s' d t q m w f = record {
  pro = w;
  pro_capture = t.inv.pro_capture;
  shared = t.inv.shared;
  agrees = rw f.1 (
      own_direction-Agrees pid uid token playback id d.pro_ownership d.pro.owner d.pro_capture.owner
        q t.id_pos m t.inv.agrees);
  apart = inr (omega (arith, f.1, t.capture_ne));
  pro_lt = omega (arith, f.1, t.id_lt);
  capture_lt = t.inv.capture_lt;
  next_le = t.inv.next_le;
}
direction_opened-Inv n pid uid token capture id (ok (some layout)) s' d t q m w f = record {
  pro = t.inv.pro;
  pro_capture = w;
  shared = t.inv.shared;
  agrees = rw f.1 (
      own_direction-Agrees pid uid token capture id d.pro_ownership d.pro.owner d.pro_capture.owner
        q t.id_pos m t.inv.agrees);
  apart = inr (omega (arith, f.1, t.pro_ne));
  pro_lt = t.inv.pro_lt;
  capture_lt = omega (arith, f.1, t.id_lt);
  next_le = t.inv.next_le;
}
direction_opened-Inv n pid uid token playback id (ok none) s' d t q m w f =
    same-pro n s' d t.inv w f
direction_opened-Inv n pid uid token capture id (ok none) s' d t q m w f =
    same-capture n s' d t.inv w f
direction_opened-Inv n pid uid token playback id (err e) s' d t q m w f = same-pro n s' d t.inv w f
direction_opened-Inv n pid uid token capture id (err e) s' d t q m w f =
    same-capture n s' d t.inv w f

pub open_pro_direction-Inv :
    {E : Type 0} (n pid uid : ℕ) (token : ℕ × ℕ) (direction : PortDirection) (generation : ℕ)
    (created : Result E SharedRegionLayout) (d : DaemonState)
    → Inv n d
    → n < session_closing
    → Inv (n + 1) (open_pro_direction pid uid token direction generation created d).1
unfolding open_pro_direction
open_pro_direction-Inv {E = E} n pid uid token direction generation created d v room =
    elim (Bool-cases ((token.0 == 0 && token.1 == 0) || pid == 0)) [
      | inl p ↦ rw p (weaken n d v)
      | inr p ↦ elim (Bool-cases (may_open_direction pid uid token direction d.pro_ownership)) [
        | inr m ↦ rw (p, m) (weaken n d v)
        | inl m ↦
            let (id, next') = next_session_id d.next_session in
            let t = taken n d v room in
            let (w, f) =
              try_open_layout-Effect id generation created (session_of direction d)
                (both direction) in
            let (outcome, s') = try_open_layout id generation created (session_of direction d) in
            rw (p, m)
              (direction_opened-Inv (n + 1) pid uid token direction id outcome s'
                (record d { next_session = next' }) t (ground arith) m w
                (same direction outcome s' f))
      ]
    ]
  where
    both : (direction : PortDirection) → IsSession (session_of direction d)
    both playback = v.pro
    both capture = v.pro_capture

    same :
        (direction : PortDirection) (outcome : Result E (Option SharedRegionLayout))
        (s' : SessionState)
        → Effect (next_session_id d.next_session).0 outcome (session_of direction d) s'
        → Effect
            (next_session_id d.next_session).0
            outcome
            (session_of direction (record d { next_session = (next_session_id d.next_session).1 }))
            s'
    same playback outcome s' f = f
    same capture outcome s' f = f

update_port-IsPort :
    (next : ℕ) (port_id : Text) (s : SessionState) (ports : List SharedPortState)
    → IsSession s × (s.owner < next)
    → All (IsPort next) ports
    → All (IsPort next) (update_port port_id s ports)
unfolding update_port
update_port-IsPort next port_id s [] w a = tt
update_port-IsPort next port_id s (port ∷ ports) w a =
    elim (Bool-cases (bytes_eq port.id port_id)) [
      | inl e ↦ rw e (w, a.1)
      | inr e ↦ rw e (a.0, update_port-IsPort next port_id s ports w a.1)
    ]

find_port-IsPort :
    (next : ℕ) (port_id : Text) (ports : List SharedPortState) {port : SharedPortState}
    → All (IsPort next) ports
    → find_port port_id ports ≡ some port
    → IsPort next port
unfolding find_port
find_port-IsPort next port_id [] a h = cc
find_port-IsPort next port_id (q ∷ ports) {port} a h = elim (Bool-cases (bytes_eq q.id port_id)) [
  | inl e ↦ let same : q ≡ port = (let k = rw e at h in cc) in subst (IsPort next) same a.0
  | inr e ↦ find_port-IsPort next port_id ports a.1 (rw e at h)
]

-- An attempt to open leaves the owner that there was, or the new id.
Effect-owner :
    {E : Type 0} (n id : ℕ) (outcome : Result E (Option SharedRegionLayout)) (s s' : SessionState)
    → id < n
    → s.owner < n
    → Effect id outcome s s'
    → s'.owner < n
Effect-owner n id (ok (some layout)) s s' h k f = omega (arith, f.1)
Effect-owner n id (ok none) s s' h k f = omega (arith, f)
Effect-owner n id (err e) s s' h k f = omega (arith, f)

pub open_shared-Inv :
    {E : Type 0} (n : ℕ) (port_id : Text) (generation : ℕ) (created : Result E SharedRegionLayout)
    (d : DaemonState)
    → Inv n d
    → n < session_closing
    → Inv (n + 1) (open_shared port_id generation created d).1
unfolding open_shared
open_shared-Inv n port_id generation created d v room =
    elim (Option-cases (find_port port_id d.shared)) [
      | inl e ↦ rw (e, open_shared) (weaken n d v)
      | inr (port, e) ↦
          let (id, next') = next_session_id d.next_session in
          let t = taken n d v room in
          let (w, f) =
            try_open_layout-Effect id generation created port.session
              (find_port-IsPort d.next_session port_id d.shared v.shared e).0 in
          let (outcome, s') = try_open_layout id generation created port.session in
          let held = find_port-IsPort next' port_id d.shared t.inv.shared e in
          let below = Effect-owner next' id outcome port.session s' t.id_lt held.1 f in
          rw (e, open_shared)
            record {
              pro = v.pro;
              pro_capture = v.pro_capture;
              shared = update_port-IsPort next' port_id s' d.shared (w, below) t.inv.shared;
              agrees = v.agrees;
              apart = v.apart;
              pro_lt = t.inv.pro_lt;
              capture_lt = t.inv.capture_lt;
              next_le = t.inv.next_le;
            }
    ]
