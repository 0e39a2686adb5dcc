-- ===== src/Daemon/Ownership/Invariant/Running.antt =====
-- The calls that start and stop sessions keep the invariant.
use side_alsa.Base.{
  ℕ, ◌≤◌, ◌<◌, ◌≡◌, ◌≢◌, ◌⊎◌, inl, inr, refl, Bool, true, false, not, ◌||◌, List, [], ◌∷◌, ◌==◌,
  if◌then◌else◌, All, arith, Bool-cases,
}
use side_alsa.Daemon.Session.{SessionState, try_open_layout, session_closing}
use side_alsa.Daemon.Session as Session
use side_alsa.Daemon.Session.Lifecycle.{IsSession}
use side_alsa.Daemon.Ownership.{
  ProOwnership, SharedPortState, DaemonState, unowned, classic, split, is_session_id,
}
use side_alsa.Daemon.Ownership.Calls.{start, start_pro_aligned, stop, any_session}
use side_alsa.Daemon.Ownership.Calls.{is_some}
use side_alsa.Daemon.Ownership.Invariant.Taken.{same-pro, same-capture}
use side_alsa.Daemon.Ownership.Invariant.{IsPort, Inv}

start-Effect :
    (id generation : ℕ) (s : SessionState)
    → IsSession s
    → let (done, s') = Session.start id generation s in IsSession s' × (s'.owner ≡ s.owner)
unfolding Session.start
start-Effect id generation s v = ground arith

stop-Effect :
    (id : ℕ) (s : SessionState) (epoch : ℕ)
    → IsSession s
    → let (done, s', epoch') = Session.stop id s epoch in IsSession s' × (s'.owner ≡ s.owner)
unfolding Session.stop
stop-Effect id s epoch v = ground arith

pub close-Effect :
    (id : ℕ) (s : SessionState) (epoch : ℕ)
    → IsSession s
    → let (done, s', epoch') = Session.close id s epoch in
      IsSession s'
      × (((done ≡ true) × (s.owner ≡ id) × (s'.owner ≡ 0))
          ⊎ ((done ≡ false) × (s.owner ≢ id) × (s'.owner ≡ s.owner)))
unfolding Session.close
close-Effect id s epoch v = ground arith

module _ (n : ℕ) (d : DaemonState) (v : Inv n d) where
  pub pro-Inv :
      (s : SessionState) (bits : Bool × Bool) (epoch : ℕ)
      → IsSession s
      → s.owner ≡ d.pro.owner
      → Inv n (record d { pro = s; pro_pair_start = bits; playback_epoch = epoch })
  pro-Inv s bits epoch w e =
      let k = same-pro n s d v w e in
      record {
        pro = k.pro;
        pro_capture = k.pro_capture;
        shared = k.shared;
        agrees = k.agrees;
        apart = k.apart;
        pro_lt = k.pro_lt;
        capture_lt = k.capture_lt;
        next_le = k.next_le;
      }

  pub capture-Inv :
      (s : SessionState) (bits : Bool × Bool) (epoch : ℕ)
      → IsSession s
      → s.owner ≡ d.pro_capture.owner
      → Inv n (record d { pro_capture = s; pro_pair_start = bits; playback_epoch = epoch })
  capture-Inv s bits epoch w e =
      let k = same-capture n s d v w e in
      record {
        pro = k.pro;
        pro_capture = k.pro_capture;
        shared = k.shared;
        agrees = k.agrees;
        apart = k.apart;
        pro_lt = k.pro_lt;
        capture_lt = k.capture_lt;
        next_le = k.next_le;
      }

  pub shared-Inv :
      (shared : List SharedPortState) (epoch : ℕ)
      → All (IsPort d.next_session) shared
      → Inv n (record d { shared = shared; playback_epoch = epoch })
  shared-Inv shared epoch a = record {
    pro = v.pro;
    pro_capture = v.pro_capture;
    shared = a;
    agrees = v.agrees;
    apart = v.apart;
    pro_lt = v.pro_lt;
    capture_lt = v.capture_lt;
    next_le = v.next_le;
  }

-- What a call does to each session it is made on.
abbrev pub Keeps : (SessionState → ℕ → Bool × SessionState × ℕ) → Type 0
Keeps call =
    (s : SessionState) (epoch : ℕ)
    → IsSession s
    → let (done, s', epoch') = call s epoch in IsSession s' × (s'.owner ≤ s.owner)

pub any_session-IsPort :
    (next : ℕ) (call : SessionState → ℕ → Bool × SessionState × ℕ)
    → Keeps call
    → (ports : List SharedPortState) (epoch : ℕ) → All (IsPort next) ports
    → All (IsPort next) (any_session call ports epoch).1
unfolding any_session
any_session-IsPort next call keep [] epoch a = tt
any_session-IsPort next call keep (port ∷ ports) epoch a =
    let (w, le) = keep port.session epoch a.0.0 in
    let below : (call port.session epoch).1.owner < next = omega (arith, le, a.0.1) in
    elim (Bool-cases (call port.session epoch).0) [
      | inl e ↦ rw e ((w, below), a.1)
      | inr e ↦
          rw e ((w, below), any_session-IsPort next call keep ports (call port.session epoch).2 a.1)
    ]

-- The invariant holds of the state that a call leaves.
pub record Leaves (n : ℕ) (r : Bool × DaemonState) : Type 0 where
  pub inv : Inv n r.1

pub leaves : {n : ℕ} (b : Bool) (d : DaemonState) → Inv n d → Leaves n (b, d)
leaves b d v = record { inv = v }

if-Leaves :
    {n : ℕ} (b : Bool) (x y : Bool × DaemonState)
    → Leaves n x
    → Leaves n y
    → Leaves n (if b then x else y)
if-Leaves true x y u v = u
if-Leaves false x y u v = v

pub start-Leaves :
    (n id generation : ℕ) (d : DaemonState) → Inv n d → Leaves n (start id generation d)
unfolding start
start-Leaves n id generation d v =
    let (w, e) = start-Effect id generation d.pro v.pro in
    let (w', e') = start-Effect id generation d.pro_capture v.pro_capture in
    let on_pro =
      pro-Inv n d v (Session.start id generation d.pro).1 d.pro_pair_start d.playback_epoch w e in
    let on_capture =
      capture-Inv n d v (Session.start id generation d.pro_capture).1 d.pro_pair_start
        d.playback_epoch w' e' in
    let call : SessionState → ℕ → Bool × SessionState × ℕ = λ session epoch.
      let (done', session') = Session.start id generation session in (done', session', epoch) in
    let r = any_session call d.shared d.playback_epoch in
    let on_shared = shared-Inv n d v r.1 r.2 (
      any_session-IsPort d.next_session call
        (λ s epoch k. let (w, e) = start-Effect id generation s k in (w, omega (arith, e))) d.shared
        d.playback_epoch v.shared) in
    if-Leaves (not (is_session_id id)) _ _ (leaves _ _ v) (
      if-Leaves (d.pro_capture.owner == id || d.pro.owner == id) _ _
        (if-Leaves (d.pro_capture.owner == id) _ _ (leaves _ _ on_capture) (
          if-Leaves (not (d.pro.owner == id)) _ _ (leaves _ _ v)
            (if-Leaves (not (d.pro.active == 0)) _ _ (leaves _ _ v) (leaves _ _ on_pro))))
        (leaves _ _ on_shared))

pub start_pro_aligned-Leaves :
    (n id generation : ℕ) (d : DaemonState) → Inv n d → Leaves n (start_pro_aligned id generation d)
unfolding start_pro_aligned
start_pro_aligned-Leaves n id generation d v = go d.pro_ownership refl
  where
    go : (o : ProOwnership) → d.pro_ownership ≡ o → Leaves n (start_pro_aligned id generation d)
    go unowned o = rw (o, start_pro_aligned) (leaves _ _ v)
    go (classic owner) o = rw (o, start_pro_aligned) (leaves _ _ v)
    go (split pid uid token p c) o =
        let (w, e) = start-Effect id generation d.pro v.pro in
        let (w', e') = start-Effect id generation d.pro_capture v.pro_capture in
        let on_pro : (bits : Bool × Bool)
            → Inv n
                (record d { pro = (Session.start id generation d.pro).1; pro_pair_start = bits }) =
          λ bits. pro-Inv n d v (Session.start id generation d.pro).1 bits d.playback_epoch w e in
        let on_capture : (bits : Bool × Bool)
            → Inv n (record d {
              pro_capture = (Session.start id generation d.pro_capture).1;
              pro_pair_start = bits;
            }) =
          λ bits.
            capture-Inv n d v (Session.start id generation d.pro_capture).1 bits d.playback_epoch w'
              e' in
        rw (o, start_pro_aligned)
          (if-Leaves (is_some p id) _ _
            (if-Leaves (not (d.pro.active == 0)) _ _ (leaves _ _ v) (
              if-Leaves (not (Session.start id generation d.pro).0) _ _
                (leaves _ _ (on_pro (false, d.pro_pair_start.1)))
                (leaves _ _ (on_pro (true, d.pro_pair_start.1)))))
            (if-Leaves (is_some c id) _ _
              (if-Leaves (not (d.pro_capture.active == 0)) _ _ (leaves _ _ v) (
                if-Leaves (not (Session.start id generation d.pro_capture).0) _ _
                  (leaves _ _ (on_capture (d.pro_pair_start.0, false)))
                  (leaves _ _ (on_capture (d.pro_pair_start.0, true)))))
              (leaves _ _ v)))

pub stop-Leaves : (n id : ℕ) (d : DaemonState) → Inv n d → Leaves n (stop id d)
unfolding stop
stop-Leaves n id d v =
    let (done, s, epoch) = Session.stop id d.pro_capture d.playback_epoch in
    let (done', s', epoch') = Session.stop id d.pro epoch in
    let (w, e) = stop-Effect id d.pro_capture d.playback_epoch v.pro_capture in
    let (w', e') = stop-Effect id d.pro epoch v.pro in
    let d1 : DaemonState = record d { pro_capture = s; playback_epoch = epoch } in
    let v1 : Inv n d1 = capture-Inv n d v s d.pro_pair_start epoch w e in
    let v2 = pro-Inv n d1 v1 s' d.pro_pair_start epoch' w' e' in
    if-Leaves (not (is_session_id id)) _ _ (leaves _ _ v) (
      if-Leaves done _ _ (leaves _ _ (capture-Inv n d v s (d.pro_pair_start.0, false) epoch w e)) (
        if-Leaves done' _ _
          (leaves _ _ (pro-Inv n d1 v1 s' (false, d.pro_pair_start.1) epoch' w' e'))
          (leaves _ _ (
            shared-Inv n (record d1 { pro = s'; playback_epoch = epoch' }) v2 _ _
              (any_session-IsPort d.next_session (Session.stop id)
                (λ s epoch k. let (w, e) = stop-Effect id s epoch k in (w, omega (arith, e)))
                d.shared epoch' v.shared)))))
