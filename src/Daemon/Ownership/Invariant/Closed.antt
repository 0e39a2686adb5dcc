-- ===== src/Daemon/Ownership/Invariant/Closed.antt =====
-- The call that closes a session keeps the invariant.
use side_alsa.Base.{ℕ, ◌≡◌, ◌≢◌, ◌⊎◌, inl, inr, refl, Bool, none, some, arith, Bool-cases}
use side_alsa.Daemon.Session.{SessionState, try_open_layout, session_closing}
use side_alsa.Daemon.Session as Session
use side_alsa.Daemon.Session.Lifecycle.{IsSession}
use side_alsa.Daemon.Ownership.{ProOwnership, DaemonState, unowned, classic, split, is_session_id}
use side_alsa.Daemon.Ownership.Calls.{close, disown}
use side_alsa.Daemon.Ownership.Invariant.{Agrees, Inv}
use side_alsa.Daemon.Ownership.Invariant.Running.{
  close-Effect, pro-Inv, capture-Inv, shared-Inv, any_session-IsPort, Keeps, Leaves, leaves,
}

-- The record of the owners once one of its sessions is closed.
disown-Agrees :
    (id : ℕ) (o : ProOwnership) (bits : Bool × Bool) (pro pro_capture pro' pro_capture' : ℕ)
    → id ≢ 0
    → Agrees o pro pro_capture
    → ((pro ≡ id) × (pro' ≡ 0) × (pro_capture' ≡ pro_capture) × (pro_capture ≢ id))
      ⊎ ((pro ≢ id) × (pro' ≡ pro) × (pro_capture ≡ id) × (pro_capture' ≡ 0))
    → Agrees (disown id o bits).0 pro' pro_capture'
unfolding disown
disown-Agrees id unowned bits a b a' b' pos h c = ground arith
disown-Agrees id (classic owner) bits a b a' b' pos h c = ground arith
disown-Agrees id (split pid uid token none none) bits a b a' b' pos h c = ground arith
disown-Agrees id (split pid uid token (some p) none) bits a b a' b' pos h c = ground arith
disown-Agrees id (split pid uid token none (some q)) bits a b a' b' pos h c = ground arith
disown-Agrees id (split pid uid token (some p) (some q)) bits a b a' b' pos h c = ground arith

module _ (n id : ℕ) (pos : id ≢ 0) (d : DaemonState) (v : Inv n d) (s : SessionState) (epoch : ℕ)
    (w : IsSession s) (closed : s.owner ≡ 0) where
  closed_pro-Inv :
      d.pro.owner ≡ id
      → let (ownership, bits) = disown id d.pro_ownership d.pro_pair_start in
        Inv n (record d {
          pro = s;
          playback_epoch = epoch;
          pro_ownership = ownership;
          pro_pair_start = bits;
        })
  closed_pro-Inv e =
      let other : d.pro_capture.owner ≢ id = ground (arith, v.apart) in
      record {
        pro = w;
        pro_capture = v.pro_capture;
        shared = v.shared;
        agrees =
            disown-Agrees id d.pro_ownership d.pro_pair_start d.pro.owner d.pro_capture.owner
              s.owner d.pro_capture.owner pos v.agrees (inl (e, closed, refl, other));
        apart = inl closed;
        pro_lt = omega (arith, closed, v.pro_lt);
        capture_lt = v.capture_lt;
        next_le = v.next_le;
      }

  closed_capture-Inv :
      d.pro_capture.owner ≡ id
      → d.pro.owner ≢ id
      → let (ownership, bits) = disown id d.pro_ownership d.pro_pair_start in
        Inv n (record d {
          pro_capture = s;
          playback_epoch = epoch;
          pro_ownership = ownership;
          pro_pair_start = bits;
        })
  closed_capture-Inv e other = record {
    pro = v.pro;
    pro_capture = w;
    shared = v.shared;
    agrees =
        disown-Agrees id d.pro_ownership d.pro_pair_start d.pro.owner d.pro_capture.owner
          d.pro.owner s.owner pos v.agrees (inr (other, refl, e, closed));
    apart = ground (arith, closed);
    pro_lt = v.pro_lt;
    capture_lt = omega (arith, closed, v.pro_lt);
    next_le = v.next_le;
  }

close-Keeps : (id : ℕ) → Keeps (Session.close id)
close-Keeps id s epoch k =
    let (w, e) = close-Effect id s epoch k in
    (
      w,
      elim e [
        | inl (done, own, closed) ↦ omega (arith, closed)
        | inr (done, own, kept) ↦ omega (arith, kept)
      ],
    )

pub close-Leaves : (n id : ℕ) (d : DaemonState) → Inv n d → Leaves n (close id d)
unfolding close
close-Leaves n id d v =
    let (done, s, epoch) = Session.close id d.pro d.playback_epoch in
    let (done', s', epoch') = Session.close id d.pro_capture epoch in
    let (w, e) = close-Effect id d.pro d.playback_epoch v.pro in
    let (w', e') = close-Effect id d.pro_capture epoch v.pro_capture in
    elim (Bool-cases (is_session_id id)) [
      | inr p ↦ rw p (leaves _ _ v)
      | inl p ↦
          let pos : id ≢ 0 = ground arith in
          elim e [
            | inl (q, own, closed) ↦
                rw (p, q) (leaves _ _ (closed_pro-Inv n id pos d v s epoch w closed own))
            | inr (q, own, kept) ↦
                let d1 : DaemonState = record d { pro = s } in
                let v1 : Inv n d1 = pro-Inv n d v s d.pro_pair_start d.playback_epoch w kept in
                elim e' [
                  | inl (r, own', closed') ↦
                      rw (p, q, r)
                        (leaves _ _ (
                          closed_capture-Inv n id pos d1 v1 s' epoch' w' closed' own'
                            (omega (arith, own, kept))))
                  | inr (r, own', kept') ↦
                      rw (p, q, r)
                        (leaves _ _ (
                          shared-Inv n (record d1 { pro_capture = s'; playback_epoch = epoch' })
                            (capture-Inv n d1 v1 s' d.pro_pair_start epoch' w' kept') _ _
                            (any_session-IsPort d.next_session (Session.close id) (close-Keeps id)
                              d.shared epoch' v.shared)))
                ]
          ]
    ]
