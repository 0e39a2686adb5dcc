-- ===== src/Daemon/Ownership/Invariant/Taken.antt =====
-- The ids that are taken, and what an attempt to open does to an owner.
use side_alsa.Base.{
  ℕ, ◌+◌, ◌≡◌, ◌≢◌, ◌<◌, inl, inr, refl, Option, none, some, List, [], ◌∷◌, Result, ok, err, ◌==◌,
  All, ◌≤◌, arith, Bool-cases,
}
use side_alsa.Protocol.Layout.{SharedRegionLayout}
use side_alsa.Daemon.Session.{SessionState, try_open_layout, session_closing}
use side_alsa.Daemon.Session.Lifecycle.{IsSession}
use side_alsa.Daemon.Ownership.{SharedPortState, DaemonState, next_session_id}
use side_alsa.Daemon.Ownership.Ids.{next_session_id-next}
use side_alsa.Daemon.Ownership.Invariant.{IsPort, Inv}

-- What an attempt to open a session does to its owner.
abbrev pub Effect :
    {E : Type 0} → ℕ → Result E (Option SharedRegionLayout) → SessionState → SessionState → Type 0
Effect id (ok (some layout)) s s' = (s.owner ≡ 0) × (s'.owner ≡ id)
Effect id (ok none) s s' = s'.owner ≡ s.owner
Effect id (err e) s s' = s'.owner ≡ s.owner

pub try_open_layout-Effect :
    {E : Type 0} (id generation : ℕ) (created : Result E SharedRegionLayout) (s : SessionState)
    → IsSession s
    → let (outcome, s') = try_open_layout id generation created s in
      IsSession s' × Effect id outcome s s'
unfolding try_open_layout
try_open_layout-Effect id generation (ok layout) s v = elim (Bool-cases (s.owner == 0)) [
  | inl p ↦
      rw p (record { active_owner = ground arith; endpoint_owner = inr refl }, (ground arith, refl))
  | inr p ↦ rw p (v, refl)
]
try_open_layout-Effect id generation (err e) s v = elim (Bool-cases (s.owner == 0)) [
  | inl p ↦ rw p (record { active_owner = ground arith; endpoint_owner = inl refl }, ground arith)
  | inr p ↦ rw p (v, refl)
]

pub All-IsPort :
    (n m : ℕ) (ports : List SharedPortState) → n ≤ m → All (IsPort n) ports → All (IsPort m) ports
All-IsPort n m [] h a = tt
All-IsPort n m (port ∷ ports) h a = ((a.0.0, omega (arith, a.0.1)), All-IsPort n m ports h a.1)

-- An id was taken, which no Pro session has.
pub record Taken (n : ℕ) (id : ℕ) (d : DaemonState) : Type 0 where
  pub inv : Inv n d
  pub id_pos : id ≢ 0
  pub id_lt : id < d.next_session
  pub pro_ne : d.pro.owner ≢ id
  pub capture_ne : d.pro_capture.owner ≢ id

pub taken :
    (n : ℕ) (d : DaemonState)
    → Inv n d
    → n < session_closing
    → let (id, next') = next_session_id d.next_session in
      Taken (n + 1) id (record d { next_session = next' })
taken n d v room =
    let e =
      next_session_id-next d.next_session (omega (arith, v.pro_lt)) (omega (arith, v.next_le)) in
    rw e record {
      inv = record {
        pro = v.pro;
        pro_capture = v.pro_capture;
        shared = All-IsPort d.next_session (d.next_session + 1) d.shared (omega arith) v.shared;
        agrees = v.agrees;
        apart = v.apart;
        pro_lt = omega (arith, v.pro_lt);
        capture_lt = omega (arith, v.capture_lt);
        next_le = omega (arith, v.next_le);
      };
      id_pos = omega (arith, v.pro_lt);
      id_lt = omega arith;
      pro_ne = omega (arith, v.pro_lt);
      capture_ne = omega (arith, v.capture_lt);
    }

pub weaken : (n : ℕ) (d : DaemonState) → Inv n d → Inv (n + 1) d
weaken n d v = record {
  pro = v.pro;
  pro_capture = v.pro_capture;
  shared = v.shared;
  agrees = v.agrees;
  apart = v.apart;
  pro_lt = v.pro_lt;
  capture_lt = v.capture_lt;
  next_le = omega (arith, v.next_le);
}

-- A session changes whose owner stays.
pub same-pro :
    (n : ℕ) (s : SessionState) (d : DaemonState)
    → Inv n d
    → IsSession s
    → s.owner ≡ d.pro.owner
    → Inv n (record d { pro = s })
same-pro n s d v w e = record {
  pro = w;
  pro_capture = v.pro_capture;
  shared = v.shared;
  agrees = rw e v.agrees;
  apart = rw e v.apart;
  pro_lt = rw e v.pro_lt;
  capture_lt = v.capture_lt;
  next_le = v.next_le;
}

pub same-capture :
    (n : ℕ) (s : SessionState) (d : DaemonState)
    → Inv n d
    → IsSession s
    → s.owner ≡ d.pro_capture.owner
    → Inv n (record d { pro_capture = s })
same-capture n s d v w e = record {
  pro = v.pro;
  pro_capture = w;
  shared = v.shared;
  agrees = rw e v.agrees;
  apart = rw e v.apart;
  pro_lt = v.pro_lt;
  capture_lt = rw e v.capture_lt;
  next_le = v.next_le;
}
