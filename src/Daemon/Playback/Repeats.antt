-- ===== src/Daemon/Playback/Repeats.antt =====
-- A client that stalls: how often its last playback is repeated. docs/installation.md (86-88) and the
-- panel's tooltip (crates/sidealsa-gui/src/main.cpp, 295-297) speak of repeating until playback resumes,
-- with a tone in a long outage; the code stops at `MAX_REPEATED_PLAYBACK_PERIODS`.
use side_alsa.Base.{
  ℕ, ◌+◌, ◌≤◌, ◌≡◌, inl, inr, refl, Bool, true, false, not, ◌&&◌, Option, none, some, List, [], ◌∷◌,
  if◌then◌else◌, arith, Bool-cases,
}
use side_alsa.Base.Int.{ℤ}
use side_alsa.Core.Timeline.Words.{HardwareTimeline}
use side_alsa.Daemon.Session.{SessionState}
use side_alsa.Daemon.Playback.{
  PreparedSharedPlayback, SharedAudioPortBridge, PortState, prepare_playback, is_current,
  commit_prepared,
}
use side_alsa.Daemon.Playback.Prepared.{Leaves, prepare_playback-Leaves}

-- A period: what the bridge finds when it prepares and when it commits, which other threads and the
-- client decide.
pub record Period : Type 0 where
  pub sequence : ℕ
  pub now_nanos : ℕ
  pub current : Bool
  pub before : SessionState
  pub before_timeline : HardwareTimeline
  pub after : SessionState
  pub after_timeline : HardwareTimeline
  pub physical : List ℤ

pub prepared_bridge : Period → SharedAudioPortBridge → SharedAudioPortBridge
prepared_bridge p b =
    (prepare_playback p.sequence p.now_nanos p.current
      (record { session = p.before; bridge = b; timeline = p.before_timeline })).bridge

-- `process_playback`
unfoldable pub process_playback : Period → SharedAudioPortBridge → SharedAudioPortBridge
unfolding prepared_bridge commit_prepared
process_playback p b =
    (commit_prepared p.sequence p.physical (record {
      session = p.after;
      bridge = prepared_bridge p b;
      timeline = p.after_timeline;
    })).1.bridge

abbrev pub is_fresh : Option PreparedSharedPlayback → Bool
is_fresh none = false
is_fresh (some p) = p.fresh

abbrev pub is_repeat : Option PreparedSharedPlayback → Bool
is_repeat none = false
is_repeat (some p) = not p.fresh

-- In how many of the periods the last valid playback is prepared again, and whether the client
-- delivers in none of them.
unfoldable pub repeats : List Period → SharedAudioPortBridge → ℕ
unfolding process_playback prepared_bridge
repeats [] b = 0
repeats (p ∷ periods) b =
    (if is_repeat (prepared_bridge p b).prepared then 1 else 0)
    + repeats periods (process_playback p b)

unfoldable pub is_stalled : List Period → SharedAudioPortBridge → Bool
unfolding process_playback prepared_bridge
is_stalled [] b = true
is_stalled (p ∷ periods) b =
    not (is_fresh (prepared_bridge p b).prepared) && is_stalled periods (process_playback p b)

commit_prepared-repeated :
    (sequence : ℕ) (physical : List ℤ) (c : PortState) (o : Option PreparedSharedPlayback)
    → c.bridge.prepared ≡ o
    → is_fresh o ≡ false
    → (commit_prepared sequence physical c).1.bridge.repeated_periods ≡ c.bridge.repeated_periods
unfolding commit_prepared
commit_prepared-repeated sequence physical c none e h = rw (e, commit_prepared) refl
commit_prepared-repeated sequence physical c (some p) e h =
    elim (Bool-cases (is_current sequence p c)) [
      | inl f ↦ rw (e, commit_prepared, f, h) refl
      | inr f ↦ rw (e, commit_prepared, f) refl
    ]

-- One period accounts for its repeat.
repeat-counts :
    {Q : PreparedSharedPlayback → Type 0} (n : ℕ) (b : SharedAudioPortBridge)
    → Leaves Q n b
    → n ≤ 4
    → is_fresh b.prepared ≡ false
    → ((if is_repeat b.prepared then 1 else 0) + n ≡ b.repeated_periods) × (b.repeated_periods ≤ 4)
repeat-counts n b (inl (e, r)) le h = rw e (omega (arith, r), omega (arith, r))
repeat-counts n b (inr (p, e, q, inl (f, r))) le h = let k = rw e at h in cc
repeat-counts n b (inr (p, e, q, inr (f, lt, r))) le h =
    rw (e, f) (omega (arith, r), omega (arith, r, lt))

-- Whatever other threads and the client do in between: in periods of which the client delivers none
-- in time, the last valid playback is repeated at most 4 times, those before included.
pub repeats-le :
    (periods : List Period) (b : SharedAudioPortBridge)
    → b.repeated_periods ≤ 4
    → is_stalled periods b ≡ true
    → repeats periods b + b.repeated_periods ≤ 4
unfolding repeats is_stalled process_playback
repeats-le [] b le h = omega arith
repeats-le (p ∷ periods) b le h =
    let b1 = prepared_bridge p b in
    let stalls : is_fresh b1.prepared ≡ false = ground arith in
    let later : is_stalled periods (process_playback p b) ≡ true = ground arith in
    let same =
      commit_prepared-repeated p.sequence p.physical
        (record { session = p.after; bridge = b1; timeline = p.after_timeline }) b1.prepared refl
        stalls in
    let leaves =
      prepare_playback-Leaves p.sequence p.now_nanos p.current
        (record { session = p.before; bridge = b; timeline = p.before_timeline }) in
    let (counts, le1) = repeat-counts b.repeated_periods b1 leaves le stalls in
    let rest = repeats-le periods (process_playback p b) (omega (arith, same, le1)) later in
    omega (arith, rest, counts, same)
