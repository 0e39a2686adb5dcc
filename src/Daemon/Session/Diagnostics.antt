-- ===== src/Daemon/Session/Diagnostics.antt =====
-- The diagnostics of clients outlive the regions that they were counted in.
use side_alsa.Base.{
  ℕ, ◌+◌, ◌%◌, ◌≡◌, refl, Result, ok, err, ◌==◌, u64_mod, wrapping_add, arith, inl, inr, Bool-cases,
}
use side_alsa.Protocol.Layout.{SharedRegionLayout}
use side_alsa.Client.Region.{initialize}
use side_alsa.Daemon.Session.{
  SessionState, try_open_layout, start, stop, close, playback_diagnostics,
}

add_nothing : (n : ℕ) → wrapping_add (n % u64_mod) 0 ≡ n % u64_mod
add_nothing n = omega arith

open-kept :
    {E : Type 0} (id generation : ℕ) (resources : Result E SharedRegionLayout) (s : SessionState)
    → playback_diagnostics (try_open_layout id generation resources s).1 ≡ playback_diagnostics s
unfolding playback_diagnostics try_open_layout initialize
open-kept id generation (err e) s = elim (Bool-cases (s.owner == 0)) [
  | inl p ↦ rw (p, try_open_layout) refl
  | inr p ↦ rw (p, try_open_layout) refl
]
open-kept id generation (ok layout) s = elim (Bool-cases (s.owner == 0)) [
  | inl p ↦
      let h = s.endpoint.region.header in
      let d = s.retired_client_playback in
      rw (p, try_open_layout)
        (rw
          (
            add_nothing (d.expired_playback_periods + h.client_expired_playback_periods),
            add_nothing (d.playback_submit_failures + h.client_playback_submit_failures),
            add_nothing (d.playback_xruns + h.client_playback_xruns),
          )
          refl)
  | inr p ↦ rw (p, try_open_layout) refl
]

start-kept :
    (id generation : ℕ) (s : SessionState)
    → playback_diagnostics (start id generation s).1 ≡ playback_diagnostics s
unfolding playback_diagnostics start
start-kept id generation s = ground arith

stop-kept :
    (id : ℕ) (s : SessionState) (epoch : ℕ)
    → playback_diagnostics (stop id s epoch).1 ≡ playback_diagnostics s
unfolding playback_diagnostics stop
stop-kept id s epoch = ground arith

close-kept :
    (id : ℕ) (s : SessionState) (epoch : ℕ)
    → playback_diagnostics (close id s epoch).1 ≡ playback_diagnostics s
unfolding playback_diagnostics close
close-kept id s epoch = ground arith

-- Opening a session, whether it succeeds, is refused or fails, starting, stopping and closing one
-- leave the sums of the client's diagnostics over all regions, retired and current, as they were.
pub playback_diagnostics-kept :
    {E : Type 0} (id generation epoch : ℕ) (resources : Result E SharedRegionLayout)
    (s : SessionState)
    → (playback_diagnostics (try_open_layout id generation resources s).1 ≡ playback_diagnostics s)
      × (playback_diagnostics (start id generation s).1 ≡ playback_diagnostics s)
      × (playback_diagnostics (stop id s epoch).1 ≡ playback_diagnostics s)
      × (playback_diagnostics (close id s epoch).1 ≡ playback_diagnostics s)
playback_diagnostics-kept id generation epoch resources s = (
  open-kept id generation resources s,
  start-kept id generation s,
  stop-kept id s epoch,
  close-kept id s epoch,
)
