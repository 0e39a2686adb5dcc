-- ===== src/Daemon/Ownership/Ids.antt =====
-- The ids of sessions.
use side_alsa.Base.{
  ℕ, ◌+◌, ◌-◌, ◌≡◌, ◌<◌, refl, true, some, ◌||◌, ◌==◌, if◌then◌else◌, u64_mod, wrapping_add, arith,
}
use side_alsa.Daemon.Session.{session_closing}
use side_alsa.Daemon.Ownership.{is_session_id, next_session_id_within, next_session_id}

-- From any word of 64 bits, the loop of `next_session_id` ends within three rounds, with an id that
-- is neither 0 nor that of a closing session: the word itself, or 1 where the word is 0 or 2^64 - 1.
pub next_session_id-ends :
    (next_session : ℕ)
    → next_session < u64_mod
    → (next_session_id_within 3 next_session ≡ some (next_session_id next_session))
      × (is_session_id (next_session_id next_session).0 ≡ true)
      × ((next_session_id next_session).1 < u64_mod)
      × ((next_session_id next_session).0
          ≡ (if next_session == 0 || next_session == u64_mod - 1 then 1 else next_session))
unfolding next_session_id next_session_id_within
next_session_id-ends next_session h = ground arith

-- In order, below the id of a closing session.
pub next_session_id-next :
    (next_session : ℕ)
    → 0 < next_session
    → next_session < session_closing
    → next_session_id next_session ≡ (next_session, next_session + 1)
unfolding next_session_id next_session_id_within
next_session_id-next next_session pos h =
    let fits : wrapping_add next_session 1 ≡ next_session + 1 = omega arith in
    let valid : is_session_id next_session ≡ true = ground arith in
    rw (next_session_id, next_session_id_within, valid, fits) refl
