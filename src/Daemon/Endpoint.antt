-- ===== src/Daemon/Endpoint.antt =====
-- `EndpointSlot` of crates/sidealsa-daemon/src/state.rs by atomic steps: any number of readers load
-- the endpoint while it is replaced. An endpoint is the number of its allocation. Replacements and
-- waits exclude one another, as the ownership of a session makes them.
pub mod Replacement
pub mod Drained
pub mod Invariant
pub mod Readers
pub mod Safety
use side_alsa.Base.{
  ℕ, ◌+◌, ◌-◌, ◌%◌, Bool, true, false, Option, none, some, List, [], ◌∷◌, ◌==◌, if◌then◌else◌,
  u32_mod, u64_mod, get_elem?, set, replicate,
}

-- Where a reader stands in `load`, and the guard that it returns.
pub data Reader : Type 0 where
  -- before the load of `reader_epoch`
  idle : Reader
  -- before `RtActivity::enter`
  read : ℕ → Reader
  -- before the second load of `reader_epoch`
  entered : ℕ → Reader
  -- before `drop(activity); continue`
  rejected : ℕ → Reader
  -- before the load of `current`
  checked : ℕ → Reader
  -- with an `EndpointGuard` of the endpoint, whose drop is the next step
  holding : ℕ → ℕ → Reader

-- Where `replace` and `wait_for_idle` stand.
pub data Writer : Type 0 where
  ready : Writer
  -- the retired endpoint, before the epoch is advanced
  swapped : ℕ → Writer
  -- the retired endpoint, if any, and the retired epoch
  draining : Option ℕ → ℕ → Writer

pub record EndpointSlot : Type 0 where
  pub current : ℕ
  pub reader_epoch : ℕ
  -- `reader_activity`
  pub even_activity : ℕ
  pub odd_activity : ℕ
  pub readers : List Reader
  pub writer : Writer
  -- what was given back by `drop(Box::from_raw(..))`, and the next allocation
  pub freed : List ℕ
  pub next : ℕ

-- `RtActivity::enter` on `reader_activity[epoch & 1]`
unfoldable pub enter : ℕ → EndpointSlot → EndpointSlot
enter epoch s =
    if epoch % 2 == 0
    then record s { even_activity = (s.even_activity + 1) % u32_mod }
    else record s { odd_activity = (s.odd_activity + 1) % u32_mod }

-- Its drop.
unfoldable pub leave : ℕ → EndpointSlot → EndpointSlot
leave epoch s =
    if epoch % 2 == 0
    then record s { even_activity = (s.even_activity + u32_mod - 1) % u32_mod }
    else record s { odd_activity = (s.odd_activity + u32_mod - 1) % u32_mod }

-- The next step of a reader in `load`, or the drop of its guard.
unfoldable pub load_step : Reader → EndpointSlot → EndpointSlot × Reader
unfolding enter leave
load_step idle s = (s, read s.reader_epoch)
load_step (read epoch) s = (enter epoch s, entered epoch)
load_step (entered epoch) s =
    (s, (if s.reader_epoch == epoch then checked epoch else rejected epoch))
load_step (rejected epoch) s = (leave epoch s, idle)
load_step (checked epoch) s = (s, holding epoch s.current)
load_step (holding epoch endpoint) s = (leave epoch s, idle)

-- `retired_activity.load(..)`
unfoldable pub activity : ℕ → EndpointSlot → ℕ
activity epoch s = if epoch % 2 == 0 then s.even_activity else s.odd_activity

-- `drop(Box::from_raw(retired))` in `replace`, nothing in `wait_for_idle`
unfoldable pub free : Option ℕ → List ℕ → List ℕ
free none freed = freed
free (some retired) freed = retired ∷ freed

-- `fetch_add` on the epoch, the first step of `wait_for_idle`.
unfoldable pub advance_epoch : Option ℕ → EndpointSlot → EndpointSlot
advance_epoch retired s = record s {
  reader_epoch = (s.reader_epoch + 1) % u64_mod;
  writer = draining retired s.reader_epoch;
}

-- The next step of `replace`, which starts one when none is under way; the loop of
-- `wait_for_idle` tests once.
unfoldable pub replace_step : Writer → EndpointSlot → EndpointSlot
unfolding activity free advance_epoch
replace_step ready s = record s { current = s.next; next = s.next + 1; writer = swapped s.current }
replace_step (swapped retired) s = advance_epoch (some retired) s
replace_step (draining retired epoch) s =
    if activity epoch s == 0 then record s { freed = free retired s.freed; writer = ready } else s

-- The start of `wait_for_idle` without a replacement.
unfoldable pub wait_step : Writer → EndpointSlot → EndpointSlot
unfolding advance_epoch
wait_step ready s = advance_epoch none s
wait_step (swapped retired) s = s
wait_step (draining retired epoch) s = s

pub data Action : Type 0 where
  reader : ℕ → Action
  replace : Action
  wait : Action

unfoldable pub step : Action → EndpointSlot → EndpointSlot
unfolding load_step replace_step wait_step
step (reader i) s = elim (get_elem? s.readers i) [
  | none ↦ s
  | some r ↦ let (s', r') = load_step r s in record s' { readers = set s.readers i r' }
]
step replace s = replace_step s.writer s
step wait s = wait_step s.writer s

-- Any interleaving of the readers and the replacements.
unfoldable pub run : List Action → EndpointSlot → EndpointSlot
unfolding step
run [] s = s
run (a ∷ actions) s = run actions (step a s)

-- `EndpointSlot::new`, with a number of readers.
abbrev pub new_slot : ℕ → EndpointSlot
new_slot readers = record {
  current = 0;
  reader_epoch = 0;
  even_activity = 0;
  odd_activity = 0;
  readers = replicate readers idle;
  writer = ready;
  freed = [];
  next = 1;
}
