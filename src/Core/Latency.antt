-- ===== src/Core/Latency.antt =====
-- `LatencyGuard` of crates/sidealsa-core/src/latency.rs: it finds buffering that stays behind after
-- a stall of the hardware worker. An `i64` is an integer; a product that passes 64 bits wraps.
pub mod Median
pub mod Guard
use side_alsa.Base.{
  ℕ, zero, suc, ◌+◌, ◌-◌, ◌*◌, ◌/◌, ◌%◌, ◌^◌, max, Bool, true, false, ◌&&◌, ◌||◌, not, Option, none,
  some, List, [], ◌∷◌, ltb, leb, ◌==◌, if◌then◌else◌, get_or, set, take, drop, replicate, u64_mod,
  saturating_add, saturating_mul,
}
use side_alsa.Base.Int.{ℤ, pos, negsuc, ◌+ℤ◌, ◌-ℤ◌, saturate, leb_ℤ, ltb_ℤ}

abbrev pub window : ℕ
window = 9

abbrev pub warmup_nanos : ℕ
warmup_nanos = 1_000_000_000

abbrev pub stall_window_nanos_min : ℕ
stall_window_nanos_min = 10_000_000_000

pub record LatencyGuard : Type 0 where
  pub period_frames : ℤ
  pub period_nanos : ℕ
  pub sample_periods : ℕ
  pub stall_window_nanos : ℕ
  pub generation : Option ℕ
  pub warm_until : ℕ
  pub last_ready : Option ℕ
  pub stalled_until : ℕ
  pub samples : List ℤ
  pub count : ℕ
  pub baseline : Option ℤ
  pub high_windows : ℕ

-- `i64 as u64`
abbrev pub as_u64 : ℤ → ℕ
as_u64 (pos n) = n
as_u64 (negsuc n) = u64_mod - suc n

abbrev pub i64_saturate : ℤ → ℤ
i64_saturate = saturate (2 ^ 63 - 1)

-- `next_power_of_two`: doubling from `p`, 64 times at most.
next_power_from : ℕ → ℕ → ℕ → ℕ
next_power_from zero p n = p
next_power_from (suc fuel) p n =
    let more = next_power_from fuel (2 * p) n in if leb n p then p else more

unfoldable pub next_power_of_two : ℕ → ℕ
unfolding next_power_from
next_power_of_two n = next_power_from 64 1 n

-- A period of 0 frames or a rate of 0 panics in the source; here the quotient is 0.
unfoldable pub new : ℤ → ℕ → LatencyGuard
unfolding next_power_of_two
new period_frames rate =
    let period_nanos = (as_u64 period_frames * 1_000_000_000) % u64_mod / rate in
    let sample_periods = next_power_of_two (max (rate / as_u64 period_frames / 12) 1) in
    record {
      period_frames = period_frames;
      period_nanos = period_nanos;
      sample_periods = sample_periods;
      stall_window_nanos =
          max stall_window_nanos_min
            (saturating_mul (saturating_mul period_nanos sample_periods) (window * 3));
      generation = none;
      warm_until = 0;
      last_ready = none;
      stalled_until = 0;
      samples = replicate window (pos 0);
      count = 0;
      baseline = none;
      high_windows = 0;
    }

unfoldable pub sample_due : ℕ → LatencyGuard → Bool
sample_due sequence g = sequence % g.sample_periods == 0

unfoldable pub same_generation : Option ℕ → ℕ → Bool
same_generation none generation = false
same_generation (some g) generation = g == generation

-- The first `if` of `ready`.
unfoldable pub enter_generation : ℕ → ℕ → LatencyGuard → LatencyGuard
unfolding same_generation
enter_generation generation now g =
    if same_generation g.generation generation then g else record g {
      generation = some generation;
      warm_until = saturating_add now warmup_nanos;
      last_ready = none;
      stalled_until = 0;
      baseline = none;
      count = 0;
      high_windows = 0;
    }

unfoldable pub ready_late : Option ℕ → ℕ → ℕ → Bool
ready_late none period_nanos now = false
ready_late (some last) period_nanos now = ltb (saturating_mul period_nanos 2) (now - last)

unfoldable pub ready : ℕ → ℕ → LatencyGuard → LatencyGuard
unfolding enter_generation ready_late
ready generation now g =
    let g1 = enter_generation generation now g in
    record g1 {
      stalled_until =
          if ready_late g1.last_ready g1.period_nanos now
          then saturating_add now g1.stall_window_nanos
          else g1.stalled_until;
      last_ready = some now;
    }

unfoldable pub completed : ℕ → ℕ → LatencyGuard → LatencyGuard
completed ready_nanos now g =
    if ltb g.period_nanos (now - ready_nanos)
    then record g { stalled_until = saturating_add now g.stall_window_nanos }
    else g

-- `sort_unstable` of integers: equal ones cannot be told apart, so any sort gives the same list.
unfoldable pub insert_sorted : ℤ → List ℤ → List ℤ
insert_sorted x [] = x ∷ []
insert_sorted x (y ∷ ys) = if leb_ℤ x y then x ∷ y ∷ ys else y ∷ insert_sorted x ys

unfoldable pub sort : List ℤ → List ℤ
unfolding insert_sorted
sort [] = []
sort (x ∷ xs) = insert_sorted x (sort xs)

abbrev pub median_of : List ℤ → ℤ
median_of samples = get_or (sort samples) (window / 2) (pos 0)

-- `high_windows.saturating_add(1)` of a `u8`
abbrev pub next_high : ℕ → ℕ
next_high n = if ltb n 255 then n + 1 else 255

-- What a full window with a baseline does to the count of high windows.
unfoldable pub judge : ℕ → ℤ → ℤ → LatencyGuard → ℕ
judge now median baseline g =
    if ltb now g.stalled_until && leb_ℤ g.period_frames (i64_saturate (median -ℤ baseline))
    then next_high g.high_windows
    else 0

-- The part of `sample` behind a full window.
unfoldable pub close_window : ℕ → LatencyGuard → Bool × LatencyGuard
unfolding sort judge
close_window now g =
    let sorted = record g { count = 0; samples = sort g.samples } in
    let median = median_of g.samples in
    elim g.baseline [
      | none ↦ (false, record sorted { baseline = some median })
      | some baseline ↦
          let high = judge now median baseline g in
          (leb 2 high, record sorted { high_windows = high })
    ]

unfoldable pub sample : ℕ → ℤ → ℤ → LatencyGuard → Bool × LatencyGuard
unfolding close_window
sample now playback capture g =
    if ltb now g.warm_until || (ltb_ℤ playback (pos 0) || ltb_ℤ capture (pos 0))
    then (false, g)
    else let g1 = record g {
      samples = set g.samples g.count (i64_saturate (playback +ℤ capture));
      count = g.count + 1;
    } in
      if not (g1.count == window) then (false, g1) else close_window now g1
