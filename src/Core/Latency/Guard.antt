-- ===== src/Core/Latency/Guard.antt =====
-- The latency guard stays in its arrays, and asks for a rebase only on evidence.
use side_alsa.Base.{
  ℕ, ◌+◌, ◌*◌, ◌≤◌, ◌<◌, ◌≡◌, ◌≢◌, ◌⊎◌, refl, Bool, true, false, Option, none, some, inl, inr, List,
  [], ◌∷◌, length, arith, ◌||◌, set, length-set, if◌then◌else◌, u64_mod, Bool-cases,
}
use side_alsa.Base.Int.{ℤ, ◌+ℤ◌, pos, ltb_ℤ}
use side_alsa.Core.Latency.{
  LatencyGuard, new, ready, completed, sample, same_generation, enter_generation, ready_late,
  window, i64_saturate,
}
use side_alsa.Core.Latency.Median.{length-sort}

-- The window has its nine places, and the next sample goes into one of them.
pub record IsValid (g : LatencyGuard) : Type 0 where
  pub nine : length g.samples ≡ window
  pub room : g.count < window

pub new-IsValid : (period_frames : ℤ) (rate : ℕ) → IsValid (new period_frames rate)
unfolding new
new-IsValid period_frames rate = omega arith

pub ready-IsValid :
    (generation now : ℕ) (g : LatencyGuard) → IsValid g → IsValid (ready generation now g)
unfolding ready
ready-IsValid generation now g v = ground arith

pub completed-IsValid : (r now : ℕ) (g : LatencyGuard) → IsValid g → IsValid (completed r now g)
unfolding completed
completed-IsValid r now g v = ground arith

-- A sample on a guard whose window has nine places and a place free keeps the guard's window at
-- nine places, with a place free for the next one.
pub sample-IsValid :
    (now : ℕ) (playback capture : ℤ) (g : LatencyGuard)
    → IsValid g
    → IsValid (sample now playback capture g).1
unfolding sample
sample-IsValid now playback capture g v =
    let filled = set g.samples g.count (i64_saturate (playback +ℤ capture)) in
    ground
      (arith, length-set g.samples g.count (i64_saturate (playback +ℤ capture)), length-sort filled)

-- The calls that drive the guard.
pub data Event : Type 0 where
  readies completes : ℕ → ℕ → Event
  samples : ℕ → ℤ → ℤ → Event

unfoldable pub step : Event → LatencyGuard → Bool × LatencyGuard
unfolding ready completed sample
step (readies generation now) g = (false, ready generation now g)
step (completes r now) g = (false, completed r now g)
step (samples now playback capture) g = sample now playback capture g

-- Whether any call of a history asks for a rebase.
unfoldable pub triggered : List Event → LatencyGuard → Bool
triggered [] g = false
triggered (e ∷ es) g = (step e g).0 || triggered es (step e g).1

-- A call at which the hardware worker is not behind: the wake-up begins a generation, is the first
-- of its guard, or comes within two periods of the one before; the work takes a period at most.
-- Times are words of 64 bits.
abbrev pub IsPunctual : Event → LatencyGuard → Type 0
IsPunctual (readies generation now) g =
    (g.generation ≢ some generation)
    ⊎ (g.last_ready ≡ none)
    ⊎ ((last : ℕ) × (g.last_ready ≡ some last)
        × (now ≤ last + 2 * g.period_nanos)
        × (now < u64_mod))
IsPunctual (completes r now) g = now ≤ r + g.period_nanos
IsPunctual (samples now playback capture) g = Unit

abbrev pub Punctual : List Event → LatencyGuard → Type 0
Punctual [] g = Unit
Punctual (e ∷ es) g = IsPunctual e g × Punctual es (step e g).1

same_generation-cases :
    (o : Option ℕ) (generation : ℕ)
    → ((same_generation o generation ≡ true) × (o ≡ some generation))
      ⊎ (same_generation o generation ≡ false)
unfolding same_generation
same_generation-cases none generation = inr refl
same_generation-cases (some k) generation = ground arith

-- A punctual wake-up is not taken for a late one.
ready_late-IsPunctual :
    (generation now : ℕ) (g : LatencyGuard)
    → IsPunctual (readies generation now) g
    → let g1 = enter_generation generation now g in
      ready_late g1.last_ready g1.period_nanos now ≡ false
unfolding enter_generation ready_late
ready_late-IsPunctual generation now g p = elim (same_generation-cases g.generation generation) [
  | inr other ↦ rw (other, ready_late) refl
  | inl (same, at) ↦ rw same (elim p [
    | inl other ↦ absurd (other at)
    | inr (inl first) ↦ rw (first, ready_late) refl
    | inr (inr (last, before, soon, small)) ↦ rw (before, ready_late) (ground arith)
  ])
]

step-quiet :
    (e : Event) (g : LatencyGuard)
    → g.stalled_until ≡ 0
    → IsPunctual e g
    → ((step e g).0 ≡ false) × ((step e g).1.stalled_until ≡ 0)
unfolding step ready completed sample
step-quiet (readies generation now) g h p = ground (arith, ready_late-IsPunctual generation now g p)
step-quiet (completes r now) g h p = ground arith
step-quiet (samples now playback capture) g h p = ground arith

-- However long the history and whatever the queues: a guard that has noticed no stall never asks for
-- a rebase, if every wake-up in it begins a generation, is the guard's first, or comes within two
-- periods of the one before (at a time of 64 bits), and every period's work takes a period at most.
pub triggered-Punctual :
    (es : List Event) (g : LatencyGuard)
    → g.stalled_until ≡ 0
    → Punctual es g
    → triggered es g ≡ false
unfolding triggered
triggered-Punctual [] g h p = refl
triggered-Punctual (e ∷ es) g h (p, ps) =
    let (quiet, h') = step-quiet e g h p in rw quiet (triggered-Punctual es (step e g).1 h' ps)

-- 1 for a sample with both queues there: a negative one is not a length.
sampled : Event → ℕ
sampled (samples now playback capture) =
    if ltb_ℤ playback (pos 0) || ltb_ℤ capture (pos 0) then 0 else 1
sampled (readies generation now) = 0
sampled (completes r now) = 0

-- How many such samples a history has.
pub samples_in : List Event → ℕ
samples_in [] = 0
samples_in (e ∷ es) = sampled e + samples_in es

-- How many samples in a row the guard has used: those of the window that gave the baseline, of the
-- high windows, and of the window that is open.
progress : LatencyGuard → ℕ
progress g = g.count + window * g.high_windows + elim g.baseline [ none ↦ 0 | some b ↦ window ]

-- A call adds a sample at most.
step-progress : (e : Event) (g : LatencyGuard) → progress (step e g).1 ≤ progress g + sampled e
unfolding step ready completed sample progress sampled enter_generation
step-progress (readies generation now) g = ground arith
step-progress (completes r now) g = ground arith
step-progress (samples now playback capture) g = ground arith

-- The one that asks for a rebase fills the third window.
step-triggers : (e : Event) (g : LatencyGuard) → (step e g).0 ≡ true → 27 ≤ progress g + sampled e
unfolding step sample progress sampled
step-triggers (readies generation now) g h = ground arith
step-triggers (completes r now) g h = ground arith
step-triggers (samples now playback capture) g h = ground arith

triggered-progress :
    (es : List Event) (g : LatencyGuard) → triggered es g ≡ true → 27 ≤ progress g + samples_in es
unfolding triggered samples_in
triggered-progress [] g h = cc
triggered-progress (e ∷ es) g h = elim (Bool-cases (step e g).0) [
  | inl now ↦ let k = step-triggers e g now in omega arith
  | inr later ↦
      let k = triggered-progress es (step e g).1 (rw later at h) in
      let le = step-progress e g in omega arith
]

-- From a guard at the start of a generation, which has neither samples nor a baseline: a history in
-- which any call asks for a rebase has at least 27 samples with both queues, however late the
-- wake-ups are and however long the queues: a window of nine for the baseline, and two high ones.
pub triggered-samples_in :
    (es : List Event) (g : LatencyGuard)
    → g.count ≡ 0
    → g.high_windows ≡ 0
    → g.baseline ≡ none
    → triggered es g ≡ true
    → 27 ≤ samples_in es
triggered-samples_in es g empty low none_yet h =
    let k = triggered-progress es g h in unfold progress in ground arith
