-- ===== src/Core/Timeline/Phase.antt =====
-- The ring of phase samples holds the latest 128, and the statistics are those of these samples.
use side_alsa.Base.{
  ℕ, zero, suc, ◌+◌, ◌-◌, ◌/◌, ◌%◌, ◌≤◌, ◌<◌, ◌≡◌, refl, sym, ap, ap₂, ◌∙◌, false, min, List, [],
  ◌∷◌, ◌++◌, length, get_or, set, drop, arith, u64_mod, ◌==◌, length-append, length-set, append-nil,
  append_assoc, get_or-set_self, get_or-set_ne,
}
use native.Mathlib.Decide.{ℕ_discrete}
use side_alsa.Base.Int.{ℤ, pos}
use side_alsa.Core.Latency.{sort}
use side_alsa.Core.Timeline.Words.{HardwareTimeline, phase_sample_count, new_timeline}
use side_alsa.Core.Timeline.{read_phase, record_duplex_pointer_phase, duplex_pointer_phase}

get_or-append-lt :
    (xs ys : List ℤ) (i : ℕ) → i < length xs → get_or (xs ++ ys) i (pos 0) ≡ get_or xs i (pos 0)
get_or-append-lt [] ys i h = elim h [ ]
get_or-append-lt (x ∷ xs) ys zero h = refl
get_or-append-lt (x ∷ xs) ys (suc i) h = get_or-append-lt xs ys i (omega arith)

get_or-append-length : (xs : List ℤ) (y : ℤ) → get_or (xs ++ y ∷ []) (length xs) (pos 0) ≡ y
get_or-append-length [] y = refl
get_or-append-length (x ∷ xs) y = get_or-append-length xs y

-- The timeline has recorded the samples `xs`, oldest first, since its last reset.
pub record Recorded (xs : List ℤ) (t : HardwareTimeline) : Type 0 where
  pub counted : t.duplex_pointer_phase_sample_count ≡ length xs
  pub places : length t.duplex_pointer_phase_samples ≡ phase_sample_count
  pub latest :
      (i : ℕ)
      → i < length xs
      → length xs ≤ i + phase_sample_count
      → get_or t.duplex_pointer_phase_samples (i % phase_sample_count) (pos 0) ≡ get_or xs i (pos 0)

pub Recorded-new : Recorded [] new_timeline
Recorded-new = record { counted = refl; places = refl; latest = λ i h k. elim h [ ] }

-- A sample is recorded behind the others.
pub Recorded-record :
    (xs : List ℤ) (x : ℤ) (t : HardwareTimeline)
    → suc (length xs) < u64_mod
    → Recorded xs t
    → Recorded (xs ++ x ∷ []) (record_duplex_pointer_phase x t)
unfolding record_duplex_pointer_phase
Recorded-record xs x t small r = record {
  counted = omega (arith, length-append xs (x ∷ []), r.counted);
  places =
      length-set t.duplex_pointer_phase_samples
        (t.duplex_pointer_phase_sample_count % phase_sample_count) x
      ∙ r.places;
  latest = latest;
}
  where
    samples : List ℤ
    samples = t.duplex_pointer_phase_samples

    latest :
        (i : ℕ)
        → i < length (xs ++ x ∷ [])
        → length (xs ++ x ∷ []) ≤ i + phase_sample_count
        → get_or
            (set samples (t.duplex_pointer_phase_sample_count % phase_sample_count) x)
            (i % phase_sample_count)
            (pos 0)
          ≡ get_or (xs ++ x ∷ []) i (pos 0)
    latest i h k = rw r.counted (elim (ℕ_discrete i (length xs)) [
      | yes e ↦ rw e (
          get_or-set_self samples (length xs % phase_sample_count) x (pos 0)
            (omega (arith, r.places))
          ∙ sym (get_or-append-length xs x))
      | no ne ↦
          let below : i < length xs = omega (arith, length-append xs (x ∷ [])) in
          let near : length xs < i + phase_sample_count =
            omega (arith, length-append xs (x ∷ [])) in
          get_or-set_ne samples (length xs % phase_sample_count) (i % phase_sample_count) x (pos 0)
            (omega arith)
          ∙ r.latest i below (omega arith)
          ∙ sym (get_or-append-lt xs (x ∷ []) i below)
    ])

-- The samples that the statistics are taken of: the latest 128, or all if there are fewer.
abbrev pub latest_samples : List ℤ → List ℤ
latest_samples xs = drop (length xs - min (length xs) phase_sample_count) xs

drop-get_or :
    (xs : List ℤ) (i : ℕ) → i < length xs → drop i xs ≡ get_or xs i (pos 0) ∷ drop (suc i) xs
drop-get_or [] i h = elim h [ ]
drop-get_or (x ∷ xs) zero h = refl
drop-get_or (x ∷ xs) (suc i) h = drop-get_or xs i (omega arith)

drop-length : (xs : List ℤ) → drop (length xs) xs ≡ []
drop-length [] = refl
drop-length (x ∷ xs) = drop-length xs

read_phase-drop :
    (xs : List ℤ) (t : HardwareTimeline) (count start : ℕ)
    → Recorded xs t
    → start + count ≡ length xs
    → count ≤ phase_sample_count
    → read_phase t.duplex_pointer_phase_samples start count ≡ drop start xs
unfolding read_phase
read_phase-drop xs t zero start r e h =
    let all : start ≡ length xs = omega arith in rw all (sym (drop-length xs))
read_phase-drop xs t (suc count) start r e h =
    ap₂ ◌∷◌ (r.latest start (omega arith) (omega arith)) (
      read_phase-drop xs t count (start + 1) r (omega arith) (omega arith)
      ∙ ap (λ k. drop k xs) next)
    ∙ sym (drop-get_or xs start (omega arith))
  where
    next : start + 1 ≡ suc start
    next = omega arith

duplex_pointer_phase_lem :
    (xs : List ℤ) (t : HardwareTimeline)
    → Recorded xs t
    → 0 < length xs
    → let sorted = sort (latest_samples xs) in
      let count = min (length xs) phase_sample_count in
      duplex_pointer_phase t ≡ (
        get_or sorted (count / 2) (pos 0),
        get_or sorted 0 (pos 0),
        get_or sorted (count - 1) (pos 0),
        length xs,
      )
unfolding duplex_pointer_phase
duplex_pointer_phase_lem xs t r h =
    rw
      (
        r.counted,
        read_phase-drop xs t (min (length xs) phase_sample_count)
            (length xs - min (length xs) phase_sample_count) r (omega arith) (omega arith),
      )
      (rw nonempty)
  where
    nonempty : (min (length xs) phase_sample_count == 0) ≡ false
    nonempty = ground arith

-- The calls that record the samples of a list, in its order.
pub record_all : List ℤ → HardwareTimeline → HardwareTimeline
record_all [] t = t
record_all (x ∷ xs) t = record_all xs (record_duplex_pointer_phase x t)

record_all-Recorded :
    (ys xs : List ℤ) (t : HardwareTimeline)
    → length ys + length xs < u64_mod
    → Recorded ys t
    → Recorded (ys ++ xs) (record_all xs t)
unfolding record_all
record_all-Recorded ys [] t small r = rw append-nil r
record_all-Recorded ys (x ∷ xs) t small r = rw (← append_assoc ys (x ∷ []) xs) (
    record_all-Recorded (ys ++ x ∷ []) xs (record_duplex_pointer_phase x t)
      (omega (arith, length-append ys (x ∷ []))) (Recorded-record ys x t (omega arith) r))

-- After one or more samples, fewer than 2^64, on a timeline that has counted none, the statistics
-- of the phase are the median, the least and the greatest of the latest 128 of them, as they stand
-- in sorted order, and the number of all.
pub duplex_pointer_phase-record_all :
    (xs : List ℤ) (t : HardwareTimeline)
    → 0 < length xs
    → length xs < u64_mod
    → t.duplex_pointer_phase_sample_count ≡ 0
    → length t.duplex_pointer_phase_samples ≡ phase_sample_count
    → let sorted = sort (latest_samples xs) in
      let count = min (length xs) phase_sample_count in
      duplex_pointer_phase (record_all xs t) ≡ (
        get_or sorted (count / 2) (pos 0),
        get_or sorted 0 (pos 0),
        get_or sorted (count - 1) (pos 0),
        length xs,
      )
duplex_pointer_phase-record_all xs t h small none_yet places =
    duplex_pointer_phase_lem xs (record_all xs t)
      (record_all-Recorded [] xs t (omega arith)
        (record { counted = none_yet; places = places; latest = λ i k l. elim k [ ] }))
      h
