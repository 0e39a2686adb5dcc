-- ===== src/Core/Timeline/Extremes.antt =====
-- The least and the greatest value that a timeline reports are those of all values recorded.
use side_alsa.Base.{ℕ, ◌+◌, ◌<◌, ◌≡◌, List, [], ◌∷◌, All, min, max, arith, u64_max}
use side_alsa.Base.Int.{ℤ, pos_part}
use side_alsa.Core.Timeline.Words.{HardwareTimeline, StreamDirection}
use side_alsa.Core.Timeline.{update_minimum, update_maximum, decode_minimum, update_pcm_delay}

-- One more value under a minimum that is there.
decode_minimum-update :
    (m v : ℕ) → m < u64_max → v < u64_max → update_minimum (m + 1) v ≡ min m v + 1
unfolding update_minimum
decode_minimum-update m v h k = ground arith

update_maximum-max : (m v : ℕ) → update_maximum m v ≡ max m v
unfolding update_maximum
update_maximum-max m v = ground arith

-- The delays of a stream in the order of their updates, with the period in force.
pub update_delays : StreamDirection → ℕ → List ℤ → HardwareTimeline → HardwareTimeline
update_delays direction period [] t = t
update_delays direction period (d ∷ ds) t =
    update_delays direction period ds (update_pcm_delay direction d period t)

-- The least and the greatest of a value and the positive parts of a list.
abbrev pub least : ℕ → List ℤ → ℕ
least m [] = m
least m (d ∷ ds) = least (min m (pos_part d)) ds

abbrev pub greatest : ℕ → List ℤ → ℕ
greatest m [] = m
greatest m (d ∷ ds) = greatest (max m (pos_part d)) ds

update_delays-from :
    (period m n : ℕ) (ds : List ℤ) (t : HardwareTimeline)
    → m < u64_max
    → All (λ d. pos_part d < u64_max) ds
    → t.playback_delay_min_frames ≡ m + 1
    → t.playback_delay_max_frames ≡ n
    → let t' = update_delays StreamDirection.playback period ds t in
      (t'.playback_delay_min_frames ≡ least m ds + 1)
      × (t'.playback_delay_max_frames ≡ greatest n ds)
unfolding update_delays update_pcm_delay
update_delays-from period m n [] t h v e f = (e, f)
update_delays-from period m n (d ∷ ds) t h v e f =
    update_delays-from period (min m (pos_part d)) (max n (pos_part d)) ds
      (update_pcm_delay StreamDirection.playback d period t) (omega arith) v.1
      (rw e (decode_minimum-update m (pos_part d) h v.0)) (rw f (update_maximum-max n (pos_part d)))

-- From a timeline without playback delays, the reported minimum and maximum after any updates are
-- the least and the greatest of the delays recorded, those below zero counted as 0, if all lie below
-- the greatest 64-bit number.
pub update_delays-extremes :
    (period : ℕ) (d : ℤ) (ds : List ℤ) (t : HardwareTimeline)
    → All (λ e. pos_part e < u64_max) (d ∷ ds)
    → t.playback_delay_min_frames ≡ 0
    → t.playback_delay_max_frames ≡ 0
    → let t' = update_delays StreamDirection.playback period (d ∷ ds) t in
      (decode_minimum t'.playback_delay_min_frames ≡ least (pos_part d) ds)
      × (t'.playback_delay_max_frames ≡ greatest (pos_part d) ds)
unfolding update_delays update_pcm_delay decode_minimum
update_delays-extremes period d ds t v e f =
    let rest =
      update_delays-from period (pos_part d) (pos_part d) ds
        (update_pcm_delay StreamDirection.playback d period t) v.0 v.1
        (unfold update_minimum in rw e (ground arith))
        (rw f (unfold update_maximum in ground arith)) in
    (omega (arith, rest.0), rest.1)
