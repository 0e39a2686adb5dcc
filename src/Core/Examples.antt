-- ===== src/Core/Examples.antt =====
-- Runs of the core's code, and its theorems at concrete inputs.
use side_alsa.Base.{
  ℕ, ◌+◌, ◌*◌, ◌≤◌, ◌<◌, ◌≡◌, refl, inr, true, false, none, some, List, [], ◌∷◌, ◌++◌, ok, length,
  get_or, arith, wrapping_add, replicate,
}
use side_alsa.Base.Int.{ℤ, pos, negsuc, ◌+ℤ◌, ◌-ℤ◌, ltb_ℤ}
use side_alsa.Core.Routing.{
  CompiledPort, check_buffers, copy_from_physical, copy_to_physical, add_to_physical_saturating,
  saturating_add_i32,
}
use side_alsa.Core.Routing.Reads.{copy_from_physical_lem}
use side_alsa.Core.Routing.Writes.{Put, copy_to_physical_lem, add_to_physical_saturating_lem}
use side_alsa.Base.Text.{bytes_eq}
use side_alsa.Config.Profile.{validate}
use side_alsa.Config.Examples.{profile}
use side_alsa.Core.Routing.Table.{RoutingTable, compile, find_playback, find_capture}
use side_alsa.Core.Routing.Table.Total.{find_playback-total, find_capture-total}
use side_alsa.Core.Latency.{LatencyGuard, new, sample, sort, median_of}
use side_alsa.Core.Latency.Guard.{
  Event, step, readies, completes, samples, triggered, triggered-Punctual, samples_in,
  triggered-samples_in,
}
use side_alsa.Core.Latency.Median.{count_below, median_of-below}
use side_alsa.Core.Timeline.Words.{
  HardwareTimeline, HardwareStats, new_timeline, pro_timing_slot_count,
}
use side_alsa.Core.Timeline.{
  snapshot, duplex_pointer_phase, record_pro_capture_read, pro_capture_elapsed_nanos,
}
use side_alsa.Core.Timeline.Phase.{record_all, duplex_pointer_phase-record_all}
use side_alsa.Core.Timeline.Counters.{
  run, client_miss, core_miss, restart, run-snapshot, record_reads,
  pro_capture_elapsed_nanos-record_reads,
}

-- Two channels of a port on a device with three.
abbrev port : CompiledPort
port = record { id = 97 ∷ []; name = 98 ∷ []; channels = 2 ∷ 0 ∷ [] }

abbrev device_frames : List ℤ
device_frames = pos 1 ∷ pos 2 ∷ pos 3 ∷ pos 4 ∷ pos 5 ∷ pos 6 ∷ []

abbrev port_frames : List ℤ
port_frames = pos 2147483647 ∷ pos 8 ∷ negsuc 3 ∷ pos 10 ∷ []

accepts : check_buffers port 6 3 2 4 ≡ ok tt
unfolding check_buffers
accepts = refl

-- The table of a profile with ports of two, one and one channels.
abbrev table : RoutingTable
table = record {
  playback =
      record { id = 97 ∷ []; name = 97 ∷ []; channels = 1 ∷ 0 ∷ [] }
      ∷ record { id = 98 ∷ []; name = 98 ∷ []; channels = 3 ∷ [] }
      ∷ [];
  capture = record { id = 99 ∷ []; name = 99 ∷ []; channels = 0 ∷ [] } ∷ [];
}

compiles : compile profile ≡ ok table
unfolding compile validate bytes_eq
compiles = refl

finds_playback :
    find_playback table (98 ∷ [])
    ≡ some (record { id = 98 ∷ []; name = 98 ∷ []; channels = 3 ∷ [] })
unfolding find_playback bytes_eq
finds_playback = refl

finds_capture :
    find_capture table (99 ∷ []) ≡ some (record { id = 99 ∷ []; name = 99 ∷ []; channels = 0 ∷ [] })
unfolding find_capture bytes_eq
finds_capture = refl

abbrev eight : List ℤ
eight = pos 1 ∷ pos 2 ∷ pos 3 ∷ pos 4 ∷ pos 5 ∷ pos 6 ∷ pos 7 ∷ pos 8 ∷ []

find_playback-total_example :
    let p : CompiledPort = record { id = 98 ∷ []; name = 98 ∷ []; channels = 3 ∷ [] } in
    (bytes_eq p.id (98 ∷ []) ≡ true)
    × ((physical' : List ℤ) × (copy_to_physical p (pos 10 ∷ pos 11 ∷ []) 4 2 eight
          ≡ some (ok physical'))
        × Put (pos 0) (λ old x. x) p.channels 4 2 (pos 10 ∷ pos 11 ∷ []) eight physical')
    × ((physical' : List ℤ) × (add_to_physical_saturating p (pos 10 ∷ pos 11 ∷ []) 4 2 eight
          ≡ some (ok physical'))
        × Put (pos 0) saturating_add_i32 p.channels 4 2 (pos 10 ∷ pos 11 ∷ []) eight physical')
find_playback-total_example =
    find_playback-total profile table compiles (98 ∷ [])
      (record { id = 98 ∷ []; name = 98 ∷ []; channels = 3 ∷ [] }) 2 (pos 10 ∷ pos 11 ∷ []) eight
      finds_playback (omega arith) (omega arith) (omega arith) (omega arith)

find_capture-total_example :
    let p : CompiledPort = record { id = 99 ∷ []; name = 99 ∷ []; channels = 0 ∷ [] } in
    (bytes_eq p.id (99 ∷ []) ≡ true)
    × ((logical' : List ℤ) × (copy_from_physical p eight 4 2 (pos 0 ∷ pos 0 ∷ [])
          ≡ some (ok logical'))
        × ((t i : ℕ)
            → t < 2
            → i < 1
            → get_or logical' (t * 1 + i) (pos 0)
              ≡ get_or eight (t * 4 + get_or p.channels i 0) (pos 0)))
find_capture-total_example =
    find_capture-total profile table compiles (99 ∷ [])
      (record { id = 99 ∷ []; name = 99 ∷ []; channels = 0 ∷ [] }) 2 eight (pos 0 ∷ pos 0 ∷ [])
      finds_capture (omega arith) (omega arith) (omega arith) (omega arith)

copy_from_physical_lem_example :
    (logical' : List ℤ) × (copy_from_physical port device_frames 3 2 port_frames
      ≡ some (ok logical'))
    × (length logical' ≡ 4)
    × ((t i : ℕ)
        → t < 2
        → i < 2
        → get_or logical' (t * 2 + i) (pos 0)
          ≡ get_or device_frames (t * 3 + get_or port.channels i 0) (pos 0))
    × ((p : ℕ) → 2 * 2 ≤ p → get_or logical' p (pos 0) ≡ get_or port_frames p (pos 0))
copy_from_physical_lem_example =
    copy_from_physical_lem (pos 0) port device_frames 3 2 port_frames accepts

copy_to_physical_lem_example :
    (physical' : List ℤ) × (copy_to_physical port port_frames 3 2 device_frames
      ≡ some (ok physical'))
    × Put (pos 0) (λ old x. x) port.channels 3 2 port_frames device_frames physical'
copy_to_physical_lem_example =
    copy_to_physical_lem (pos 0) port port_frames 3 2 device_frames (omega arith) accepts

add_to_physical_saturating_lem_example :
    (physical' : List ℤ) × (add_to_physical_saturating port port_frames 3 2 device_frames
      ≡ some (ok physical'))
    × Put (pos 0) saturating_add_i32 port.channels 3 2 port_frames device_frames physical'
add_to_physical_saturating_lem_example =
    add_to_physical_saturating_lem (pos 0) port port_frames 3 2 device_frames (omega arith) accepts

add_to_physical_saturating-port :
    add_to_physical_saturating port port_frames 3 2 device_frames
    ≡ some (ok (pos 9 ∷ pos 2 ∷ pos 2147483647 ∷ pos 14 ∷ pos 5 ∷ pos 2 ∷ []))
unfolding add_to_physical_saturating ◌+ℤ◌
add_to_physical_saturating-port = refl

-- A guard inside a stall, with a high window behind it and one sample short of the next.
abbrev high_guard : LatencyGuard
high_guard = record {
  period_frames = pos 64;
  period_nanos = 1333333;
  sample_periods = 64;
  stall_window_nanos = 10000000000;
  generation = some 1;
  warm_until = 1000000000;
  last_ready = some 5000000000;
  stalled_until = 15000000000;
  samples = replicate 9 (pos 200);
  count = 8;
  baseline = some (pos 100);
  high_windows = 1;
}

sample-high_guard :
    sample 6000000000 (pos 100) (pos 100) high_guard
    ≡ (true, record high_guard { count = 0; high_windows = 2 })
unfolding sample ◌-ℤ◌ ◌+ℤ◌
sample-high_guard = refl

-- A wake-up after a period and a half, work of a millisecond, and queues far beyond a period.
abbrev punctual : List Event
punctual =
    readies 1 5002000000
    ∷ completes 5002000000 5003000000
    ∷ samples 8000000000 (pos 900) (pos 900)
    ∷ []

triggered-Punctual_example : triggered punctual (record high_guard { stalled_until = 0 }) ≡ false
unfolding step
triggered-Punctual_example =
    triggered-Punctual punctual (record high_guard { stalled_until = 0 }) refl
      (inr (inr (5000000000, refl, omega arith, omega arith)), (omega arith, (tt, tt)))

-- Work of 5 milliseconds, a window of short queues, and two of queues that are longer by more than a
-- period.
abbrev stalls : List Event
stalls =
    completes 0 5000000
    ∷ (replicate 9 (samples 6000000 (pos 10) (pos 10))
        ++ replicate 18 (samples 7000000 (pos 100) (pos 100)))

stalls-triggered : triggered stalls (new (pos 64) 48000) ≡ true
unfolding triggered step new sort ◌+ℤ◌ ◌-ℤ◌
stalls-triggered = refl

triggered-samples_in_example : 27 ≤ samples_in stalls
unfolding new
triggered-samples_in_example =
    triggered-samples_in stalls (new (pos 64) 48000) refl refl refl stalls-triggered

median_of-below_example :
    ltb_ℤ
      (median_of
        (pos 7 ∷ pos 900 ∷ pos 3 ∷ pos 900 ∷ negsuc 1 ∷ pos 900 ∷ pos 5 ∷ pos 900 ∷ pos 4 ∷ []))
      (pos 8)
    ≡ true
unfolding count_below
median_of-below_example =
    median_of-below (pos 8)
      (pos 7 ∷ pos 900 ∷ pos 3 ∷ pos 900 ∷ negsuc 1 ∷ pos 900 ∷ pos 5 ∷ pos 900 ∷ pos 4 ∷ [])
      (omega arith)

duplex_pointer_phase-record_all_example :
    duplex_pointer_phase (record_all (pos 30 ∷ negsuc 4 ∷ pos 20 ∷ []) new_timeline)
    ≡ (pos 20, negsuc 4, pos 30, 3)
unfolding sort
duplex_pointer_phase-record_all_example =
    duplex_pointer_phase-record_all (pos 30 ∷ negsuc 4 ∷ pos 20 ∷ []) new_timeline (omega arith)
      (omega arith) refl refl

run-snapshot_example :
    (t' : HardwareTimeline) × (s : HardwareStats) × (run
        (client_miss ∷ core_miss ∷ restart ∷ [])
        new_timeline
      ≡ some t')
    × (snapshot t' ≡ some s)
    × (s.pro_deadline_misses ≡ wrapping_add s.pro_client_deadline_misses s.pro_core_deadline_misses)
run-snapshot_example =
    run-snapshot (client_miss ∷ core_miss ∷ restart ∷ []) new_timeline
      (record { misses = refl; even = refl })

-- After a read under number 3, one under number 4.
pro_capture_elapsed_nanos-record_reads_example :
    let t' = record_reads ((4, 90) ∷ []) (record_pro_capture_read 3 70 new_timeline) in
    (pro_capture_elapsed_nanos 3 100 t' ≡ some 30)
    × (pro_capture_elapsed_nanos (3 + pro_timing_slot_count) 100 t' ≡ none)
pro_capture_elapsed_nanos-record_reads_example =
    pro_capture_elapsed_nanos-record_reads 3 (3 + pro_timing_slot_count) 70 100 ((4, 90) ∷ [])
      new_timeline refl (omega arith) (omega arith) (λ e. omega (arith, e)) refl
      ((λ e. omega (arith, e)), tt)
