-- ===== src/Core/Timeline/Counters.antt =====
-- Histories of calls: the deadline misses are accounted for, and no call is left spinning.
use side_alsa.Base.{
  ℕ, ◌-◌, ◌%◌, ◌≤◌, ◌<◌, ◌≡◌, ◌≢◌, refl, ◌∙◌, not, Bool, Option, none, some, List, [], ◌∷◌, length,
  get_or, arith, wrapping_add, get_or-set_self, get_or-set_ne, ◌==◌,
}
use side_alsa.Base.Int.{ℤ}
use side_alsa.Core.Timeline.Words.{
  StreamDirection, HardwareTimeline, HardwareStats, pro_timing_slot_count, no_slot,
}
use side_alsa.Core.Timeline.{
  snapshot, snapshot_with, duplex_pointer_phase, update_pcm_delay, update_playback_delay_breakdown,
  record_pro_wait_budget, record_pro_ready_wait, record_linked_phase_calibration,
  record_pro_capture_read, pro_capture_elapsed_nanos, record_pro_playback_write,
  record_duplex_pointer_phase, record_pro_deadline_miss, record_pro_core_deadline_miss,
  record_pro_capture_overrun, record_pro_playback_block, record_shared_underrun,
  record_shared_overrun, record_hardware_xrun, reset_after_stream_restart,
  reset_after_hardware_restart, reset_after_hardware_rebase, processed_frames,
  update_playback_position, update_capture_position, record_playback_target_overshoot,
  record_playback_write,
}

-- Every call of `HardwareTimeline` that changes it.
pub data Call : Type 0 where
  client_miss core_miss capture_overrun underrun overrun restart_stream restart rebase : Call
  xrun : StreamDirection → Call
  block : Bool → Call
  playback_at capture_at overshoot write_time : ℕ → Call
  frames budget elapsed written : ℕ → ℕ → Call
  delay : StreamDirection → ℤ → ℕ → Call
  breakdown : ℤ → ℤ → ℤ → Call
  phase : ℤ → Call
  calibration : ℕ → ℕ → Bool → Call

pub step : Call → HardwareTimeline → Option HardwareTimeline
step client_miss t = some (record_pro_deadline_miss t)
step core_miss t = some (record_pro_core_deadline_miss t)
step capture_overrun t = some (record_pro_capture_overrun t)
step underrun t = some (record_shared_underrun t)
step overrun t = some (record_shared_overrun t)
step restart_stream t = some (reset_after_stream_restart t)
step restart t = reset_after_hardware_restart t
step rebase t = some (reset_after_hardware_rebase t)
step (xrun direction) t = some (record_hardware_xrun direction t)
step (block nonzero) t = some (record_pro_playback_block nonzero t)
step (playback_at position) t = some (update_playback_position position t)
step (capture_at position) t = some (update_capture_position position t)
step (overshoot n) t = some (record_playback_target_overshoot n t)
step (write_time nanos) t = some (record_playback_write nanos t)
step (frames n periods) t = some (processed_frames n periods t)
step (budget wait ready_wait) t =
    some (record_pro_ready_wait ready_wait (record_pro_wait_budget wait t))
step (elapsed sequence nanos) t = some (record_pro_capture_read sequence nanos t)
step (written sequence nanos) t = some (record_pro_playback_write sequence nanos t)
step (delay direction d period) t = some (update_pcm_delay direction d period t)
step (breakdown total available buffer) t =
    some (update_playback_delay_breakdown total available buffer t)
step (phase nanos) t = some (record_duplex_pointer_phase nanos t)
step (calibration attempts score target_met) t =
    record_linked_phase_calibration attempts score target_met t

pub run : List Call → HardwareTimeline → Option HardwareTimeline
run [] t = some t
run (c ∷ cs) t = elim (step c t) [ none ↦ none | some t' ↦ run cs t' ]

-- Every miss is the client's or the core's, and no writer holds the calibration.
pub record IsValid (t : HardwareTimeline) : Type 0 where
  pub misses :
      t.pro_deadline_misses ≡ wrapping_add t.pro_client_deadline_misses t.pro_core_deadline_misses
  pub even : t.linked_phase_result_epoch % 2 ≡ 0

-- What a call comes to when it does not spin.
abbrev Done : Option HardwareTimeline → Type 0
Done none = ⊥
Done (some t) = IsValid t

step-Done : (c : Call) (t : HardwareTimeline) → IsValid t → Done (step c t)
unfolding step record_pro_deadline_miss record_pro_core_deadline_miss record_pro_capture_overrun
    record_shared_underrun record_shared_overrun reset_after_hardware_restart
    reset_after_hardware_rebase record_hardware_xrun record_pro_playback_block processed_frames
    record_pro_ready_wait record_pro_wait_budget record_pro_capture_read record_pro_playback_write
    update_pcm_delay update_playback_delay_breakdown record_duplex_pointer_phase
    update_playback_position update_capture_position record_playback_target_overshoot
    record_playback_write
step-Done (xrun StreamDirection.playback) t v = ground arith
step-Done (xrun StreamDirection.capture) t v = ground arith
step-Done (delay StreamDirection.playback d period) t v = ground arith
step-Done (delay StreamDirection.capture d period) t v = ground arith
step-Done restart t v = ground arith
step-Done (calibration attempts score target_met) t v = ground arith
step-Done (written sequence nanos) t v = ground arith
step-Done client_miss t v = ground arith
step-Done _ t v = ground arith

Done-then :
    (cs : List Call) (r : Option HardwareTimeline)
    → ((t : HardwareTimeline) → IsValid t → Done (run cs t))
    → Done r
    → Done (elim r [ none ↦ none | some t' ↦ run cs t' ])
Done-then cs none rest h = h
Done-then cs (some t') rest h = rest t' h

run-Done : (cs : List Call) (t : HardwareTimeline) → IsValid t → Done (run cs t)
unfolding run
run-Done [] t v = v
run-Done (c ∷ cs) t v = Done-then cs (step c t) (λ t' v'. run-Done cs t' v') (step-Done c t v)

snapshot-Done :
    (r : Option HardwareTimeline)
    → Done r
    → (t : HardwareTimeline) × (s : HardwareStats) × (r ≡ some t)
      × (snapshot t ≡ some s)
      × (s.pro_deadline_misses
          ≡ wrapping_add s.pro_client_deadline_misses s.pro_core_deadline_misses)
unfolding snapshot
snapshot-Done none h = absurd h
snapshot-Done (some t) h = (
  t,
  snapshot_with
      (t.linked_phase_attempts, t.linked_phase_score_nanos, not (t.linked_phase_target_met == 0))
      (duplex_pointer_phase t) t,
  refl,
  ground arith,
  h.misses,
)

-- Whatever calls are made, one after the other, on a timeline that starts valid, none of them is left spinning, and the
-- statistics can be read afterwards: every deadline miss that they count is the client's or the
-- core's.
pub run-snapshot :
    (cs : List Call) (t : HardwareTimeline)
    → IsValid t
    → (t' : HardwareTimeline) × (s : HardwareStats) × (run cs t ≡ some t')
      × (snapshot t' ≡ some s)
      × (s.pro_deadline_misses
          ≡ wrapping_add s.pro_client_deadline_misses s.pro_core_deadline_misses)
run-snapshot cs t v = snapshot-Done (run cs t) (run-Done cs t v)

-- The reads of capture that are recorded one after the other.
pub record_reads : List (ℕ × ℕ) → HardwareTimeline → HardwareTimeline
record_reads [] t = t
record_reads ((sequence, nanos) ∷ rs) t = record_reads rs (record_pro_capture_read sequence nanos t)

-- No read of the list goes to the place of a sequence number.
abbrev pub Elsewhere : ℕ → List (ℕ × ℕ) → Type 0
Elsewhere sequence [] = Unit
Elsewhere sequence ((s, nanos) ∷ rs) =
    (s % pro_timing_slot_count ≢ sequence % pro_timing_slot_count) × Elsewhere sequence rs

record_reads-slot :
    (sequence : ℕ) (rs : List (ℕ × ℕ)) (t : HardwareTimeline)
    → Elsewhere sequence rs
    → get_or (record_reads rs t).pro_timing (sequence % pro_timing_slot_count) no_slot
      ≡ get_or t.pro_timing (sequence % pro_timing_slot_count) no_slot
unfolding record_reads record_pro_capture_read
record_reads-slot sequence [] t e = refl
record_reads-slot sequence ((s, nanos) ∷ rs) t e =
    record_reads-slot sequence rs (record_pro_capture_read s nanos t) e.1
    ∙ get_or-set_ne t.pro_timing (s % pro_timing_slot_count) (sequence % pro_timing_slot_count)
        (record { sequence = s; capture_read_nanos = nanos }) no_slot e.0

-- A capture read at a time other than 0 stays on record until another takes its place: after reads
-- elsewhere, the time that has passed since it is known at any later moment, and a sequence number
-- that falls on the same place, but is another, has none.
pub pro_capture_elapsed_nanos-record_reads :
    (sequence other read now : ℕ) (rs : List (ℕ × ℕ)) (t : HardwareTimeline)
    → length t.pro_timing ≡ pro_timing_slot_count
    → 0 < read
    → read ≤ now
    → other ≢ sequence
    → other % pro_timing_slot_count ≡ sequence % pro_timing_slot_count
    → Elsewhere sequence rs
    → let t' = record_reads rs (record_pro_capture_read sequence read t) in
      (pro_capture_elapsed_nanos sequence now t' ≡ some (now - read))
      × (pro_capture_elapsed_nanos other now t' ≡ none)
unfolding pro_capture_elapsed_nanos record_pro_capture_read
pro_capture_elapsed_nanos-record_reads sequence other read now rs t places pos late ne same e =
    rw (same, slot) (ground arith, ground arith)
  where
    slot :
        get_or
          (record_reads rs (record_pro_capture_read sequence read t)).pro_timing
          (sequence % pro_timing_slot_count)
          no_slot
        ≡ record { sequence = sequence; capture_read_nanos = read }
    slot =
        record_reads-slot sequence rs (record_pro_capture_read sequence read t) e
        ∙ get_or-set_self t.pro_timing (sequence % pro_timing_slot_count)
            (record { sequence = sequence; capture_read_nanos = read }) no_slot
            (omega (arith, places))
