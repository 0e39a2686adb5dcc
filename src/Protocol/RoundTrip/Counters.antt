-- ===== src/Protocol/RoundTrip/Counters.antt =====
-- The counters of `Stats` and of each shared playback port come back as they were written.
use side_alsa.Base.{
  ℕ, ◌<◌, ◌≡◌, refl, subst, Bool, true, false, not, ◌==◌, List, [], ◌∷◌, All, u64_mod, length,
  arith,
}
use side_alsa.Protocol.Types.{SharedPlaybackPortStats, Stats}
use side_alsa.Protocol.Wire.{Encoder, Decode, put_u64, read_u64}
use side_alsa.Protocol.Encode.{
  ◌>>◌, for_each, put_count, encode_port_stats, encode_stats, port_stats_values, stats_values,
  bool_to_u64,
}
use side_alsa.Protocol.Decode.{◌>>=◌, decode_port_stats, decode_stats}
use side_alsa.Protocol.RoundTrip.Rules.{
  RoundTrips, RoundTrips-seq, RoundTrips-last, RoundTrips-for_each, RoundTrips-return,
  RoundTrips-item, RoundTrips-no_item,
}
use side_alsa.Protocol.RoundTrip.Values.{
  IsText, RoundTrips-u64, RoundTrips-count, RoundTrips-string,
}

infixr 0 ◌$◌
abbrev ◌$◌ : {A B : Type 0} → (A → B) → A → B
f $ a = f a

pub record IsPortStats (s : SharedPlaybackPortStats) : Type 0 where
  pub port_id : IsText s.port_id
  pub underruns : s.underruns < u64_mod
  pub last_underrun_sequence : s.last_underrun_sequence < u64_mod
  pub last_underrun_nanos : s.last_underrun_nanos < u64_mod
  pub last_sequence_lag_periods : s.last_sequence_lag_periods < u64_mod
  pub max_sequence_lag_periods : s.max_sequence_lag_periods < u64_mod
  pub expired_playback_periods : s.expired_playback_periods < u64_mod
  pub playback_submit_failures : s.playback_submit_failures < u64_mod
  pub playback_xruns : s.playback_xruns < u64_mod

RoundTrips-port_stats :
    (s : SharedPlaybackPortStats)
    → IsPortStats s
    → RoundTrips (encode_port_stats s) decode_port_stats s
unfolding encode_port_stats decode_port_stats port_stats_values for_each
RoundTrips-port_stats s v =
    RoundTrips-seq _ s.port_id (RoundTrips-string s.port_id v.port_id)
    $ RoundTrips-seq _ s.underruns (RoundTrips-u64 s.underruns v.underruns)
    $ RoundTrips-seq _ s.last_underrun_sequence
        (RoundTrips-u64 s.last_underrun_sequence v.last_underrun_sequence)
    $ RoundTrips-seq _ s.last_underrun_nanos
        (RoundTrips-u64 s.last_underrun_nanos v.last_underrun_nanos)
    $ RoundTrips-seq _ s.last_sequence_lag_periods
        (RoundTrips-u64 s.last_sequence_lag_periods v.last_sequence_lag_periods)
    $ RoundTrips-seq _ s.max_sequence_lag_periods
        (RoundTrips-u64 s.max_sequence_lag_periods v.max_sequence_lag_periods)
    $ RoundTrips-seq _ s.expired_playback_periods
        (RoundTrips-u64 s.expired_playback_periods v.expired_playback_periods)
    $ RoundTrips-seq _ s.playback_submit_failures
        (RoundTrips-u64 s.playback_submit_failures v.playback_submit_failures)
    $ RoundTrips-seq _ s.playback_xruns (RoundTrips-u64 s.playback_xruns v.playback_xruns)
    $ RoundTrips-return put_u64 s

not-bool_to_u64 : (b : Bool) → not (bool_to_u64 b == 0) ≡ b
unfolding bool_to_u64
not-bool_to_u64 true = refl
not-bool_to_u64 false = refl

bool_to_u64-lt : (b : Bool) → bool_to_u64 b < u64_mod
unfolding bool_to_u64
bool_to_u64-lt true = omega arith
bool_to_u64-lt false = omega arith

pub record IsStats (s : Stats) : Type 0 where
  pub generation : s.generation < u64_mod
  pub sample_position : s.sample_position < u64_mod
  pub playback_position : s.playback_position < u64_mod
  pub capture_position : s.capture_position < u64_mod
  pub hw_playback_xruns : s.hw_playback_xruns < u64_mod
  pub hw_capture_xruns : s.hw_capture_xruns < u64_mod
  pub playback_delay_frames : s.playback_delay_frames < u64_mod
  pub capture_delay_frames : s.capture_delay_frames < u64_mod
  pub playback_delay_min_frames : s.playback_delay_min_frames < u64_mod
  pub playback_delay_max_frames : s.playback_delay_max_frames < u64_mod
  pub playback_ring_delay_frames : s.playback_ring_delay_frames < u64_mod
  pub playback_ring_delay_min_frames : s.playback_ring_delay_min_frames < u64_mod
  pub playback_ring_delay_max_frames : s.playback_ring_delay_max_frames < u64_mod
  pub playback_driver_delay_frames : s.playback_driver_delay_frames < u64_mod
  pub playback_driver_delay_min_frames : s.playback_driver_delay_min_frames < u64_mod
  pub playback_driver_delay_max_frames : s.playback_driver_delay_max_frames < u64_mod
  pub capture_delay_min_frames : s.capture_delay_min_frames < u64_mod
  pub capture_delay_max_frames : s.capture_delay_max_frames < u64_mod
  pub playback_target_overshoot_max_frames : s.playback_target_overshoot_max_frames < u64_mod
  pub pro_wait_budget_min_nanos : s.pro_wait_budget_min_nanos < u64_mod
  pub pro_wait_budget_max_nanos : s.pro_wait_budget_max_nanos < u64_mod
  pub pro_ready_wait_max_nanos : s.pro_ready_wait_max_nanos < u64_mod
  pub playback_write_max_nanos : s.playback_write_max_nanos < u64_mod
  pub capture_to_playback_write_nanos : s.capture_to_playback_write_nanos < u64_mod
  pub capture_to_playback_write_min_nanos : s.capture_to_playback_write_min_nanos < u64_mod
  pub capture_to_playback_write_max_nanos : s.capture_to_playback_write_max_nanos < u64_mod
  pub duplex_pointer_phase_nanos : s.duplex_pointer_phase_nanos < u64_mod
  pub duplex_pointer_phase_min_nanos : s.duplex_pointer_phase_min_nanos < u64_mod
  pub duplex_pointer_phase_max_nanos : s.duplex_pointer_phase_max_nanos < u64_mod
  pub duplex_pointer_phase_samples : s.duplex_pointer_phase_samples < u64_mod
  pub linked_phase_attempts : s.linked_phase_attempts < u64_mod
  pub linked_phase_rebases : s.linked_phase_rebases < u64_mod
  pub linked_phase_score_nanos : s.linked_phase_score_nanos < u64_mod
  pub playback_low_watermarks : s.playback_low_watermarks < u64_mod
  pub pro_deadline_misses : s.pro_deadline_misses < u64_mod
  pub pro_client_deadline_misses : s.pro_client_deadline_misses < u64_mod
  pub pro_core_deadline_misses : s.pro_core_deadline_misses < u64_mod
  pub pro_capture_overruns : s.pro_capture_overruns < u64_mod
  pub pro_expired_capture_blocks : s.pro_expired_capture_blocks < u64_mod
  pub pro_playback_submit_failures : s.pro_playback_submit_failures < u64_mod
  pub pro_realtime_failures : s.pro_realtime_failures < u64_mod
  pub pro_callback_overruns : s.pro_callback_overruns < u64_mod
  pub pro_callback_max_nanos : s.pro_callback_max_nanos < u64_mod
  pub pro_playback_blocks : s.pro_playback_blocks < u64_mod
  pub pro_playback_nonzero_blocks : s.pro_playback_nonzero_blocks < u64_mod
  pub shared_underruns : s.shared_underruns < u64_mod
  pub shared_overruns : s.shared_overruns < u64_mod
  pub timeline_resets : s.timeline_resets < u64_mod
  pub periods_processed : s.periods_processed < u64_mod
  pub shared_playback_ports : All IsPortStats s.shared_playback_ports

-- An array of counters, and then another encoder, under a name of its own.
array_then : List ℕ → Encoder → Encoder
array_then xs k = for_each put_u64 xs >> k

RoundTrips-array :
    {A : Type 0} (xs : List ℕ) (k : Encoder) {p : Decode A} {a : A}
    → RoundTrips (array_then xs k) p a
    → RoundTrips (for_each put_u64 xs >> k) p a
unfolding array_then
RoundTrips-array xs k h = h

counter :
    {B : Type 0} (k : Encoder) (f : ℕ → Decode B) (x : ℕ) (xs : List ℕ) {b : B}
    → x < u64_mod
    → RoundTrips (array_then xs k) (f x) b
    → RoundTrips (array_then (x ∷ xs) k) (read_u64 >>= f) b
unfolding array_then
counter k f x xs h = RoundTrips-item put_u64 read_u64 k f x xs (RoundTrips-u64 x h)

no_counter :
    {A : Type 0} (k : Encoder) {p : Decode A} {a : A}
    → RoundTrips k p a
    → RoundTrips (array_then [] k) p a
unfolding array_then
no_counter k h = RoundTrips-no_item put_u64 k h

put_ports : Stats → Encoder
put_ports s = do
  put_count (length s.shared_playback_ports)
  for_each encode_port_stats s.shared_playback_ports

pub RoundTrips-stats : (s : Stats) → IsStats s → RoundTrips (encode_stats s) decode_stats s
unfolding encode_stats decode_stats stats_values put_ports
RoundTrips-stats s v =
    subst (λ b. RoundTrips (encode_stats s) decode_stats (record s { linked_phase_target_met = b }))
      (not-bool_to_u64 s.linked_phase_target_met)
    $ RoundTrips-array (stats_values s) (put_ports s)
    $ counter _ _ s.generation _ v.generation
    $ counter _ _ s.sample_position _ v.sample_position
    $ counter _ _ s.playback_position _ v.playback_position
    $ counter _ _ s.capture_position _ v.capture_position
    $ counter _ _ s.hw_playback_xruns _ v.hw_playback_xruns
    $ counter _ _ s.hw_capture_xruns _ v.hw_capture_xruns
    $ counter _ _ s.playback_delay_frames _ v.playback_delay_frames
    $ counter _ _ s.capture_delay_frames _ v.capture_delay_frames
    $ counter _ _ s.playback_delay_min_frames _ v.playback_delay_min_frames
    $ counter _ _ s.playback_delay_max_frames _ v.playback_delay_max_frames
    $ counter _ _ s.playback_ring_delay_frames _ v.playback_ring_delay_frames
    $ counter _ _ s.playback_ring_delay_min_frames _ v.playback_ring_delay_min_frames
    $ counter _ _ s.playback_ring_delay_max_frames _ v.playback_ring_delay_max_frames
    $ counter _ _ s.playback_driver_delay_frames _ v.playback_driver_delay_frames
    $ counter _ _ s.playback_driver_delay_min_frames _ v.playback_driver_delay_min_frames
    $ counter _ _ s.playback_driver_delay_max_frames _ v.playback_driver_delay_max_frames
    $ counter _ _ s.capture_delay_min_frames _ v.capture_delay_min_frames
    $ counter _ _ s.capture_delay_max_frames _ v.capture_delay_max_frames
    $ counter _ _ s.playback_target_overshoot_max_frames _ v.playback_target_overshoot_max_frames
    $ counter _ _ s.pro_wait_budget_min_nanos _ v.pro_wait_budget_min_nanos
    $ counter _ _ s.pro_wait_budget_max_nanos _ v.pro_wait_budget_max_nanos
    $ counter _ _ s.pro_ready_wait_max_nanos _ v.pro_ready_wait_max_nanos
    $ counter _ _ s.playback_write_max_nanos _ v.playback_write_max_nanos
    $ counter _ _ s.capture_to_playback_write_nanos _ v.capture_to_playback_write_nanos
    $ counter _ _ s.capture_to_playback_write_min_nanos _ v.capture_to_playback_write_min_nanos
    $ counter _ _ s.capture_to_playback_write_max_nanos _ v.capture_to_playback_write_max_nanos
    $ counter _ _ s.duplex_pointer_phase_nanos _ v.duplex_pointer_phase_nanos
    $ counter _ _ s.duplex_pointer_phase_min_nanos _ v.duplex_pointer_phase_min_nanos
    $ counter _ _ s.duplex_pointer_phase_max_nanos _ v.duplex_pointer_phase_max_nanos
    $ counter _ _ s.duplex_pointer_phase_samples _ v.duplex_pointer_phase_samples
    $ counter _ _ s.linked_phase_attempts _ v.linked_phase_attempts
    $ counter _ _ s.linked_phase_rebases _ v.linked_phase_rebases
    $ counter _ _ s.linked_phase_score_nanos _ v.linked_phase_score_nanos
    $ counter _ _ (bool_to_u64 s.linked_phase_target_met) _
        (bool_to_u64-lt s.linked_phase_target_met)
    $ counter _ _ s.playback_low_watermarks _ v.playback_low_watermarks
    $ counter _ _ s.pro_deadline_misses _ v.pro_deadline_misses
    $ counter _ _ s.pro_client_deadline_misses _ v.pro_client_deadline_misses
    $ counter _ _ s.pro_core_deadline_misses _ v.pro_core_deadline_misses
    $ counter _ _ s.pro_capture_overruns _ v.pro_capture_overruns
    $ counter _ _ s.pro_expired_capture_blocks _ v.pro_expired_capture_blocks
    $ counter _ _ s.pro_playback_submit_failures _ v.pro_playback_submit_failures
    $ counter _ _ s.pro_realtime_failures _ v.pro_realtime_failures
    $ counter _ _ s.pro_callback_overruns _ v.pro_callback_overruns
    $ counter _ _ s.pro_callback_max_nanos _ v.pro_callback_max_nanos
    $ counter _ _ s.pro_playback_blocks _ v.pro_playback_blocks
    $ counter _ _ s.pro_playback_nonzero_blocks _ v.pro_playback_nonzero_blocks
    $ counter _ _ s.shared_underruns _ v.shared_underruns
    $ counter _ _ s.shared_overruns _ v.shared_overruns
    $ counter _ _ s.timeline_resets _ v.timeline_resets
    $ counter _ _ s.periods_processed _ v.periods_processed
    $ no_counter (put_ports s)
    $ RoundTrips-seq _ (length s.shared_playback_ports)
        (RoundTrips-count (length s.shared_playback_ports))
    $ RoundTrips-last _ s.shared_playback_ports (
        RoundTrips-for_each IsPortStats encode_port_stats decode_port_stats RoundTrips-port_stats
          s.shared_playback_ports v.shared_playback_ports)
