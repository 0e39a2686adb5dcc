-- ===== src/Client/Slots/Consume.antt =====
-- `try_consume_exact` against the blocks that a ring holds.
use side_alsa.Base.{
  ℕ, suc, ◌+◌, ◌≤◌, ◌<◌, ◌≡◌, refl, ◌⊎◌, inl, inr, true, false, ◌&&◌, Option, none, some, List, [],
  ◌∷◌, ◌==◌, if◌then◌else◌, length, set, arith, Bool-cases,
}
use side_alsa.Protocol.Sequence.{sequence_is_after}
use side_alsa.Client.Slots.{
  Slot, Ring, slot_free, slot_at, is_ready, reclaim_ready_slot, PlaybackConsume, scan, Outcome,
  copy_into, timestamp, is_late, take_exact, try_consume_exact,
}
use side_alsa.Client.Slots.Contents.{Block, block, contents, find_exact, cleared}

freed : Slot → Slot
freed s = record s { state = slot_free }

not_after_self : (e : ℕ) → sequence_is_after e e ≡ false
unfolding sequence_is_after
not_after_self e = ground arith

-- Once a slot is found, the scan clears what is left.
scan-some :
    (e index first : ℕ) (ring : Ring)
    → scan e index (some first) ring ≡ (some first, cleared e ring)
unfolding scan cleared
scan-some e index first [] = refl
scan-some e index first (s ∷ ring) = ground (arith, scan-some e (index + 1) first ring)

-- What a scan that has found nothing yet comes to.
Scanned : ℕ → ℕ → Ring → Type 0
Scanned e index ring =
    ((find_exact e (contents ring) ≡ none) × (scan e index none ring ≡ (none, cleared e ring)))
    ⊎ ((k : ℕ) × (s : Slot) × (ring' : Ring) × (find_exact e (contents ring) ≡ some (block s))
        × (scan e index none ring ≡ (some (index + k), ring'))
        × (slot_at ring' k ≡ s)
        × (is_ready s ≡ true)
        × (s.sequence ≡ e)
        × (set ring' k (freed s) ≡ cleared e ring))

-- A slot that is not the one looked for leaves the search to the rest of the ring.
Scanned-miss :
    (e index : ℕ) (s : Slot) (ring : Ring)
    → (is_ready s && s.sequence == e) ≡ false
    → Scanned e (index + 1) ring
    → Scanned e index (s ∷ ring)
unfolding Scanned scan cleared contents find_exact freed
Scanned-miss e index s ring miss (inl (absent, same)) = inl (ground arith, ground arith)
Scanned-miss e index s ring miss (inr (k, t, ring', found, same, there, ready, exact, clear)) =
    inr (
      suc k,
      t,
      (if sequence_is_after s.sequence e then s else reclaim_ready_slot s) ∷ ring',
      ground arith,
      ground arith,
      there,
      ready,
      exact,
      ground arith,
    )

-- The first such slot ends it.
Scanned-hit :
    (e index : ℕ) (s : Slot) (ring : Ring)
    → (is_ready s && s.sequence == e) ≡ true
    → Scanned e index (s ∷ ring)
unfolding Scanned scan cleared contents find_exact freed
Scanned-hit e index s ring hit = inr (
  0,
  s,
  s ∷ cleared e ring,
  ground arith,
  ground (arith, scan-some e (index + 1) index ring, not_after_self e),
  refl,
  ground arith,
  ground arith,
  ground (arith, not_after_self e),
)

scan-Scanned : (e index : ℕ) (ring : Ring) → Scanned e index ring
scan-Scanned e index [] = unfold Scanned scan cleared contents find_exact in inl (refl, refl)
scan-Scanned e index (s ∷ ring) = elim (Bool-cases (is_ready s && s.sequence == e)) [
  | inl hit ↦ Scanned-hit e index s ring hit
  | inr miss ↦ Scanned-miss e index s ring miss (scan-Scanned e (index + 1) ring)
]

-- What the caller gets of the block looked for, if there is one.
abbrev pub delivered : ℕ → Option ℕ → List ℕ → Option Block → Outcome
delivered sample_count cutoff samples none = (PlaybackConsume.missing, none, samples)
delivered sample_count cutoff samples (some b) =
    if is_late cutoff b.published_nanos
    then (PlaybackConsume.late, timestamp b.published_nanos, samples)
    else (
      PlaybackConsume.ready,
      timestamp b.published_nanos,
      copy_into sample_count b.audio samples,
    )

take_exact-Scanned :
    (n e : ℕ) (cutoff : Option ℕ) (samples : List ℕ) (ring : Ring)
    → Scanned e 0 ring
    → let (exact, ring') = scan e 0 none ring in
      take_exact n e cutoff samples exact ring'
      ≡ (delivered n cutoff samples (find_exact e (contents ring)), cleared e ring)
unfolding Scanned take_exact freed
take_exact-Scanned n e cutoff samples ring (inl (absent, same)) = rw (same, absent)
take_exact-Scanned n e cutoff samples ring
      (inr (k, t, ring', found, same, there, ready, exact, clear)) =
    let start : 0 + k ≡ k = omega arith in rw (same, found, start, there) (ground arith)

pub try_consume_exact-eq :
    (n e : ℕ) (cutoff : Option ℕ) (samples : List ℕ) (ring : Ring)
    → 0 < n
    → n ≤ length samples
    → try_consume_exact n e cutoff samples ring
      ≡ (delivered n cutoff samples (find_exact e (contents ring)), cleared e ring)
unfolding try_consume_exact
try_consume_exact-eq n e cutoff samples ring pos room =
    ground (arith, take_exact-Scanned n e cutoff samples ring (scan-Scanned e 0 ring))
