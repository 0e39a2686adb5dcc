-- ===== src/Client/Capture/Valid.antt =====
-- Which block a read of valid capture returns, by the loop over all slots of the ring.
use native.Mathlib.Nat.{mod-lt}
use side_alsa.Base.{
  ℕ, zero, suc, ◌+◌, ◌%◌, ◌≤◌, ◌<◌, ◌≡◌, ◌≢◌, refl, sym, ap, ◌∙◌, ◌⊎◌, inl, inr, true, false, ◌||◌,
  none, some, List, ◌==◌, ltb, length, set, arith, length-set, get_or-set_self, get_or-set_ne,
  Bool-cases,
}
use native.Mathlib.Decide.{ℕ_discrete}
use side_alsa.Client.Slots.{
  Slot, Ring, slot_free, slot_at, no_slot, is_ready, copy_into, next_index,
}
use side_alsa.Client.Slots.Publish.{round_reaches}
use side_alsa.Client.Region.{SharedRegion}
use side_alsa.Client.Capture.{
  select_slot, valid_loop, read_slot, read_selected, expire_more, try_client_read_valid_capture,
  Read,
}
use side_alsa.Client.Capture.Selection.{
  is_valid, distance, expire, Selected, Names, Within, Within-select, Within-self,
  select_slot-expire, Expires, Expires-trans, valid-forward, Expires-set, Names-forward, Names-back,
  Names-select,
}

record Looped (minimum consumer rounds offset : ℕ) (selected : Selected) (ring : Ring)
    (selected' : Selected) (ring' : Ring) : Type 0 where
  size : length ring' ≡ length ring
  each : (j : ℕ) → Expires minimum (slot_at ring j) (slot_at ring' j)
  names : Names minimum ring selected'
  kept : (d : ℕ) → Within selected d → Within selected' d
  best :
      (o : ℕ)
      → offset ≤ o
      → o < offset + rounds
      → is_valid minimum (slot_at ring ((consumer + o) % length ring)) ≡ true
      → Within selected' (distance minimum (slot_at ring ((consumer + o) % length ring)))

Looped-suc :
    (minimum consumer rounds offset index : ℕ) (selected : Selected) (ring : Ring)
    (selected' : Selected) (ring' : Ring)
    → (consumer + offset) % length ring ≡ index
    → index < length ring
    → Looped minimum consumer rounds
        (offset + 1)
        (select_slot minimum (slot_at ring index) (index, (slot_at ring index).sequence) selected).0
        (set ring index (expire minimum (slot_at ring index)))
        selected'
        ring'
    → Looped minimum consumer (suc rounds) offset selected ring selected' ring'
Looped-suc minimum consumer rounds offset index selected ring selected' ring' here below l =
    record {
      size = l.size ∙ same_length;
      each = λ j.
          Expires-trans minimum (slot_at ring j) (slot_at ring1 j) (slot_at ring' j) (step j)
            (l.each j);
      names = Names-back minimum ring ring1 selected' same_length step l.names;
      kept = λ d w. l.kept d (Within-select minimum (slot_at ring index) index selected d w);
      best = best;
    }
  where
    ring1 : Ring
    ring1 = set ring index (expire minimum (slot_at ring index))

    same_length : length ring1 ≡ length ring
    same_length = length-set ring index (expire minimum (slot_at ring index))

    step : (j : ℕ) → Expires minimum (slot_at ring j) (slot_at ring1 j)
    step j = Expires-set minimum ring index j below

    later :
        (o : ℕ)
        → offset + 1 ≤ o
        → o < offset + 1 + rounds
        → is_valid minimum (slot_at ring ((consumer + o) % length ring)) ≡ true
        → Within selected' (distance minimum (slot_at ring ((consumer + o) % length ring)))
    later o lo hi v =
        let i = (consumer + o) % length ring in
        let same = valid-forward minimum (slot_at ring i) (slot_at ring1 i) (step i) v in
        rw (← same) (let got = l.best o lo hi (rw (same_length, same) v) in rw (← same_length) got)

    best :
        (o : ℕ)
        → offset ≤ o
        → o < offset + suc rounds
        → is_valid minimum (slot_at ring ((consumer + o) % length ring)) ≡ true
        → Within selected' (distance minimum (slot_at ring ((consumer + o) % length ring)))
    best o lo hi v = elim (ℕ_discrete o offset) [
      | yes e ↦
          let there : (consumer + o) % length ring ≡ index = rw e here in
          rw there (
            l.kept (distance minimum (slot_at ring index))
              (Within-self minimum (slot_at ring index) index selected (rw (← there) v)))
      | no ne ↦ later o (omega arith) (omega arith) v
    ]

valid_loop-Looped :
    (minimum consumer rounds offset expired : ℕ) (selected : Selected) (ring : Ring)
    → 0 < length ring
    → Names minimum ring selected
    → let (selected', ring', expired') =
        valid_loop rounds offset minimum consumer selected expired ring in
      Looped minimum consumer rounds offset selected ring selected' ring'
unfolding valid_loop
valid_loop-Looped minimum consumer zero offset expired selected ring some_slot n = record {
  size = refl;
  each = λ j. inl refl;
  names = n;
  kept = λ d w. w;
  best = λ o lo hi v. absurd (omega arith);
}
valid_loop-Looped minimum consumer (suc rounds) offset expired selected ring some_slot n =
    rw (select_slot-expire minimum (slot_at ring index) index selected, valid_loop)
      (Looped-suc minimum consumer rounds offset index selected ring _ _ refl below (
        valid_loop-Looped minimum consumer rounds (offset + 1) _ _ _ (omega (arith, same_length)) (
          Names-forward minimum ring (set ring index (expire minimum (slot_at ring index))) _
            same_length (λ j. Expires-set minimum ring index j below)
            (Names-select minimum ring index selected below n))))
  where
    index : ℕ
    index = (consumer + offset) % length ring

    below : index < length ring
    below = mod-lt (consumer + offset) some_slot

    same_length : length (set ring index (expire minimum (slot_at ring index))) ≡ length ring
    same_length = length-set ring index (expire minimum (slot_at ring index))

-- What a read does: it finds that no block of the ring is valid, or it takes the valid block that is
-- nearest to the minimum, frees its slot, and leaves the other valid blocks alone.
abbrev pub ReadOutcome : ℕ → ℕ → ℕ → List ℕ → Ring → Read → Type 0
ReadOutcome minimum sample_count consumer samples ring (found, consumer', samples', ring') =
    (((j : ℕ) → j < length ring → is_valid minimum (slot_at ring j) ≡ false)
      × (found ≡ none)
      × (consumer' ≡ consumer)
      × (samples' ≡ samples))
    ⊎ ((i : ℕ) × (i < length ring)
        × (is_valid minimum (slot_at ring i) ≡ true)
        × ((j : ℕ)
            → j < length ring
            → is_valid minimum (slot_at ring j) ≡ true
            → distance minimum (slot_at ring i) ≤ distance minimum (slot_at ring j))
        × (found ≡ some (slot_at ring i).sequence)
        × (consumer' ≡ next_index i (length ring))
        × (samples' ≡ copy_into sample_count (slot_at ring i).audio samples)
        × ((slot_at ring' i).state ≡ slot_free)
        × ((j : ℕ)
            → j ≢ i
            → is_valid minimum (slot_at ring j) ≡ true
            → slot_at ring' j ≡ slot_at ring j))

-- The loop has seen every slot.
nearest :
    (minimum consumer : ℕ) (ring : Ring) (selected : Selected) (ring' : Ring)
    → Looped minimum consumer (length ring) 0 none ring selected ring'
    → (j : ℕ) → j < length ring
    → is_valid minimum (slot_at ring j) ≡ true
    → Within selected (distance minimum (slot_at ring j))
nearest minimum consumer ring selected ring' l j h v =
    let (o, below, there) = round_reaches consumer j (length ring) h in
    let got = l.best o (omega arith) (omega arith) (rw there v) in rw (← there) got

is_valid-ready : (minimum : ℕ) (s : Slot) → is_valid minimum s ≡ true → is_ready s ≡ true
is_valid-ready minimum s v = ground arith

freed : Slot → Slot
freed s = record s { state = slot_free }

read_slot-taken :
    (sample_count i s consumer : ℕ) (samples : List ℕ) (ring : Ring)
    → is_ready (slot_at ring i) ≡ true
    → (slot_at ring i).sequence ≡ s
    → read_slot sample_count i s consumer samples ring ≡ (
      some s,
      next_index i (length ring),
      copy_into sample_count (slot_at ring i).audio samples,
      set ring i (freed (slot_at ring i)),
    )
unfolding read_slot freed
read_slot-taken sample_count i s consumer samples ring ready exact = ground arith

read_selected-ReadOutcome :
    (minimum sample_count consumer : ℕ) (samples : List ℕ) (ring : Ring) (selected : Selected)
    (ring' : Ring)
    → Looped minimum consumer (length ring) 0 none ring selected ring'
    → ReadOutcome minimum sample_count consumer samples ring
        (read_selected sample_count selected consumer samples ring')
unfolding read_selected freed
read_selected-ReadOutcome minimum sample_count consumer samples ring none ring' l = inl (
  (λ j h. elim (Bool-cases (is_valid minimum (slot_at ring j))) [
    | inl v ↦ absurd (nearest minimum consumer ring none ring' l j h v)
    | inr e ↦ e
  ]),
  refl,
  refl,
  refl,
)
read_selected-ReadOutcome minimum sample_count consumer samples ring (some ((i, s), d)) ring' l =
    rw (read_slot-taken sample_count i s consumer samples ring' ready exact) (
      inr (
        i,
        below,
        v,
        (λ j h w. rw f (nearest minimum consumer ring (some ((i, s), d)) ring' l j h w)),
        ap (λ t. some t) (sym l.names.2),
        ap (next_index i) l.size,
        ap (λ t. copy_into sample_count t.audio samples) same,
        ap (λ t. t.state)
            (get_or-set_self ring' i (freed (slot_at ring' i)) no_slot (rw l.size below)),
        λ j ne w.
            get_or-set_ne ring' i j (freed (slot_at ring' i)) no_slot (λ e. ne (sym e))
            ∙ valid-forward minimum (slot_at ring j) (slot_at ring' j) (l.each j) w,
      ))
  where
    below : i < length ring
    below = l.names.0

    v : is_valid minimum (slot_at ring i) ≡ true
    v = l.names.1

    f : distance minimum (slot_at ring i) ≡ d
    f = l.names.3

    same : slot_at ring' i ≡ slot_at ring i
    same = valid-forward minimum (slot_at ring i) (slot_at ring' i) (l.each i) v

    ready : is_ready (slot_at ring' i) ≡ true
    ready = ap is_ready same ∙ is_valid-ready minimum (slot_at ring i) v

    exact : (slot_at ring' i).sequence ≡ s
    exact = ap (λ t. t.sequence) same ∙ l.names.2

-- In a region with capture slots, a client that reads capture with room for a period gets, of the
-- ready blocks that do not come before its minimum, one that is nearest to it: the block's sequence
-- number and its samples, with the slot freed, the client's index behind it, and the other such
-- blocks left alone. It gets none only if there is no such block, and then its index and its buffer
-- are unchanged.
pub try_client_read_valid_capture-ReadOutcome :
    (consumer minimum : ℕ) (samples : List ℕ) (r : SharedRegion)
    → 0 < length r.capture
    → 0 < r.capture_samples
    → r.capture_samples ≤ length samples
    → let ((found, consumer', samples'), r') =
        try_client_read_valid_capture consumer minimum samples r in
      ReadOutcome minimum r.capture_samples consumer samples r.capture
        (found, consumer', samples', r'.capture)
unfolding try_client_read_valid_capture expire_more
try_client_read_valid_capture-ReadOutcome consumer minimum samples r some_slot some_capture room =
    rw guard (
      read_selected-ReadOutcome minimum r.capture_samples consumer samples r.capture _ _
        (valid_loop-Looped minimum consumer (length r.capture) 0 0 none r.capture some_slot tt))
  where
    guard : (r.capture_samples == 0 || ltb (length samples) r.capture_samples) ≡ false
    guard = ground arith
