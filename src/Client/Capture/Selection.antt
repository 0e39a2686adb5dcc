-- ===== src/Client/Capture/Selection.antt =====
-- One round of the search for the valid block that is nearest to the minimum: what it does to a slot
-- of the ring, and to the selection.
use side_alsa.Base.{
  ℕ, ◌≤◌, ◌<◌, ◌≡◌, ap, ◌∙◌, ◌⊎◌, inl, inr, Bool, true, false, not, ◌&&◌, Option, none, some,
  if◌then◌else◌, length, set, arith, wrapping_sub, get_or-set_self, get_or-set_ne, Bool-cases,
}
use native.Mathlib.Decide.{ℕ_discrete}
use side_alsa.Protocol.Sequence.{sequence_is_before}
use side_alsa.Client.Slots.{Slot, Ring, slot_at, no_slot, is_ready, reclaim_ready_slot}
use side_alsa.Client.Capture.{select_slot}

-- A ready block that does not come before the minimum.
abbrev pub is_valid : ℕ → Slot → Bool
is_valid minimum s = is_ready s && not (sequence_is_before s.sequence minimum)

abbrev pub distance : ℕ → Slot → ℕ
distance minimum s = wrapping_sub s.sequence minimum

-- What the loop makes of a slot.
unfoldable pub expire : ℕ → Slot → Slot
unfolding reclaim_ready_slot
expire minimum s = if is_valid minimum s then s else reclaim_ready_slot s

abbrev pub Selected : Type 0
Selected = Option ((ℕ × ℕ) × ℕ)

-- The selection names a valid slot of the ring, with its sequence number and distance.
abbrev pub Names : ℕ → Ring → Selected → Type 0
Names minimum ring none = Unit
Names minimum ring (some ((index, sequence), d)) =
    (index < length ring)
    × (is_valid minimum (slot_at ring index) ≡ true)
    × ((slot_at ring index).sequence ≡ sequence)
    × (distance minimum (slot_at ring index) ≡ d)

-- There is a selection, at some distance at most.
abbrev pub Within : Selected → ℕ → Type 0
Within none d = ⊥
Within (some (x, current)) d = current ≤ d

pub Within-select :
    (minimum : ℕ) (s : Slot) (index : ℕ) (selected : Selected) (d : ℕ)
    → Within selected d
    → Within (select_slot minimum s (index, s.sequence) selected).0 d
unfolding select_slot
Within-select minimum s index none d w = absurd w
Within-select minimum s index (some (x, current)) d w = ground arith

pub Within-self :
    (minimum : ℕ) (s : Slot) (index : ℕ) (selected : Selected)
    → is_valid minimum s ≡ true
    → Within (select_slot minimum s (index, s.sequence) selected).0 (distance minimum s)
unfolding select_slot
Within-self minimum s index none v = ground arith
Within-self minimum s index (some (x, current)) v = ground arith

pub select_slot-expire :
    (minimum : ℕ) (s : Slot) (index : ℕ) (selected : Selected)
    → (select_slot minimum s (index, s.sequence) selected).1 ≡ expire minimum s
unfolding select_slot expire
select_slot-expire minimum s index none = ground arith
select_slot-expire minimum s index (some (x, current)) = ground arith

pub expire-valid : (minimum : ℕ) (s : Slot) → is_valid minimum s ≡ true → expire minimum s ≡ s
unfolding expire
expire-valid minimum s v = ground arith

pub expire-invalid :
    (minimum : ℕ) (s : Slot)
    → is_valid minimum s ≡ false
    → is_valid minimum (expire minimum s) ≡ false
unfolding expire is_ready
expire-invalid minimum s v = ground arith

pub expire-expire : (minimum : ℕ) (s : Slot) → expire minimum (expire minimum s) ≡ expire minimum s
unfolding expire is_ready
expire-expire minimum s = ground arith

-- A slot before and after some of the loop.
abbrev pub Expires : ℕ → Slot → Slot → Type 0
Expires minimum s t = (t ≡ s) ⊎ (t ≡ expire minimum s)

pub Expires-trans :
    (minimum : ℕ) (s t u : Slot) → Expires minimum s t → Expires minimum t u → Expires minimum s u
Expires-trans minimum s t u (inl e) (inl f) = inl (f ∙ e)
Expires-trans minimum s t u (inl e) (inr f) = inr (f ∙ ap (expire minimum) e)
Expires-trans minimum s t u (inr e) (inl f) = inr (f ∙ e)
Expires-trans minimum s t u (inr e) (inr f) =
    inr (f ∙ ap (expire minimum) e ∙ expire-expire minimum s)

pub valid-back :
    (minimum : ℕ) (s t : Slot) → Expires minimum s t → is_valid minimum t ≡ true → t ≡ s
valid-back minimum s t (inl e) v = e
valid-back minimum s t (inr e) v = elim (Bool-cases (is_valid minimum s)) [
  | inl yes_valid ↦ e ∙ expire-valid minimum s yes_valid
  | inr no_valid ↦ absurd (ground (arith, expire-invalid minimum s no_valid))
]

pub valid-forward :
    (minimum : ℕ) (s t : Slot) → Expires minimum s t → is_valid minimum s ≡ true → t ≡ s
valid-forward minimum s t (inl e) v = e
valid-forward minimum s t (inr e) v = e ∙ expire-valid minimum s v

pub Expires-set :
    (minimum : ℕ) (ring : Ring) (index j : ℕ)
    → index < length ring
    → Expires minimum
        (slot_at ring j)
        (slot_at (set ring index (expire minimum (slot_at ring index))) j)
Expires-set minimum ring index j h = elim (ℕ_discrete index j) [
  | yes e ↦
      inr (rw e (get_or-set_self ring j (expire minimum (slot_at ring j)) no_slot (rw (← e) h)))
  | no ne ↦ inl (get_or-set_ne ring index j (expire minimum (slot_at ring index)) no_slot ne)
]

-- A selection of the ring still names its slot after a slot has expired, and the other way round.
pub Names-forward :
    (minimum : ℕ) (ring ring' : Ring) (selected : Selected)
    → length ring' ≡ length ring
    → ((j : ℕ) → Expires minimum (slot_at ring j) (slot_at ring' j))
    → Names minimum ring selected
    → Names minimum ring' selected
Names-forward minimum ring ring' none size each n = tt
Names-forward minimum ring ring' (some ((index, sequence), d)) size each (below, v, e, f) =
    let same = valid-forward minimum (slot_at ring index) (slot_at ring' index) (each index) v in
    rw (size, same) (below, v, e, f)

pub Names-back :
    (minimum : ℕ) (ring ring' : Ring) (selected : Selected)
    → length ring' ≡ length ring
    → ((j : ℕ) → Expires minimum (slot_at ring j) (slot_at ring' j))
    → Names minimum ring' selected
    → Names minimum ring selected
Names-back minimum ring ring' none size each n = tt
Names-back minimum ring ring' (some ((index, sequence), d)) size each (below, v, e, f) =
    let same = valid-back minimum (slot_at ring index) (slot_at ring' index) (each index) v in
    rw (← size, ← same) (below, v, e, f)

pub Names-select :
    (minimum : ℕ) (ring : Ring) (index : ℕ) (selected : Selected)
    → index < length ring
    → Names minimum ring selected
    → Names minimum ring
        (select_slot minimum (slot_at ring index) (index, (slot_at ring index).sequence) selected).0
unfolding select_slot
Names-select minimum ring index none below n = ground arith
Names-select minimum ring index (some ((i, s), d)) below n = ground arith
