-- ===== src/Client/Slots/Publish.antt =====
-- `try_publish`: which slot it fills, when it refuses, and that the block is read back.
use mathlib.Core.List.{Perm}
use mathlib.Core.List.Perm
use native.Mathlib.Nat.{mod-lt, mod-eq_of_lt, mod-eq-sub-mod, mod-add-mod, add-mod-mod}
use native.Mathlib.Decide.{ℕ_discrete}
use side_alsa.Base.{
  ℕ, zero, suc, ◌+◌, ◌-◌, ◌%◌, ◌≤◌, ◌<◌, ◌≡◌, refl, sym, ap, ◌∙◌, ◌⊎◌, inl, inr, true, false, none,
  some, List, [], ◌∷◌, ◌++◌, ◌==◌, length, set, take, drop, arith, Bool-cases, length-set,
}
use side_alsa.Client.Slots.{
  Ring, slot_free, slot_at, is_ready, PlaybackConsume, filled, next_index, Published, publish_loop,
  try_publish, try_consume_exact, is_late, timestamp, copy_into,
}
use side_alsa.Client.Slots.Contents.{contents, find_exact}
use side_alsa.Client.Slots.Consume.{delivered, try_consume_exact-eq}

abbrev IsFree : Ring → ℕ → Type 0
IsFree ring i = (slot_at ring i).state ≡ slot_free

module _ (n sequence nanos : ℕ) (samples : List ℕ) (producer : ℕ) (ring : Ring) where
  abbrev index_of : ℕ → ℕ
  index_of offset = (producer + offset) % length ring

  -- A slot that was free is filled, or none of the slots that were tried is free.
  Looped : ℕ → ℕ → Published → Type 0
  Looped rounds offset r =
      ((o : ℕ) × (o < offset + rounds)
        × IsFree ring (index_of o)
        × (r ≡ (
          true,
          set ring (index_of o) (filled sequence nanos (take n samples)),
          next_index (index_of o) (length ring),
        )))
      ⊎ (((o : ℕ) → offset ≤ o → o < offset + rounds → ¬ IsFree ring (index_of o))
          × (r ≡ (false, ring, producer)))

  loop-Looped :
      (rounds offset : ℕ)
      → Looped rounds offset
          (publish_loop rounds offset n sequence (some nanos) samples producer ring)
  unfolding Looped publish_loop
  loop-Looped zero offset = inr ((λ o h k. absurd (omega arith)), refl)
  loop-Looped (suc rounds) offset =
      elim (Bool-cases ((slot_at ring (index_of offset)).state == slot_free)) [
        | inl hit ↦ inl (offset, omega arith, ground arith, rw hit)
        | inr miss ↦ elim (loop-Looped rounds (offset + 1)) [
          | inl (o, below, free, same) ↦ inl (o, omega arith, free, rw miss same)
          | inr (busy, same) ↦ inr (
            (λ o h k. elim (ℕ_discrete o offset) [
              | yes here ↦ λ free. ground (arith, ap index_of here)
              | no past ↦ busy o (omega arith) (omega arith)
            ]),
            rw miss same,
          )
        ]
      ]

-- Going once round from any start reaches every index.
pub round_reaches : (p i len : ℕ) → i < len → (o : ℕ) × (o < len) × ((p + o) % len ≡ i)
round_reaches p i len h = (
  (i + (len - p % len)) % len,
  mod-lt (i + (len - p % len)) (omega arith),
  add-mod-mod p (i + (len - p % len)) len
      ∙ sym (mod-add-mod p len (i + (len - p % len)))
      ∙ ap (λ t. t % len) there
      ∙ mod-eq-sub-mod {n = i + len} {m = len} (omega arith)
      ∙ ap (λ t. t % len) back
      ∙ mod-eq_of_lt h,
)
  where
    below : p % len < len
    below = mod-lt p (omega arith)

    there : p % len + (i + (len - p % len)) ≡ i + len
    there = omega (arith, below)

    back : i + len - len ≡ i
    back = omega arith

-- The outcome of `try_publish`: the slot that it fills, or that no slot is free.
abbrev pub PublishOutcome : ℕ → ℕ → ℕ → List ℕ → ℕ → Ring → Published → Type 0
PublishOutcome n sequence nanos samples producer ring r =
    ((index : ℕ) × (index < length ring)
      × IsFree ring index
      × (r ≡ (
        true,
        set ring index (filled sequence nanos (take n samples)),
        next_index index (length ring),
      )))
    ⊎ (((index : ℕ) → index < length ring → ¬ IsFree ring index) × (r ≡ (false, ring, producer)))

Looped-PublishOutcome :
    (n sequence nanos : ℕ) (samples : List ℕ) (producer : ℕ) (ring : Ring) {r : Published}
    → Looped n sequence nanos samples producer ring (length ring) 0 r
    → PublishOutcome n sequence nanos samples producer ring r
unfolding Looped
Looped-PublishOutcome n sequence nanos samples producer ring (inl (o, below, free, same)) =
    inl ((producer + o) % length ring, mod-lt (producer + o) (omega arith), free, same)
Looped-PublishOutcome n sequence nanos samples producer ring (inr (busy, same)) = inr (
  (λ index h free.
      let (o, below, there) = round_reaches producer index (length ring) h in
      busy o (omega arith) (omega arith) (rw there free)),
  same,
)

-- A publication with enough samples and a working clock fills one slot that was free with the block
-- and moves the producer behind it, or it is refused, with nothing changed, and then no slot is
-- free.
pub try_publish-PublishOutcome :
    (n sequence nanos : ℕ) (samples : List ℕ) (producer : ℕ) (ring : Ring)
    → 0 < n
    → n ≤ length samples
    → PublishOutcome n sequence nanos samples producer ring
        (try_publish n sequence (some nanos) samples producer ring)
try_publish-PublishOutcome n sequence nanos samples producer ring pos room = rw start (
    Looped-PublishOutcome n sequence nanos samples producer ring
      (loop-Looped n sequence nanos samples producer ring (length ring) 0))
  where
    start :
        try_publish n sequence (some nanos) samples producer ring
        ≡ publish_loop (length ring) 0 n sequence (some nanos) samples producer ring
    start = unfold try_publish in ground arith

-- A block that is put into a free slot joins the blocks of the ring.
contents-set :
    (ring : Ring) (index sequence nanos : ℕ) (audio : List ℕ)
    → index < length ring
    → IsFree ring index
    → Perm
        (contents (set ring index (filled sequence nanos audio)))
        (record { sequence = sequence; published_nanos = nanos; audio = audio } ∷ contents ring)
unfolding contents filled
contents-set [] index sequence nanos audio h free = elim h [ ]
contents-set (s ∷ ring) zero sequence nanos audio h free = elim (Bool-cases (is_ready s)) [
  | inl ready ↦ absurd (unfold is_ready in ground arith)
  | inr idle ↦ rw idle (Perm.refl _)
]
contents-set (s ∷ ring) (suc index) sequence nanos audio h free =
    let rest = contents-set ring index sequence nanos audio (omega arith) free in
    elim (Bool-cases (is_ready s)) [
      | inl ready ↦ rw ready (Perm.trans (Perm.cons _ rest) (Perm.swap _ _ _))
      | inr idle ↦ rw idle rest
    ]

-- A publication with enough samples that succeeds adds its block to the ready blocks of the ring, up
-- to their order, and adds or removes no other; the ring keeps its number of slots.
pub try_publish-contents :
    (n sequence nanos : ℕ) (samples : List ℕ) (producer : ℕ) (ring : Ring) {ring' : Ring}
    {producer' : ℕ}
    → 0 < n
    → n ≤ length samples
    → try_publish n sequence (some nanos) samples producer ring ≡ (true, ring', producer')
    → (length ring' ≡ length ring)
      × Perm (contents ring') (
          record { sequence = sequence; published_nanos = nanos; audio = take n samples }
          ∷ contents ring)
try_publish-contents n sequence nanos samples producer ring {ring'} pos room done =
    elim (try_publish-PublishOutcome n sequence nanos samples producer ring pos room) [
      | inl (index, below, free, same) ↦
          let there : set ring index (filled sequence nanos (take n samples)) ≡ ring' = cc in
          rw (← there) (
            length-set ring index (filled sequence nanos (take n samples)),
            contents-set ring index sequence nanos (take n samples) below free,
          )
      | inr (busy, same) ↦ absurd (cc)
    ]

find_exact-set :
    (ring : Ring) (index sequence nanos : ℕ) (audio : List ℕ)
    → index < length ring
    → IsFree ring index
    → find_exact sequence (contents ring) ≡ none
    → find_exact sequence (contents (set ring index (filled sequence nanos audio)))
      ≡ some (record { sequence = sequence; published_nanos = nanos; audio = audio })
unfolding contents filled find_exact
find_exact-set [] index sequence nanos audio h free absent = elim h [ ]
find_exact-set (s ∷ ring) zero sequence nanos audio h free absent = ground arith
find_exact-set (s ∷ ring) (suc index) sequence nanos audio h free absent =
    ground (arith, find_exact-set ring index sequence nanos audio (omega arith) free)

take-take : (n : ℕ) (xs : List ℕ) → take n (take n xs) ≡ take n xs
take-take zero xs = refl
take-take (suc n) [] = refl
take-take (suc n) (x ∷ xs) = ap (λ t. x ∷ t) (take-take n xs)

-- A block that is published by the cutoff, under a sequence number that no ready block has, is what
-- a read of that number then returns: its samples, at the start of the reader's buffer, with the
-- time of its publication.
pub try_consume_exact-try_publish :
    (n sequence nanos cutoff : ℕ) (samples buffer : List ℕ) (producer : ℕ) (ring : Ring)
    {ring' : Ring} {producer' : ℕ}
    → 0 < n
    → n ≤ length samples
    → n ≤ length buffer
    → 0 < nanos
    → nanos ≤ cutoff
    → find_exact sequence (contents ring) ≡ none
    → try_publish n sequence (some nanos) samples producer ring ≡ (true, ring', producer')
    → (try_consume_exact n sequence (some cutoff) buffer ring').0
      ≡ (PlaybackConsume.ready, some nanos, take n samples ++ drop n buffer)
try_consume_exact-try_publish n sequence nanos cutoff samples buffer producer ring {ring'} pos room
      space stamped early absent done =
    elim (try_publish-PublishOutcome n sequence nanos samples producer ring pos room) [
      | inl (index, below, free, same) ↦
          let there : set ring index (filled sequence nanos (take n samples)) ≡ ring' = cc in
          rw
            (
              ← there,
              try_consume_exact-eq n sequence (some cutoff) buffer
                  (set ring index (filled sequence nanos (take n samples))) pos space,
              find_exact-set ring index sequence nanos (take n samples) below free absent,
            )
            deliver
      | inr (busy, same) ↦ absurd (cc)
    ]
  where
    deliver :
        delivered n
          (some cutoff)
          buffer
          (some (record { sequence = sequence; published_nanos = nanos; audio = take n samples }))
        ≡ (PlaybackConsume.ready, some nanos, take n samples ++ drop n buffer)
    deliver = unfold is_late timestamp copy_into in ground (arith, take-take n samples)
