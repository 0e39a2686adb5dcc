-- ===== src/Core/Routing/Reads.antt =====
-- `copy_from_physical` never panics, and gathers the port's channels of every frame.
use native.Mathlib.Decide.{ℕ_discrete}
use side_alsa.Base.{
  ℕ, zero, suc, ◌+◌, ◌*◌, ◌≤◌, ◌<◌, ◌≡◌, refl, ◌∙◌, Option, some, List, [], ◌∷◌, ok, All, length,
  get_or, set, arith, length-set, get_or-set_self, get_or-set_ne,
}
use side_alsa.Core.Routing.{
  CompiledPort, check_buffers, for_channels, for_frames, update_at, copy_from_physical,
}
use side_alsa.Core.Routing.Loops.{check_buffers-Accepted, update_at-some}

module _ {A : Type 0} (d : A) (physical : List A) (pc : ℕ) where
  abbrev gather : ℕ → ℕ → List A → Option (List A)
  gather p l = update_at (λ old x. x) physical p l

  -- What one frame leaves: its samples in place, and all else as before.
  record Gathered (cs : List ℕ) (po li : ℕ) (s s' : List A) : Type 0 where
    size : length s' ≡ length s
    copied : (i : ℕ) → i < length cs → get_or s' (li + i) d ≡ get_or physical (po + get_or cs i 0) d
    before : (p : ℕ) → p < li → get_or s' p d ≡ get_or s p d
    behind : (p : ℕ) → li + length cs ≤ p → get_or s' p d ≡ get_or s p d

  Gathered-cons :
      (c : ℕ) (cs : List ℕ) (po li : ℕ) (s s' : List A)
      → li < length s
      → Gathered cs po (li + 1) (set s li (get_or physical (po + c) d)) s'
      → Gathered (c ∷ cs) po li s s'
  Gathered-cons c cs po li s s' h g = record {
    size = g.size ∙ length-set s li x;
    copied = first;
    before = λ p below. g.before p (omega arith) ∙ get_or-set_ne s li p x d (omega arith);
    behind = λ p past. g.behind p (omega arith) ∙ get_or-set_ne s li p x d (omega arith);
  }
    where
      x : A
      x = get_or physical (po + c) d

      first :
          (i : ℕ)
          → i < suc (length cs)
          → get_or s' (li + i) d ≡ get_or physical (po + get_or (c ∷ cs) i 0) d
      first zero k =
          let e : li + 0 ≡ li = omega arith in
          rw e (g.before li (omega arith) ∙ get_or-set_self s li x d h)
      first (suc i) k =
          let e : li + suc i ≡ li + 1 + i = omega arith in rw e (g.copied i (omega arith))

  channels-Gathered :
      (cs : List ℕ) (po li : ℕ) (s : List A)
      → All (λ c. c < pc) cs
      → po + pc ≤ length physical
      → li + length cs ≤ length s
      → (s' : List A) × (for_channels gather cs po li s ≡ some s') × Gathered cs po li s s'
  unfolding for_channels
  channels-Gathered [] po li s v hp hl = (
    s,
    refl,
    record { size = refl; copied = λ i h. elim h [ ]; before = λ p h. refl; behind = λ p h. refl },
  )
  channels-Gathered (c ∷ cs) po li s v hp hl =
      more (channels-Gathered cs po (li + 1) s1 v.1 hp room)
    where
      s1 : List A
      s1 = set s li (get_or physical (po + c) d)

      room : li + 1 + length cs ≤ length s1
      room = omega (arith, length-set s li (get_or physical (po + c) d))

      first : gather (po + c) li s ≡ some s1
      first = update_at-some d (λ old x. x) physical (po + c) li s (omega arith) (omega arith)

      more :
          (s' : List A) × (for_channels gather cs po (li + 1) s1 ≡ some s')
            × Gathered cs po (li + 1) s1 s'
          → (s' : List A) × (for_channels gather (c ∷ cs) po li s ≡ some s')
            × Gathered (c ∷ cs) po li s s'
      more (s', e, g) =
          (s', rw (first, for_channels) e, Gathered-cons c cs po li s s' (omega arith) g)

  -- What `n` frames leave, from frame `start` on.
  record FramesGathered (cs : List ℕ) (n start : ℕ) (s s' : List A) : Type 0 where
    size : length s' ≡ length s
    copied :
        (t i : ℕ)
        → start ≤ t
        → t < start + n
        → i < length cs
        → get_or s' (t * length cs + i) d ≡ get_or physical (t * pc + get_or cs i 0) d
    before : (p : ℕ) → p < start * length cs → get_or s' p d ≡ get_or s p d
    behind : (p : ℕ) → (start + n) * length cs ≤ p → get_or s' p d ≡ get_or s p d

  FramesGathered-suc :
      (cs : List ℕ) (n start : ℕ) (s s1 s' : List A)
      → Gathered cs (start * pc) (start * length cs) s s1
      → FramesGathered cs n (start + 1) s1 s'
      → FramesGathered cs (suc n) start s s'
  FramesGathered-suc cs n start s s1 s' g f = record {
    size = f.size ∙ g.size;
    copied = copied;
    before = λ p h. f.before p (grind arith) ∙ g.before p h;
    behind = λ p h. f.behind p (grind arith) ∙ g.behind p (grind arith);
  }
    where
      copied :
          (t i : ℕ)
          → start ≤ t
          → t < start + suc n
          → i < length cs
          → get_or s' (t * length cs + i) d ≡ get_or physical (t * pc + get_or cs i 0) d
      copied t i lo hi h = elim (ℕ_discrete t start) [
        | yes e ↦ rw e (f.before (start * length cs + i) (omega arith) ∙ g.copied i h)
        | no ne ↦ f.copied t i (omega arith) (omega arith) h
      ]

  frames-FramesGathered :
      (cs : List ℕ) (n start : ℕ) (s : List A)
      → All (λ c. c < pc) cs
      → (start + n) * pc ≤ length physical
      → (start + n) * length cs ≤ length s
      → (s' : List A) × (for_frames gather n start cs pc s ≡ some s')
        × FramesGathered cs n start s s'
  unfolding for_frames
  frames-FramesGathered cs zero start s v hp hl = (
    s,
    refl,
    record {
      size = refl;
      copied = λ t i lo hi h. absurd (omega arith);
      before = λ p h. refl;
      behind = λ p h. refl;
    },
  )
  frames-FramesGathered cs (suc n) start s v hp hl =
      let (s1, e, g) =
        channels-Gathered cs (start * pc) (start * length cs) s v (grind arith) (grind arith) in
      let (s', e', f) =
        frames-FramesGathered cs n (start + 1) s1 v (omega arith) (omega (arith, g.size)) in
      (s', rw (e, for_frames) e', FramesGathered-suc cs n start s s1 s' g f)

-- Where the buffers are accepted the copy does not panic: the port's buffer keeps its length, every
-- sample of every frame is that of its channel in the device's buffer, and what lies behind the
-- frames is left as it was.
pub copy_from_physical_lem :
    {A : Type 0} (d : A) (port : CompiledPort) (physical : List A) (pc frames : ℕ)
    (logical : List A)
    → check_buffers port (length physical) pc frames (length logical) ≡ ok tt
    → (logical' : List A) × (copy_from_physical port physical pc frames logical
        ≡ some (ok logical'))
      × (length logical' ≡ length logical)
      × ((t i : ℕ)
          → t < frames
          → i < length port.channels
          → get_or logical' (t * length port.channels + i) d
            ≡ get_or physical (t * pc + get_or port.channels i 0) d)
      × ((p : ℕ) → frames * length port.channels ≤ p → get_or logical' p d ≡ get_or logical p d)
unfolding copy_from_physical
copy_from_physical_lem d port physical pc frames logical h =
    let a = check_buffers-Accepted port (length physical) pc frames (length logical) h in
    let (logical', e, f) =
      frames-FramesGathered d physical pc port.channels frames 0 logical a.in_range
        (omega (arith, a.physical_fits)) (omega (arith, a.logical_fits)) in
    (
      logical',
      rw (h, e),
      f.size,
      (λ t i k l. f.copied t i (omega arith) (omega arith) l),
      λ p k. f.behind p (omega arith),
    )
