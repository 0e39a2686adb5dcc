-- ===== src/Core/Routing/Writes.antt =====
-- `copy_to_physical` and `add_to_physical_saturating` never panic: they update the port's channels
-- of every frame from the port's buffer, and leave the other channels alone.
use native.Mathlib.Decide.{ℕ_discrete}
use side_alsa.Base.{
  Distinct, ℕ, zero, suc, ◌+◌, ◌*◌, ◌≤◌, ◌<◌, ◌≡◌, ◌≢◌, refl, sym, ap, ◌∙◌, Option, some, List, [],
  ◌∷◌, ok, All, length, get_or, set, arith, length-set, get_or-set_self, get_or-set_ne,
}
use side_alsa.Base.Int.{ℤ}
use side_alsa.Core.Routing.{
  CompiledPort, check_buffers, for_channels, for_frames, update_at, copy_to_physical,
  add_to_physical_saturating, saturating_add_i32,
}
use side_alsa.Core.Routing.Loops.{check_buffers-Accepted, channel-lt, update_at-some}

channel-ne : (c i : ℕ) (cs : List ℕ) → All (λ b. b ≢ c) cs → i < length cs → get_or cs i 0 ≢ c
channel-ne c i [] v h = elim h [ ]
channel-ne c zero (b ∷ cs) v h = v.0
channel-ne c (suc i) (b ∷ cs) v h = channel-ne c i cs v.1 (omega arith)

-- Channels of different frames lie at different places.
frame-ne : (t u a b pc : ℕ) → t < u → a < pc → t * pc + a ≢ u * pc + b
frame-ne t u a b pc h k = grind arith

-- Where the channel of a number lies in the device's buffer.
abbrev pub place : ℕ → List ℕ → ℕ → ℕ → ℕ
place pc cs t i = t * pc + get_or cs i 0

module _ {A : Type 0} (d : A) (f : A → A → A) (logical : List A) (pc : ℕ) where
  abbrev scatter : ℕ → ℕ → List A → Option (List A)
  scatter p l = update_at f logical l p

  record Scattered (cs : List ℕ) (po li : ℕ) (s s' : List A) : Type 0 where
    size : length s' ≡ length s
    written :
        (i : ℕ)
        → i < length cs
        → get_or s' (po + get_or cs i 0) d
          ≡ f (get_or s (po + get_or cs i 0) d) (get_or logical (li + i) d)
    kept :
        (q : ℕ) → ((i : ℕ) → i < length cs → q ≢ po + get_or cs i 0) → get_or s' q d ≡ get_or s q d

  Scattered-cons :
      (c : ℕ) (cs : List ℕ) (po li : ℕ) (s s' : List A)
      → po + c < length s
      → All (λ b. b ≢ c) cs
      → Scattered cs po (li + 1) (set s (po + c) (f (get_or s (po + c) d) (get_or logical li d))) s'
      → Scattered (c ∷ cs) po li s s'
  Scattered-cons c cs po li s s' h v g = record {
    size = g.size ∙ length-set s (po + c) x;
    written = written;
    kept = λ q apart.
        g.kept q (λ i k. apart (suc i) (omega arith))
        ∙ get_or-set_ne s (po + c) q x d (λ e. apart 0 (omega arith) (sym e));
  }
    where
      x : A
      x = f (get_or s (po + c) d) (get_or logical li d)

      written :
          (i : ℕ)
          → i < suc (length cs)
          → get_or s' (po + get_or (c ∷ cs) i 0) d
            ≡ f (get_or s (po + get_or (c ∷ cs) i 0) d) (get_or logical (li + i) d)
      written zero k =
          let e : li + 0 ≡ li = omega arith in
          rw e (
            g.kept (po + c) (λ i l. λ q. channel-ne c i cs v l (omega arith))
            ∙ get_or-set_self s (po + c) x d h)
      written (suc i) k =
          let e : li + suc i ≡ li + 1 + i = omega arith in
          let other : get_or cs i 0 ≢ c = channel-ne c i cs v (omega arith) in
          rw e (
            g.written i (omega arith)
            ∙ ap (λ y. f y (get_or logical (li + 1 + i) d))
                (get_or-set_ne s (po + c) (po + get_or cs i 0) x d (omega arith)))

  channels-Scattered :
      (cs : List ℕ) (po li : ℕ) (s : List A)
      → All (λ c. c < pc) cs
      → Distinct cs
      → po + pc ≤ length s
      → li + length cs ≤ length logical
      → (s' : List A) × (for_channels scatter cs po li s ≡ some s') × Scattered cs po li s s'
  unfolding for_channels
  channels-Scattered [] po li s v u hp hl =
      (s, refl, record { size = refl; written = λ i h. elim h [ ]; kept = λ q h. refl })
  channels-Scattered (c ∷ cs) po li s v u hp hl =
      let x = f (get_or s (po + c) d) (get_or logical li d) in
      let first = update_at-some d f logical li (po + c) s (omega arith) (omega arith) in
      let (s', e, g) =
        channels-Scattered cs po (li + 1) (set s (po + c) x) v.1 u.1
          (omega (arith, length-set s (po + c) x)) (omega arith) in
      (s', rw (first, for_channels) e, Scattered-cons c cs po li s s' (omega arith) u.0 g)

  record FramesScattered (cs : List ℕ) (n start : ℕ) (s s' : List A) : Type 0 where
    size : length s' ≡ length s
    written :
        (t i : ℕ)
        → start ≤ t
        → t < start + n
        → i < length cs
        → get_or s' (place pc cs t i) d
          ≡ f (get_or s (place pc cs t i) d) (get_or logical (t * length cs + i) d)
    kept :
        (q : ℕ)
        → ((t i : ℕ) → start ≤ t → t < start + n → i < length cs → q ≢ place pc cs t i)
        → get_or s' q d ≡ get_or s q d

  FramesScattered-suc :
      (cs : List ℕ) (n start : ℕ) (s s1 s' : List A)
      → All (λ c. c < pc) cs
      → Scattered cs (start * pc) (start * length cs) s s1
      → FramesScattered cs n (start + 1) s1 s'
      → FramesScattered cs (suc n) start s s'
  FramesScattered-suc cs n start s s1 s' v g h = record {
    size = h.size ∙ g.size;
    written = written;
    kept = λ q apart.
        h.kept q (λ t i lo hi k. apart t i (omega arith) (omega arith) k)
        ∙ g.kept q (λ i k. apart start i (omega arith) (omega arith) k);
  }
    where
      written :
          (t i : ℕ)
          → start ≤ t
          → t < start + suc n
          → i < length cs
          → get_or s' (place pc cs t i) d
            ≡ f (get_or s (place pc cs t i) d) (get_or logical (t * length cs + i) d)
      written t i lo hi k = elim (ℕ_discrete t start) [
        | yes e ↦ rw e (
            h.kept (place pc cs start i) (λ u j above below l.
              frame-ne start u (get_or cs i 0) (get_or cs j 0) pc (omega arith)
                (channel-lt pc i cs v k))
            ∙ g.written i k)
        | no ne ↦
            h.written t i (omega arith) (omega arith) k
            ∙ ap (λ y. f y (get_or logical (t * length cs + i) d))
                (g.kept (place pc cs t i) (λ j l e.
                  frame-ne start t (get_or cs j 0) (get_or cs i 0) pc (omega arith)
                    (channel-lt pc j cs v l) (sym e)))
      ]

  frames-FramesScattered :
      (cs : List ℕ) (n start : ℕ) (s : List A)
      → All (λ c. c < pc) cs
      → Distinct cs
      → (start + n) * pc ≤ length s
      → (start + n) * length cs ≤ length logical
      → (s' : List A) × (for_frames scatter n start cs pc s ≡ some s')
        × FramesScattered cs n start s s'
  unfolding for_frames
  frames-FramesScattered cs zero start s v u hp hl = (
    s,
    refl,
    record { size = refl; written = λ t i lo hi h. absurd (omega arith); kept = λ q h. refl },
  )
  frames-FramesScattered cs (suc n) start s v u hp hl =
      let (s1, e, g) =
        channels-Scattered cs (start * pc) (start * length cs) s v u (grind arith) (grind arith) in
      let (s', e', h) =
        frames-FramesScattered cs n (start + 1) s1 v u (omega (arith, g.size)) (omega arith) in
      (s', rw (e, for_frames) e', FramesScattered-suc cs n start s s1 s' v g h)

-- The frames of the port's buffer are put into the device's buffer by `f`, which combines the sample
-- that stands there with the port's; no other sample of the device changes.
abbrev pub Put : {A : Type 0} → A → (A → A → A) → List ℕ → ℕ → ℕ → List A → List A → List A → Type 0
Put d f cs pc frames logical physical physical' =
    (length physical' ≡ length physical)
    × ((t i : ℕ)
        → t < frames
        → i < length cs
        → get_or physical' (place pc cs t i) d
          ≡ f (get_or physical (place pc cs t i) d) (get_or logical (t * length cs + i) d))
    × ((q : ℕ)
        → ((t i : ℕ) → t < frames → i < length cs → q ≢ place pc cs t i)
        → get_or physical' q d ≡ get_or physical q d)

looped-Put :
    {A : Type 0} (d : A) (f : A → A → A) (port : CompiledPort) (logical : List A) (pc frames : ℕ)
    (physical : List A)
    → Distinct port.channels
    → check_buffers port (length physical) pc frames (length logical) ≡ ok tt
    → (physical' : List A) × (for_frames
          (λ p l. update_at f logical l p)
          frames
          0
          port.channels
          pc
          physical
        ≡ some physical')
      × Put d f port.channels pc frames logical physical physical'
looped-Put d f port logical pc frames physical u h =
    let a = check_buffers-Accepted port (length physical) pc frames (length logical) h in
    let (physical', e, s) =
      frames-FramesScattered d f logical pc port.channels frames 0 physical a.in_range u
        (omega (arith, a.physical_fits)) (omega (arith, a.logical_fits)) in
    (
      physical',
      e,
      (
        s.size,
        (λ t i k l. s.written t i (omega arith) (omega arith) l),
        λ q apart. s.kept q (λ t i lo hi l. apart t i (omega arith) l),
      ),
    )

-- Where the buffers are accepted and no channel stands twice in the port, the copy does not panic:
-- each sample of the port replaces that of its channel and frame, and no other sample changes.
pub copy_to_physical_lem :
    {A : Type 0} (d : A) (port : CompiledPort) (logical : List A) (pc frames : ℕ)
    (physical : List A)
    → Distinct port.channels
    → check_buffers port (length physical) pc frames (length logical) ≡ ok tt
    → (physical' : List A) × (copy_to_physical port logical pc frames physical
        ≡ some (ok physical'))
      × Put d (λ old x. x) port.channels pc frames logical physical physical'
unfolding copy_to_physical
copy_to_physical_lem d port logical pc frames physical u h =
    let (physical', e, s) = looped-Put d (λ old x. x) port logical pc frames physical u h in
    (physical', rw (h, e), s)

-- Where the buffers are accepted and no channel stands twice in the port, mixing does not panic:
-- each sample of the port is added with saturation to that of its channel and frame, and no other
-- sample changes.
pub add_to_physical_saturating_lem :
    (d : ℤ) (port : CompiledPort) (logical : List ℤ) (pc frames : ℕ) (physical : List ℤ)
    → Distinct port.channels
    → check_buffers port (length physical) pc frames (length logical) ≡ ok tt
    → (physical' : List ℤ) × (add_to_physical_saturating port logical pc frames physical
        ≡ some (ok physical'))
      × Put d saturating_add_i32 port.channels pc frames logical physical physical'
unfolding add_to_physical_saturating
add_to_physical_saturating_lem d port logical pc frames physical u h =
    let (physical', e, s) = looped-Put d saturating_add_i32 port logical pc frames physical u h in
    (physical', rw (h, e), s)
