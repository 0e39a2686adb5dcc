-- ===== src/Daemon/Endpoint/Readers.antt =====
-- A step of a reader keeps the invariant of the slot.
use side_alsa.Base.{
  ℕ, ◌+◌, ◌-◌, ◌%◌, ◌<◌, ◌≤◌, ◌≡◌, refl, inl, inr, Bool, true, false, none, some, ◌==◌, u32_mod,
  get_elem?, set, length-set, arith, subst, Bool-cases,
}
use side_alsa.Daemon.Endpoint.{
  Reader, Writer, EndpointSlot, idle, read, entered, rejected, checked, holding, ready, swapped,
  draining, enter, leave, load_step,
}
use side_alsa.Daemon.Endpoint.Invariant.{
  Epoch, Held, Good, counts, inside, count, count-le, count-set, All-get_elem?, Inv, Inv-moved,
}

module _ (s : EndpointSlot) (i : ℕ) (r r' : Reader) (e : ℕ) (v : Inv s)
    (at : get_elem? s.readers i ≡ some r) where
  count-fits :
      (even : Bool) → inside even r ≡ 0 → inside even r' ≡ 1 → count even s.readers + 1 < u32_mod
  count-fits even a b = omega (
    arith,
    count-set even s.readers i r r' at,
    count-le even (set s.readers i r'),
    length-set s.readers i r',
    v.few,
  )

  count-pos :
      (even : Bool)
      → inside even r ≡ 1
      → inside even r' ≡ 0
      → (1 ≤ count even s.readers) × (count even s.readers < u32_mod)
  count-pos even a b = (
    omega (arith, count-set even s.readers i r r' at),
    omega (arith, count-le even s.readers, v.few),
  )

  enter-Inv :
      ((even : Bool) → inside even r ≡ 0)
      → ((even : Bool) → inside even r' ≡ counts even e)
      → Good s.writer s.reader_epoch s.current r'
      → Inv (record (enter e s) { readers = set s.readers i r' })
  unfolding enter
  enter-Inv a b g = elim (Bool-cases (e % 2 == 0)) [
    | inl p ↦
        let at_even : inside true r' ≡ 1 = (let q = b true in rw p at q) in
        let at_odd : inside false r' ≡ 0 = (let q = b false in rw p at q) in
        let fits = count-fits true (a true) at_even in
        rw p (
          Inv-moved s i r r' ((s.even_activity + 1) % u32_mod) s.odd_activity v at g
            (omega (arith, a true, v.even)) (omega (arith, a false)))
    | inr p ↦
        let at_even : inside true r' ≡ 0 = (let q = b true in rw p at q) in
        let at_odd : inside false r' ≡ 1 = (let q = b false in rw p at q) in
        let fits = count-fits false (a false) at_odd in
        rw p (
          Inv-moved s i r r' s.even_activity ((s.odd_activity + 1) % u32_mod) v at g
            (omega (arith, a true)) (omega (arith, a false, v.odd)))
  ]

  leave-Inv :
      ((even : Bool) → inside even r ≡ counts even e)
      → ((even : Bool) → inside even r' ≡ 0)
      → Good s.writer s.reader_epoch s.current r'
      → Inv (record (leave e s) { readers = set s.readers i r' })
  unfolding leave
  leave-Inv a b g = elim (Bool-cases (e % 2 == 0)) [
    | inl p ↦
        let at_even : inside true r ≡ 1 = (let q = a true in rw p at q) in
        let at_odd : inside false r ≡ 0 = (let q = a false in rw p at q) in
        let (ge, lt) = count-pos true at_even (b true) in
        rw p (
          Inv-moved s i r r' ((s.even_activity + u32_mod - 1) % u32_mod) s.odd_activity v at g
            (omega (arith, b true, v.even)) (omega (arith, b false)))
    | inr p ↦
        let at_even : inside true r ≡ 0 = (let q = a true in rw p at q) in
        let at_odd : inside false r ≡ 1 = (let q = a false in rw p at q) in
        let (ge, lt) = count-pos false at_odd (b false) in
        rw p (
          Inv-moved s i r r' s.even_activity ((s.odd_activity + u32_mod - 1) % u32_mod) v at g
            (omega (arith, b true)) (omega (arith, b false, v.odd)))
  ]

Epoch-current : (w : Writer) (epoch : ℕ) → Epoch w epoch epoch
Epoch-current ready epoch = refl
Epoch-current (swapped r) epoch = refl
Epoch-current (draining r old) epoch = inl refl

Epoch-Held : (w : Writer) (epoch current e : ℕ) → Epoch w epoch e → Held w epoch current e current
Epoch-Held ready epoch current e h = (h, refl)
Epoch-Held (swapped r) epoch current e h = (h, inl refl)
Epoch-Held (draining none old) epoch current e h = (h, refl)
Epoch-Held (draining (some r) old) epoch current e (inl h) = inl (h, refl)
Epoch-Held (draining (some r) old) epoch current e (inr h) = inr (h, inl refl)

pub load_step-Inv :
    (s : EndpointSlot) (i : ℕ) (r : Reader)
    → Inv s
    → get_elem? s.readers i ≡ some r
    → let (s', r') = load_step r s in Inv (record s' { readers = set s.readers i r' })
unfolding load_step
load_step-Inv s i idle v h =
    Inv-moved s i idle (read s.reader_epoch) s.even_activity s.odd_activity v h tt refl refl
load_step-Inv s i (read e) v h = enter-Inv s i (read e) (entered e) e v h (λ b. refl) (λ b. refl) tt
load_step-Inv s i (entered e) v h = elim (Bool-cases (s.reader_epoch == e)) [
  | inl p ↦
      let same : s.reader_epoch ≡ e = ground arith in
      rw p (
        Inv-moved s i (entered e) (checked e) s.even_activity s.odd_activity v h
          (subst (Epoch s.writer s.reader_epoch) same (Epoch-current s.writer s.reader_epoch)) refl
          refl)
  | inr p ↦
      rw p (Inv-moved s i (entered e) (rejected e) s.even_activity s.odd_activity v h tt refl refl)
]
load_step-Inv s i (rejected e) v h =
    leave-Inv s i (rejected e) idle e v h (λ b. refl) (λ b. refl) tt
load_step-Inv s i (checked e) v h =
    Inv-moved s i (checked e) (holding e s.current) s.even_activity s.odd_activity v h
      (Epoch-Held s.writer s.reader_epoch s.current e
        (All-get_elem? (Good s.writer s.reader_epoch s.current) s.readers i v.good h))
      refl refl
load_step-Inv s i (holding e p) v h =
    leave-Inv s i (holding e p) idle e v h (λ b. refl) (λ b. refl) tt
