-- ===== src/Daemon/Endpoint/Drained.antt =====
-- What readers can hold when a replacement goes on.
use side_alsa.Base.{
  ℕ, ◌%◌, ◌≤◌, ◌≡◌, refl, inl, inr, Bool, Option, none, some, ◌==◌, arith, subst, Bool-cases,
}
use side_alsa.Daemon.Endpoint.{
  Reader, idle, read, entered, rejected, checked, holding, ready, swapped, draining,
}
use side_alsa.Daemon.Endpoint.Invariant.{Good, counts, inside}

pub Good-swapped :
    (epoch current current' : ℕ) (r : Reader)
    → Good ready epoch current r
    → Good (swapped current) epoch current' r
Good-swapped epoch current current' idle g = tt
Good-swapped epoch current current' (read e) g = tt
Good-swapped epoch current current' (entered e) g = tt
Good-swapped epoch current current' (rejected e) g = tt
Good-swapped epoch current current' (checked e) g = g
Good-swapped epoch current current' (holding e p) g = (g.0, inr g.1)

pub Good-advanced :
    (retired epoch epoch' current : ℕ) (r : Reader)
    → Good (swapped retired) epoch current r
    → Good (draining (some retired) epoch) epoch' current r
Good-advanced retired epoch epoch' current idle g = tt
Good-advanced retired epoch epoch' current (read e) g = tt
Good-advanced retired epoch epoch' current (entered e) g = tt
Good-advanced retired epoch epoch' current (rejected e) g = tt
Good-advanced retired epoch epoch' current (checked e) g = inr g
Good-advanced retired epoch epoch' current (holding e p) g = inr g

pub Good-waiting :
    (epoch epoch' current : ℕ) (r : Reader)
    → Good ready epoch current r
    → Good (draining none epoch) epoch' current r
Good-waiting epoch epoch' current idle g = tt
Good-waiting epoch epoch' current (read e) g = tt
Good-waiting epoch epoch' current (entered e) g = tt
Good-waiting epoch epoch' current (rejected e) g = tt
Good-waiting epoch epoch' current (checked e) g = inr g
Good-waiting epoch epoch' current (holding e p) g = (inr g.0, g.1)

-- Whether the readers of an epoch count as even.
abbrev pub parity : ℕ → Bool
parity e = e % 2 == 0

counts-parity : (e : ℕ) → counts (parity e) e ≡ 1
counts-parity e = elim (Bool-cases (e % 2 == 0)) [ inl p ↦ rw (p, p) refl | inr p ↦ rw (p, p) refl ]

absurd-count : {A : Type 0} (old e : ℕ) → counts (parity old) e ≡ 0 → e ≡ old → A
absurd-count old e n g =
    let none_inside : counts (parity old) old ≡ 0 = subst (λ k. counts (parity old) k ≡ 0) g n in
    let impossible : 1 ≤ 0 = omega (arith, counts-parity old, none_inside) in elim impossible [ ]

-- Without a reader inside the retired epoch, all were admitted at the current one.
pub Good-drained :
    (retired : Option ℕ) (old epoch current : ℕ) (r : Reader)
    → inside (parity old) r ≡ 0
    → Good (draining retired old) epoch current r
    → Good ready epoch current r
Good-drained retired old epoch current idle n g = tt
Good-drained retired old epoch current (read e) n g = tt
Good-drained retired old epoch current (entered e) n g = tt
Good-drained retired old epoch current (rejected e) n g = tt
Good-drained retired old epoch current (checked e) n (inl g) = g
Good-drained retired old epoch current (checked e) n (inr g) = absurd-count old e n g
Good-drained none old epoch current (holding e p) n (inl g, h) = (g, h)
Good-drained none old epoch current (holding e p) n (inr g, h) = absurd-count old e n g
Good-drained (some r) old epoch current (holding e p) n (inl g) = g
Good-drained (some r) old epoch current (holding e p) n (inr (g, h)) = absurd-count old e n g
