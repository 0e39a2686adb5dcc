-- ===== src/Daemon/Endpoint/Replacement.antt =====
-- A step of a replacement or a wait keeps the invariant of the slot.
use side_alsa.Base.{
  ℕ, ◌+◌, ◌%◌, ◌<◌, ◌≡◌, ◌≢◌, sym, ◌∙◌, inl, inr, Bool, true, false, Option, none, some, List, [],
  ◌∷◌, ◌==◌, u64_mod, All, Distinct, arith, Bool-cases,
}
use side_alsa.Daemon.Endpoint.{
  Reader, Writer, EndpointSlot, ready, swapped, draining, activity, free, advance_epoch,
  replace_step, wait_step,
}
use side_alsa.Daemon.Endpoint.Drained.{
  Good-swapped, Good-advanced, Good-waiting, Good-drained, parity,
}
use side_alsa.Daemon.Endpoint.Invariant.{Good, Retired, inside, count, All-map, Inv}

All-with :
    {A : Type 0} (f : A → ℕ) (P Q : A → Type 0)
    → ((x : A) → f x ≡ 0 → P x → Q x)
    → (xs : List A) → All (λ x. f x ≡ 0) xs
    → All P xs
    → All Q xs
All-with f P Q g [] z a = tt
All-with f P Q g (x ∷ xs) z a = (g x z.0 a.0, All-with f P Q g xs z.1 a.1)

count-zero :
    (even : Bool) (readers : List Reader)
    → count even readers ≡ 0
    → All (λ r. inside even r ≡ 0) readers
count-zero even [] h = tt
count-zero even (r ∷ readers) h = (omega (arith, h), count-zero even readers (omega (arith, h)))

below-ne : (next : ℕ) (freed : List ℕ) → All (λ q. q < next) freed → All (λ q. q ≢ next) freed
below-ne next freed a =
    All-map (λ q. q < next) (λ q. q ≢ next) (λ q h e. omega (arith, h, e)) freed a

below-suc : (next : ℕ) (freed : List ℕ) → All (λ q. q < next) freed → All (λ q. q < next + 1) freed
below-suc next freed a =
    All-map (λ q. q < next) (λ q. q < next + 1) (λ q h. omega (arith, h)) freed a

swap-Inv :
    (s : EndpointSlot)
    → Inv s
    → s.writer ≡ ready
    → Inv (record s { current = s.next; next = s.next + 1; writer = swapped s.current })
swap-Inv s v w = record {
  few = v.few;
  epoch_lt = v.epoch_lt;
  even = v.even;
  odd = v.odd;
  good =
      All-map (Good ready s.reader_epoch s.current) (Good (swapped s.current) s.reader_epoch s.next)
        (Good-swapped s.reader_epoch s.current s.next) s.readers (rw w at v.good);
  current_lt = omega arith;
  current_live = below-ne s.next s.freed v.freed_lt;
  freed_lt = below-suc s.next s.freed v.freed_lt;
  freed_once = v.freed_once;
  retired = (omega (arith, v.current_lt), (λ e. omega (arith, v.current_lt, e)), v.current_live);
}

epoch-fits : (n : ℕ) → (n + 1) % u64_mod < u64_mod
epoch-fits n = omega arith

advance-Inv :
    (s : EndpointSlot) (r : ℕ) → Inv s → s.writer ≡ swapped r → Inv (advance_epoch (some r) s)
unfolding advance_epoch
advance-Inv s r v w = record {
  few = v.few;
  epoch_lt = epoch-fits s.reader_epoch;
  even = v.even;
  odd = v.odd;
  good =
      All-map (Good (swapped r) s.reader_epoch s.current)
        (Good (draining (some r) s.reader_epoch) ((s.reader_epoch + 1) % u64_mod) s.current)
        (Good-advanced r s.reader_epoch ((s.reader_epoch + 1) % u64_mod) s.current) s.readers
        (rw w at v.good);
  current_lt = v.current_lt;
  current_live = v.current_live;
  freed_lt = v.freed_lt;
  freed_once = v.freed_once;
  retired = rw w at v.retired;
}

wait-Inv : (s : EndpointSlot) → Inv s → s.writer ≡ ready → Inv (advance_epoch none s)
unfolding advance_epoch
wait-Inv s v w = record {
  few = v.few;
  epoch_lt = epoch-fits s.reader_epoch;
  even = v.even;
  odd = v.odd;
  good =
      All-map (Good ready s.reader_epoch s.current)
        (Good (draining none s.reader_epoch) ((s.reader_epoch + 1) % u64_mod) s.current)
        (Good-waiting s.reader_epoch ((s.reader_epoch + 1) % u64_mod) s.current) s.readers
        (rw w at v.good);
  current_lt = v.current_lt;
  current_live = v.current_live;
  freed_lt = v.freed_lt;
  freed_once = v.freed_once;
  retired = tt;
}

drained :
    (s : EndpointSlot) (old : ℕ)
    → Inv s
    → activity old s ≡ 0
    → All (λ r. inside (parity old) r ≡ 0) s.readers
unfolding activity
drained s old v h = elim (Bool-cases (old % 2 == 0)) [
  | inl p ↦
      let k : s.even_activity ≡ 0 = (rw p at h) in rw p (count-zero true s.readers (sym v.even ∙ k))
  | inr p ↦
      let k : s.odd_activity ≡ 0 = (rw p at h) in rw p (count-zero false s.readers (sym v.odd ∙ k))
]

free-Inv :
    (s : EndpointSlot) (retired : Option ℕ) (old : ℕ)
    → Inv s
    → s.writer ≡ draining retired old
    → activity old s ≡ 0
    → Inv (record s { freed = free retired s.freed; writer = ready })
unfolding free
free-Inv s retired old v w h = record {
  few = v.few;
  epoch_lt = v.epoch_lt;
  even = v.even;
  odd = v.odd;
  good =
      All-with (inside (parity old)) (Good (draining retired old) s.reader_epoch s.current)
        (Good ready s.reader_epoch s.current) (Good-drained retired old s.reader_epoch s.current)
        s.readers (drained s old v h) (rw w at v.good);
  current_lt = v.current_lt;
  current_live = live retired (rw w at v.retired);
  freed_lt = lt retired (rw w at v.retired);
  freed_once = once retired (rw w at v.retired);
  retired = tt;
}
  where
    live :
        (x : Option ℕ)
        → Retired (draining x old) s.current s.next s.freed
        → All (λ q. q ≢ s.current) (free x s.freed)
    live none k = v.current_live
    live (some r) k = (k.1, v.current_live)

    lt :
        (x : Option ℕ)
        → Retired (draining x old) s.current s.next s.freed
        → All (λ q. q < s.next) (free x s.freed)
    lt none k = v.freed_lt
    lt (some r) k = (k.0, v.freed_lt)

    once :
        (x : Option ℕ)
        → Retired (draining x old) s.current s.next s.freed
        → Distinct (free x s.freed)
    once none k = v.freed_once
    once (some r) k = (k.2, v.freed_once)

pub replace_step-Inv :
    (s : EndpointSlot) (w : Writer) → s.writer ≡ w → Inv s → Inv (replace_step w s)
unfolding replace_step
replace_step-Inv s ready e v = swap-Inv s v e
replace_step-Inv s (swapped r) e v = advance-Inv s r v e
replace_step-Inv s (draining r old) e v = elim (Bool-cases (activity old s == 0)) [
  | inl p ↦ rw p (free-Inv s r old v e (ground arith))
  | inr p ↦ rw p v
]

pub wait_step-Inv : (s : EndpointSlot) (w : Writer) → s.writer ≡ w → Inv s → Inv (wait_step w s)
unfolding wait_step
wait_step-Inv s ready e v = wait-Inv s v e
wait_step-Inv s (swapped r) e v = v
wait_step-Inv s (draining r old) e v = v
