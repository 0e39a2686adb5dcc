-- ===== src/Daemon/Endpoint/Safety.antt =====
-- No reader of an endpoint slot holds an endpoint that was freed, and none is freed twice.
use side_alsa.Base.{
  ℕ, zero, suc, ◌<◌, ◌≡◌, ◌≢◌, refl, sym, inl, inr, Bool, true, false, none, some, List, [], ◌∷◌,
  u32_mod, get_elem?, replicate, length, length-replicate, All, Distinct, arith, subst,
  Option-cases,
}
use side_alsa.Daemon.Endpoint.{
  Reader, Writer, EndpointSlot, idle, read, entered, rejected, checked, holding, ready, swapped,
  draining, Action, reader, replace, wait, step, run, new_slot,
}
use side_alsa.Daemon.Endpoint.Readers.{load_step-Inv}
use side_alsa.Daemon.Endpoint.Invariant.{Held, Good, Retired, count, All-map, Inv}
use side_alsa.Daemon.Endpoint.Replacement.{replace_step-Inv, wait_step-Inv}

step-Inv : (a : Action) (s : EndpointSlot) → Inv s → Inv (step a s)
unfolding step
step-Inv (reader i) s v = elim (Option-cases (get_elem? s.readers i)) [
  | inl e ↦ rw (e, step) v
  | inr (r, e) ↦ rw (e, step) (load_step-Inv s i r v e)
]
step-Inv replace s v = replace_step-Inv s s.writer refl v
step-Inv wait s v = wait_step-Inv s s.writer refl v

run-Inv : (actions : List Action) (s : EndpointSlot) → Inv s → Inv (run actions s)
unfolding run
run-Inv [] s v = v
run-Inv (a ∷ actions) s v = run-Inv actions (step a s) (step-Inv a s v)

new_slot-Inv : (n : ℕ) → n < u32_mod → Inv (new_slot n)
new_slot-Inv n h = record {
  few = rw (length-replicate n idle) h;
  epoch_lt = omega arith;
  even = sym (none_inside n true);
  odd = sym (none_inside n false);
  good = all_good n;
  current_lt = omega arith;
  current_live = tt;
  freed_lt = tt;
  freed_once = tt;
  retired = tt;
}
  where
    none_inside : (n : ℕ) (even : Bool) → count even (replicate n idle) ≡ 0
    none_inside zero even = refl
    none_inside (suc n) even = omega (arith, none_inside n even)

    all_good : (n : ℕ) → All (Good ready 0 0) (replicate n idle)
    all_good zero = tt
    all_good (suc n) = (tt, all_good n)

-- The endpoint of a reader's guard, if it holds one, is none of those that were freed.
abbrev pub IsLive : List ℕ → Reader → Type 0
IsLive freed idle = Unit
IsLive freed (read e) = Unit
IsLive freed (entered e) = Unit
IsLive freed (rejected e) = Unit
IsLive freed (checked e) = Unit
IsLive freed (holding e p) = All (λ q. q ≢ p) freed

Good-IsLive :
    (s : EndpointSlot) (w : Writer)
    → s.writer ≡ w
    → Inv s
    → (r : Reader) → Good w s.reader_epoch s.current r
    → IsLive s.freed r
Good-IsLive s w e v idle g = tt
Good-IsLive s w e v (read k) g = tt
Good-IsLive s w e v (entered k) g = tt
Good-IsLive s w e v (rejected k) g = tt
Good-IsLive s w e v (checked k) g = tt
Good-IsLive s w e v (holding k p) g = held w (rw e at v.retired) g
  where
    live : (x : ℕ) → x ≡ p → All (λ q. q ≢ x) s.freed → All (λ q. q ≢ p) s.freed
    live x same a = subst (λ y. All (λ q. q ≢ y) s.freed) same a

    held :
        (w : Writer)
        → Retired w s.current s.next s.freed
        → Held w s.reader_epoch s.current k p
        → All (λ q. q ≢ p) s.freed
    held ready t h = live s.current (sym h.1) v.current_live
    held (swapped r) t (h, inl c) = live s.current (sym c) v.current_live
    held (swapped r) t (h, inr c) = live r (sym c) t.2
    held (draining none old) t h = live s.current (sym h.1) v.current_live
    held (draining (some r) old) t (inl (h, c)) = live s.current (sym c) v.current_live
    held (draining (some r) old) t (inr (h, inl c)) = live s.current (sym c) v.current_live
    held (draining (some r) old) t (inr (h, inr c)) = live r (sym c) t.2

-- From a new slot with fewer than 2^32 readers, after any interleaving of the readers' steps with
-- replacements and waits: no reader holds an endpoint that was freed, the current endpoint is not
-- freed, no endpoint was freed twice, and each of the two activities is the number of readers
-- inside an epoch of its parity, which does not wrap.
pub run-IsLive :
    (n : ℕ) (actions : List Action)
    → n < u32_mod
    → let s = run actions (new_slot n) in
      All (IsLive s.freed) s.readers
      × IsLive s.freed (holding s.reader_epoch s.current)
      × Distinct s.freed
      × (s.even_activity ≡ count true s.readers)
      × (s.odd_activity ≡ count false s.readers)
      × (length s.readers < u32_mod)
run-IsLive n actions h =
    let s = run actions (new_slot n) in
    let v = run-Inv actions (new_slot n) (new_slot-Inv n h) in
    (
      All-map (Good s.writer s.reader_epoch s.current) (IsLive s.freed)
          (Good-IsLive s s.writer refl v) s.readers v.good,
      v.current_live,
      v.freed_once,
      v.even,
      v.odd,
      v.few,
    )
