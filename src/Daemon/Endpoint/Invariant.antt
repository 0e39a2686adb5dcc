-- ===== src/Daemon/Endpoint/Invariant.antt =====
-- What holds of an endpoint slot between any two steps.
use side_alsa.Base.{
  ℕ, zero, suc, ◌+◌, ◌%◌, ◌<◌, ◌≤◌, ◌≡◌, ◌≢◌, ◌⊎◌, Bool, true, false, none, some, List, [], ◌∷◌,
  ◌==◌, if◌then◌else◌, u32_mod, u64_mod, get_elem?, set, length, length-set, All, Distinct, arith,
  subst,
}
use side_alsa.Daemon.Endpoint.{
  Reader, Writer, EndpointSlot, idle, read, entered, rejected, checked, holding, ready, swapped,
  draining,
}

-- The epochs at which a reader can have been admitted that is still inside.
abbrev pub Epoch : Writer → ℕ → ℕ → Type 0
Epoch ready current_epoch e = e ≡ current_epoch
Epoch (swapped retired) current_epoch e = e ≡ current_epoch
Epoch (draining retired old) current_epoch e = (e ≡ current_epoch) ⊎ (e ≡ old)

-- The endpoints that a reader can hold, by the epoch at which it was admitted.
abbrev pub Held : Writer → ℕ → ℕ → ℕ → ℕ → Type 0
Held ready current_epoch current e p = (e ≡ current_epoch) × (p ≡ current)
Held (swapped retired) current_epoch current e p =
    (e ≡ current_epoch) × ((p ≡ current) ⊎ (p ≡ retired))
Held (draining none old) current_epoch current e p =
    ((e ≡ current_epoch) ⊎ (e ≡ old)) × (p ≡ current)
Held (draining (some retired) old) current_epoch current e p =
    ((e ≡ current_epoch) × (p ≡ current)) ⊎ ((e ≡ old) × ((p ≡ current) ⊎ (p ≡ retired)))

abbrev pub Good : Writer → ℕ → ℕ → Reader → Type 0
Good w epoch current idle = Unit
Good w epoch current (read e) = Unit
Good w epoch current (entered e) = Unit
Good w epoch current (rejected e) = Unit
Good w epoch current (checked e) = Epoch w epoch e
Good w epoch current (holding e p) = Held w epoch current e p

-- A retired endpoint that is not freed yet.
abbrev pub Retired : Writer → ℕ → ℕ → List ℕ → Type 0
Retired ready current next freed = Unit
Retired (swapped r) current next freed = (r < next) × (r ≢ current) × All (λ q. q ≢ r) freed
Retired (draining none old) current next freed = Unit
Retired (draining (some r) old) current next freed =
    (r < next) × (r ≢ current) × All (λ q. q ≢ r) freed

-- How often a reader counts in the activity of even and of odd epochs.
abbrev pub counts : Bool → ℕ → ℕ
counts true e = if e % 2 == 0 then 1 else 0
counts false e = if e % 2 == 0 then 0 else 1

abbrev pub inside : Bool → Reader → ℕ
inside even idle = 0
inside even (read e) = 0
inside even (entered e) = counts even e
inside even (rejected e) = counts even e
inside even (checked e) = counts even e
inside even (holding e p) = counts even e

abbrev pub count : Bool → List Reader → ℕ
count even [] = 0
count even (r ∷ readers) = inside even r + count even readers

pub count-le : (even : Bool) (readers : List Reader) → count even readers ≤ length readers
count-le even [] = omega arith
count-le even (r ∷ readers) = omega (arith, one even r, count-le even readers)
  where
    counts-le : (even : Bool) (e : ℕ) → counts even e ≤ 1
    counts-le true e = ground arith
    counts-le false e = ground arith

    one : (even : Bool) (r : Reader) → inside even r ≤ 1
    one even idle = omega arith
    one even (read e) = omega arith
    one even (entered e) = counts-le even e
    one even (rejected e) = counts-le even e
    one even (checked e) = counts-le even e
    one even (holding e p) = counts-le even e

pub count-set :
    (even : Bool) (readers : List Reader) (i : ℕ) (r r' : Reader)
    → get_elem? readers i ≡ some r
    → count even (set readers i r') + inside even r ≡ count even readers + inside even r'
count-set even [] i r r' h = cc
count-set even (q ∷ readers) zero r r' h = let e : q ≡ r = cc in rw (← e) (omega arith)
count-set even (q ∷ readers) (suc i) r r' h = omega (arith, count-set even readers i r r' h)

-- A property of all elements, where one is replaced.
pub All-set :
    {A : Type 0} (P : A → Type 0) (xs : List A) (i : ℕ) (x' : A)
    → All P xs
    → P x'
    → All P (set xs i x')
All-set P [] i x' a p = tt
All-set P (x ∷ xs) zero x' a p = (p, a.1)
All-set P (x ∷ xs) (suc i) x' a p = (a.0, All-set P xs i x' a.1 p)

pub All-get_elem? :
    {A : Type 0} (P : A → Type 0) (xs : List A) (i : ℕ) {x : A}
    → All P xs
    → get_elem? xs i ≡ some x
    → P x
All-get_elem? P [] i a h = cc
All-get_elem? P (y ∷ xs) zero {x} a h = let e : y ≡ x = cc in subst P e a.0
All-get_elem? P (y ∷ xs) (suc i) a h = All-get_elem? P xs i a.1 h

pub All-map :
    {A : Type 0} (P Q : A → Type 0) → ((x : A) → P x → Q x) → (xs : List A) → All P xs → All Q xs
All-map P Q f [] a = tt
All-map P Q f (x ∷ xs) a = (f x a.0, All-map P Q f xs a.1)

pub record Inv (s : EndpointSlot) : Type 0 where
  pub few : length s.readers < u32_mod
  pub epoch_lt : s.reader_epoch < u64_mod
  pub even : s.even_activity ≡ count true s.readers
  pub odd : s.odd_activity ≡ count false s.readers
  pub good : All (Good s.writer s.reader_epoch s.current) s.readers
  pub current_lt : s.current < s.next
  pub current_live : All (λ q. q ≢ s.current) s.freed
  pub freed_lt : All (λ q. q < s.next) s.freed
  pub freed_once : Distinct s.freed
  pub retired : Retired s.writer s.current s.next s.freed

-- The slot once a reader has gone on.
abbrev pub moved : EndpointSlot → ℕ → Reader → ℕ → ℕ → EndpointSlot
moved s i r' even odd = record s {
  readers = set s.readers i r';
  even_activity = even;
  odd_activity = odd;
}

-- The invariant is kept by a step of a reader that accounts for itself.
pub Inv-moved :
    (s : EndpointSlot) (i : ℕ) (r r' : Reader) (even odd : ℕ)
    → Inv s
    → get_elem? s.readers i ≡ some r
    → Good s.writer s.reader_epoch s.current r'
    → even + inside true r ≡ s.even_activity + inside true r'
    → odd + inside false r ≡ s.odd_activity + inside false r'
    → Inv (moved s i r' even odd)
Inv-moved s i r r' even odd v h g a b = record {
  few = rw (length-set s.readers i r') v.few;
  epoch_lt = v.epoch_lt;
  even = omega (arith, count-set true s.readers i r r' h, v.even);
  odd = omega (arith, count-set false s.readers i r r' h, v.odd);
  good = All-set (Good s.writer s.reader_epoch s.current) s.readers i r' v.good g;
  current_lt = v.current_lt;
  current_live = v.current_live;
  freed_lt = v.freed_lt;
  freed_once = v.freed_once;
  retired = v.retired;
}
