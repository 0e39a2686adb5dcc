-- ===== src/Core/Latency/Median.antt =====
-- The median of a window is not moved by outliers in its minority.
use side_alsa.Base.{
  ℕ, zero, suc, ◌≤◌, ◌≡◌, refl, true, List, [], ◌∷◌, length, get_or, arith, if◌then◌else◌, All,
}
use side_alsa.Base.Int.{ℤ, pos, ltb_ℤ, ◌≤ℤ◌}
use side_alsa.Core.Latency.{insert_sorted, sort, median_of}

-- How many integers lie below a bound.
unfoldable pub count_below : ℤ → List ℤ → ℕ
count_below t [] = 0
count_below t (x ∷ xs) = if ltb_ℤ x t then suc (count_below t xs) else count_below t xs

-- Each integer is at most every one behind it.
abbrev pub Sorted : List ℤ → Type 0
Sorted [] = Unit
Sorted (x ∷ xs) = All (λ y. x ≤ℤ y) xs × Sorted xs

All-insert :
    (z x : ℤ) (ys : List ℤ) → z ≤ℤ x → All (λ y. z ≤ℤ y) ys → All (λ y. z ≤ℤ y) (insert_sorted x ys)
unfolding insert_sorted
All-insert z x [] h v = (h, tt)
All-insert z x (y ∷ ys) h v = ground (arith, All-insert z x ys h v.1)

All-le : (z x : ℤ) (ys : List ℤ) → z ≤ℤ x → All (λ y. x ≤ℤ y) ys → All (λ y. z ≤ℤ y) ys
All-le z x [] h v = tt
All-le z x (y ∷ ys) h v = (omega (arith, v.0), All-le z x ys h v.1)

insert-Sorted : (x : ℤ) (ys : List ℤ) → Sorted ys → Sorted (insert_sorted x ys)
unfolding insert_sorted
insert-Sorted x [] v = (tt, tt)
insert-Sorted x (y ∷ ys) v =
    ground (arith, insert-Sorted x ys v.1, All-insert y x ys, All-le x y ys)

pub sort-Sorted : (xs : List ℤ) → Sorted (sort xs)
unfolding sort
sort-Sorted [] = tt
sort-Sorted (x ∷ xs) = insert-Sorted x (sort xs) (sort-Sorted xs)

count_below-insert :
    (t x : ℤ) (ys : List ℤ) → count_below t (insert_sorted x ys) ≡ count_below t (x ∷ ys)
unfolding count_below insert_sorted
count_below-insert t x [] = refl
count_below-insert t x (y ∷ ys) = ground (arith, count_below-insert t x ys)

pub count_below-sort : (t : ℤ) (xs : List ℤ) → count_below t (sort xs) ≡ count_below t xs
unfolding sort count_below
count_below-sort t [] = refl
count_below-sort t (x ∷ xs) =
    ground (arith, count_below-insert t x (sort xs), count_below-sort t xs)

length-insert : (x : ℤ) (ys : List ℤ) → length (insert_sorted x ys) ≡ suc (length ys)
unfolding insert_sorted
length-insert x [] = refl
length-insert x (y ∷ ys) = ground (arith, length-insert x ys)

pub length-sort : (xs : List ℤ) → length (sort xs) ≡ length xs
unfolding sort
length-sort [] = refl
length-sort (x ∷ xs) = ground (arith, length-insert x (sort xs), length-sort xs)

-- Above a bound that nothing behind it lies below.
count_below-none : (t x : ℤ) (ys : List ℤ) → t ≤ℤ x → All (λ y. x ≤ℤ y) ys → count_below t ys ≡ 0
unfolding count_below
count_below-none t x [] h v = refl
count_below-none t x (y ∷ ys) h v = ground (arith, count_below-none t x ys h v.1)

-- In a sorted list an entry at or above the bound has at most as many below it as its index.
count_below-le :
    (t d : ℤ) (xs : List ℤ) (i : ℕ) → Sorted xs → t ≤ℤ get_or xs i d → count_below t xs ≤ i
unfolding count_below
count_below-le t d [] i v h = omega arith
count_below-le t d (x ∷ xs) zero v h = ground (arith, count_below-none t x xs h v.0)
count_below-le t d (x ∷ xs) (suc i) v h = ground (arith, count_below-le t d xs i v.1 h)

-- If more than four of the samples lie below a bound, so does their median: up to four of nine
-- samples, however high, cannot raise it.
pub median_of-below :
    (t : ℤ) (samples : List ℤ) → 5 ≤ count_below t samples → ltb_ℤ (median_of samples) t ≡ true
median_of-below t samples h = ground (
  arith,
  count_below-sort t samples,
  count_below-le t (pos 0) (sort samples) 4 (sort-Sorted samples),
)
