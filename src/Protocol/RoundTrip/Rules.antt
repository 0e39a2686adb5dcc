-- ===== src/Protocol/RoundTrip/Rules.antt =====
-- When a reader takes back what a writer wrote, and how this passes through sequences and loops.
use side_alsa.Base.{
  ℕ, ◌+◌, ◌≤◌, ◌<◌, ◌≡◌, sym, ap, ◌∙◌, List, [], ◌∷◌, ◌++◌, append-nil, append_assoc, Result, ok,
  err, and_then, and_then-eq-ok, length, drop, u64_mod, All, arith, length-append, drop-append,
  drop-drop, length-drop,
}
use side_alsa.Protocol.Types.{ProtocolError}
use side_alsa.Protocol.Wire.{Encoder, Decode, Decoder}
use side_alsa.Protocol.Encode.{◌>>◌, for_each}
use side_alsa.Protocol.Decode.{◌>>=◌, return, check, repeat}

abbrev pub remaining : Decoder → List ℕ
remaining d = drop d.position d.bytes

abbrev pub advance : ℕ → Decoder → Decoder
advance n d = record d { position = d.position + n }

-- A slice is shorter than the address space, and the position lies in it.
pub record IsReadable (d : Decoder) : Type 0 where
  pub inside : d.position ≤ length d.bytes
  pub small : length d.bytes < u64_mod

-- In front of the bytes `bs`, whatever follows them, `p` returns `a` and stops behind them.
abbrev pub Reads : {A : Type 0} → Decode A → List ℕ → A → Type 0
Reads p bs a =
    (d : Decoder) (rest : List ℕ)
    → IsReadable d
    → remaining d ≡ bs ++ rest
    → p d ≡ ok (a, advance (length bs) d)

remaining-advance :
    (d : Decoder) (bs rest : List ℕ)
    → remaining d ≡ bs ++ rest
    → remaining (advance (length bs) d) ≡ rest
remaining-advance d bs rest e =
    sym (drop-drop d.position (length bs) d.bytes) ∙ ap (drop (length bs)) e ∙ drop-append bs rest

length-remaining :
    (d : Decoder) (bs rest : List ℕ)
    → IsReadable d
    → remaining d ≡ bs ++ rest
    → d.position + length bs + length rest ≡ length d.bytes
length-remaining d bs rest v e =
    omega (arith, ap length e, length-append bs rest, length-drop d.position d.bytes)

pub advance-IsReadable :
    (d : Decoder) (bs rest : List ℕ)
    → IsReadable d
    → remaining d ≡ bs ++ rest
    → IsReadable (advance (length bs) d)
advance-IsReadable d bs rest v e = record {
  inside = omega (arith, length-remaining d bs rest v e);
  small = v.small;
}

pub Reads-return : {A : Type 0} (a : A) → Reads (return a) [] a
Reads-return a d rest v e = ap (λ k. ok (a, record d { position = k })) (omega arith)

pub Reads-bind :
    {A B : Type 0} (p : Decode A) (f : A → Decode B) (xs ys : List ℕ) (a : A) (b : B)
    → Reads p xs a
    → Reads (f a) ys b
    → Reads (p >>= f) (xs ++ ys) b
Reads-bind p f xs ys a b hp hf d rest v e =
    rw first (second ∙ ap (λ k. ok (b, record d { position = k })) there)
  where
    e' : remaining d ≡ xs ++ (ys ++ rest)
    e' = e ∙ append_assoc xs ys rest

    first : p d ≡ ok (a, advance (length xs) d)
    first = hp d (ys ++ rest) v e'

    second : f a (advance (length xs) d) ≡ ok (b, advance (length ys) (advance (length xs) d))
    second =
        hf (advance (length xs) d) rest (advance-IsReadable d xs (ys ++ rest) v e')
          (remaining-advance d xs (ys ++ rest) e')

    there : d.position + length xs + length ys ≡ d.position + length (xs ++ ys)
    there = omega (arith, length-append xs ys)

-- Whenever the writer succeeds, it has appended bytes from which the reader returns the value.
abbrev pub RoundTrips : {A : Type 0} → Encoder → Decode A → A → Type 0
RoundTrips e p a =
    (payload out : List ℕ)
    → e payload ≡ ok out
    → (bs : List ℕ) × (out ≡ payload ++ bs) × Reads p bs a

pub RoundTrips-seq :
    {A B : Type 0} {e k : Encoder} {p : Decode A} (f : A → Decode B) (a : A) {b : B}
    → RoundTrips e p a
    → RoundTrips k (f a) b
    → RoundTrips (e >> k) (p >>= f) b
RoundTrips-seq {e = e} {k = k} {p = p} f a {b = b} he hk payload out h =
    let (mid, h1, h2) = and_then-eq-ok (e payload) k h in
    let (xs, ex, rx) = he payload mid h1 in
    let (ys, ey, ry) = hk mid out h2 in
    (
      xs ++ ys,
      ey ∙ ap (λ t. t ++ ys) ex ∙ append_assoc payload xs ys,
      Reads-bind p f xs ys a b rx ry,
    )

-- The last read of a record, and the value that is made of all of them.
pub RoundTrips-last :
    {A B : Type 0} {e : Encoder} {p : Decode A} (f : A → B) (a : A)
    → RoundTrips e p a
    → RoundTrips e (p >>= λ x. return (f x)) (f a)
RoundTrips-last {p = p} f a he payload out h =
    let (xs, ex, rx) = he payload out h in
    (
      xs,
      ex,
      λ d rest v e.
          Reads-bind p (λ x. return (f x)) xs [] a (f a) rx (Reads-return (f a)) d rest v
            (rw append-nil e)
          ∙ ap (λ t. ok (f a, advance (length t) d)) (append-nil xs),
    )

-- A conversion that succeeds reads no bytes.
pub RoundTrips-check :
    {A B : Type 0} {e : Encoder} (r : Result ProtocolError A) (f : A → Decode B) (a : A) {b : B}
    → r ≡ ok a
    → RoundTrips e (f a) b
    → RoundTrips e (check r >>= f) b
RoundTrips-check r f a q h payload out w =
    let (xs, ex, rx) = h payload out w in (xs, ex, λ d rest v e. rw q (rx d rest v e))

pub ok-injective :
    {out payload : List ℕ}
    → ◌≡◌ {A = Result ProtocolError (List ℕ)} (ok payload) (ok out)
    → out ≡ payload
ok-injective w = cc

-- A loop that writes items, and one that reads as many.
pub RoundTrips-for_each :
    {A : Type 0} (P : A → Type 0) (body : A → Encoder) (p : Decode A)
    → ((x : A) → P x → RoundTrips (body x) p x)
    → (xs : List A) → All P xs
    → RoundTrips (for_each body xs) (repeat (length xs) p) xs
unfolding for_each repeat
RoundTrips-for_each P body p h [] v =
    λ payload out w. ([], ok-injective w ∙ sym (append-nil payload), Reads-return [])
RoundTrips-for_each P body p h (x ∷ xs) v =
    RoundTrips-seq {e = body x} {k = for_each body xs} {p = p}
      (λ y. repeat (length xs) p >>= λ ys. return (y ∷ ys)) x (h x v.0)
      (RoundTrips-last {e = for_each body xs} {p = repeat (length xs) p} (λ ys. x ∷ ys) xs
        (RoundTrips-for_each P body p h xs v.1))

pub RoundTrips-return :
    {A : Type 0} (body : ℕ → Encoder) (a : A) → RoundTrips (for_each body []) (return a) a
unfolding for_each
RoundTrips-return body a payload out w =
    ([], ok-injective w ∙ sym (append-nil payload), Reads-return a)

-- The first item of an array that is written, read back by a statement of its own.
pub RoundTrips-item :
    {A B : Type 0} (body : A → Encoder) (p : Decode A) (k : Encoder) (f : A → Decode B) (x : A)
    (xs : List A) {b : B}
    → RoundTrips (body x) p x
    → RoundTrips (for_each body xs >> k) (f x) b
    → RoundTrips (for_each body (x ∷ xs) >> k) (p >>= f) b
unfolding for_each
RoundTrips-item body p k f x xs hx hk payload out w =
    RoundTrips-seq {e = body x} {k = for_each body xs >> k} {p = p} f x hx hk payload out
      (regroup (body x payload) w)
  where
    regroup :
        (r : Result ProtocolError (List ℕ))
        → and_then (and_then r (for_each body xs)) k ≡ ok out
        → and_then r (for_each body xs >> k) ≡ ok out
    regroup (ok mid) h = h
    regroup (err e) h = h

-- The end of such an array.
pub RoundTrips-no_item :
    {A B : Type 0} (body : A → Encoder) (k : Encoder) {p : Decode B} {b : B}
    → RoundTrips k p b
    → RoundTrips (for_each body [] >> k) p b
unfolding for_each
RoundTrips-no_item body k h = h
