-- ===== src/Base/Text.antt =====
-- Texts as the lists of their UTF-8 bytes, with what the source uses of Rust's `str`.
use Prim.Native.Nat.{ℕ, zero, suc, ◌+◌, ◌/◌, ◌%◌}
use Prim.Native.Char.{code}
use Prim.Native.String.{String}
use mathlib.Core.Path.{◌≡◌, refl}
use mathlib.Core.Bool.{Bool, true, false, ◌&&◌, ◌||◌}
use mathlib.Core.Option.{Option, none, some}
use mathlib.Core.List.{List, [], ◌∷◌, reverse}
use native.Mathlib.Omega.{arith}
use side_alsa.Base.Tests.{ltb, leb, ◌==◌, if◌then◌else◌}
use side_alsa.Base.Lists.{length}

-- The bytes of an ASCII literal.
abbrev pub codes : String → List ℕ
codes String.[] = []
codes (String.◌∷◌ c s) = code c ∷ codes s

unfoldable pub bytes_eq : List ℕ → List ℕ → Bool
bytes_eq [] [] = true
bytes_eq (a ∷ as') (b ∷ bs) = (a == b) && bytes_eq as' bs
bytes_eq _ _ = false

pub bytes_eq_refl : (s : List ℕ) → bytes_eq s s ≡ true
unfolding bytes_eq
bytes_eq_refl [] = refl
bytes_eq_refl (a ∷ s) = ground (arith, bytes_eq_refl s)

pub bytes_eq→eq : (s t : List ℕ) → bytes_eq s t ≡ true → s ≡ t
unfolding bytes_eq
bytes_eq→eq [] [] h = refl
bytes_eq→eq [] (b ∷ t) h = cc
bytes_eq→eq (a ∷ s) [] h = cc
bytes_eq→eq (a ∷ s) (b ∷ t) h = ground (arith, bytes_eq→eq s t)

abbrev pub is_empty {ℓ} : {A : Type ℓ} → List A → Bool
is_empty [] = true
is_empty (x ∷ xs) = false

-- A character of the property White_Space, at the start of a text: of one byte, two or three.
ascii_space : ℕ → Bool
ascii_space a = a == 32 || (leb 9 a && leb a 13)

pair_space : ℕ → ℕ → Bool
pair_space a b = a == 0xC2 && (b == 0x85 || b == 0xA0)

triple_space : ℕ → ℕ → ℕ → Bool
triple_space a b c =
    (a == 0xE1 && b == 0x9A && c == 0x80)
    || (a == 0xE2
        && b == 0x80
        && ((leb 0x80 c && leb c 0x8A) || c == 0xA8 || c == 0xA9 || c == 0xAF))
    || (a == 0xE2 && b == 0x81 && c == 0x9F)
    || (a == 0xE3 && b == 0x80 && c == 0x80)

unfoldable pub strip_space : List ℕ → Option (List ℕ)
unfolding ascii_space pair_space triple_space
strip_space [] = none
strip_space (a ∷ []) = if ascii_space a then some [] else none
strip_space (a ∷ b ∷ []) =
    if ascii_space a then some (b ∷ []) else if pair_space a b then some [] else none
strip_space (a ∷ b ∷ c ∷ s) =
    if ascii_space a
    then some (b ∷ c ∷ s)
    else if pair_space a b
    then some (c ∷ s)
    else if triple_space a b c
    then some s
    else none

-- The same of a text whose bytes stand in reverse.
unfoldable pub strip_space_back : List ℕ → Option (List ℕ)
unfolding ascii_space pair_space triple_space
strip_space_back [] = none
strip_space_back (c ∷ []) = if ascii_space c then some [] else none
strip_space_back (c ∷ b ∷ []) =
    if ascii_space c then some (b ∷ []) else if pair_space b c then some [] else none
strip_space_back (c ∷ b ∷ a ∷ s) =
    if ascii_space c
    then some (b ∷ a ∷ s)
    else if pair_space b c
    then some (a ∷ s)
    else if triple_space a b c
    then some s
    else none

strip_all : (List ℕ → Option (List ℕ)) → ℕ → List ℕ → List ℕ
strip_all strip zero s = s
strip_all strip (suc fuel) s = elim (strip s) [ none ↦ s | some r ↦ strip_all strip fuel r ]

-- `str::trim`; a text has no more characters than bytes.
unfoldable pub trim : List ℕ → List ℕ
unfolding strip_all strip_space strip_space_back
trim s =
    let t = strip_all strip_space (length s) s in
    reverse (strip_all strip_space_back (length t) (reverse t))

-- `chars().any(char::is_control)`: U+0000 to U+001F, and U+007F to U+009F, whose first byte is 0xC2
-- from U+0080 on.
control_pair : ℕ → List ℕ → Bool
control_pair a [] = false
control_pair a (b ∷ s) = a == 0xC2 && leb 0x80 b && ltb b 0xA0

unfoldable pub has_control : List ℕ → Bool
unfolding control_pair
has_control [] = false
has_control (a ∷ s) = ltb a 32 || a == 127 || control_pair a s || has_control s

-- The decimal digits of a number below 100.
abbrev pub decimal : ℕ → List ℕ
decimal n = if ltb n 10 then (48 + n) ∷ [] else (48 + n / 10) ∷ (48 + n % 10) ∷ []
