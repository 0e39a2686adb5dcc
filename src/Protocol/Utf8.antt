-- ===== src/Protocol/Utf8.antt =====
-- The test that `String::from_utf8` makes: well-formed UTF-8, by the table of the Unicode standard.
use side_alsa.Base.{ℕ, zero, suc, Bool, true, false, ◌&&◌, List, [], ◌∷◌, ltb, leb, if◌then◌else◌}

-- The continuation bytes that are still due, and the range that the next one must lie in.
record Pending : Type 0 where
  due : ℕ
  low : ℕ
  high : ℕ

pending : ℕ → ℕ → ℕ → Pending
pending due low high = record { due = due; low = low; high = high }

-- What a first byte asks for; `due` of 4 marks a byte that cannot begin a character.
first_byte : ℕ → Pending
unfolding pending
first_byte b =
    if ltb b 0x80
    then pending 0 0 0
    else if ltb b 0xc2
    then pending 4 0 0
    else if ltb b 0xe0
    then pending 1 0x80 0xbf
    else if leb b 0xe0
    then pending 2 0xa0 0xbf
    else if ltb b 0xed
    then pending 2 0x80 0xbf
    else if leb b 0xed
    then pending 2 0x80 0x9f
    else if ltb b 0xf0
    then pending 2 0x80 0xbf
    else if leb b 0xf0
    then pending 3 0x90 0xbf
    else if ltb b 0xf4
    then pending 3 0x80 0xbf
    else if leb b 0xf4
    then pending 3 0x80 0x8f
    else pending 4 0 0

utf8_from : ℕ → ℕ → ℕ → List ℕ → Bool
unfolding first_byte
utf8_from zero low high [] = true
utf8_from (suc due) low high [] = false
utf8_from zero low high (b ∷ bytes) =
    let p = first_byte b in ltb p.due 4 && utf8_from p.due p.low p.high bytes
utf8_from (suc due) low high (b ∷ bytes) =
    (leb low b && leb b high) && utf8_from due 0x80 0xbf bytes

unfoldable pub is_utf8 : List ℕ → Bool
unfolding utf8_from first_byte
is_utf8 bytes = utf8_from 0 0 0 bytes
