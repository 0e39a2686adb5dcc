-- ===== src/Protocol/Wire.antt =====
-- Writing and reading of integers and strings: `put_u16` to `put_string`, and `Decoder`.
use side_alsa.Base.{
  ℕ, zero, suc, ◌+◌, ◌*◌, ◌/◌, ◌%◌, Option, none, some, List, [], ◌∷◌, ◌++◌, Result, ok, err,
  and_then, ok_or, ltb, leb, ◌==◌, if◌then◌else◌, length, take, drop, checked_add, u16_mod,
}
use side_alsa.Protocol.Types.{ProtocolError, malformed_payload, string_too_long}
use side_alsa.Protocol.Utf8.{is_utf8}

-- `value.to_le_bytes()` of an integer of `n` bytes, and `from_le_bytes`
unfoldable pub to_le_bytes : ℕ → ℕ → List ℕ
to_le_bytes zero value = []
to_le_bytes (suc n) value = (value % 256) ∷ to_le_bytes n (value / 256)

unfoldable pub from_le_bytes : List ℕ → ℕ
from_le_bytes [] = 0
from_le_bytes (b ∷ bytes) = b + 256 * from_le_bytes bytes

-- What is done to a `payload: &mut Vec<u8>`: the vector afterwards, or an error.
abbrev pub Encoder : Type 0
Encoder = List ℕ → Result ProtocolError (List ℕ)

unfoldable pub put_u8 : ℕ → Encoder
put_u8 value payload = ok (payload ++ value ∷ [])

unfoldable pub put_u16 : ℕ → Encoder
put_u16 value payload = ok (payload ++ to_le_bytes 2 value)

unfoldable pub put_u32 : ℕ → Encoder
put_u32 value payload = ok (payload ++ to_le_bytes 4 value)

unfoldable pub put_u64 : ℕ → Encoder
put_u64 value payload = ok (payload ++ to_le_bytes 8 value)

-- `u16::try_from`
unfoldable pub u16_try_from : ℕ → Option ℕ
u16_try_from value = if ltb value u16_mod then some value else none

unfoldable pub put_string : List ℕ → Encoder
unfolding u16_try_from put_u16
put_string bytes payload =
    and_then (ok_or (u16_try_from (length bytes)) (string_too_long (length bytes)))
      λ size. and_then (put_u16 size payload) λ payload'. ok (payload' ++ bytes)

pub record Decoder : Type 0 where
  pub bytes : List ℕ
  pub position : ℕ

unfoldable pub new : List ℕ → Decoder
new bytes = record { bytes = bytes; position = 0 }

-- What is done to a `&mut Decoder`: a value and the decoder afterwards, or an error.
abbrev pub Decode : Type 0 → Type 0
Decode A = Decoder → Result ProtocolError (A × Decoder)

-- `bytes.get(start..end)`
unfoldable pub get_range : List ℕ → ℕ → ℕ → Option (List ℕ)
get_range bytes start n =
    if leb (start + n) (length bytes) then some (take n (drop start bytes)) else none

-- `take::<N>()`, and the same steps in `string`
unfoldable pub take_bytes : ℕ → Decode (List ℕ)
unfolding get_range
take_bytes n d = and_then (ok_or (checked_add d.position n) malformed_payload) λ end.
    and_then (ok_or (get_range d.bytes d.position n) malformed_payload)
      λ taken. ok (taken, record d { position = end })

unfoldable pub read_int : ℕ → Decode ℕ
unfolding take_bytes
read_int n d = and_then (take_bytes n d) λ r. ok (from_le_bytes r.0, r.1)

unfoldable pub read_u8 : Decode ℕ
unfolding read_int
read_u8 = read_int 1

unfoldable pub read_u16 : Decode ℕ
unfolding read_int
read_u16 = read_int 2

unfoldable pub read_u32 : Decode ℕ
unfolding read_int
read_u32 = read_int 4

unfoldable pub read_u64 : Decode ℕ
unfolding read_int
read_u64 = read_int 8

unfoldable pub read_string : Decode (List ℕ)
unfolding read_u16 take_bytes
read_string d = and_then (read_u16 d) λ size.
    and_then (take_bytes size.0 size.1) λ r. if is_utf8 r.0 then ok r else err malformed_payload

unfoldable pub finish : Decoder → Result ProtocolError (Unit {0})
finish d = if d.position == length d.bytes then ok tt else err malformed_payload
