-- ===== src/Protocol/RoundTrip/Values.antt =====
-- Integers and strings come back as they were written, within their ranges.
use side_alsa.Base.{
  ℕ, zero, suc, ◌+◌, ◌*◌, ◌/◌, ◌%◌, ◌≤◌, ◌<◌, ◌≡◌, refl, sym, ap, subst, ◌∙◌, true, List, [], ◌∷◌,
  ◌++◌, append_assoc, Result, ok, err, and_then, and_then-eq-ok, ok_or, length, u16_mod, u32_mod,
  u64_mod, arith, if◌then◌else◌, length-append, take-append, length-drop, lt→ltb, le→leb,
}
use side_alsa.Protocol.Types.{ProtocolError, malformed_payload, too_many_items, string_too_long}
use side_alsa.Protocol.Utf8.{is_utf8}
use side_alsa.Protocol.Wire.{
  Decoder, to_le_bytes, from_le_bytes, put_u8, put_u16, put_u32, put_u64, put_string, u16_try_from,
  take_bytes, read_int, read_u8, read_u16, read_u32, read_u64, read_string,
}
use side_alsa.Protocol.Encode.{put_count}
use side_alsa.Protocol.RoundTrip.Rules.{Reads, RoundTrips, ok-injective, Reads-bind, advance}

pub length-to_le_bytes : (n value : ℕ) → length (to_le_bytes n value) ≡ n
unfolding to_le_bytes
length-to_le_bytes zero value = refl
length-to_le_bytes (suc n) value = ap suc (length-to_le_bytes n (value / 256))

-- The bound in bytes: 256 to the power of `n`.
abbrev pub byte_mod : ℕ → ℕ
byte_mod zero = 1
byte_mod (suc n) = 256 * byte_mod n

pub from_le_bytes-to_le_bytes :
    (n value : ℕ) → value < byte_mod n → from_le_bytes (to_le_bytes n value) ≡ value
unfolding from_le_bytes to_le_bytes
from_le_bytes-to_le_bytes zero value h = omega arith
from_le_bytes-to_le_bytes (suc n) value h =
    omega (arith, from_le_bytes-to_le_bytes n (value / 256) (omega arith))

-- A read of as many bytes as there are returns them.
pub take_bytes-Reads : (bs : List ℕ) → Reads (take_bytes (length bs)) bs bs
unfolding take_bytes
take_bytes-Reads bs d rest v e = rw (
  lt→ltb (d.position + length bs) u64_mod (omega (arith, fits, v.small)),
  le→leb (d.position + length bs) (length d.bytes) fits,
  e,
  take-append bs rest,
)
  where
    fits : d.position + length bs ≤ length d.bytes
    fits =
        omega (arith, v.inside, ap length e, length-append bs rest, length-drop d.position d.bytes)

pub read_int-Reads :
    (n value : ℕ) → value < byte_mod n → Reads (read_int n) (to_le_bytes n value) value
unfolding read_int
read_int-Reads n value h d rest v e = rw (taken, from_le_bytes-to_le_bytes n value h)
  where
    taken : take_bytes n d ≡ ok (to_le_bytes n value, advance (length (to_le_bytes n value)) d)
    taken =
        ap (λ k. take_bytes k d) (sym (length-to_le_bytes n value))
        ∙ take_bytes-Reads (to_le_bytes n value) d rest v e

module _ (value : ℕ) where
  pub RoundTrips-u8 : value < 256 → RoundTrips (put_u8 value) read_u8 value
  unfolding put_u8 read_u8 to_le_bytes
  RoundTrips-u8 h payload out w =
      let e : value % 256 ≡ value = omega arith in
      (
        value ∷ [],
        ok-injective w,
        subst (λ b. Reads (read_int 1) (b ∷ []) value) e (read_int-Reads 1 value (omega arith)),
      )

  pub RoundTrips-u16 : value < u16_mod → RoundTrips (put_u16 value) read_u16 value
  unfolding put_u16 read_u16
  RoundTrips-u16 h payload out w =
      (to_le_bytes 2 value, ok-injective w, read_int-Reads 2 value (omega arith))

  pub RoundTrips-u32 : value < u32_mod → RoundTrips (put_u32 value) read_u32 value
  unfolding put_u32 read_u32
  RoundTrips-u32 h payload out w =
      (to_le_bytes 4 value, ok-injective w, read_int-Reads 4 value (omega arith))

  pub RoundTrips-u64 : value < u64_mod → RoundTrips (put_u64 value) read_u64 value
  unfolding put_u64 read_u64
  RoundTrips-u64 h payload out w =
      (to_le_bytes 8 value, ok-injective w, read_int-Reads 8 value (omega arith))

-- A text that Rust's `String` can hold.
abbrev pub IsText : List ℕ → Type 0
IsText s = is_utf8 s ≡ true

u16_try_from-cases :
    (n : ℕ) (e : ProtocolError) {r : ℕ} → ok_or (u16_try_from n) e ≡ ok r → (n ≡ r) × (n < u16_mod)
unfolding u16_try_from
u16_try_from-cases n e h = ground arith

pub RoundTrips-count : (n : ℕ) → RoundTrips (put_count n) read_u16 n
unfolding put_count
RoundTrips-count n payload out w =
    let (count, h1, h2) =
      and_then-eq-ok (ok_or (u16_try_from n) too_many_items) (λ c. put_u16 c payload) w in
    let (same, small) = u16_try_from-cases n too_many_items h1 in
    RoundTrips-u16 n small payload out (rw same h2)

pub RoundTrips-string : (s : List ℕ) → IsText s → RoundTrips (put_string s) read_string s
unfolding put_string read_string put_u16
RoundTrips-string s t payload out w =
    let (size, h1, h2) =
      and_then-eq-ok (ok_or (u16_try_from (length s)) (string_too_long (length s)))
        (λ c. ok (payload ++ to_le_bytes 2 c ++ s)) w in
    let (same, small) = u16_try_from-cases (length s) (string_too_long (length s)) h1 in
    (
      to_le_bytes 2 (length s) ++ s,
      ok-injective h2
          ∙ ap (λ k. payload ++ to_le_bytes 2 k ++ s) (sym same)
          ∙ append_assoc payload (to_le_bytes 2 (length s)) s,
      Reads-bind read_u16 (λ size d. and_then (take_bytes size d) accept) (to_le_bytes 2 (length s))
          s (length s) s (read_int-Reads 2 (length s) (omega arith))
          λ d rest v e. rw (take_bytes-Reads s d rest v e, t),
    )
  where
    accept : List ℕ × Decoder → Result ProtocolError (List ℕ × Decoder)
    accept r = if is_utf8 r.0 then ok r else err malformed_payload
