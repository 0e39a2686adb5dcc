-- ===== src/Core/Routing.antt =====
-- `CompiledPort` of crates/sidealsa-core/src/routing.rs: copies between the frames of a device and
-- those of a port. `none` is a panic, an index out of range; `frames * channels` fits `usize`
-- behind `check_buffers`, so the products of the loops do not wrap.
pub mod Loops
pub mod Reads
pub mod Table
pub mod Writes
use side_alsa.Base.{
  ℕ, zero, suc, ◌+◌, ◌*◌, ◌≤◌, Bool, Option, none, some, List, [], ◌∷◌, Result, ok, err, and_then,
  ok_or, ltb, leb, ◌==◌, if◌then◌else◌, length, get_elem?, set, checked_mul, ◌^◌, ◌-◌,
}
use side_alsa.Config.Types.{ProfileError}
use side_alsa.Base.Int.{ℤ, ◌+ℤ◌, saturate}

pub data RoutingError : Type 0 where
  profile : ProfileError → RoutingError
  zero_physical_channels sample_count_overflow : RoutingError
  channel_index : ℕ → RoutingError
  physical_channel_out_of_range : ℕ → ℕ → RoutingError
  physical_buffer_too_small logical_buffer_too_small : ℕ → ℕ → RoutingError

-- The id and the name are the bytes of texts.
pub record CompiledPort : Type 0 where
  pub id : List ℕ
  pub name : List ℕ
  pub channels : List ℕ

-- `.find(|&&channel| channel >= physical_channels)`
unfoldable pub find_out_of_range : ℕ → List ℕ → Option ℕ
find_out_of_range physical_channels [] = none
find_out_of_range physical_channels (channel ∷ channels) =
    if leb physical_channels channel
    then some channel
    else find_out_of_range physical_channels channels

unfoldable pub check_buffers : CompiledPort → ℕ → ℕ → ℕ → ℕ → Result RoutingError (Unit {0})
unfolding find_out_of_range
check_buffers port physical_len physical_channels frames logical_len =
    if physical_channels == 0
    then err zero_physical_channels
    else elim (find_out_of_range physical_channels port.channels) [
      | some channel ↦ err (physical_channel_out_of_range channel physical_channels)
      | none ↦
          and_then (ok_or (checked_mul frames physical_channels) sample_count_overflow)
            λ physical_samples.
              and_then (ok_or (checked_mul frames (length port.channels)) sample_count_overflow)
                λ logical_samples.
                  if ltb physical_len physical_samples
                  then err (physical_buffer_too_small physical_len physical_samples)
                  else if ltb logical_len logical_samples
                  then err (logical_buffer_too_small logical_len logical_samples)
                  else ok tt
    ]

module _ {S : Type 0} (body : ℕ → ℕ → S → Option S) where
  -- `for (logical_channel, &physical_channel) in channels.iter().enumerate()`: the body is given
  -- the two indices `physical_offset + physical_channel` and `logical_offset + logical_channel`.
  unfoldable pub for_channels : List ℕ → ℕ → ℕ → S → Option S
  for_channels [] physical_offset logical_index s = some s
  for_channels (channel ∷ channels) physical_offset logical_index s =
      elim (body (physical_offset + channel) logical_index s) [
        | none ↦ none
        | some s' ↦ for_channels channels physical_offset (logical_index + 1) s'
      ]

  -- `for frame in 0..frames`, from some frame on.
  unfoldable pub for_frames : ℕ → ℕ → List ℕ → ℕ → S → Option S
  unfolding for_channels
  for_frames zero frame channels physical_channels s = some s
  for_frames (suc n) frame channels physical_channels s =
      elim (for_channels channels (frame * physical_channels) (frame * length channels) s) [
        | none ↦ none
        | some s' ↦ for_frames n (frame + 1) channels physical_channels s'
      ]

-- `target[to] = f(target[to], source[from])`
unfoldable pub update_at : {A : Type 0} → (A → A → A) → List A → ℕ → ℕ → List A → Option (List A)
update_at f source from to target = elim (get_elem? source from) [
  | none ↦ none
  | some x ↦ elim (get_elem? target to) [ none ↦ none | some old ↦ some (set target to (f old x)) ]
]

-- The result of a call: a panic, an error, or the buffer afterwards.
abbrev pub Copied : Type 0 → Type 0
Copied A = Option (Result RoutingError (List A))

unfoldable pub checked : {A : Type 0} → Result RoutingError (Unit {0}) → Option (List A) → Copied A
checked (err e) looped = some (err e)
checked (ok _) none = none
checked (ok _) (some buffer) = some (ok buffer)

unfoldable pub copy_from_physical : {A : Type 0} → CompiledPort → List A → ℕ → ℕ → List A → Copied A
unfolding check_buffers checked for_frames update_at
copy_from_physical port physical physical_channels frames logical =
    checked (check_buffers port (length physical) physical_channels frames (length logical)) (
      for_frames (λ p l. update_at (λ old x. x) physical p l) frames 0 port.channels
        physical_channels logical)

unfoldable pub copy_to_physical : {A : Type 0} → CompiledPort → List A → ℕ → ℕ → List A → Copied A
unfolding check_buffers checked for_frames update_at
copy_to_physical port logical physical_channels frames physical =
    checked (check_buffers port (length physical) physical_channels frames (length logical)) (
      for_frames (λ p l. update_at (λ old x. x) logical l p) frames 0 port.channels
        physical_channels physical)

-- `i32::saturating_add`
abbrev pub saturating_add_i32 : ℤ → ℤ → ℤ
saturating_add_i32 a b = saturate (2 ^ 31 - 1) (a +ℤ b)

unfoldable pub add_to_physical_saturating : CompiledPort → List ℤ → ℕ → ℕ → List ℤ → Copied ℤ
unfolding check_buffers checked for_frames update_at
add_to_physical_saturating port logical physical_channels frames physical =
    checked (check_buffers port (length physical) physical_channels frames (length logical)) (
      for_frames (λ p l. update_at saturating_add_i32 logical l p) frames 0 port.channels
        physical_channels physical)
