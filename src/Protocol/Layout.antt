-- ===== src/Protocol/Layout.antt =====
-- `SharedRegionLayout` of crates/sidealsa-protocol/src/lib.rs: where the two rings of slots lie in
-- the memory that a client shares with the daemon. A `u32` converts to `usize` without loss.
pub mod Bounds
use side_alsa.Base.{
  ℕ, ◌+◌, ◌-◌, ◌*◌, ◌%◌, max, ◌&&◌, ◌||◌, Option, none, some, Result, ok, err, and_then, ok_or, leb,
  ◌==◌, if◌then◌else◌, checked_add, checked_mul,
}
use side_alsa.Protocol.Types.{ProtocolError, malformed_payload, layout_overflow, SharedRegionInfo}

-- `SHARED_ALIGNMENT`, and the sizes that `repr(C)` gives the two headers: a region's fields take
-- 184 bytes, and a slot's 24 bytes are rounded up to its alignment.
abbrev pub shared_alignment : ℕ
shared_alignment = 64

abbrev pub region_header_size : ℕ
region_header_size = 184

abbrev pub slot_header_size : ℕ
slot_header_size = 64

-- `size_of::<i32>()`
abbrev pub sample_size : ℕ
sample_size = 4

pub record SharedRegionLayout : Type 0 where
  pub size : ℕ
  pub period_frames : ℕ
  pub playback_channels : ℕ
  pub capture_channels : ℕ
  pub slot_count : ℕ
  pub slot_stride : ℕ
  pub capture_offset : ℕ
  pub playback_offset : ℕ

align_up : ℕ → ℕ → Result ProtocolError ℕ
align_up value alignment =
    if value % alignment == 0
    then ok value
    else ok_or (checked_add value (alignment - value % alignment)) layout_overflow

-- The arithmetic of `new`, behind its test of the arguments.
place : ℕ → ℕ → ℕ → ℕ → Result ProtocolError SharedRegionLayout
unfolding align_up
place period_frames playback_channels capture_channels slot_count =
    and_then
      (ok_or (checked_mul (max period_frames 1) (max playback_channels capture_channels))
        layout_overflow)
      λ max_samples.
        and_then (ok_or (checked_mul max_samples sample_size) layout_overflow) λ audio_bytes.
          and_then (ok_or (checked_add slot_header_size audio_bytes) layout_overflow) λ slot_bytes.
            and_then (align_up slot_bytes shared_alignment) λ slot_stride.
              and_then (align_up region_header_size shared_alignment) λ capture_offset.
                and_then (ok_or (checked_mul slot_stride slot_count) layout_overflow) λ ring_bytes.
                  and_then (ok_or (checked_add capture_offset ring_bytes) layout_overflow)
                    λ playback_offset.
                      and_then (ok_or (checked_add playback_offset ring_bytes) layout_overflow)
                        λ size. ok (record {
                          size = size;
                          period_frames = period_frames;
                          playback_channels = playback_channels;
                          capture_channels = capture_channels;
                          slot_count = slot_count;
                          slot_stride = slot_stride;
                          capture_offset = capture_offset;
                          playback_offset = playback_offset;
                        })

unfoldable pub new : ℕ → ℕ → ℕ → ℕ → Result ProtocolError SharedRegionLayout
unfolding place
new period_frames playback_channels capture_channels slot_count =
    if period_frames == 0 || (playback_channels == 0 && capture_channels == 0) || slot_count == 0
    then err malformed_payload
    else place period_frames playback_channels capture_channels slot_count

unfoldable pub info : SharedRegionLayout → SharedRegionInfo
info l = record {
  size = l.size;
  period_frames = l.period_frames;
  playback_channels = l.playback_channels;
  capture_channels = l.capture_channels;
  slot_count = l.slot_count;
  slot_stride = l.slot_stride;
  capture_offset = l.capture_offset;
  playback_offset = l.playback_offset;
}

-- `ring_offset.checked_add(index.checked_mul(self.slot_stride)?)`
unfoldable pub slot_offset : SharedRegionLayout → ℕ → ℕ → Option ℕ
slot_offset l ring_offset index =
    if leb l.slot_count index then none else elim (checked_mul index l.slot_stride) [
      | none ↦ none
      | some bytes ↦ checked_add ring_offset bytes
    ]
