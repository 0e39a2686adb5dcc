-- ===== src/Core/Routing/Table/Total.antt =====
-- The ports that a compiled table finds, and their copies, which do not fail.
use side_alsa.Base.{
  ℕ, ◌+◌, get_or, ◌*◌, ◌≤◌, ◌<◌, ◌≡◌, refl, true, none, some, List, [], ◌∷◌, ok, All, length,
  u64_mod, arith,
}
use side_alsa.Base.Int.{ℤ, pos}
use side_alsa.Base.Text.{bytes_eq}
use side_alsa.Config.Types.{Text, Profile}
use side_alsa.Core.Routing.{
  CompiledPort, check_buffers, find_out_of_range, copy_to_physical, add_to_physical_saturating,
  saturating_add_i32, copy_from_physical,
}
use side_alsa.Core.Routing.Writes.{Put, copy_to_physical_lem, add_to_physical_saturating_lem}
use side_alsa.Core.Routing.Reads.{copy_from_physical_lem}
use side_alsa.Core.Routing.Table.{RoutingTable, compile, find_playback, find_capture}
use side_alsa.Core.Routing.Table.Ports.{compile-IsProfile, IsListed, find_port-IsListed}

All-find_out_of_range : (n : ℕ) (cs : List ℕ) → All (λ c. c < n) cs → find_out_of_range n cs ≡ none
unfolding find_out_of_range
All-find_out_of_range n [] a = refl
All-find_out_of_range n (c ∷ cs) a = ground (arith, All-find_out_of_range n cs a.1, a.0)

-- Buffers that hold the frames are accepted.
check_buffers-ok :
    (n : ℕ) (port : CompiledPort) (physical_len frames logical_len : ℕ)
    → 0 < n
    → All (λ c. c < n) port.channels
    → frames * n ≤ physical_len
    → physical_len < u64_mod
    → frames * length port.channels ≤ logical_len
    → logical_len < u64_mod
    → check_buffers port physical_len n frames logical_len ≡ ok tt
unfolding check_buffers
check_buffers-ok n port physical_len frames logical_len p a b c d e =
    let none_outside = All-find_out_of_range n port.channels a in ground (arith, none_outside)

module _ (p : Profile) (table : RoutingTable) (compiles : compile p ≡ ok table) (id : Text)
    (port : CompiledPort) (frames : ℕ) where
  found-playback : find_playback table id ≡ some port → IsListed p.device.playback.channels id port
  unfolding find_playback
  found-playback found =
      let (v, e) = compile-IsProfile p compiles in
      find_port-IsListed p.device.playback.channels p.ports.playback id v.playback
        v.playback_channels (rw e at found)

  found-capture : find_capture table id ≡ some port → IsListed p.device.capture.channels id port
  unfolding find_capture
  found-capture found =
      let (v, e) = compile-IsProfile p compiles in
      find_port-IsListed p.device.capture.channels p.ports.capture id v.capture v.capture_channels
        (rw e at found)

  -- A playback port that a compiled table finds under an id has that id, and buffers of fewer than
  -- 2^64 samples that hold the frames are copied and mixed without a panic or an error: each of the
  -- port's samples reaches its frame and channel of the device, and nothing else is changed.
  pub find_playback-total :
      (logical physical : List ℤ)
      → find_playback table id ≡ some port
      → frames * p.device.playback.channels ≤ length physical
      → length physical < u64_mod
      → frames * length port.channels ≤ length logical
      → length logical < u64_mod
      → (bytes_eq port.id id ≡ true)
        × ((physical' : List ℤ) × (copy_to_physical port logical p.device.playback.channels frames
                physical
              ≡ some (ok physical'))
            × Put
                (pos 0)
                (λ old x. x)
                port.channels
                p.device.playback.channels
                frames
                logical
                physical
                physical')
        × ((physical' : List ℤ) × (add_to_physical_saturating port logical
                p.device.playback.channels frames physical
              ≡ some (ok physical'))
            × Put
                (pos 0)
                saturating_add_i32
                port.channels
                p.device.playback.channels
                frames
                logical
                physical
                physical')
  find_playback-total logical physical found a b c d =
      let f = found-playback found in
      let (v, e) = compile-IsProfile p compiles in
      let accepted =
        check_buffers-ok p.device.playback.channels port (length physical) frames (length logical)
          v.device.playback_channels f.in_range a b c d in
      (
        f.named,
        copy_to_physical_lem (pos 0) port logical p.device.playback.channels frames physical
            f.distinct accepted,
        add_to_physical_saturating_lem (pos 0) port logical p.device.playback.channels frames
            physical f.distinct accepted,
      )

  -- A capture port that a compiled table finds under an id has that id, and buffers of fewer than
  -- 2^64 samples that hold the frames are copied without a panic or an error: each of the port's
  -- samples is that of its frame and channel of the device.
  pub find_capture-total :
      (physical logical : List ℤ)
      → find_capture table id ≡ some port
      → frames * p.device.capture.channels ≤ length physical
      → length physical < u64_mod
      → frames * length port.channels ≤ length logical
      → length logical < u64_mod
      → (bytes_eq port.id id ≡ true)
        × ((logical' : List ℤ) × (copy_from_physical port physical p.device.capture.channels frames
                logical
              ≡ some (ok logical'))
            × ((t i : ℕ)
                → t < frames
                → i < length port.channels
                → get_or logical' (t * length port.channels + i) (pos 0)
                  ≡ get_or physical
                      (t * p.device.capture.channels + get_or port.channels i 0)
                      (pos 0)))
  find_capture-total physical logical found a b c d =
      let f = found-capture found in
      let (v, e) = compile-IsProfile p compiles in
      let accepted =
        check_buffers-ok p.device.capture.channels port (length physical) frames (length logical)
          v.device.capture_channels f.in_range a b c d in
      let (logical', copies, size, read, kept) =
        copy_from_physical_lem (pos 0) port physical p.device.capture.channels frames logical
          accepted in
      (f.named, (logical', copies, read))
