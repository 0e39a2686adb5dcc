-- ===== src/Core/Routing/Table.antt =====
-- `RoutingTable`: the ports of an accepted profile, compiled.
pub mod Ports
pub mod Total
use side_alsa.Base.{
  ℕ, ◌≡◌, Option, none, some, List, [], ◌∷◌, Result, ok, err, and_then, ltb, if◌then◌else◌, u64_mod,
}
use side_alsa.Base.Text.{bytes_eq}
use side_alsa.Config.Types.{Text, Profile, PortConfig, ProfileError}
use side_alsa.Config.Profile.{validate}
use side_alsa.Core.Routing.{RoutingError, CompiledPort, profile, channel_index}

pub record RoutingTable : Type 0 where
  pub playback : List CompiledPort
  pub capture : List CompiledPort

-- `usize::try_from(channel)`, collected until the first error.
unfoldable pub compile_channels : List ℕ → Result RoutingError (List ℕ)
compile_channels [] = ok []
compile_channels (channel ∷ channels) =
    let rest = compile_channels channels in
    if ltb channel u64_mod
    then and_then rest (λ channels'. ok (channel ∷ channels'))
    else err (channel_index channel)

unfoldable pub compile_ports : List PortConfig → Result RoutingError (List CompiledPort)
unfolding compile_channels
compile_ports [] = ok []
compile_ports (port ∷ ports) = and_then (compile_channels port.channels) λ channels.
    and_then (compile_ports ports)
      λ compiled. ok ((record { id = port.id; name = port.name; channels = channels }) ∷ compiled)

-- `#[from] ProfileError`
abbrev pub from_profile {ℓ} : {A : Type ℓ} → Result ProfileError A → Result RoutingError A
from_profile (ok a) = ok a
from_profile (err e) = err (profile e)

unfoldable pub compile : Profile → Result RoutingError RoutingTable
unfolding compile_ports
compile p = and_then (from_profile (validate p)) λ _.
    and_then (compile_ports p.ports.playback) λ playback.
      and_then (compile_ports p.ports.capture)
        λ capture. ok (record { playback = playback; capture = capture })

-- `.iter().find(|port| port.id() == id)`
unfoldable pub find_port : List CompiledPort → Text → Option CompiledPort
find_port [] id = none
find_port (port ∷ ports) id = if bytes_eq port.id id then some port else find_port ports id

unfoldable pub find_playback : RoutingTable → Text → Option CompiledPort
unfolding find_port
find_playback table id = find_port table.playback id

unfoldable pub find_capture : RoutingTable → Text → Option CompiledPort
unfolding find_port
find_capture table id = find_port table.capture id
