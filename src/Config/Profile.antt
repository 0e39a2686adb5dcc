-- ===== src/Config/Profile.antt =====
-- `Profile::validate` and `ProfileDocument::apply_timing`'s change of a profile.
pub mod Accepted
use side_alsa.Base.{ℕ, List, [], Result, ok, err, and_then}
use side_alsa.Protocol.Types.{PortDirection}
use side_alsa.Config.Types.{Text, Profile, ProfileError, Check}
use side_alsa.Config.Positions.{validate_pipewire}
use side_alsa.Config.Ports.{validate_ports}
use side_alsa.Config.Device.{validate_device}

unfoldable pub validate : Profile → Check
unfolding validate_device validate_pipewire validate_ports
validate p = and_then (validate_device p.device) λ _.
    and_then (validate_pipewire p.integration.pipewire) λ _.
      and_then
        (validate_ports PortDirection.playback p.ports.playback p.device.playback.channels [])
        λ ids.
          and_then
            (validate_ports PortDirection.capture p.ports.capture p.device.capture.channels ids)
            λ ids'. ok tt
