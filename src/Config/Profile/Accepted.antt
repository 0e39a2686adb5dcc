-- ===== src/Config/Profile/Accepted.antt =====
-- The profiles that `Profile::validate` accepts.
use side_alsa.Base.{◌≡◌, [], ok, and_then-eq-ok, All, Distinct, ◌∙◌, ap}
use side_alsa.Protocol.Types.{PortDirection}
use side_alsa.Config.Types.{Profile}
use side_alsa.Config.Positions.{validate_pipewire}
use side_alsa.Config.Ports.{validate_ports}
use side_alsa.Config.Ports.Accepted.{IsPort, all_channels, all_ids, rev_append, validate_ports_lem}
use side_alsa.Config.Device.{validate_device}
use side_alsa.Config.Device.Accepted.{IsDevice, validate_device-IsDevice}
use side_alsa.Config.Profile.{validate}

pub record IsProfile (p : Profile) : Type 0 where
  pub device : IsDevice p.device
  pub playback : All (IsPort p.device.playback.channels) p.ports.playback
  pub capture : All (IsPort p.device.capture.channels) p.ports.capture
  pub playback_channels : Distinct (all_channels p.ports.playback)
  pub capture_channels : Distinct (all_channels p.ports.capture)
  pub ids :
      Distinct (rev_append (all_ids p.ports.capture) (rev_append (all_ids p.ports.playback) []))

-- A profile that validation accepts has an accepted device, ports of at least one channel, all of
-- them within the channels of their direction, no channel mapped twice in a direction, and no id
-- used twice, not even by a playback and a capture port.
pub validate-IsProfile : (p : Profile) → validate p ≡ ok tt → IsProfile p
unfolding validate
validate-IsProfile p h =
    let (_, device, h1) = and_then-eq-ok (validate_device p.device) _ h in
    let (_, pipewire, h2) = and_then-eq-ok (validate_pipewire p.integration.pipewire) _ h1 in
    let (ids, playback, h3) =
      and_then-eq-ok
        (validate_ports PortDirection.playback p.ports.playback p.device.playback.channels []) _
        h2 in
    let (ids', capture, h4) =
      and_then-eq-ok
        (validate_ports PortDirection.capture p.ports.capture p.device.capture.channels ids) _ h3 in
    let (ports, channels, e, d) = validate_ports_lem _ _ _ _ tt playback in
    let (ports', channels', e', d') = validate_ports_lem _ _ _ _ d capture in
    record {
      device = validate_device-IsDevice p.device device;
      playback = ports;
      capture = ports';
      playback_channels = channels;
      capture_channels = channels';
      ids = rw (← (e' ∙ ap (rev_append (all_ids p.ports.capture)) e)) d';
    }
