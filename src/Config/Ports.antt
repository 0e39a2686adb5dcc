-- ===== src/Config/Ports.antt =====
-- `validate_ports` and `validate_port_id`. A `HashSet` is the list of what was inserted.
pub mod Accepted
use side_alsa.Base.{
  ℕ, Bool, true, false, not, ◌&&◌, ◌||◌, Option, none, some, List, [], ◌∷◌, Result, ok, err,
  and_then, ltb, leb, ◌==◌, if◌then◌else◌,
}
use side_alsa.Base.Text.{is_empty, trim, has_control, bytes_eq}
use side_alsa.Protocol.Types.{PortDirection}
use side_alsa.Config.Types.{
  Text, PortConfig, ProfileError, Check, reject, ◌>>◌, invalid, empty_port_id, bad_port_id,
  duplicate_port_id, empty_port_name, control_in_port_name, no_channels, channel_outside,
  channel_mapped_twice,
}
use side_alsa.Config.Positions.{contains_text, validate_positions}

-- `byte.is_ascii_alphanumeric() || byte == b'_' || byte == b'-'`
id_byte : ℕ → Bool
id_byte b =
    (leb b'0' b && leb b b'9')
    || (leb b'A' b && leb b b'Z')
    || (leb b'a' b && leb b b'z')
    || b == b'_'
    || b == b'-'

all_id_bytes : Text → Bool
unfolding id_byte
all_id_bytes [] = true
all_id_bytes (b ∷ s) = id_byte b && all_id_bytes s

unfoldable pub validate_port_id : Text → Check
unfolding all_id_bytes trim bytes_eq
validate_port_id id =
    reject (is_empty id) empty_port_id
    >> reject (not (bytes_eq id (trim id)) || not (all_id_bytes id)) (bad_port_id id)

unfoldable pub contains : List ℕ → ℕ → Bool
contains [] channel = false
contains (c ∷ set) channel = c == channel || contains set channel

-- `for &channel in &port.channels`, with the channels mapped so far.
unfoldable pub map_channels :
    PortDirection → ℕ → Text → List ℕ → List ℕ → Result ProfileError (List ℕ)
unfolding contains
map_channels direction channel_count id mapped [] = ok mapped
map_channels direction channel_count id mapped (channel ∷ channels) =
    let rest = map_channels direction channel_count id (channel ∷ mapped) channels in
    if leb channel_count channel
    then err (invalid (channel_outside direction id channel channel_count))
    else if contains mapped channel
    then err (invalid (channel_mapped_twice direction channel))
    else rest

-- The round of `validate_ports` for one port, up to its channels.
unfoldable pub validate_port : PortConfig → List Text → Check
unfolding validate_port_id validate_positions contains_text trim has_control
validate_port port ids =
    validate_port_id port.id
    >> validate_positions port
    >> reject (contains_text ids port.id) (duplicate_port_id port.id)
    >> reject (is_empty (trim port.name)) (empty_port_name port.id)
    >> reject (has_control port.name) (control_in_port_name port.id)
    >> reject (is_empty port.channels) (no_channels port.id)

-- `for port in ports`; the sets afterwards are the channels mapped and the ids.
unfoldable pub validate_ports_from :
    PortDirection
    → ℕ
    → List ℕ
    → List Text
    → List PortConfig
    → Result ProfileError (List ℕ × List Text)
unfolding validate_port map_channels
validate_ports_from direction channel_count mapped ids [] = ok (mapped, ids)
validate_ports_from direction channel_count mapped ids (port ∷ ports) =
    and_then (validate_port port ids) λ _.
      and_then (map_channels direction channel_count port.id mapped port.channels)
        λ mapped'. validate_ports_from direction channel_count mapped' (port.id ∷ ids) ports

-- The ids afterwards.
unfoldable pub validate_ports :
    PortDirection → List PortConfig → ℕ → List Text → Result ProfileError (List Text)
unfolding validate_ports_from
validate_ports direction ports channel_count ids =
    and_then (validate_ports_from direction channel_count [] ids ports) λ sets. ok sets.1
