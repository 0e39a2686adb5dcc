-- ===== src/Protocol/RoundTrip/Records.antt =====
-- The records that the messages carry: when each is in range, and that it comes back as written.
use side_alsa.Base.{◌<◌, List, All, u32_mod, u64_mod, length}
use side_alsa.Protocol.Types.{SharedRegionInfo, PortInfo, DeviceInfo}
use side_alsa.Protocol.Wire.{put_u32, read_u32}
use side_alsa.Protocol.Encode.{encode_shared_info, encode_port, encode_ports, encode_info}
use side_alsa.Protocol.Decode.{decode_shared_info, decode_port, decode_ports, decode_info}
use side_alsa.Protocol.RoundTrip.Rules.{
  RoundTrips, RoundTrips-seq, RoundTrips-last, RoundTrips-for_each,
}
use side_alsa.Protocol.RoundTrip.Values.{
  IsText, RoundTrips-u32, RoundTrips-u64, RoundTrips-count, RoundTrips-string,
}

-- Application that reaches to the end of the term.
infixr 0 ◌$◌
abbrev ◌$◌ : {A B : Type 0} → (A → B) → A → B
f $ a = f a

pub record IsRegionInfo (s : SharedRegionInfo) : Type 0 where
  pub size : s.size < u64_mod
  pub period_frames : s.period_frames < u32_mod
  pub playback_channels : s.playback_channels < u32_mod
  pub capture_channels : s.capture_channels < u32_mod
  pub slot_count : s.slot_count < u32_mod
  pub slot_stride : s.slot_stride < u64_mod
  pub capture_offset : s.capture_offset < u64_mod
  pub playback_offset : s.playback_offset < u64_mod

pub RoundTrips-shared_info :
    (s : SharedRegionInfo) → IsRegionInfo s → RoundTrips (encode_shared_info s) decode_shared_info s
unfolding encode_shared_info decode_shared_info
RoundTrips-shared_info s v =
    RoundTrips-seq _ s.size (RoundTrips-u64 s.size v.size)
    $ RoundTrips-seq _ s.period_frames (RoundTrips-u32 s.period_frames v.period_frames)
    $ RoundTrips-seq _ s.playback_channels (RoundTrips-u32 s.playback_channels v.playback_channels)
    $ RoundTrips-seq _ s.capture_channels (RoundTrips-u32 s.capture_channels v.capture_channels)
    $ RoundTrips-seq _ s.slot_count (RoundTrips-u32 s.slot_count v.slot_count)
    $ RoundTrips-seq _ s.slot_stride (RoundTrips-u64 s.slot_stride v.slot_stride)
    $ RoundTrips-seq _ s.capture_offset (RoundTrips-u64 s.capture_offset v.capture_offset)
    $ RoundTrips-last _ s.playback_offset (RoundTrips-u64 s.playback_offset v.playback_offset)

pub record IsPort (port : PortInfo) : Type 0 where
  pub id : IsText port.id
  pub name : IsText port.name
  pub channels : All (λ c. c < u32_mod) port.channels

RoundTrips-port : (p : PortInfo) → IsPort p → RoundTrips (encode_port p) decode_port p
unfolding encode_port decode_port
RoundTrips-port p v =
    RoundTrips-seq _ p.id (RoundTrips-string p.id v.id)
    $ RoundTrips-seq _ p.name (RoundTrips-string p.name v.name)
    $ RoundTrips-seq _ (length p.channels) (RoundTrips-count (length p.channels))
    $ RoundTrips-last _ p.channels (
        RoundTrips-for_each (λ c. c < u32_mod) put_u32 read_u32 RoundTrips-u32 p.channels
          v.channels)

RoundTrips-ports :
    (ports : List PortInfo) → All IsPort ports → RoundTrips (encode_ports ports) decode_ports ports
unfolding encode_ports decode_ports
RoundTrips-ports ports v =
    RoundTrips-seq _ (length ports) (RoundTrips-count (length ports))
      (RoundTrips-for_each IsPort encode_port decode_port RoundTrips-port ports v)

pub record IsDevice (s : DeviceInfo) : Type 0 where
  pub name : IsText s.name
  pub profile_fingerprint : s.profile_fingerprint < u64_mod
  pub rate : s.rate < u32_mod
  pub period_size : s.period_size < u32_mod
  pub hardware_period_size : s.hardware_period_size < u32_mod
  pub buffer_size : s.buffer_size < u32_mod
  pub shared_buffer_size : s.shared_buffer_size < u32_mod
  pub pro_latency_periods : s.pro_latency_periods < u32_mod
  pub pro_output_latency_frames : s.pro_output_latency_frames < u32_mod
  pub pro_realtime_priority : s.pro_realtime_priority < u32_mod
  pub shared_latency_periods : s.shared_latency_periods < u32_mod
  pub playback_channels : s.playback_channels < u32_mod
  pub capture_channels : s.capture_channels < u32_mod
  pub playback_ports : All IsPort s.playback_ports
  pub capture_ports : All IsPort s.capture_ports

pub RoundTrips-info : (s : DeviceInfo) → IsDevice s → RoundTrips (encode_info s) decode_info s
unfolding encode_info decode_info
RoundTrips-info s v =
    RoundTrips-seq _ s.name (RoundTrips-string s.name v.name)
    $ RoundTrips-seq _ s.profile_fingerprint
        (RoundTrips-u64 s.profile_fingerprint v.profile_fingerprint)
    $ RoundTrips-seq _ s.rate (RoundTrips-u32 s.rate v.rate)
    $ RoundTrips-seq _ s.period_size (RoundTrips-u32 s.period_size v.period_size)
    $ RoundTrips-seq _ s.hardware_period_size
        (RoundTrips-u32 s.hardware_period_size v.hardware_period_size)
    $ RoundTrips-seq _ s.buffer_size (RoundTrips-u32 s.buffer_size v.buffer_size)
    $ RoundTrips-seq _ s.shared_buffer_size
        (RoundTrips-u32 s.shared_buffer_size v.shared_buffer_size)
    $ RoundTrips-seq _ s.pro_latency_periods
        (RoundTrips-u32 s.pro_latency_periods v.pro_latency_periods)
    $ RoundTrips-seq _ s.pro_output_latency_frames
        (RoundTrips-u32 s.pro_output_latency_frames v.pro_output_latency_frames)
    $ RoundTrips-seq _ s.pro_realtime_priority
        (RoundTrips-u32 s.pro_realtime_priority v.pro_realtime_priority)
    $ RoundTrips-seq _ s.shared_latency_periods
        (RoundTrips-u32 s.shared_latency_periods v.shared_latency_periods)
    $ RoundTrips-seq _ s.playback_channels (RoundTrips-u32 s.playback_channels v.playback_channels)
    $ RoundTrips-seq _ s.capture_channels (RoundTrips-u32 s.capture_channels v.capture_channels)
    $ RoundTrips-seq _ s.playback_ports (RoundTrips-ports s.playback_ports v.playback_ports)
    $ RoundTrips-last _ s.capture_ports (RoundTrips-ports s.capture_ports v.capture_ports)
