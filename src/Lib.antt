-- ===== src/Lib.antt =====
-- SideALSA shares one audio interface between a low-latency client (the Pro client) and shared
-- clients. A daemon owns the hardware and runs a period at a time; a client asks for a session over a
-- socket, is handed a region of shared memory, and from then on exchanges periods of samples with
-- the daemon through rings of slots in that region. This development models:
--
-- * crates/sidealsa-protocol/src/lib.rs (Protocol): the messages of the socket. `Types` and `Codes`
--   are its types and their numbers, `Wire`, `Encode` and `Decode` the payloads, `Frame` the frames
--   and the calls on streams, with the names of the Rust functions; a method of `Decoder` has
--   `read_` before its name. `RoundTrip` relates the two directions. `Layout` is
--   `SharedRegionLayout` and `Sequence` the order of wrapping sequence numbers.
-- * crates/sidealsa-client/src/shared.rs (Client): `Slots` is `try_publish` and `try_consume_exact`
--   with the helpers they call, on a ring as the list of its slots; `Slots/Contents` is its abstract
--   view, the blocks that are ready. `Region` is `SharedRegion`: the atomic words of the header, the
--   calls of the two sides, and the activation of a session; `Region/Race` is
--   `establish_activation` by its atomic steps, with two sides in any order. `Capture` is the
--   client's reading and discarding of capture.
-- * crates/sidealsa-config/src (Config): `Types` is a profile, `Derived` what its device derives,
--   `Device`, `Ports`, `Positions` and `Profile` its validation with the errors in the source's
--   order, `Timing` the settings of the timing, and `Fingerprint` the hashes. The `Accepted`
--   modules say what an accepted profile satisfies, which the others rely on.
-- * crates/sidealsa-core/src (Core): `Routing` is `CompiledPort` of routing.rs and `Routing/Table` its
--   `RoutingTable`, compiled from an accepted profile; `Latency` is `LatencyGuard` of latency.rs,
--   and `Timeline` is `HardwareTimeline` of timeline.rs.
-- * crates/sidealsa-daemon/src/state.rs (Daemon): `Session` is `SessionState`, whose endpoint holds a
--   region of `Client`; `Ownership` and `Ownership/Calls` are the calls of `DaemonState` on
--   sessions, `Endpoint` is `EndpointSlot` by its atomic steps, with any number of readers, and
--   `Playback` is the preparation and the commit of `SharedAudioPortBridge`.
--
-- `Base` holds what these share: Boolean tests, lists, results, machine words and integers. The
-- tests of each part and the uses of its theorems at concrete inputs are in its `Examples`.
--
-- How the code is modelled. A call that changes state through a reference returns the state
-- afterwards. A Rust integer is a natural number or an integer, and the wrap, the check or the
-- saturation of the source's operation is written out; `usize` has 64 bits. A `String` is the list
-- of its bytes. A byte stream is the list of its bytes: a writer that does not fail, and a reader
-- that ends with the list. A call on atomic words is one uninterrupted run (but for `Region/Race`
-- and `Endpoint`): a `compare_exchange` succeeds exactly when the word is as expected, and a loop that waits for
-- another thread returns `none` where it would spin. The clock is an argument. Loops are structural
-- recursion, or recursion on fuel: the 64 doublings of `next_power_of_two` in `Latency` reach every
-- 64-bit number, and the 3 rounds of `next_session_id` in `Ownership` find an id.
--
-- Not modelled: what touches the system (the memory file and its seals, sockets, threads, ALSA
-- devices, event descriptors, files, services), the parsing and editing of TOML, the bindings of
-- crates/sidealsa-alsa and crates/sidealsa-asio, the tools and the user interface; and, so far, the
-- daemon's handling of capture and of the Pro client's periods, its dispatch of requests, the
-- engine's loop, and the interleaving of threads but for that race and `Endpoint`.
pub mod Base
pub mod Protocol
pub mod Client
pub mod Daemon
pub mod Config
pub mod Core
