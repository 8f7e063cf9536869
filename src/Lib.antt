-- ===== src/Lib.antt =====
-- QuicView: a remote display over QUIC. A host captures frames, encodes them and sends them with a
-- header; a viewer decodes and renders them and sends input events back; a session negotiates the
-- displays, and a wall of extra clients gets virtual displays. This library models the parts of the
-- program that decide what those do, one folder for each crate:
--
-- * Protocol (crates/quicview-protocol/src): Display and Display/Layout are display.rs, Frame is
--   frame.rs, Input is input.rs, Message is message.rs, Error is error.rs. `FrameHeader::encode` and
--   `decode` are `encode` and `decode` of Frame, those of `InputEvent` the ones of Input. Buf holds
--   the crate `bytes`, a parameter with the documented big-endian laws and a list that meets them.
-- * Codec (crates/quicview-codec/src): Delta is delta.rs and encoder.rs, Convert is convert.rs,
--   Bitrate is bitrate.rs. The state of `DeltaCodec` is its reference frame; `adjust_to` is
--   `adjust_quality` after the bitrate is measured.
-- * Session (crates/quicview-session/src): Auth, Negotiation, Power, Discovery and Role are the files
--   of those names. `step` and `run` are single calls and sequences of calls; Power/History has
--   them for the power manager.
-- * Capture (crates/quicview-capture/src): Source, VirtualDisplay and Wall are source.rs,
--   virtual_display.rs and wall.rs; the wall calls the virtual displays, and its layout is one of
--   Protocol. Gdi is gdi.rs over the calls of Windows, a parameter: `with_screen`, `with_mem`,
--   `copy_screen`, `read_back` and `give_back` are the stretches of `grab` between its early returns,
--   and Gdi/Ledger is what Windows requires of the calls and what their answers leave held. Pipewire and ScreenCaptureKit are
--   pipewire.rs and screencapturekit.rs.
-- * Render (crates/quicview-display/src): Surface is surface.rs, Renderer is renderer.rs.
-- * Input (crates/quicview-input/src): Injector is injector.rs, Audio is audio.rs and clipboard.rs,
--   SendInput is sendinput.rs over the calls of Windows and the operations on `f32`, parameters,
--   Forwarder is forwarder.rs over a bounded channel of tokio; Evdev and CgEvent are evdev.rs and cgevent.rs.
-- * Transport (crates/quicview-transport/src): Mux is mux.rs over a connection of the crate `quinn`,
--   which is a parameter; Cert is cert.rs over `ring`, `rcgen`, `rustls` and `quinn`; Endpoint is
--   connection.rs and listener.rs over the endpoints of `quinn`; Error is error.rs.
-- * App (crates/quicview/src): Metrics is metrics.rs, Config is config.rs, Shutdown is shutdown.rs
--   over the watch channel of tokio, whose documented behaviour is the record `WatchLaws`; Ffi and
--   Error are ffi.rs and error.rs. Metrics/Threads takes the calls of metrics.rs apart into their
--   atomic additions, which threads interleave.
-- * Cli (crates/quicview-cli/src/main.rs): Control has both ends of the control stream, `handle_viewer`
--   and the viewer's `send_ping` and `receive_response`, over the streams of Transport/Mux and the
--   messages of Protocol; Serve has the loop of `serve` and its sessions as one system, whose steps
--   are a relation and which calls App/Metrics; Commands has the choice of the configuration and
--   `init`; Peers has the setup of `serve` and the whole of `connect`, which call Transport/Endpoint;
--   Main is `main` on the parsed command line, up to the loop of `serve`.
-- * Prelude has the shared tests, lists, integers, bit lemmas and the type of results;
--   Tests has runs on small inputs and the theorems at concrete inputs.
--
-- A method on `&mut self` is a function from the state to the new state and the result. A result is
-- `ok`, `err` or `panic`. Numbers are natural numbers with the wrap of their width written out, as in
-- a release build on a 64-bit target; an `i32` is an integer with `wrap_i32`; an `f32` is its bit
-- pattern; a `HashMap` is a list with one entry for each key; a socket address is a number that is
-- only compared. Every loop is by recursion on its list or on a count, except that of
-- `ShutdownSignal::wait`, which is on fuel: one poll makes at most two turns.
--
-- Not modelled: the data flow of docs/architecture.md, which no code carries out; what happens between the calls of an asynchronous function while it waits, except the
-- polls of `wait` and the steps of `serve`; the parsing of the command line and of addresses, the
-- JSON and TOML forms (serde), the setup of the logging and the log lines, and the re-exports: they
-- are calls of other crates or output.
pub mod Prelude
pub mod Protocol
pub mod Codec
pub mod Session
pub mod Capture
pub mod Cli
pub mod Render
pub mod Input
pub mod App
pub mod Transport
pub mod Tests
