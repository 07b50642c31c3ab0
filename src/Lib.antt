-- ===== src/Lib.antt =====
-- vncmanager: a daemon that accepts VNC clients and lets each work in a session of its own Xvnc, or,
-- with a greeter shown in that first session, switch to another session that is already running.
--
-- The parts and how they interact:
--   - A Stream carries bytes; FdStream is one over a socket and TLSStream one over gnutls. A
--     StreamFormatter sends and receives the structures of rfb.h over a stream, and holds one byte that
--     was pushed back.
--   - A VncTunnel is a client's thread. It has the client's stream and the current XvncConnection, and
--     hands messages over between them; what it does not have to understand it forwards unread. While a
--     GreeterConnection is there, a potential connection may be in its handshake and then takes the
--     current one's place. A ReadSelector runs the handler of the stream that has something to read.
--   - Server listens, gives each client a tunnel of its own and takes the signals; ControllerManager
--     takes the desktops' helpers. Configuration says what each part reads of the options.
--   - XvncManager has the sessions, the Xvnc objects, which connections share; GreeterManager has the
--     greeters' processes. Both are told when a child process ends.
--
-- The files, with the sources from the repository's root:
--   - Base, with its children: lists, tests, exceptions with state, and the rules for conditions before
--     and after an action.
--   - Rfb/Wire, Rfb/Values, Rfb/Pixel, Rfb/Messages, Rfb/Tight: rfb.h and the conversions in
--     StreamFormatter.h. A structure is a record of numbers with its layout in memory on a little-endian
--     machine; `encode` is `hton` and the memory, `decode` the memory and `ntoh`.
--   - Stream/Channel: Stream.h and Stream.cpp. Stream/FdStream: FdStream.cpp. Stream/TlsStream, with
--     Session for the object's gnutls pointers and Send for `send`: TLSStream.cpp. Formatter:
--     StreamFormatter.h and StreamFormatter.cpp.
--   - Sessions/Xvnc, Sessions/DisplayNumber, and Sessions/Start for the constructor: Xvnc.cpp.
--     Sessions/Manager: XvncManager.cpp. Sessions/Created: how the two meet in createSession.
--   - Connection: XvncConnection.cpp. Greeter/Connection, and Greeter/Start for the constructor and the
--     destructor: GreeterConnection.cpp. Greeter/Manager: GreeterManager.cpp. ReadSelector:
--     ReadSelector.cpp. Controller: ControllerConnection.cpp. Controller/Manager: ControllerManager.cpp.
--   - Server for the signals, Server/Listen for the sockets and Server/Run for the loop: Server.cpp.
--     Configuration: Configuration.cpp.
--   - Tunnel: VncTunnel.cpp. Tunnel/State has the members, Tunnel/Security the client's handshake,
--     Tunnel/FromClient and Tunnel/Encodings the client's messages, Tunnel/FromServer, Tunnel/Update,
--     Tunnel/Rectangles and Tunnel/Tight the server's, Tunnel/Switch the change to another session, and
--     Tunnel/Run `start` with its loop.
--   - A module below these has the proofs about the one above it: Laws, Refinement, Forward, RoundTrip,
--     Relay, Length, Basic, Sizes, Steps, Written, Fates, Rounds, Framing, Output, Encryption, Format,
--     SetEncodings, Lifetime, Invariant, ChildDied, Ended, Reap, Members, Order, Buffer, Counts, Held,
--     Handles, Address and Table. Tunnel/Idle has what the whole loop keeps in the push-back buffers,
--     and how it ends. Tunnel/Lift says what an
--     outcome on a stream is for the tunnel. Examples has small inputs.
--
-- A method is an action: a function from a state to a value and a state, or to an exception and the
-- state at which it was thrown. A failed assertion, a null pointer that is read and an overflow are
-- such ends too. A stream is the bytes that its peer will still send before it closes, and the bytes
-- sent to it. A `uint8_t`, `uint16_t` or `uint32_t` is a number whose conversions wrap as in C.
--
-- Bounds: the loop of Stream::forward_directly runs on fuel one above the number of bytes, since every
-- round that does not end takes 4096 of them. The loop that prints a number in decimal runs on fuel one
-- above the number. The wait for a controller's key runs on fuel 101, one for each try. Every other loop
-- goes over a list or a count.
--
-- What the system answers to the calls of the constructors of Xvnc, GreeterConnection, ControllerManager
-- and Server, to those of the main loop and to gnutls is an argument: a record of answers, or a list of
-- what the rounds meet.
--
-- Not modelled: threads, so several tunnels at once; the child's side of a fork but for its command line
-- and environment; the loop of ControllerConnection over its commands; the parsing of the command line
-- and the configuration file, which is boost's; the ciphers of gnutls; the log. A stream of the tunnel
-- ends but does not fail: the system errors that FdStream::recv and FdStream::send throw are those of
-- Stream/FdStream, and a run of the tunnel meets none. The ids of sessions and the version of their list
-- are numbers without a bound, where the code has an `int`.
pub mod Base
pub mod Rfb
pub mod Stream
pub mod Formatter
pub mod Sessions
pub mod Connection
pub mod Greeter
pub mod Tunnel
pub mod ReadSelector
pub mod Controller
pub mod Server
pub mod Configuration
pub mod Examples
