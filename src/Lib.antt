-- ===== src/Lib.antt =====
-- shark-gateway, a keep-alive SSH gateway: a client connects over QUIC, the gateway logs in to a target
-- over SSH, and the shell's output is kept in a scrollback, so that a client that drops can resume the
-- session by a token and is sent the output again.
--
-- The parts, from the wire inwards, and the files that model them:
-- - crates/gw-proto: Proto/Frame.antt has the frames, Proto/Header.antt the four bytes of a length, and
--   Proto/Codec.antt the codec. `postcard` is a parameter; that it reads back what it writes is the
--   hypothesis `RoundTrips`.
-- - crates/gw-transport/src/framed.rs: Transport/Framed.antt has `FramedSend` and
--   `FramedRecv` over a byte stream. `quinn` is a parameter; that a stream is ordered and reliable
--   is the hypothesis `IsOrdered` of Transport/Delivery.antt.
-- - crates/gw-transport/src/tls.rs: Transport/Tls.antt has the configurations of the two ends.
--   `rustls`, `rustls_pemfile`, `rcgen` and `quinn` are parameters. A process has, for the theorems of
--   Transport/Tls/Provider.antt, a list of its calls that install the crypto provider or need it.
-- - crates/gw-transport/src/server.rs and client.rs: Transport/Endpoint.antt has the endpoints.
-- - crates/gw-core/src/lib.rs: Core/Scrollback.antt has the buffer of a session, Core/Reader.antt the
--   cursor of a client, Core/Registry.antt the sessions by id and by resume token. An `Arc<Session>` is
--   an address in a heap, so that the connections share their sessions. Core/Reader/Delivery.antt runs
--   one reader of one session over a schedule of output, its end, attaching and reading;
--   Core/Scrollback/Cuts.antt has the loop of `spawn_ingest` over the messages of the target, and
--   Core/Reader/Wake.antt how it wakes a waiting reader by `Notify`, which is a parameter with its
--   documented behaviour as the hypothesis `IsReliable`. Core/Registry/Reach.antt has the managers that
--   the program can reach, Core/Registry/Evolves.antt what each change of a manager leaves to a session, and
--   Core/Registry/Directory.antt what the registry promises: one table of the open sessions by token, which
--   is a quotient (Core/Registry/Table.antt), since a map does not promise the order of its entries.
-- - crates/gw-core/src/quota.rs: Quota/Hook.antt has the trait `AuthHook`, Quota/Bucket.antt the token
--   bucket, Quota/Meter.antt the usage meter. The bucket computes in `f64`, which is a parameter with the
--   laws of Quota/Float.antt; Quota/Float/Rounds.antt adds, for Quota/Rate.antt and
--   Server/Serve/Throttle.antt, how far a result may be from the exact one, in billionths: by `slack`
--   at most, up to `limit`. The fixed-point arithmetic of Quota/Float/Fixed.antt has these laws and is
--   there for runs.
-- - crates/gw-ssh/src/lib.rs: Ssh/Client.antt says what is said to `russh`, which is a parameter,
--   Ssh/Open.antt has the ways to log in, Ssh/Actor.antt the task that owns the channel.
-- - Core/Lifetime.antt joins gw-core and gw-ssh: a session with its SSH task, the two channels between them
--   and who holds the session, each step of which is a turn.
-- - crates/gw-server/src/handler.rs: Server/Conn.antt has the state of one connection,
--   Server/Signer.antt delegated signing and `open_for_auth`, Server/Negotiate.antt `negotiate`,
--   Server/Serve.antt the sender task, the receiver loop and what follows them.
--   Server/Serve/Output.antt follows the output of a session to the frames for its client.
--   Server/Concurrent.antt has the connections that are served at the same time over one manager.
-- - crates/gw-server/src/http_hook.rs: Server/HttpHook.antt has `HttpAuthHook`. `reqwest` and `serde_json`
--   are parameters.
-- - crates/gw-server/src/config.rs, main.rs and lib.rs: Server/Config.antt has `Config::load`, and the
--   choices of the hook and of the certificate, Server/Start.antt `build_server` and the accept loop of
--   `serve`, and Server/Main.antt `main`, which joins these. The file system and the environment are
--   parameters.
--
-- The unit tests of the crates are in Core/Suite.antt, Quota/Suite.antt, Proto/Suite.antt and
-- Server/HttpHook/Suite.antt: each is a definition, run on the model. A test of gw-core shares its session
-- with the ingest task, and is run under each schedule of five turns of the two.
--
-- Base.antt passes on the names that all parts use; Base/Action.antt is the `async fn` that may fail with
-- `?`, and Base/Action/Keeps.antt the rules for what such a call does to the state.
--
-- How the parts meet: a connection's state is the world outside, the session manager that all
-- share, the frames that its client still sends, and a log of what the connection did, which only
-- the theorems read. At each wait of a connection the others may do anything to the manager
-- (`others` of Server/Conn.antt), so what is shown of one connection holds in any interleaving.
-- Where a theorem needs more, that the others leave the sessions as they were but for more output,
-- this is the hypothesis `IsFair` of Server/Rely.antt; `IsCalm` of Server/Negotiate/Refused.antt is
-- that they neither create nor remove a session meanwhile. In Server/Concurrent.antt what the
-- others do is an act of its own; `IsQuiet` of Server/Concurrent/Tied.antt says that a wait adds
-- nothing to these acts. Server/Wait.antt carries such a relation through every wait. While a
-- connection is served, its two tasks take turns in any order. `abort` only asks for the end of the
-- sender task: it may take further turns after the totals of the meter were read, all of which are
-- taken to come before `report_usage`. The log has a frame or an input when it is handed to
-- `FramedSend::send` or `Session::send_input`, whether or not the call succeeds. A theorem about
-- the log of a connection that has ended with an error says nothing of what was said before the
-- error.
--
-- Numbers: integers are natural numbers, with the wrap-around of `u32` and `u64` written out where
-- the code computes; the theorems on offsets ask for fewer than 2 ^ 64 bytes of output. No loop is
-- cut off: `sign` and the receiver loop end with the frames that the client sends, a round of
-- `throttle` is a turn, and the accept loop is looked at after any number of rounds, so no fuel is
-- used; Server/Serve/Throttle.antt runs these rounds over the moments at which they come.
--
-- Not modelled: what quinn, rustls, russh, reqwest and tokio do inside their calls; a negotiation is
-- one act in Server/Concurrent.antt, where only what it does to the manager shows; the parsing of the
-- command line but for its default, and logging.
pub mod Base
pub mod Proto
pub mod Transport
pub mod Core
pub mod Quota
pub mod Ssh
pub mod Server
