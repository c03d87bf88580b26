-- ===== src/Transport/Endpoint.antt =====
-- crates/gw-transport/src/server.rs and client.rs: the two ends of the link. `quinn` is a parameter: its
-- endpoints, connections and streams, and its calls with the text of an error.
use tty_gateway.Base.{ℕ, Option, none, some, [], ◌∷◌, Bytes, Text, codes}
use tty_gateway.Base.Results.{Result}
use tty_gateway.Base.Action.{Action, pure, failing, ◌>>=◌}
use tty_gateway.Transport.Framed.{TransportError, connection, io, other}
use tty_gateway.Transport.Tls.{Process, TlsLib, self_signed_server_config}

pub record SocketAddr : Type 0 where
  -- the bytes of the address
  pub host : Bytes
  pub port : ℕ

-- `End` is an endpoint, `Inc` an incoming connection, `Con` a connection, `Snd` and `Rcv` the halves of
-- a stream.
pub record Quinn (W SC CC End Inc Con Snd Rcv : Type 0) : Type 0 where
  -- `Endpoint::server` and `Endpoint::client`
  pub server : SC → SocketAddr → Action Text W End
  pub client : SocketAddr → Action Text W End
  pub set_default_client_config : CC → End → End
  pub local_addr : End → Action Text W SocketAddr
  -- `accept().await`, and `incoming.await`
  pub accept : End → W → Option Inc × W
  pub handshake : Inc → Action Text W Con
  pub accept_bi : Con → Action Text W (Snd × Rcv)
  -- `connect`, and awaiting what it returns
  pub connect : End → SocketAddr → Text → Action Text W Inc
  pub connected : Inc → Action Text W Con
  -- the address may change while the connection lives
  pub remote_address : Con → W → SocketAddr
  pub open_bi : Con → Action Text W (Snd × Rcv)
  pub close : ℕ → Bytes → End → W → W
  pub wait_idle : End → W → W

-- `ClientConnection`; `FramedSend` and `FramedRecv` are their streams.
pub record ClientConnection (Con Snd Rcv : Type 0) : Type 0 where
  pub conn : Con
  pub send : Snd
  pub recv : Rcv

module _ {W SC CC End Inc Con Snd Rcv : Type 0} (q : Quinn W SC CC End Inc Con Snd Rcv) where
  -- `Server::bind`
  unfoldable pub bind : SocketAddr → SC → Action TransportError W End
  bind addr config = failing io (q.server config addr)

  streams : Con → Snd × Rcv → ClientConnection Con Snd Rcv
  streams conn (send, recv) = record { conn = conn; send = send; recv = recv }

  unfoldable pub accept_control : Inc → Action TransportError W (ClientConnection Con Snd Rcv)
  unfolding streams
  accept_control incoming = do
    conn ← failing connection (q.handshake incoming)
    halves ← failing connection (q.accept_bi conn)
    pure (streams conn halves)

  accept_incoming :
      Option Inc × W → Option (Result TransportError (ClientConnection Con Snd Rcv)) × W
  unfolding accept_control
  accept_incoming (none, w) = (none, w)
  accept_incoming (some incoming, w) = let (r, w') = accept_control incoming w in (some r, w')

  -- `Server::accept`
  unfoldable pub accept :
      End → W → Option (Result TransportError (ClientConnection Con Snd Rcv)) × W
  unfolding accept_incoming
  accept endpoint w = accept_incoming (q.accept endpoint w)

  -- `Server::local_addr`
  unfoldable pub local_addr : End → Action TransportError W SocketAddr
  local_addr endpoint = failing io (q.local_addr endpoint)

  -- `Server::shutdown`
  unfoldable pub shutdown : End → W → W
  shutdown endpoint w = q.wait_idle endpoint (q.close 0 (codes "shutdown") endpoint w)

  -- `ClientConnection::remote_address`
  unfoldable pub remote_address : ClientConnection Con Snd Rcv → W → SocketAddr
  remote_address client w = q.remote_address client.conn w

  -- `Client::new`
  unfoldable pub new_client : CC → Action TransportError W End
  new_client config = do
    endpoint ← failing io (q.client (record { host = 0 ∷ 0 ∷ 0 ∷ 0 ∷ []; port = 0 }))
    pure (q.set_default_client_config config endpoint)

  -- `Client::connect`
  unfoldable pub connect_to :
      End → SocketAddr → Text → Action TransportError W (ClientConnection Con Snd Rcv)
  unfolding streams
  connect_to endpoint addr server_name = do
    connecting ← failing TransportError.connect (q.connect endpoint addr server_name)
    conn ← failing connection (q.connected connecting)
    halves ← failing connection (q.open_bi conn)
    pure (streams conn halves)

  -- `Client::wait_idle`
  unfoldable pub wait_idle : End → W → W
  wait_idle endpoint w = q.wait_idle endpoint w

-- `quinn` as it is called by a process.
abbrev pub within : {E W A : Type 0} → Action E W A → Action E (Process W) A
within m p = let (r, w) = m p.world in (r, record p { world = w })

module _ {W Cert Key ServerTls ClientTls Roots SC CC Transport End Inc Con Snd Rcv : Type 0}
    (lib : TlsLib W Cert Key ServerTls ClientTls Roots SC CC Transport)
    (q : Quinn W SC CC End Inc Con Snd Rcv) where
  -- `Server::bind_self_signed`
  unfoldable pub bind_self_signed : SocketAddr → Action TransportError (Process W) (End × Cert)
  bind_self_signed addr = do
    (config, cert) ← failing other (self_signed_server_config lib)
    endpoint ← within (bind q addr config)
    pure (endpoint, cert)
