-- ===== src/Server/Start/Bound.antt =====
-- With which certificate the gateway comes up.
use tty_gateway.Base.{◌≡◌, ◌∙◌, refl, ap, ◌⊎◌, inl, inr, Option, none, some, Text}
use tty_gateway.Base.Results.{ok}
use tty_gateway.Base.Action.{lift, failing, pure}
use tty_gateway.Base.Action.Succeeds.{bind-ok, map_err-ok, ok_injective}
use tty_gateway.Transport.Framed.{TransportError, io, other}
use tty_gateway.Transport.Tls.{
  Process, TlsLib, explain, self_signed_server_config, server_config_from_pem,
}
use tty_gateway.Transport.Tls.Pem.{FromPem, server_config_from_pem-FromPem}
use tty_gateway.Transport.Endpoint.{SocketAddr, Quinn, bind, bind_self_signed, within}
use tty_gateway.Server.Config.{Config, Host, certificate, certificate_of}
use tty_gateway.Server.Start.{bind_pem, bind_files, bind_generated, bind_with, build_server}

module _ {W Cert Key ServerTls ClientTls Roots SC CC Transport End Inc Con Snd Rcv : Type 0}
    (host : Host) (lib : TlsLib W Cert Key ServerTls ClientTls Roots SC CC Transport)
    (q : Quinn W SC CC End Inc Con Snd Rcv) where
  pub data Bound (config : Config) (p : Process W) (server : End) : Type 0 where
    of_files :
        (cert_path key_path cert key : Text) (tls : SC)
        → config.tls_cert ≡ some cert_path
        → config.tls_key ≡ some key_path
        → host.read_to_string cert_path ≡ ok cert
        → host.read_to_string key_path ≡ ok key
        → FromPem lib cert key p tls
        → (q.server tls config.listen (server_config_from_pem lib cert key p).1.world).0 ≡ ok server
        → Bound config p server
    of_its_own :
        (tls : SC) (cert : Cert)
        → (config.tls_cert ≡ none) ⊎ (config.tls_key ≡ none)
        → (self_signed_server_config lib p).0 ≡ ok (tls, cert)
        → (q.server tls config.listen (self_signed_server_config lib p).1.world).0 ≡ ok server
        → Bound config p server

  within-bind-ok :
      (listen : SocketAddr) (tls : SC) (p : Process W) (server : End)
      → (within (bind q listen tls) p).0 ≡ ok server
      → (q.server tls listen p.world).0 ≡ ok server
  unfolding bind failing
  within-bind-ok listen tls p server h = map_err-ok io _ server h

  bind_files-Bound :
      (config : Config) (cert_path key_path : Text) (p : Process W) (server : End)
      → config.tls_cert ≡ some cert_path
      → config.tls_key ≡ some key_path
      → (bind_files host lib q config.listen cert_path key_path p).0 ≡ ok server
      → Bound config p server
  unfolding bind_files bind_pem lift failing
  bind_files-Bound config cert_path key_path p server c k h =
      let (cert, cert_read, h1) =
        bind-ok (lift (explain _ (host.read_to_string cert_path))) _ p server h in
      let (key, key_read, h2) =
        bind-ok (lift (explain _ (host.read_to_string key_path))) _ p server h1 in
      let (tls, built, h3) = bind-ok (server_config_from_pem lib cert key) _ p server h2 in
      of_files cert_path key_path cert key tls c k (map_err-ok _ _ cert cert_read)
        (map_err-ok _ _ key key_read) (server_config_from_pem-FromPem lib cert key p tls built)
        (within-bind-ok config.listen tls (server_config_from_pem lib cert key p).1 server
          (map_err-ok _ _ server h3))

  bind_self_signed-ok :
      (listen : SocketAddr) (p : Process W) (server : End) (cert : Cert)
      → (bind_self_signed lib q listen p).0 ≡ ok (server, cert)
      → (tls : SC) × (pinned : Cert) × ((self_signed_server_config lib p).0 ≡ ok (tls, pinned))
        × ((q.server tls listen (self_signed_server_config lib p).1.world).0 ≡ ok server)
  unfolding bind_self_signed failing pure
  bind_self_signed-ok listen p server cert h =
      let ((tls, pinned), made, h1) =
        bind-ok (failing other (self_signed_server_config lib)) _ p (server, cert) h in
      let (endpoint, bound, h2) =
        bind-ok (within (bind q listen tls)) _ (self_signed_server_config lib p).1 (server, cert)
          h1 in
      let e = ok_injective TransportError (End × Cert) (endpoint, pinned) (server, cert) h2 in
      (
        tls,
        pinned,
        map_err-ok _ _ (tls, pinned) made,
        within-bind-ok listen tls (self_signed_server_config lib p).1 server
            (bound ∙ ap (λ x. ok x.0) e),
      )

  bind_generated-Bound :
      (config : Config) (p : Process W) (server : End)
      → (config.tls_cert ≡ none) ⊎ (config.tls_key ≡ none)
      → (bind_generated host lib q config.listen p).0 ≡ ok server
      → Bound config p server
  unfolding bind_generated failing pure
  bind_generated-Bound config p server n h =
      let ((endpoint, cert), bound, h1) =
        bind-ok (failing _ (bind_self_signed lib q config.listen)) _ p server h in
      let (tls, pinned, made, listens) =
        bind_self_signed-ok config.listen p endpoint cert (map_err-ok _ _ (endpoint, cert) bound) in
      of_its_own tls pinned n made (listens ∙ h1)

  bind_with-Bound :
      (config : Config) (c k : Option Text) (p : Process W) (server : End)
      → config.tls_cert ≡ c
      → config.tls_key ≡ k
      → (bind_with host lib q config.listen (certificate_of c k) p).0 ≡ ok server
      → Bound config p server
  unfolding bind_with certificate_of
  bind_with-Bound config (some cert) (some key) p server c k h =
      bind_files-Bound config cert key p server c k h
  bind_with-Bound config (some cert) none p server c k h =
      bind_generated-Bound config p server (inr k) h
  bind_with-Bound config none k p server c _ h = bind_generated-Bound config p server (inl c) h

  -- A gateway comes up, on the configured address, either with a configuration made of the files that
  -- its configuration names for the certificate and the key, both read, with at least one certificate
  -- and a key in them; or, when one of the two is not configured, with a certificate of its own. A file
  -- that is missing or of no use keeps it from coming up: it does not fall back to its own certificate.
  pub build_server-Bound :
      (config : Config) (p : Process W) (server : End)
      → (build_server host lib q config p).0 ≡ ok server
      → Bound config p server
  unfolding build_server certificate
  build_server-Bound config p server h =
      bind_with-Bound config config.tls_cert config.tls_key p server refl refl h
