-- ===== src/Transport/Tls/Tests.antt =====
-- A library that takes what it is given, and the theorems at it. A certificate, a key and a
-- configuration are lists of bytes.
use tty_gateway.Base.{ℕ, refl, false, none, some, List, [], ◌∷◌, Bytes, codes}
use tty_gateway.Base.Results.{ok}
use tty_gateway.Base.Action.{◌>>=◌}
use tty_gateway.Transport.Tls.{
  Process, TlsLib, install_crypto_provider, build_server_config, server_config_from_pem,
}
use tty_gateway.Transport.Tls.Provider.{
  self_signed, from_pem, pinned, perform_all, IsReady, perform_all-IsReady,
}
use tty_gateway.Transport.Tls.Pem.{FromPem, server_config_from_pem-FromPem}

-- A PEM file is its one certificate or key; an empty one has none.
abbrev pub plain : (W : Type 0) → TlsLib W Bytes Bytes Bytes Bytes (List Bytes) Bytes Bytes ℕ
plain W = record {
  install_default = λ w. w;
  generate = λ names w. (ok (1 ∷ [], 2 ∷ []), w);
  pkcs8 = λ der. der;
  certs = λ pem. ok (elim pem [ [] ↦ [] | x ∷ xs ↦ (x ∷ xs) ∷ [] ]);
  private_key = λ pem. ok (elim pem [ [] ↦ none | x ∷ xs ↦ some (x ∷ xs) ]);
  with_single_cert = λ certs key w. ok key;
  server_alpn = λ names tls. tls;
  quic_server = λ tls. ok tls;
  server_transport = λ transport config. config;
  no_roots = [];
  add_root = λ cert roots. ok (cert ∷ roots);
  with_root_certificates = λ roots w. codes "client";
  client_alpn = λ names tls. tls;
  quic_client = λ tls. ok tls;
  client_transport = λ transport config. config;
  default_transport = 0;
  max_idle_timeout = λ limit transport. transport;
  keep_alive_interval = λ interval transport. transport;
}

abbrev pub started : {W : Type 0} → W → Process W
started w = record { world = w; crypto_init = false; calls = [] }

perform_all-IsReady_example : IsReady (plain (Unit {0})) (
    perform_all
      (plain (Unit {0}))
      (self_signed ∷ from_pem [] (2 ∷ []) ∷ pinned (1 ∷ []) ∷ [])
      (started tt))
perform_all-IsReady_example =
    perform_all-IsReady (plain (Unit {0})) self_signed (from_pem [] (2 ∷ []) ∷ pinned (1 ∷ []) ∷ [])
      tt

server_config_from_pem-FromPem_example :
    FromPem (plain (Unit {0})) (1 ∷ []) (2 ∷ []) (started tt) (2 ∷ [])
unfolding server_config_from_pem build_server_config install_crypto_provider ◌>>=◌
server_config_from_pem-FromPem_example =
    server_config_from_pem-FromPem (plain (Unit {0})) (1 ∷ []) (2 ∷ []) (started tt) (2 ∷ []) refl
