-- ===== src/Transport/Tls/Pem.antt =====
-- When the gateway gets a configuration out of PEM files.
use tty_gateway.Base.{◌≡◌, ◌∙◌, refl, ap, subst, Option, none, some, List, [], ◌∷◌, Bytes, arith}
use tty_gateway.Base.Results.{ok}
use tty_gateway.Base.Action.{lift}
use tty_gateway.Base.Action.Succeeds.{bind-ok, map_err-ok}
use tty_gateway.Transport.Tls.{
  Process, TlsLib, explain, install_crypto_provider, build_server_config, some_certs, found_key,
  server_config_from_pem,
}

module _ {W Cert Key ServerTls ClientTls Roots ServerConfig ClientConfig Transport : Type 0}
    (lib : TlsLib W Cert Key ServerTls ClientTls Roots ServerConfig ClientConfig Transport) where
  -- What the files held.
  pub record FromPem (cert_pem key_pem : Bytes) (p : Process W) (config : ServerConfig)
      : Type 0 where
    pub first : Cert
    pub chain : List Cert
    pub key : Key
    pub certs_read : lib.certs cert_pem ≡ ok (first ∷ chain)
    pub key_read : lib.private_key key_pem ≡ ok (some key)
    pub built :
        (build_server_config lib (first ∷ chain) key (install_crypto_provider lib p).1).0
        ≡ ok config

  some_certs-ok :
      (found certs : List Cert)
      → some_certs lib found ≡ ok certs
      → (first : Cert) × (chain : List Cert) × (found ≡ first ∷ chain) × (certs ≡ first ∷ chain)
  unfolding some_certs
  some_certs-ok [] certs h = absurd (ground arith)
  some_certs-ok (first ∷ chain) certs h = (first, chain, refl, ground (arith, h))

  found_key-ok : (found : Option Key) (key : Key) → found_key lib found ≡ ok key → found ≡ some key
  unfolding found_key
  found_key-ok none key h = absurd (ground arith)
  found_key-ok (some k) key h = ground (arith, h)

  -- A configuration comes out of PEM files only if the one holds at least one certificate and the
  -- other a private key, and then it is built of exactly these: files that cannot be parsed, an empty
  -- chain and a missing key are errors.
  pub server_config_from_pem-FromPem :
      (cert_pem key_pem : Bytes) (p : Process W) (config : ServerConfig)
      → (server_config_from_pem lib cert_pem key_pem p).0 ≡ ok config
      → FromPem cert_pem key_pem p config
  unfolding server_config_from_pem lift
  server_config_from_pem-FromPem cert_pem key_pem p config h =
      let (_, _, h1) = bind-ok (install_crypto_provider lib) _ p config h in
      let q = (install_crypto_provider lib p).1 in
      let (found, certs_read, h2) = bind-ok (lift (explain _ (lib.certs cert_pem))) _ q config h1 in
      let (certs, e, h3) = bind-ok (lift (some_certs lib found)) _ q config h2 in
      let (first, chain, found_is, certs_are) = some_certs-ok found certs e in
      let (some_key, key_read, h4) =
        bind-ok (lift (explain _ (lib.private_key key_pem))) _ q config h3 in
      let (key, k, h5) = bind-ok (lift (found_key lib some_key)) _ q config h4 in
      record {
        first = first;
        chain = chain;
        key = key;
        certs_read = map_err-ok _ _ found certs_read ∙ ap ok found_is;
        key_read = map_err-ok _ _ some_key key_read ∙ ap ok (found_key-ok some_key key k);
        built = subst (λ l. (build_server_config lib l key q).0 ≡ ok config) certs_are h5;
      }
