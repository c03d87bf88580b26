-- ===== src/Transport/Tls/Provider.antt =====
-- When the crypto provider of the process is installed.
use tty_gateway.Base.{
  ◌≡◌, ◌∙◌, refl, sym, ap, true, false, List, [], ◌∷◌, ◌++◌, Bytes, Text, All, All-append, arith,
  append-nil, append_assoc,
}
use tty_gateway.Base.Results.{Result, ok, err}
use tty_gateway.Base.Action.{Action, pure, continue, ◌>>=◌, ◌>>◌}
use tty_gateway.Base.Action.Keeps.{IsPreorder, Keeps, keeps_rules}
use tty_gateway.Transport.Tls.{
  Call, installs_provider, builds_server, builds_client, Process, TlsLib, install_crypto_provider,
  server_tls, build_server_config, generated, self_signed_server_config, server_config_from_pem,
  client_tls, pinned_client_config,
}

-- Calls that need the provider.
pub data IsBuild : Call → Type 0 where
  server : IsBuild builds_server
  client : IsBuild builds_client

module _ {W : Type 0} where
  -- Between `p` and `q`, with the provider installed throughout, only builders were called.
  pub record Builds (p q : Process W) : Type 0 where
    pub stays : p.crypto_init ≡ true → q.crypto_init ≡ true
    pub built :
        p.crypto_init ≡ true → (new : List Call) × (q.calls ≡ p.calls ++ new) × All IsBuild new

  Builds-IsPreorder : IsPreorder Builds
  Builds-IsPreorder = record {
    same = λ p. record { stays = λ h. h; built = λ h. ([], sym (append-nil p.calls), tt) };
    trans = λ p q r a b. record {
      stays = λ h. b.stays (a.stays h);
      built = λ h.
          let (xs, e, all) = a.built h in
          let (ys, g, more) = b.built (a.stays h) in
          (
            xs ++ ys,
            g ∙ ap (λ l. l ++ ys) e ∙ append_assoc p.calls xs ys,
            All-append IsBuild xs ys all more,
          );
    };
  }

module _ {W Cert Key ServerTls ClientTls Roots ServerConfig ClientConfig Transport : Type 0}
    (lib : TlsLib W Cert Key ServerTls ClientTls Roots ServerConfig ClientConfig Transport) where
  pre : IsPreorder (Builds {W = W})
  pre = Builds-IsPreorder

  server_tls-Keeps : (certs : List Cert) (key : Key) → Keeps Builds (server_tls lib certs key)
  unfolding server_tls
  server_tls-Keeps certs key = record {
    at = λ p. record { stays = λ h. h; built = λ h. (builds_server ∷ [], refl, (server, tt)) };
  }

  client_tls-Keeps : (roots : Roots) → Keeps Builds (client_tls lib roots)
  unfolding client_tls
  client_tls-Keeps roots = record {
    at = λ p. record { stays = λ h. h; built = λ h. (builds_client ∷ [], refl, (client, tt)) };
  }

  install-Keeps : Keeps Builds (install_crypto_provider lib)
  unfolding install_crypto_provider
  install-Keeps = record {
    at = λ p. record {
      stays = λ h. ground arith;
      built = λ h. rw h ([], sym (append-nil p.calls), tt);
    };
  }

  generated-Keeps : Keeps Builds (generated lib)
  unfolding generated
  generated-Keeps = record {
    at = λ p. record { stays = λ h. h; built = λ h. ([], sym (append-nil p.calls), tt) };
  }

  build-Keeps : (certs : List Cert) (key : Key) → Keeps Builds (build_server_config lib certs key)
  unfolding build_server_config
  build-Keeps certs key = search (keeps_rules, pre, server_tls-Keeps)

  -- The provider was installed first of all, once, and after that only builders were called.
  pub record IsReady (p : Process W) : Type 0 where
    pub initialised : p.crypto_init ≡ true
    pub rest : List Call
    pub calls_of : p.calls ≡ installs_provider ∷ rest
    pub builds_only : All IsBuild rest

  Builds-IsReady : (p q : Process W) → Builds p q → IsReady p → IsReady q
  Builds-IsReady p q b r =
      let (new, e, all) = b.built r.initialised in
      record {
        initialised = b.stays r.initialised;
        rest = r.rest ++ new;
        calls_of = e ∙ ap (λ l. l ++ new) r.calls_of;
        builds_only = All-append IsBuild r.rest new r.builds_only all;
      }

  -- A process that has called nothing yet, or is ready.
  pub data IsSound (p : Process W) : Type 0 where
    untouched : p.crypto_init ≡ false → p.calls ≡ [] → IsSound p
    prepared : IsReady p → IsSound p

  installed-IsReady : (p : Process W) → IsSound p → IsReady (install_crypto_provider lib p).1
  unfolding install_crypto_provider
  installed-IsReady p (untouched e c) = rw e (record {
    initialised = refl;
    rest = [];
    calls_of = ap (λ l. l ++ (installs_provider ∷ [])) c;
    builds_only = tt;
  })
  installed-IsReady p (prepared r) = simp r.initialised r

  first-IsReady :
      {A : Type 0} (m : Action Text (Process W) A)
      → Keeps Builds m
      → (p : Process W) → IsSound p
      → IsReady ((install_crypto_provider lib >> m) p).1
  unfolding ◌>>=◌
  first-IsReady m k p s =
      let (r, q) = install_crypto_provider lib p in
      Builds-IsReady q _ (continued r q) (installed-IsReady p s)
    where
      continued : (r : Result Text (Unit {0})) (q : Process W) → Builds q (continue r (λ _. m) q).1
      continued (ok _) q = k.at q
      continued (err _) q = pre.same q

  -- What a process does to its configurations, in any order.
  pub data Op : Type 0 where
    self_signed : Op
    from_pem : Bytes → Bytes → Op
    pinned : Cert → Op

  unfoldable pub perform : Op → Process W → Process W
  perform self_signed p = (self_signed_server_config lib p).1
  perform (from_pem cert key) p = (server_config_from_pem lib cert key p).1
  perform (pinned cert) p = (pinned_client_config lib cert p).1

  unfoldable pub perform_all : List Op → Process W → Process W
  perform_all [] p = p
  perform_all (op ∷ ops) p = perform_all ops (perform op p)

  -- The parts after the provider is installed.
  self_signed-IsReady : (p : Process W) → IsSound p → IsReady (self_signed_server_config lib p).1
  unfolding self_signed_server_config
  self_signed-IsReady p s =
      first-IsReady
        (do
          (cert, key_der) ← generated lib
          config ← build_server_config lib (cert ∷ []) (lib.pkcs8 key_der)
          pure (config, cert))
        (search (keeps_rules, pre, generated-Keeps, build-Keeps)) p s

  from_pem-IsReady :
      (cert key : Bytes) (p : Process W)
      → IsSound p
      → IsReady (server_config_from_pem lib cert key p).1
  unfolding server_config_from_pem
  from_pem-IsReady cert key p s =
      first-IsReady _ (search (keeps_rules, pre, build-Keeps) depth 9) p s

  pinned-IsReady :
      (cert : Cert) (p : Process W) → IsSound p → IsReady (pinned_client_config lib cert p).1
  unfolding pinned_client_config
  pinned-IsReady cert p s = first-IsReady _ (search (keeps_rules, pre, client_tls-Keeps)) p s

  perform-IsReady : (op : Op) (p : Process W) → IsSound p → IsReady (perform op p)
  unfolding perform
  perform-IsReady self_signed p s = self_signed-IsReady p s
  perform-IsReady (from_pem cert key) p s = from_pem-IsReady cert key p s
  perform-IsReady (pinned cert) p s = pinned-IsReady cert p s

  -- However many configurations a process makes, of whatever kind, in whatever order and with whatever
  -- failures, the crypto provider is installed exactly once, and before any builder that needs it.
  pub perform_all-IsReady :
      (op : Op) (ops : List Op) (w : W)
      → IsReady (perform_all (op ∷ ops) (record { world = w; crypto_init = false; calls = [] }))
  unfolding perform_all
  perform_all-IsReady op ops w =
      let p : Process W = record { world = w; crypto_init = false; calls = [] } in
      all_of ops (perform op p) (perform-IsReady op p (untouched refl refl))
    where
      all_of : (ops : List Op) (p : Process W) → IsReady p → IsReady (perform_all ops p)
      all_of [] p r = r
      all_of (op ∷ ops) p r = all_of ops (perform op p) (perform-IsReady op p (prepared r))
