-- ===== src/Server/Main/Authorized.antt =====
-- Who lets the clients of a running gateway in.
use tty_gateway.Base.{
  ℕ, ◌≡◌, ◌≢◌, refl, ap, sym, ◌∙◌, Option, some, List, [], ◌∷◌, ◌++◌, Bytes, Text, codes, arith,
}
use tty_gateway.Base.Results.{Result, ok, err}
use tty_gateway.Base.Action.Succeeds.{ok_injective}
use tty_gateway.Quota.Hook.{AuthHook, Entitlement, allowed}
use tty_gateway.Transport.Tls.{Process, TlsLib}
use tty_gateway.Transport.Endpoint.{Quinn}
use tty_gateway.Server.Config.{Config, Host, load, authority}
use tty_gateway.Server.Config.Load.{authority-load}
use tty_gateway.Server.HttpHook.{Http, HttpAuthHook, authorize_request, lossy, new, post, http_hook}
use tty_gateway.Server.HttpHook.FailClosed.{Granted, authorize-Granted}
use tty_gateway.Server.Start.{Gateway, serve}
use tty_gateway.Server.Start.Accepts.{Serves, serve-Serves}
use tty_gateway.Proto.Frame.{ResumeToken, ClientFrame, hello}
use tty_gateway.Server.Conn.{Conn, Env}
use tty_gateway.Server.Negotiate.{Negotiated, negotiate}
use tty_gateway.Server.Negotiate.Admitted.{negotiate-LetIn}
use tty_gateway.Server.Main.{Running, config_path, auth_hook, serve_with, main}

module _ {W Resp Cert Key ServerTls ClientTls Roots SC CC Transport End Inc Con Snd Rcv : Type 0}
    (host : Host) (http : Http W Resp)
    (lib : TlsLib W Cert Key ServerTls ClientTls Roots SC CC Transport)
    (q : Quinn W SC CC End Inc Con Snd Rcv) where
  -- What a gateway that has come up was made of.
  pub record Started (rounds : ℕ) (argument : Option Text) (p : Process W)
      (r : Running W End Con Snd Rcv) : Type 0 where
    pub config : Config
    pub loaded : load host (config_path argument) ≡ ok config
    pub hook : r.hook ≡ auth_hook http (authority config)
    pub serves : Serves host lib q rounds config p r.gateway

  serve_with-Serves :
      (rounds : ℕ) (config : Config) (hook : AuthHook W) (p : Process W)
      (r : Running W End Con Snd Rcv) (s : Result Text (Gateway W End Con Snd Rcv))
      → serve host lib q rounds config p ≡ s
      → (elim s [ ok g ↦ ok (record { gateway = g; hook = hook }) | err e ↦ err e ]) ≡ ok r
      → (r.hook ≡ hook) × Serves host lib q rounds config p r.gateway
  serve_with-Serves rounds config hook p r (err e) h k = absurd (ground arith)
  serve_with-Serves rounds config hook p r (ok g) h k =
      let same = ok_injective _ _ _ _ k in
      (
        sym (ap (λ r. r.hook) same),
        serve-Serves host lib q rounds config p r.gateway (h ∙ ap (λ r. ok r.gateway) same),
      )

  loaded-Started :
      (rounds : ℕ) (argument : Option Text) (p : Process W) (r : Running W End Con Snd Rcv)
      (l : Result Text Config)
      → load host (config_path argument) ≡ l
      → (elim l [
        | ok config ↦ serve_with host http lib q rounds config (auth_hook http (authority config)) p
        | err e ↦ err e
      ])
        ≡ ok r
      → Started rounds argument p r
  unfolding serve_with
  loaded-Started rounds argument p r (err e) h k = absurd (ground arith)
  loaded-Started rounds argument p r (ok config) h k =
      let (hook, serves) = serve_with-Serves rounds config _ p r _ refl k in
      record { config = config; loaded = h; hook = hook; serves = serves }

  pub main-Started :
      (rounds : ℕ) (argument : Option Text) (p : Process W) (r : Running W End Con Snd Rcv)
      → main host http lib q rounds argument p ≡ ok r
      → Started rounds argument p r
  unfolding main
  main-Started rounds argument p r h = loaded-Started rounds argument p r _ refl h

  main-Granted :
      (rounds : ℕ) (argument : Option Text) (p : Process W) (r : Running W End Con Snd Rcv)
      (url key : Text) (w : W) (client_name : Text) (token : Option Bytes) (e : Entitlement)
      → host.var (codes "SHARK_CONTROL_PLANE_URL") ≡ some url
      → url ≢ []
      → host.var (codes "SHARK_GATEWAY_KEY") ≡ some key
      → key ≢ []
      → main host http lib q rounds argument p ≡ ok r
      → (r.hook.authorize w client_name token).0 ≡ allowed e
      → Granted http
          (new url (some key))
          (http.send
            ((new url (some key)).base ++ codes "/v1/authorize")
            (some key)
            (authorize_request client_name (lossy token))
            w)
          e
  unfolding auth_hook new post
  main-Granted rounds argument p r url key w client_name token e u nu k nk up allows =
      let s = main-Started rounds argument p r up in
      let by = authority-load host (config_path argument) url key s.config u nu k nk s.loaded in
      let hook : r.hook ≡ http_hook http (new url (some key)) = s.hook ∙ ap (auth_hook http) by in
      let plane : ((http_hook http (new url (some key))).authorize w client_name token).0
          ≡ allowed e =
        sym (ap (λ h. (h.authorize w client_name token).0) hook) ∙ allows in
      authorize-Granted http (new url (some key)) w client_name token e plane

-- A negotiation of the gateway that lets its client in: the `Hello` of the client, and the answer of the
-- control plane at that moment to the authorization request.
pub record LetIn {W Resp Tx H C K P : Type 0} (http : Http W Resp) (plane : HttpAuthHook)
    (env : Env W Tx H C K P) (c : Conn W Tx) (n : Negotiated) : Type 0 where
  pub version : ℕ
  pub client_name : Text
  pub resume : Option ResumeToken
  pub rest : List ClientFrame
  pub came : c.inbox ≡ hello version client_name resume n.account_token ∷ rest
  pub granted :
      Granted http plane
        (http.send
          (plane.base ++ codes "/v1/authorize")
          plane.key
          (authorize_request client_name (lossy n.account_token))
          (env.wait c.world))
        n.entitlement

module _
    {W Resp Cert Key ServerTls ClientTls Roots SC CC Transport End Inc Con Snd Rcv Tx H C K
      P : Type 0}
    (host : Host) (http : Http W Resp)
    (lib : TlsLib W Cert Key ServerTls ClientTls Roots SC CC Transport)
    (q : Quinn W SC CC End Inc Con Snd Rcv) where
  -- A gateway that comes up while the environment names a control plane and a key, and a connection
  -- whose negotiation uses the gateway's hook: if the negotiation lets the client in, then the
  -- client began with a Hello, and that control plane, asked with that key to authorize the client
  -- name and account of the Hello, answered with a readable success that says so. The entitlement of
  -- the connection is that of the answer. The configuration file may say anything.
  pub negotiate-main :
      (rounds : ℕ) (argument : Option Text) (p : Process W) (r : Running W End Con Snd Rcv)
      (url key : Text) (env : Env W Tx H C K P) (c : Conn W Tx) (n : Negotiated)
      → host.var (codes "SHARK_CONTROL_PLANE_URL") ≡ some url
      → url ≢ []
      → host.var (codes "SHARK_GATEWAY_KEY") ≡ some key
      → key ≢ []
      → main host http lib q rounds argument p ≡ ok r
      → env.hook ≡ r.hook
      → (negotiate env c).0 ≡ ok (some n)
      → LetIn http (new url (some key)) env c n
  unfolding new
  negotiate-main rounds argument p r url key env c n u nu k nk up hook lets_in =
      let v = negotiate-LetIn env c n lets_in in
      record {
        version = v.version;
        client_name = v.client_name;
        resume = v.resume;
        rest = v.rest;
        came = v.came;
        granted =
            main-Granted host http lib q rounds argument p r url key (env.wait c.world)
              v.client_name n.account_token n.entitlement u nu k nk up
              (ap (λ h. (h.authorize (env.wait c.world) v.client_name n.account_token).0) (sym hook)
                ∙ v.authorized);
      }
