-- ===== src/Server/Negotiate/Admitted.antt =====
-- Whom a negotiation lets in.
use tty_gateway.Base.{
  ℕ, ◌≡◌, ◌≢◌, ◌∙◌, sym, ap, arith, Bool, true, false, Option, none, some, List, ◌∷◌, Bytes, Text,
  decimal, ◌==◌, if◌then◌else◌,
}
use tty_gateway.Base.Results.{Result, ok, err}
use tty_gateway.Base.Action.{pure, ◌>>◌}
use tty_gateway.Base.Action.Succeeds.{bind-returns, bind-ok}
use tty_gateway.Proto.Frame.{
  ResumeToken, ClientFrame, hello, open_shell, input, resize, sign_response, ping, close, status,
  live, protocol_version,
}
use tty_gateway.Core.Registry.{id_of}
use tty_gateway.Quota.Hook.{Entitlement, Answer, allowed, denied}
use tty_gateway.Ssh.Client.{SshSession}
use tty_gateway.Server.Conn.{Conn, Env, ask_authorize, ask_session_open, recv, send}
use tty_gateway.Server.Signer.{open_for_auth}
use tty_gateway.Server.Negotiate.{
  Negotiated, refuse, greet, admit, announce, create_session, opened_session, open_frame,
  find_session, resumed_session, entitled, authorize, hello_frame, negotiate, Handler,
}

module _ {W Tx H C K P : Type 0} (env : Env W Tx H C K P) where
  -- What it lets in has this entitlement and account.
  Admits : Entitlement → Option Bytes → Handler env (Option Negotiated) → Type 0
  Admits e token h =
      (c : Conn W Tx) (n : Negotiated)
      → (h c).0 ≡ ok (some n)
      → (n.entitlement ≡ e) × (n.account_token ≡ token)

  refuse_none : (m : Text) (c : Conn W Tx) (n : Negotiated) → (refuse env m c).0 ≢ ok (some n)
  unfolding refuse pure
  refuse_none m c n e =
      let (_, _, e1) = bind-ok (send env _) (λ _. pure none) c (some n) e in
      absurd (ground (arith, e1))

  -- The greeting is of the very session.
  greeted :
      (n n' : Negotiated) (resumed : Bool) (c : Conn W Tx)
      → (greet env n resumed c).0 ≡ ok (some n')
      → n ≡ n'
  unfolding greet pure
  greeted n n' resumed c e =
      let (_, _, e1) =
        bind-ok (send env _) (λ _. send env (status live) >> pure (some n)) c (some n') e in
      let (_, _, e2) = bind-ok (send env (status live)) (λ _. pure (some n)) _ (some n') e1 in
      ground (arith, e2)

  admitted :
      (n n' : Negotiated) (answer : Answer (Unit {0})) (c : Conn W Tx)
      → (admit env n answer c).0 ≡ ok (some n')
      → n ≡ n'
  unfolding admit
  admitted n n' (allowed _) c e = greeted n n' false c e
  admitted n n' (denied d) c e = absurd (refuse_none _ _ n' e)

  announced :
      (name : Text) (n n' : Negotiated) (c : Conn W Tx)
      → (announce env name n c).0 ≡ ok (some n')
      → n ≡ n'
  unfolding announce
  announced name n n' c e =
      let asked =
        ask_session_open env n.account_token (decimal (id_of c.manager.heap n.session)) name c in
      admitted n n' asked.0 asked.1 e

  opened_session-Admits :
      (name : Text) (e : Entitlement) (token : Option Bytes) (ssh : Result Text (SshSession H C))
      → Admits e token (opened_session env name e token ssh)
  unfolding opened_session Admits
  opened_session-Admits name e token (err m) c n h = absurd (refuse_none _ c n h)
  opened_session-Admits name e token (ok ssh) c n h =
      let (session, c') = create_session env ssh c in
      let same =
        announced name (record { session = session; entitlement = e; account_token = token }) n c'
          h in
      (sym (ap (λ n. n.entitlement) same), sym (ap (λ n. n.account_token) same))

  open_frame-Admits :
      (name : Text) (e : Entitlement) (token : Option Bytes) (frame : ClientFrame)
      → Admits e token (open_frame env name e token frame)
  unfolding open_frame Admits
  open_frame-Admits name e token (open_shell target auth cols rows) c n h =
      let (ssh, c') = open_for_auth env target auth cols rows c in
      opened_session-Admits name e token ssh c' n h
  open_frame-Admits name e token (hello _ _ _ _) c n h = absurd (refuse_none _ c n h)
  open_frame-Admits name e token (input _) c n h = absurd (refuse_none _ c n h)
  open_frame-Admits name e token (resize _ _) c n h = absurd (refuse_none _ c n h)
  open_frame-Admits name e token (sign_response _ _) c n h = absurd (refuse_none _ c n h)
  open_frame-Admits name e token ping c n h = absurd (refuse_none _ c n h)
  open_frame-Admits name e token close c n h = absurd (refuse_none _ c n h)

  find_session-Admits :
      (name : Text) (e : Entitlement) (token : Option Bytes) (found : Option ℕ)
      → Admits e token (find_session env name e token found)
  unfolding find_session Admits
  find_session-Admits name e token (some s) c n h =
      let same =
        greeted (record { session = s; entitlement = e; account_token = token }) n true c h in
      (sym (ap (λ n. n.entitlement) same), sym (ap (λ n. n.account_token) same))
  find_session-Admits name e token none c n h =
      let (frame, _, run) = bind-returns (recv env) (open_frame env name e token) c (some n) h in
      open_frame-Admits name e token frame (recv env c).1 n (sym (ap (λ r. r.0) run) ∙ h)

  entitled-Admits :
      (name : Text) (resume_token : Option ResumeToken) (token : Option Bytes)
      (answer : Answer Entitlement) (c : Conn W Tx) (n : Negotiated)
      → (entitled env name resume_token token answer c).0 ≡ ok (some n)
      → (answer ≡ allowed n.entitlement) × (n.account_token ≡ token)
  unfolding entitled Admits
  entitled-Admits name resume_token token (denied d) c n h = absurd (refuse_none _ c n h)
  entitled-Admits name resume_token token (allowed e) c n h =
      let (same, account) =
        find_session-Admits name e token (resumed_session env c resume_token) c n h in
      (ap allowed (sym same), account)

  -- The `Hello` that the negotiation was opened with, and the answer to it.
  pub record LetIn (c : Conn W Tx) (n : Negotiated) : Type 0 where
    pub version : ℕ
    pub client_name : Text
    pub resume : Option ResumeToken
    pub rest : List ClientFrame
    pub came : c.inbox ≡ hello version client_name resume n.account_token ∷ rest
    pub authorized :
        (env.hook.authorize (env.wait c.world) client_name n.account_token).0
        ≡ allowed n.entitlement

  version-LetIn :
      (same : Bool) (name : Text) (resume_token : Option ResumeToken) (token : Option Bytes)
      (m : Text) (c : Conn W Tx) (n : Negotiated)
      → (if same then authorize env name resume_token token c else refuse env m c).0 ≡ ok (some n)
      → ((env.hook.authorize c.world name token).0 ≡ allowed n.entitlement)
        × (n.account_token ≡ token)
  unfolding authorize
  version-LetIn true name resume_token token m c n h =
      let asked = ask_authorize env name token c in
      entitled-Admits name resume_token token asked.0 asked.1 n h
  version-LetIn false name resume_token token m c n h = absurd (refuse_none m c n h)

  recv-inbox :
      (c : Conn W Tx) (frame : ClientFrame)
      → (recv env c).0 ≡ ok frame
      → (c.inbox ≡ frame ∷ (recv env c).1.inbox) × ((recv env c).1.world ≡ env.wait c.world)
  unfolding recv
  recv-inbox c frame h = ground arith

  hello_frame-LetIn :
      (frame : ClientFrame) (c d : Conn W Tx) (n : Negotiated)
      → c.inbox ≡ frame ∷ d.inbox
      → d.world ≡ env.wait c.world
      → (hello_frame env frame d).0 ≡ ok (some n)
      → LetIn c n
  unfolding hello_frame
  hello_frame-LetIn (hello version name resume_token token) c d n came waited h =
      let (answer, account) =
        version-LetIn (version == protocol_version) name resume_token token _ d n h in
      record {
        version = version;
        client_name = name;
        resume = resume_token;
        rest = d.inbox;
        came = rw account came;
        authorized =
            ap (λ a. (env.hook.authorize (env.wait c.world) name a).0) account
            ∙ ap (λ w. (env.hook.authorize w name token).0) (sym waited)
            ∙ answer;
      }
  hello_frame-LetIn (open_shell _ _ _ _) c d n came waited h = absurd (refuse_none _ d n h)
  hello_frame-LetIn (input _) c d n came waited h = absurd (refuse_none _ d n h)
  hello_frame-LetIn (resize _ _) c d n came waited h = absurd (refuse_none _ d n h)
  hello_frame-LetIn (sign_response _ _) c d n came waited h = absurd (refuse_none _ d n h)
  hello_frame-LetIn ping c d n came waited h = absurd (refuse_none _ d n h)
  hello_frame-LetIn close c d n came waited h = absurd (refuse_none _ d n h)

  pub negotiate-LetIn :
      (c : Conn W Tx) (n : Negotiated) → (negotiate env c).0 ≡ ok (some n) → LetIn c n
  unfolding negotiate
  negotiate-LetIn c n h =
      let (frame, got, run) = bind-returns (recv env) (hello_frame env) c (some n) h in
      let (came, waited) = recv-inbox c frame got in
      hello_frame-LetIn frame c (recv env c).1 n came waited (sym (ap (λ r. r.0) run) ∙ h)
