-- ===== src/Server/Negotiate/Protocol.antt =====
-- The order in which a negotiation asks the hook, dials the target and answers the client.
use tty_gateway.Base.{
  ℕ, ◌≡◌, refl, sym, subst, ◌∙◌, Bool, true, false, Option, none, some, List, [], ◌∷◌, ◌++◌, Bytes,
  Text, append-nil, ◌==◌, if◌then◌else◌, decimal,
}
use tty_gateway.Base.Results.{Result, ok, err}
use tty_gateway.Base.Action.{pure, continue, ◌>>=◌, ◌>>◌}
use tty_gateway.Proto.Frame.{
  protocol_version, ResumeToken, ClientFrame, hello, open_shell, input, resize, sign_response, ping,
  close, status, live, error,
}
use tty_gateway.Core.Registry.{id_of, token_of, remove}
use tty_gateway.Quota.Hook.{Entitlement, denied_text, Answer, allowed, denied}
use tty_gateway.Ssh.Client.{SshSession}
use tty_gateway.Server.Conn.{Event, sent, authorized, opened, Conn, Env, await, note, recv, send}
use tty_gateway.Server.Conn.Says.{Says, Settles, Settles-after, Settles-send, recv-log}
use tty_gateway.Server.Signer.{open_for_auth}
use tty_gateway.Server.Negotiate.{
  Negotiated, Handler, refuse, greet, admit, announce, create_session, opened_session, open_frame,
  find_session, resumed_session, entitled, authorize, hello_frame, negotiate,
}
use tty_gateway.Server.Negotiate.Conversation.{
  greeting, Conversation, rejected, failed, over_quota, reattached, established,
}
use tty_gateway.Server.Negotiate.Login.{open_for_auth-LogsIn}

module _ {W Tx H C K P : Type 0} (env : Env W Tx H C K P) where
  abbrev SaysOf :
      (Option Negotiated → List Event → Type 0)
      → Conn W Tx
      → Handler env (Option Negotiated)
      → Type 0
  SaysOf Q c f = Settles Q c (f c).0 (f c).1

  refuse-settles :
      (Q : Option Negotiated → List Event → Type 0) (m : Text) (c : Conn W Tx)
      → Q none (sent (error m) ∷ [])
      → SaysOf Q c (refuse env m)
  unfolding refuse Settles pure
  refuse-settles Q m c q =
      Settles-send env (error m) Q c (pure none)
        (λ d. record { said = []; logged = sym (append-nil d.log); fits = q })

  greet-settles :
      (Q : Option Negotiated → List Event → Type 0) (n : Negotiated) (resumed : Bool)
      (c : Conn W Tx)
      → ((id : ℕ) (token : Bytes) → Q (some n) (greeting id resumed token))
      → SaysOf Q c (greet env n resumed)
  unfolding greet Settles pure
  greet-settles Q n resumed c q =
      Settles-send env _ Q c (send env (status live) >> pure (some n)) (λ d.
        Settles-send env (status live) _ d (pure (some n)) (λ d. record {
          said = [];
          logged = sym (append-nil d.log);
          fits = q (id_of c.manager.heap n.session) (token_of c.manager.heap n.session);
        }))

  -- The log is that of `b`, and events before it come first.
  after :
      (Q : Option Negotiated → List Event → Type 0) (before : List Event) (b c : Conn W Tx)
      → c.log ≡ b.log ++ before
      → (f : Handler env (Option Negotiated)) → SaysOf (λ r said. Q r (before ++ said)) c f
      → Settles Q b (f c).0 (f c).1
  after Q before b c e f h = Settles-after Q before b c e (f c).0 (f c).1 h

  admit-settles :
      (Q : Option Negotiated → List Event → Type 0) (n : Negotiated) (answer : Answer (Unit {0}))
      → (c : Conn W Tx) → ((m : Text) → Q none (sent (error m) ∷ []))
      → ((id : ℕ) (token : Bytes) → Q (some n) (greeting id false token))
      → SaysOf Q c (admit env n answer)
  unfolding admit
  admit-settles Q n (allowed _) c refuses greets = greet-settles Q n false c greets
  admit-settles Q n (denied d) c refuses greets =
      let c' = record c { manager = remove c.manager (id_of c.manager.heap n.session) } in
      after Q [] c c' (sym (append-nil c.log)) (refuse env (denied_text d))
        (refuse-settles Q (denied_text d) c' (refuses (denied_text d)))

  announce-settles :
      (Q : Option Negotiated → List Event → Type 0) (name : Text) (n : Negotiated) (c : Conn W Tx)
      → ((id m : Text) → Q none (opened n.account_token id name ∷ sent (error m) ∷ []))
      → ((asked : Text) (id : ℕ) (token : Bytes)
          → Q (some n) (opened n.account_token asked name ∷ greeting id false token))
      → SaysOf Q c (announce env name n)
  unfolding announce
  announce-settles Q name n c refuses greets =
      let id = decimal (id_of c.manager.heap n.session) in
      let (answer, c') =
        await env (Answer (Unit {0})) (λ w. env.hook.session_open w n.account_token id name)
          (note (opened n.account_token id name) c) in
      after Q (opened n.account_token id name ∷ []) c c' refl (admit env n answer) (
        admit-settles (λ r said. Q r (opened n.account_token id name ∷ said)) n answer c'
          (refuses id) (greets id))

  opened_session-settles :
      (Q : Option Negotiated → List Event → Type 0) (name : Text) (e : Entitlement)
      → (token : Option Bytes) (ssh : Result Text (SshSession H C)) (c : Conn W Tx)
      → ((m : Text) → Q none (sent (error m) ∷ []))
      → ((id m : Text) → Q none (opened token id name ∷ sent (error m) ∷ []))
      → ((session : ℕ) (asked : Text) (id : ℕ) (t : Bytes)
          → Q
              (some (record { session = session; entitlement = e; account_token = token }))
              (opened token asked name ∷ greeting id false t))
      → SaysOf Q c (opened_session env name e token ssh)
  unfolding opened_session create_session
  opened_session-settles Q name e token (err m) c refuses over greets =
      refuse-settles Q _ c (refuses _)
  opened_session-settles Q name e token (ok ssh) c refuses over greets =
      let (session, c') = create_session env ssh c in
      let n : Negotiated = record { session = session; entitlement = e; account_token = token } in
      after Q [] c c' (sym (append-nil c.log)) (announce env name n)
        (announce-settles Q name n c' over (greets session))

  -- The frames that follow an authorization.
  abbrev Authorized : Text → Option Bytes → Option Negotiated → List Event → Type 0
  Authorized name account r said = Conversation r (authorized name account ∷ said)

  open_frame-settles :
      (name : Text) (e : Entitlement) (token : Option Bytes) (frame : ClientFrame) (c : Conn W Tx)
      → SaysOf (Authorized name token) c (open_frame env name e token frame)
  unfolding open_frame
  open_frame-settles name e token (open_shell target auth cols rows) c =
      let login = open_for_auth-LogsIn env target auth cols rows c in
      let (ssh, c') = open_for_auth env target auth cols rows c in
      after (Authorized name token) login.login c c' login.logged
        (opened_session env name e token ssh)
        (opened_session-settles _ name e token ssh c'
          (λ m. failed name token login.login m login.only)
          (λ id m. over_quota name token login.login id m login.only)
          (λ session asked id t. established name _ asked id t login.login login.only))
  open_frame-settles name e token (hello _ _ _ _) c =
      refuse-settles (Authorized name token) _ c (failed name token [] _ tt)
  open_frame-settles name e token (input _) c =
      refuse-settles (Authorized name token) _ c (failed name token [] _ tt)
  open_frame-settles name e token (resize _ _) c =
      refuse-settles (Authorized name token) _ c (failed name token [] _ tt)
  open_frame-settles name e token (sign_response _ _) c =
      refuse-settles (Authorized name token) _ c (failed name token [] _ tt)
  open_frame-settles name e token ping c =
      refuse-settles (Authorized name token) _ c (failed name token [] _ tt)
  open_frame-settles name e token close c =
      refuse-settles (Authorized name token) _ c (failed name token [] _ tt)

  received-settles :
      (Q : Option Negotiated → List Event → Type 0) (c d : Conn W Tx)
      → d.log ≡ c.log
      → (frame : Result Text ClientFrame) (next : ClientFrame → Handler env (Option Negotiated))
      → ((f : ClientFrame) → SaysOf Q d (next f))
      → Settles Q c (continue frame next d).0 (continue frame next d).1
  unfolding Settles
  received-settles Q c d e (err _) next k = tt
  received-settles Q c d e (ok f) next k =
      after Q [] c d (e ∙ sym (append-nil c.log)) (next f) (k f)

  recv-settles :
      (Q : Option Negotiated → List Event → Type 0) (c : Conn W Tx)
      → (next : ClientFrame → Handler env (Option Negotiated))
      → ((f : ClientFrame) (d : Conn W Tx) → SaysOf Q d (next f))
      → SaysOf Q c (recv env >>= next)
  unfolding ◌>>=◌
  recv-settles Q c next k =
      received-settles Q c (recv env c).1 (recv-log env c) (recv env c).0 next
        (λ f. k f (recv env c).1)

  find_session-settles :
      (name : Text) (e : Entitlement) (token : Option Bytes) (found : Option ℕ) (c : Conn W Tx)
      → SaysOf (Authorized name token) c (find_session env name e token found)
  unfolding find_session
  find_session-settles name e token (some session) c =
      greet-settles (Authorized name token) _ true c (λ id t. reattached name _ id t)
  find_session-settles name e token none c =
      recv-settles (Authorized name token) c (open_frame env name e token)
        (λ f d. open_frame-settles name e token f d)

  entitled-settles :
      (name : Text) (resume_token : Option ResumeToken) (token : Option Bytes)
      → (answer : Answer Entitlement) (c : Conn W Tx)
      → SaysOf (Authorized name token) c (entitled env name resume_token token answer)
  unfolding entitled
  entitled-settles name resume_token token (denied d) c =
      refuse-settles (Authorized name token) _ c (failed name token [] _ tt)
  entitled-settles name resume_token token (allowed e) c =
      find_session-settles name e token (resumed_session env c resume_token) c

  authorize-settles :
      (name : Text) (resume_token : Option ResumeToken) (token : Option Bytes) (c : Conn W Tx)
      → SaysOf Conversation c (authorize env name resume_token token)
  unfolding authorize
  authorize-settles name resume_token token c =
      let (answer, c') =
        await env (Answer Entitlement) (λ w. env.hook.authorize w name token)
          (note (authorized name token) c) in
      after Conversation (authorized name token ∷ []) c c' refl
        (entitled env name resume_token token answer)
        (entitled-settles name resume_token token answer c')

  version-settles :
      (same : Bool) (name : Text) (resume_token : Option ResumeToken) (token : Option Bytes)
      → (m : Text) (c : Conn W Tx)
      → Settles Conversation c
          (if same then authorize env name resume_token token c else refuse env m c).0
          (if same then authorize env name resume_token token c else refuse env m c).1
  version-settles true name resume_token token m c = authorize-settles name resume_token token c
  version-settles false name resume_token token m c = refuse-settles Conversation m c (rejected m)

  hello_frame-settles :
      (frame : ClientFrame) (c : Conn W Tx) → SaysOf Conversation c (hello_frame env frame)
  unfolding hello_frame
  hello_frame-settles (hello version name resume_token token) c =
      version-settles (version == protocol_version) name resume_token token _ c
  hello_frame-settles (open_shell _ _ _ _) c = refuse-settles Conversation _ c (rejected _)
  hello_frame-settles (input _) c = refuse-settles Conversation _ c (rejected _)
  hello_frame-settles (resize _ _) c = refuse-settles Conversation _ c (rejected _)
  hello_frame-settles (sign_response _ _) c = refuse-settles Conversation _ c (rejected _)
  hello_frame-settles ping c = refuse-settles Conversation _ c (rejected _)
  hello_frame-settles close c = refuse-settles Conversation _ c (rejected _)

  -- A negotiation that ends with a result, for any client, hook, target and interleaving with the
  -- other connections, has added one of the sequences of `Conversation` to the log: the hook is asked
  -- to authorize before the target is dialed or a session goes live, `session_open` is asked only
  -- after the login and never on a resume, for the client and account that were authorized, a session
  -- goes live for that account by `Hello` and `Status` as the last two frames, and without a session
  -- the last event is the one error frame.
  pub negotiate-Conversation :
      (c d : Conn W Tx) (r : Option Negotiated)
      → negotiate env c ≡ (ok r, d)
      → Says Conversation c r d
  unfolding negotiate Settles
  negotiate-Conversation c d r e =
      subst (λ p. Settles Conversation c p.0 p.1) e
        (recv-settles Conversation c (hello_frame env) (λ f b. hello_frame-settles f b))
