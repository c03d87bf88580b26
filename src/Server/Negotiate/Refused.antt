-- ===== src/Server/Negotiate/Refused.antt =====
-- What a client that is refused leaves behind.
use tty_gateway.Base.{
  ℕ, ◌≡◌, ◌≢◌, ◌∙◌, refl, sym, ap, subst, arith, Bool, true, false, Option, none, some, Bytes, Text,
  decimal, ◌==◌, if◌then◌else◌, length,
}
use tty_gateway.Base.Results.{Result, ok, err}
use tty_gateway.Base.Action.{pure, ◌>>=◌, ◌>>◌}
use tty_gateway.Base.Action.Keeps.{IsPreorder, Keeps, keeps_rules}
use tty_gateway.Base.Action.Succeeds.{bind-returns, bind-ok}
use tty_gateway.Base.Map.{get, nat_eq, bytes_eq}
use tty_gateway.Proto.Frame.{
  protocol_version, ResumeToken, ClientFrame, hello, open_shell, input, resize, sign_response, ping,
  close, status, live,
}
use tty_gateway.Core.Registry.{SessionManager, remove, create, id_of}
use tty_gateway.Core.Registry.Calm.{Calm, Calm-IsPreorder, remove-create}
use tty_gateway.Quota.Hook.{Entitlement, denied_text, Answer, allowed, denied}
use tty_gateway.Ssh.Client.{SshSession}
use tty_gateway.Server.Conn.{authorized, opened, Conn, Env, await, note, recv, send}
use tty_gateway.Server.Wait.{
  Across, Across-IsPreorder, await-Across, send-Keeps, recv-Keeps, open_for_auth-Across,
}
use tty_gateway.Server.Signer.{open_for_auth}
use tty_gateway.Server.Negotiate.{
  Negotiated, refuse, greet, admit, announce, create_session, opened_session, open_frame,
  find_session, resumed_session, entitled, authorize, hello_frame, negotiate, Handler,
}

-- While this connection waits, no other one creates or removes a session.
pub record IsCalm {W Tx H C K P : Type 0} (env : Env W Tx H C K P) : Type 0 where
  pub others : (w : W) (m : SessionManager Tx) → Calm m (env.others w m)

module _ {W Tx H C K P : Type 0} (env : Env W Tx H C K P) where
  -- `uuid` and `rand` make ids and tokens that are not in use.
  pub record IsFresh (m : SessionManager Tx) : Type 0 where
    pub ids : (w : W) → get m.by_id (env.new_session_id w).0 ≡ none
    pub tokens : (w : W) → get m.by_token (env.new_resume_token w).0 ≡ none

  Calm-IsFresh : (m k : SessionManager Tx) → Calm m k → IsFresh m → IsFresh k
  Calm-IsFresh m k calm v = record {
    ids = λ w. ap (λ r. get r.by_id (env.new_session_id w).0) calm.same_registry ∙ v.ids w;
    tokens =
        λ w. ap (λ r. get r.by_token (env.new_resume_token w).0) calm.same_registry ∙ v.tokens w;
  }

  -- A handler that, when it refuses, leaves the registry as it was.
  record Undoes (h : Handler env (Option Negotiated)) : Type 0 where
    at :
        (c : Conn W Tx)
        → IsFresh c.manager
        → (h c).0 ≡ ok none
        → (h c).1.manager.inner ≡ c.manager.inner

  after-Undoes :
      (h : Handler env (Option Negotiated)) (b c : Conn W Tx)
      → Calm b.manager c.manager
      → Undoes h
      → IsFresh b.manager
      → (h c).0 ≡ ok none
      → (h c).1.manager.inner ≡ b.manager.inner
  after-Undoes h b c calm u v e =
      u.at c (Calm-IsFresh b.manager c.manager calm v) e ∙ calm.same_registry

  module _ (calm : IsCalm env) where
    pub pre : IsPreorder (Across {W = W} (Calm {Tx = Tx}))
    pre = Across-IsPreorder env Calm Calm-IsPreorder calm.others

    pub sends : (frame : _) → Keeps (Across {W = W} Calm) (send env frame)
    sends = send-Keeps env Calm Calm-IsPreorder calm.others

    pub refuse-Keeps : (m : Text) → Keeps (Across {W = W} Calm) (refuse env m)
    unfolding refuse
    refuse-Keeps m = search (keeps_rules, pre, sends)

    Calm-Undoes : (h : Handler env (Option Negotiated)) → Keeps (Across {W = W} Calm) h → Undoes h
    Calm-Undoes h k = record { at = λ c v e. (k.at c).same_registry }

    refuse-Undoes : (m : Text) → Undoes (refuse env m)
    refuse-Undoes m = Calm-Undoes (refuse env m) (refuse-Keeps m)

    -- A client that is greeted is not refused.
    greet_some :
        (n : Negotiated) (resumed : Bool) (c : Conn W Tx) → (greet env n resumed c).0 ≢ ok none
    unfolding greet pure
    greet_some n resumed c e =
        let (_, _, e1) =
          bind-ok (send env _) (λ _. send env (status live) >> pure (some n)) c none e in
        let (_, _, e2) = bind-ok (send env (status live)) (λ _. pure (some n)) _ none e1 in
        absurd (ground (arith, e2))

    greet-Undoes : (n : Negotiated) (resumed : Bool) → Undoes (greet env n resumed)
    greet-Undoes n resumed = record { at = λ c v e. absurd (greet_some n resumed c e) }

    -- A session that was created, up to the answer of `session_open`.
    module _ (m : SessionManager Tx) (id : ℕ) (token : Bytes) (ssh : _)
        (new_id : get m.by_id id ≡ none) (new_token : get m.by_token token ≡ none) where
      admit-inner :
          (n : Negotiated) (answer : Answer (Unit {0})) (c : Conn W Tx)
          → n.session ≡ length m.heap
          → Calm (create m id token ssh).0 c.manager
          → (admit env n answer c).0 ≡ ok none
          → (admit env n answer c).1.manager.inner ≡ m.inner
      unfolding admit
      admit-inner n (allowed _) c at k e = absurd (greet_some n false c e)
      admit-inner n (denied d) c at k e =
          ((refuse-Keeps (denied_text d)).at (record c {
            manager = remove c.manager (id_of c.manager.heap n.session);
          })).same_registry
          ∙ ap (λ s. (remove c.manager (id_of c.manager.heap s)).inner) at
          ∙ remove-create m id token ssh c.manager new_id new_token k

      announce-inner :
          (name : Text) (n : Negotiated) (c : Conn W Tx)
          → n.session ≡ length m.heap
          → c.manager ≡ (create m id token ssh).0
          → (announce env name n c).0 ≡ ok none
          → (announce env name n c).1.manager.inner ≡ m.inner
      unfolding announce
      announce-inner name n c at made e =
          let op : W → Answer (Unit {0}) × W = λ w.
            env.hook.session_open w n.account_token (decimal (id_of c.manager.heap n.session))
              name in
          let (answer, c') =
            await env (Answer (Unit {0})) op
              (note (opened n.account_token (decimal (id_of c.manager.heap n.session)) name) c) in
          admit-inner n answer c' at
            (subst (λ k. Calm k c'.manager) made
              (await-Across env Calm Calm-IsPreorder calm.others (Answer (Unit {0})) op
                (note (opened n.account_token (decimal (id_of c.manager.heap n.session)) name) c)))
            e

    opened_session-Undoes :
        (name : Text) (t : Entitlement) (token : Option Bytes) (ssh : Result Text (SshSession H C))
        → Undoes (opened_session env name t token ssh)
    unfolding opened_session create_session create
    opened_session-Undoes name t token (err m) = record { at = (refuse-Undoes _).at }
    opened_session-Undoes name t token (ok ssh) = record {
      at = λ c v e. announce-inner c.manager _ _ _ (v.ids _) (v.tokens _) name _ _ refl refl e;
    }

    open_frame-Undoes :
        (name : Text) (t : Entitlement) (token : Option Bytes) (frame : ClientFrame)
        → Undoes (open_frame env name t token frame)
    unfolding open_frame
    open_frame-Undoes name t token (open_shell target auth cols rows) = record {
      at = λ c v e.
          let (ssh, c') = open_for_auth env target auth cols rows c in
          after-Undoes (opened_session env name t token ssh) c c'
            (open_for_auth-Across env Calm Calm-IsPreorder calm.others target auth cols rows c)
            (opened_session-Undoes name t token ssh) v e;
    }
    open_frame-Undoes name t token (hello _ _ _ _) = record { at = (refuse-Undoes _).at }
    open_frame-Undoes name t token (input _) = record { at = (refuse-Undoes _).at }
    open_frame-Undoes name t token (resize _ _) = record { at = (refuse-Undoes _).at }
    open_frame-Undoes name t token (sign_response _ _) = record { at = (refuse-Undoes _).at }
    open_frame-Undoes name t token ping = record { at = (refuse-Undoes _).at }
    open_frame-Undoes name t token close = record { at = (refuse-Undoes _).at }

    recv-Undoes :
        (h : ClientFrame → Handler env (Option Negotiated))
        → ((frame : ClientFrame) → Undoes (h frame))
        → Undoes (recv env >>= h)
    recv-Undoes h u = record {
      at = λ c v e.
          let (frame, _, run) = bind-returns (recv env) h c none e in
          ap (λ r. r.1.manager.inner) run
          ∙ after-Undoes (h frame) c (recv env c).1
              ((recv-Keeps env Calm Calm-IsPreorder calm.others).at c) (u frame) v
              (sym (ap (λ r. r.0) run) ∙ e);
    }

    find_session-Undoes :
        (name : Text) (t : Entitlement) (token : Option Bytes) (found : Option ℕ)
        → Undoes (find_session env name t token found)
    unfolding find_session
    find_session-Undoes name t token (some session) = record { at = (greet-Undoes _ true).at }
    find_session-Undoes name t token none = record {
      at = (recv-Undoes (open_frame env name t token) (open_frame-Undoes name t token)).at;
    }

    entitled-Undoes :
        (name : Text) (resume_token : Option ResumeToken) (token : Option Bytes)
        → (answer : Answer Entitlement) → Undoes (entitled env name resume_token token answer)
    unfolding entitled
    entitled-Undoes name resume_token token (denied d) = record { at = (refuse-Undoes _).at }
    entitled-Undoes name resume_token token (allowed t) = record {
      at = λ c. (find_session-Undoes name t token (resumed_session env c resume_token)).at c;
    }

    authorize-Undoes :
        (name : Text) (resume_token : Option ResumeToken) (token : Option Bytes)
        → Undoes (authorize env name resume_token token)
    unfolding authorize
    authorize-Undoes name resume_token token = record {
      at = λ c v e.
          let op : W → Answer Entitlement × W = λ w. env.hook.authorize w name token in
          let (answer, c') = await env (Answer Entitlement) op (note (authorized name token) c) in
          after-Undoes (entitled env name resume_token token answer) c c'
            (await-Across env Calm Calm-IsPreorder calm.others (Answer Entitlement) op
              (note (authorized name token) c))
            (entitled-Undoes name resume_token token answer) v e;
    }

    version-Undoes :
        (same : Bool) (name : Text) (resume_token : Option ResumeToken) (token : Option Bytes)
        (m : Text)
        → Undoes (λ c. if same then authorize env name resume_token token c else refuse env m c)
    version-Undoes true name resume_token token m = record {
      at = (authorize-Undoes name resume_token token).at;
    }
    version-Undoes false name resume_token token m = record { at = (refuse-Undoes m).at }

    hello_frame-Undoes : (frame : ClientFrame) → Undoes (hello_frame env frame)
    unfolding hello_frame
    hello_frame-Undoes (hello version name resume_token token) = record {
      at = (version-Undoes (version == protocol_version) name resume_token token _).at;
    }
    hello_frame-Undoes (open_shell _ _ _ _) = record { at = (refuse-Undoes _).at }
    hello_frame-Undoes (input _) = record { at = (refuse-Undoes _).at }
    hello_frame-Undoes (resize _ _) = record { at = (refuse-Undoes _).at }
    hello_frame-Undoes (sign_response _ _) = record { at = (refuse-Undoes _).at }
    hello_frame-Undoes ping = record { at = (refuse-Undoes _).at }
    hello_frame-Undoes close = record { at = (refuse-Undoes _).at }

    -- A client that is refused, at whatever point, leaves the registry of sessions as it was: a session
    -- that was created before `session_open` was denied is gone from both maps, by its id and by its
    -- token, when the ids and tokens that are made are new and no other connection creates or removes a
    -- session meanwhile.
    pub inner-negotiate :
        (c : Conn W Tx)
        → IsFresh c.manager
        → (negotiate env c).0 ≡ ok none
        → (negotiate env c).1.manager.inner ≡ c.manager.inner
    unfolding negotiate
    inner-negotiate = (recv-Undoes (hello_frame env) hello_frame-Undoes).at
