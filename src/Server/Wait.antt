-- ===== src/Server/Wait.antt =====
-- What every wait of a connection leaves true of the session manager, for a relation that what the
-- others do meanwhile keeps to.
use tty_gateway.Base.{ℕ, ◌≡◌, sym, subst, Option, Bytes, Text, arith}
use tty_gateway.Base.Results.{Result, ok, err}
use tty_gateway.Base.Utf8.{from_utf8}
use tty_gateway.Base.Action.{◌>>=◌}
use tty_gateway.Base.Action.Keeps.{IsPreorder, Keeps, Keeps-bind}
use tty_gateway.Proto.Frame.{
  TargetSpec, AuthIntent, delegated_key, password, private_key, gateway_key, ServerFrame,
  sign_request,
}
use tty_gateway.Core.Registry.{SessionManager}
use tty_gateway.Ssh.Client.{Auth}
use tty_gateway.Ssh.Open.{open_with}
use tty_gateway.Ssh.Steady.{IsSteady, open_with-Keeps, open_delegated-Keeps}
use tty_gateway.Server.Conn.{dialed, Conn, Env, await, note, recv, send}
use tty_gateway.Server.Signer.{
  Signing, sign, receive_signature, on_conn, on_signing, ssh_target, delegated, open_for_auth,
}

module _ {W Tx : Type 0} (R : SessionManager Tx → SessionManager Tx → Type 0) where
  abbrev pub Across : Conn W Tx → Conn W Tx → Type 0
  Across c d = R c.manager d.manager

module _ {W Tx H C K P : Type 0} (env : Env W Tx H C K P)
    (R : SessionManager Tx → SessionManager Tx → Type 0) (pre : IsPreorder R)
    (others : (w : W) (m : SessionManager Tx) → R m (env.others w m)) where
  pub Across-IsPreorder : IsPreorder (Across {W = W} R)
  Across-IsPreorder = record {
    same = λ c. pre.same c.manager;
    trans = λ c d e p q. pre.trans c.manager d.manager e.manager p q;
  }

  pub await-Across : (A : Type 0) (op : W → A × W) (c : Conn W Tx) → Across R c (await env A op c).1
  await-Across A op c = others (op c.world).1 c.manager

  pub send-Keeps : (frame : ServerFrame) → Keeps (Across R) (send env frame)
  unfolding send
  send-Keeps frame = record { at = λ c. others (env.send frame c.world).1 c.manager }

  recv-manager : (c : Conn W Tx) → (recv env c).1.manager ≡ env.others (env.wait c.world) c.manager
  unfolding recv
  recv-manager c = ground arith

  pub recv-Keeps : Keeps (Across R) (recv env)
  recv-Keeps = record {
    at = λ c. subst (R c.manager) (sym (recv-manager c)) (others (env.wait c.world) c.manager);
  }

  on_conn-IsSteady : IsSteady (Across R) (on_conn env)
  on_conn-IsSteady = record {
    connects = λ host port check cell c. others _ c.manager;
    by_password = λ h user secret. record { at = λ c. others _ c.manager };
    by_key = λ h user key. record { at = λ c. others _ c.manager };
    by_signer = λ h user key c. others _ c.manager;
    opens = λ h. record { at = λ c. others _ c.manager };
    ptys = λ ch term cols rows. record { at = λ c. others _ c.manager };
    shells = λ ch. record { at = λ c. others _ c.manager };
  }

  abbrev SigningAcross : Signing env → Signing env → Type 0
  SigningAcross s t = Across R s.conn t.conn

  SigningAcross-IsPreorder : IsPreorder SigningAcross
  SigningAcross-IsPreorder = record {
    same = λ s. pre.same s.conn.manager;
    trans = λ s t u p q. pre.trans s.conn.manager t.conn.manager u.conn.manager p q;
  }

  on_signing-IsSteady : IsSteady SigningAcross (on_signing env)
  on_signing-IsSteady = record {
    connects = λ host port check cell s. others _ s.conn.manager;
    by_password = λ h user secret. record { at = λ s. others _ s.conn.manager };
    by_key = λ h user key. record { at = λ s. others _ s.conn.manager };
    by_signer = λ h user key s. others _ s.conn.manager;
    opens = λ h. record { at = λ s. others _ s.conn.manager };
    ptys = λ ch term cols rows. record { at = λ s. others _ s.conn.manager };
    shells = λ ch. record { at = λ s. others _ s.conn.manager };
  }

  receive_signature-Keeps : (id : ℕ) → Keeps (Across R) (receive_signature env id)
  unfolding receive_signature
  receive_signature-Keeps id = record { at = λ c. others (env.wait c.world) c.manager }

  sign-Keeps :
      (key : Text) (alg : Option Text) (bytes : Bytes)
      → Keeps SigningAcross (sign env key alg bytes)
  unfolding sign
  sign-Keeps key alg bytes = record {
    at = λ s.
        (Keeps-bind (send env (sign_request s.next_id key bytes))
            (λ _. receive_signature env s.next_id) Across-IsPreorder
            (send-Keeps (sign_request s.next_id key bytes))
            (λ _. receive_signature-Keeps s.next_id)).at
          s.conn;
  }

  delegated-Across :
      (target : TargetSpec) (key : Result (Unit {0}) Text) (cols rows : ℕ) (c : Conn W Tx)
      → Across R c (delegated env target key cols rows c).1
  unfolding delegated
  delegated-Across target (err _) cols rows c = unfold ◌>>=◌ in pre.same c.manager
  delegated-Across target (ok openssh) cols rows c =
      (open_delegated-Keeps SigningAcross SigningAcross-IsPreorder (on_signing env)
          on_signing-IsSteady (sign env) sign-Keeps (ssh_target env target) openssh cols rows).at
        (record { conn = note (dialed (ssh_target env target)) c; next_id = 1 })

  open_with-Across :
      (target : TargetSpec) (auth : Auth) (cols rows : ℕ) (c : Conn W Tx)
      → Across R c
          (open_with
            (on_conn env)
            (ssh_target env target)
            auth
            cols
            rows
            (note (dialed (ssh_target env target)) c)).1
  open_with-Across target auth cols rows c =
      (open_with-Keeps (Across R) Across-IsPreorder (on_conn env) on_conn-IsSteady
          (ssh_target env target) auth cols rows).at
        (note (dialed (ssh_target env target)) c)

  pub open_for_auth-Across :
      (target : TargetSpec) (auth : AuthIntent) (cols rows : ℕ) (c : Conn W Tx)
      → Across R c (open_for_auth env target auth cols rows c).1
  unfolding open_for_auth
  open_for_auth-Across target (password secret) cols rows c =
      open_with-Across target (Auth.password secret) cols rows c
  open_for_auth-Across target (private_key pem passphrase) cols rows c =
      open_with-Across target (Auth.private_key pem passphrase) cols rows c
  open_for_auth-Across target (delegated_key key) cols rows c =
      delegated-Across target (from_utf8 key) cols rows c
  open_for_auth-Across target (gateway_key id) cols rows c = unfold ◌>>=◌ in pre.same c.manager
