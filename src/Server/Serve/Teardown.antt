-- ===== src/Server/Serve/Teardown.antt =====
-- How serving a connection ends.
use tty_gateway.Base.{
  ℕ, ◌≡◌, refl, ◌⊎◌, inl, inr, Bool, true, false, none, [], ◌∷◌, ◌++◌, decimal, arith, append_assoc,
}
use tty_gateway.Base.Map.{Map, get, nat_eq, remove as erase, get-remove}
use tty_gateway.Core.Registry.{id_of, is_closed, remove}
use tty_gateway.Quota.Float.{Float}
use tty_gateway.Quota.Meter.{UsageMeter, totals}
use tty_gateway.Server.Conn.{closed, reported, Conn, Env}
use tty_gateway.Server.Negotiate.{Negotiated}
use tty_gateway.Server.Serve.{Outcome, client_detached, client_closed, tear_down, report, finish}

get-removed : (m : Map ℕ ℕ) (k : ℕ) → get (erase m k) k ≡ none
get-removed m k = ground (arith, get-remove m k k)

module _ {W Tx H C K P : Type 0} (f : Float) (now : W → ℕ) (env : Env W Tx H C K P) where
  -- The session is kept: the usage was reported and nothing else was done.
  pub record Held (n : Negotiated) (m : UsageMeter) (o : Outcome) (c d : Conn W Tx) : Type 0 where
    pub logged :
        d.log
        ≡ c.log
          ++ (reported n.account_token
                (decimal (id_of c.manager.heap n.session))
                (totals m).0
                (totals m).1
              ∷ [])
    pub dropped : o ≡ client_detached
    pub open_still : is_closed d.manager n.session ≡ false

  -- The session is gone, because the client asked for it or the shell had ended by when the usage was
  -- reported: the usage was reported, then its end, and its id leads nowhere.
  pub record TornDown (n : Negotiated) (m : UsageMeter) (o : Outcome) (c d : Conn W Tx)
      : Type 0 where
    pub logged :
        d.log
        ≡ c.log
          ++ (reported n.account_token
                (decimal (id_of c.manager.heap n.session))
                (totals m).0
                (totals m).1
              ∷ closed n.account_token (decimal (id_of c.manager.heap n.session))
              ∷ [])
    pub reason :
        (o ≡ client_closed)
        ⊎ (is_closed (report f now env n (id_of c.manager.heap n.session) m c).manager n.session
            ≡ true)
    pub removed : get d.manager.by_id (id_of c.manager.heap n.session) ≡ none

  torn_down :
      (n : Negotiated) (m : UsageMeter) (o : Outcome) (c : Conn W Tx)
      → (o ≡ client_closed)
        ⊎ (is_closed (report f now env n (id_of c.manager.heap n.session) m c).manager n.session
            ≡ true)
      → (let id = id_of c.manager.heap n.session in
          TornDown n m o c (tear_down f now env n id true (report f now env n id m c)))
  unfolding tear_down remove report
  torn_down n m o c why = record {
    reason = why;
    logged =
        append_assoc c.log
          (reported n.account_token (decimal (id_of c.manager.heap n.session)) (totals m).0
              (totals m).1
            ∷ [])
          (closed n.account_token (decimal (id_of c.manager.heap n.session)) ∷ []);
    removed = get-removed _ (id_of c.manager.heap n.session);
  }

  detached_cases :
      (n : Negotiated) (m : UsageMeter) (c : Conn W Tx) (gone : Bool)
      → (let id = id_of c.manager.heap n.session in
          let c' = report f now env n id m c in
          is_closed c'.manager n.session ≡ gone
          → Held n m client_detached c (tear_down f now env n id gone c')
            ⊎ TornDown n m client_detached c (tear_down f now env n id gone c'))
  unfolding tear_down report
  detached_cases n m c true e = inr (torn_down n m client_detached c (inr e))
  detached_cases n m c false e = inl (record { logged = refl; dropped = refl; open_still = e })

  pub finish-cases :
      (n : Negotiated) (m : UsageMeter) (o : Outcome) (c : Conn W Tx)
      → Held n m o c (finish f now env n m o c) ⊎ TornDown n m o c (finish f now env n m o c)
  unfolding finish
  finish-cases n m client_closed c = inr (torn_down n m client_closed c (inl refl))
  finish-cases n m client_detached c = detached_cases n m c _ refl
