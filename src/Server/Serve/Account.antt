-- ===== src/Server/Serve/Account.antt =====
-- For whom a connection asks the control plane.
use tty_gateway.Base.{
  ℕ, ◌≡◌, ◌∙◌, refl, ap, Option, none, some, inl, inr, List, ◌++◌, Bytes, append_assoc, All,
  All-append, All-map,
}
use tty_gateway.Base.Results.{ok}
use tty_gateway.Quota.Float.{Float}
use tty_gateway.Quota.Meter.{UsageMeter}
use tty_gateway.Server.Conn.{
  Event, sent, dialed, authorized, opened, forwarded, closed, reported, Conn, Env,
}
use tty_gateway.Server.Negotiate.{Negotiated, negotiate}
use tty_gateway.Server.Negotiate.Conversation.{Conversation, reattached, established}
use tty_gateway.Server.Negotiate.Login.{IsLogin, dials, asks}
use tty_gateway.Server.Negotiate.Protocol.{negotiate-Conversation}
use tty_gateway.Server.Serve.{
  Outcome, Turn, Serving, serve, begin, finish, served, handled, handle_connection,
}
use tty_gateway.Server.Serve.Usage.{IsTraffic, passes, sends, serve-traffic, late-traffic}
use tty_gateway.Server.Serve.Teardown.{finish-cases}

-- What is asked of the control plane is asked for this account.
abbrev pub IsFor : Option Bytes → Event → Type 0
IsFor account (authorized name a) = a ≡ account
IsFor account (opened a id name) = a ≡ account
IsFor account (closed a id) = a ≡ account
IsFor account (reported a id bytes_in bytes_out) = a ≡ account
IsFor account (sent frame) = Unit
IsFor account (dialed target) = Unit
IsFor account (forwarded given) = Unit

login-IsFor : (account : Option Bytes) (e : Event) → IsLogin e → IsFor account e
login-IsFor account _ (dials target) = tt
login-IsFor account _ (asks id key bytes) = tt

traffic-IsFor : (account : Option Bytes) (e : Event) → IsTraffic e → IsFor account e
traffic-IsFor account _ (passes given) = tt
traffic-IsFor account _ (sends frame) = tt

Conversation-IsFor :
    (n : Negotiated) (said : List Event)
    → Conversation (some n) said
    → All (IsFor n.account_token) said
Conversation-IsFor _ _ (reattached name n id token) = (refl, (tt, (tt, tt)))
Conversation-IsFor _ _ (established name n asked id token login only) =
    let account = n.account_token in
    (
      refl,
      All-append (IsFor account) login _
          (All-map IsLogin (IsFor account) (login-IsFor account) login only) (refl, (tt, (tt, tt))),
    )

module _ {W Tx H C K P : Type 0} (f : Float) (now : W → ℕ) (env : Env W Tx H C K P) where
  -- From `c` to `d` the control plane was asked for this account alone.
  pub record AsksFor (account : Option Bytes) (c d : Conn W Tx) : Type 0 where
    pub said : List Event
    pub logged : d.log ≡ c.log ++ said
    pub all_for : All (IsFor account) said

  AsksFor-trans :
      (account : Option Bytes) (b c d : Conn W Tx)
      → AsksFor account b c
      → AsksFor account c d
      → AsksFor account b d
  AsksFor-trans account b c d p q = record {
    said = p.said ++ q.said;
    logged = q.logged ∙ ap (λ l. l ++ q.said) p.logged ∙ append_assoc b.log p.said q.said;
    all_for = All-append (IsFor account) p.said q.said p.all_for q.all_for;
  }

  negotiate-AsksFor :
      (b c : Conn W Tx) (n : Negotiated)
      → negotiate env b ≡ (ok (some n), c)
      → AsksFor n.account_token b c
  negotiate-AsksFor b c n e =
      let s = negotiate-Conversation env b c (some n) e in
      record { said = s.said; logged = s.logged; all_for = Conversation-IsFor n s.said s.fits }

  serve-AsksFor :
      (ts : List (Turn f now env)) (n : Negotiated) (c : Conn W Tx)
      → AsksFor n.account_token c (serve f now env ts (begin f now env n c)).conn
  serve-AsksFor ts n c =
      let (said, logged, traffic) = serve-traffic f now env ts n c in
      record {
        said = said;
        logged = logged;
        all_for =
            All-map IsTraffic (IsFor n.account_token) (traffic-IsFor n.account_token) said traffic;
      }

  finish-AsksFor :
      (n : Negotiated) (m : UsageMeter) (o : Outcome) (c : Conn W Tx)
      → AsksFor n.account_token c (finish f now env n m o c)
  finish-AsksFor n m o c = elim (finish-cases f now env n m o c) [
    | inl held ↦ record { said = _; logged = held.logged; all_for = (refl, tt) }
    | inr gone ↦ record { said = _; logged = gone.logged; all_for = (refl, (refl, tt)) }
  ]

  late-AsksFor :
      (ts late : List (Turn f now env)) (n : Negotiated) (c : Conn W Tx)
      → (let s = serve f now env ts (begin f now env n c) in
          AsksFor n.account_token s.conn (serve f now env late s).conn)
  late-AsksFor ts late n c =
      let (said, logged, traffic) = late-traffic f now env ts late n c in
      record {
        said = said;
        logged = logged;
        all_for =
            All-map IsTraffic (IsFor n.account_token) (traffic-IsFor n.account_token) said traffic;
      }

  served-AsksFor :
      (n : Negotiated) (c : Conn W Tx) (s gone : Serving f now env) (o : Option Outcome)
      → AsksFor n.account_token c s.conn
      → AsksFor n.account_token s.conn gone.conn
      → AsksFor n.account_token c (served f now env n s gone o)
  unfolding served
  served-AsksFor n c s gone none h k = h
  served-AsksFor n c s gone (some o) h k =
      AsksFor-trans n.account_token c s.conn _ h
        (AsksFor-trans n.account_token s.conn gone.conn _ k (finish-AsksFor n s.meter o gone.conn))

  -- All that a connection that is let in asks of the control plane, from its authorization to its
  -- usage report and the end of its session, is asked for one account, that of its negotiation.
  pub handle_connection-AsksFor :
      (ts late : List (Turn f now env)) (b c : Conn W Tx) (n : Negotiated)
      → negotiate env b ≡ (ok (some n), c)
      → AsksFor n.account_token b (handle_connection f now env ts late b)
  unfolding handle_connection handled
  handle_connection-AsksFor ts late b c n e =
      let s : Serving f now env = serve f now env ts (begin f now env n c) in
      let lets_in = negotiate-AsksFor b c n e in
      rw e (
        AsksFor-trans n.account_token b c _ lets_in (
          served-AsksFor n c s (serve f now env late s) s.outcome (serve-AsksFor ts n c)
            (late-AsksFor ts late n c)))
