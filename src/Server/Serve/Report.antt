-- ===== src/Server/Serve/Report.antt =====
-- What `handle_connection` reports of a connection that is over.
use tty_gateway.Base.{
  ℕ, ◌%◌, ◌^◌, ◌≡◌, ◌∙◌, refl, ap₂, some, ◌⊎◌, inl, inr, List, [], ◌∷◌, ◌++◌, decimal, append_assoc,
  All,
}
use tty_gateway.Base.Results.{ok}
use tty_gateway.Quota.Float.{Float}
use tty_gateway.Quota.Meter.{totals}
use tty_gateway.Server.Conn.{Event, reported, closed, Conn, Env}
use tty_gateway.Server.Negotiate.{Negotiated, negotiate}
use tty_gateway.Server.Serve.{
  Outcome, Turn, Serving, serve, begin, served, handled, handle_connection,
}
use tty_gateway.Server.Serve.Usage.{to_shell, to_client, sum, IsTraffic, serve-usage, late-traffic}
use tty_gateway.Server.Serve.Teardown.{finish-cases}

module _ {W Tx H C K P : Type 0} (f : Float) (now : W → ℕ) (env : Env W Tx H C K P) where
  -- From `c`, where the negotiation ended, over `s`, where the receiver loop has returned, to `d`, where
  -- the connection is over.
  pub record Reported (n : Negotiated) (c : Conn W Tx) (s : Serving f now env) (d : Conn W Tx)
      : Type 0 where
    pub said : List Event
    pub counted : s.conn.log ≡ c.log ++ said
    -- what the sender still did
    pub late : List Event
    pub traffic : All IsTraffic late
    pub id : ℕ
    pub after : List Event
    pub logged :
        d.log
        ≡ s.conn.log
          ++ (late
              ++ (reported n.account_token
                    (decimal id)
                    (sum to_shell said % 2 ^ 64)
                    (sum to_client said % 2 ^ 64)
                  ∷ after))
    pub last : (after ≡ []) ⊎ (after ≡ closed n.account_token (decimal id) ∷ [])

  finished :
      (n : Negotiated) (s gone : Serving f now env) (said late : List Event) (id : ℕ)
      (after : List Event) (b d : Conn W Tx)
      → s.conn.log ≡ b.log ++ said
      → gone.conn.log ≡ s.conn.log ++ late
      → All IsTraffic late
      → s.meter.bytes_in ≡ sum to_shell said % 2 ^ 64
      → s.meter.bytes_out ≡ sum to_client said % 2 ^ 64
      → d.log
        ≡ gone.conn.log
          ++ (reported n.account_token (decimal id) (totals s.meter).0 (totals s.meter).1 ∷ after)
      → (after ≡ []) ⊎ (after ≡ closed n.account_token (decimal id) ∷ [])
      → Reported n b s d
  unfolding totals
  finished n s gone said late id after b d e k t x y l last = record {
    said = said;
    counted = e;
    late = late;
    traffic = t;
    id = id;
    after = after;
    logged =
        l
        ∙ ap₂ (λ u v. u ++ (v ∷ after)) k
            (ap₂ (λ i o. reported n.account_token (decimal id) i o) x y)
        ∙ append_assoc s.conn.log late _;
    last = last;
  }

  -- Once the receiver loop of a connection has returned, the connection reports its usage for the
  -- account of the negotiation. The report has exactly the bytes of the input that the connection has
  -- handed to `send_input` and of the output that it has handed to `FramedSend::send` from the
  -- negotiation up to the return of the loop, whether or not these calls succeeded, each sum up to the
  -- wrap-around of a u64. What the sender task still does before it is cancelled is not in the report.
  -- After the report comes nothing or the end of the session.
  pub handle_connection-Reported :
      (ts late : List (Turn f now env)) (b c : Conn W Tx) (n : Negotiated) (o : Outcome)
      → negotiate env b ≡ (ok (some n), c)
      → (serve f now env ts (begin f now env n c)).outcome ≡ some o
      → Reported n c
          (serve f now env ts (begin f now env n c))
          (handle_connection f now env ts late b)
  unfolding handle_connection handled served
  handle_connection-Reported ts late b c n o e over =
      let s : Serving f now env = serve f now env ts (begin f now env n c) in
      let gone : Serving f now env = serve f now env late s in
      let (said, logged, x, y) = serve-usage f now env ts n c in
      let (more, grown, traffic) = late-traffic f now env ts late n c in
      rw e (
        rw over (elim (finish-cases f now env n s.meter o gone.conn) [
          | inl held ↦
              finished n s gone said more _ [] c _ logged grown traffic x y held.logged (inl refl)
          | inr torn ↦
              finished n s gone said more _ (closed _ _ ∷ []) c _ logged grown traffic x y
                torn.logged (inr refl)
        ]))
