-- ===== src/Server/Conn/Says.antt =====
-- What a call of the handler adds to the log of its connection when it succeeds.
use tty_gateway.Base.{◌≡◌, ◌∙◌, refl, ap, List, [], ◌∷◌, ◌++◌, Text, arith, append_assoc}
use tty_gateway.Base.Results.{Result, ok, err}
use tty_gateway.Base.Action.{Action, continue, ◌>>=◌, ◌>>◌}
use tty_gateway.Proto.Frame.{ServerFrame}
use tty_gateway.Server.Conn.{Event, sent, Conn, Env, recv, send}

module _ {W Tx A : Type 0} where
  -- The log of `c` has grown to that of `d` by events that fit the result `a`.
  pub record Says (P : A → List Event → Type 0) (c : Conn W Tx) (a : A) (d : Conn W Tx)
      : Type 0 where
    pub said : List Event
    pub logged : d.log ≡ c.log ++ said
    pub fits : P a said

  -- The same of a call that may have failed: nothing is claimed of a failure.
  unfoldable pub Settles :
      (A → List Event → Type 0) → Conn W Tx → Result Text A → Conn W Tx → Type 0
  Settles P c (err e) d = Unit
  Settles P c (ok a) d = Says P c a d

  -- Events that came before are a prefix of what was said.
  pub Settles-after :
      (P : A → List Event → Type 0) (before : List Event) (b c : Conn W Tx)
      → c.log ≡ b.log ++ before
      → (r : Result Text A) (d : Conn W Tx) → Settles (λ a said. P a (before ++ said)) c r d
      → Settles P b r d
  unfolding Settles
  Settles-after P before b c e (err x) d h = tt
  Settles-after P before b c e (ok a) d h = record {
    said = before ++ h.said;
    logged = h.logged ∙ ap (λ l. l ++ h.said) e ∙ append_assoc b.log before h.said;
    fits = h.fits;
  }

module _ {W Tx H C K P B : Type 0} (env : Env W Tx H C K P) where
  sends_then :
      (frame : ServerFrame) (Q : B → List Event → Type 0) (c d : Conn W Tx)
      → d.log ≡ c.log ++ (sent frame ∷ [])
      → (r : Result Text (Unit {0})) (next : Action Text (Conn W Tx) B)
      → Settles (λ b more. Q b (sent frame ∷ more)) d (next d).0 (next d).1
      → Settles Q c (continue r (λ _. next) d).0 (continue r (λ _. next) d).1
  unfolding Settles
  sends_then frame Q c d e (err x) next k = tt
  sends_then frame Q c d e (ok _) next k =
      Settles-after Q (sent frame ∷ []) c d e (next d).0 (next d).1 k

  -- A frame is sent, and then comes what the handler continues with.
  pub Settles-send :
      (frame : ServerFrame) (Q : B → List Event → Type 0) (c : Conn W Tx)
      → (next : Action Text (Conn W Tx) B)
      → ((d : Conn W Tx) → Settles (λ b more. Q b (sent frame ∷ more)) d (next d).0 (next d).1)
      → Settles Q c ((send env frame >> next) c).0 ((send env frame >> next) c).1
  unfolding send ◌>>=◌
  Settles-send frame Q c next k =
      let (r, d) = send env frame c in sends_then frame Q c d refl r next (k d)

module _ {W Tx H C K P : Type 0} (env : Env W Tx H C K P) where
  -- Waiting for a frame adds nothing to the log, and sending one adds that frame.
  pub recv-log : (c : Conn W Tx) → (recv env c).1.log ≡ c.log
  unfolding recv
  recv-log c = ground arith

  pub send-log :
      (frame : ServerFrame) (c : Conn W Tx) → (send env frame c).1.log ≡ c.log ++ (sent frame ∷ [])
  unfolding send
  send-log frame c = refl
