-- ===== src/Server/Start/Accepts.antt =====
-- Which clients the accept loop serves.
use tty_gateway.Base.{
  ℕ, zero, suc, ◌≡◌, ◌∙◌, refl, sym, ap, Bool, true, false, Option, none, some, List, [], ◌∷◌, ◌++◌,
  append-nil, append_assoc, arith, Bool-cases, inl, inr,
}
use tty_gateway.Base.Results.{Result, ok, err}
use tty_gateway.Base.Action.Succeeds.{ok_injective}
use tty_gateway.Transport.Framed.{TransportError}
use tty_gateway.Transport.Tls.{Process, TlsLib}
use tty_gateway.Transport.Endpoint.{Quinn, ClientConnection, accept}
use tty_gateway.Server.Config.{Config, Host}
use tty_gateway.Server.Start.{
  build_server, Gateway, accepted, accept_round, accept_rounds, opened, serve,
}

-- The answers that are not errors.
abbrev pub oks : {E A : Type 0} → List (Result E A) → List A
oks [] = []
oks (ok a ∷ rs) = a ∷ oks rs
oks (err e ∷ rs) = oks rs

module _ {W SC CC End Inc Con Snd Rcv : Type 0} (q : Quinn W SC CC End Inc Con Snd Rcv)
    (server : End) where
  abbrev Answer : Type 0
  Answer = Result TransportError (ClientConnection Con Snd Rcv)

  -- What an endpoint answers to so many calls of `accept`, up to its closing.
  unfoldable pub answers : ℕ → W → List Answer
  answers zero w = []
  answers (suc n) w =
      let (a, w') = accept q server w in
      let rest = answers n w' in elim a [ none ↦ [] | some r ↦ r ∷ rest ]

  at : Bool → W → List (ClientConnection Con Snd Rcv) → Gateway W End Con Snd Rcv
  at serving w clients = record { world = w; server = server; spawned = clients; serving = serving }

  stopped-stays :
      (n : ℕ) (w : W) (clients : List (ClientConnection Con Snd Rcv))
      → accept_rounds q n (at false w clients) ≡ at false w clients
  unfolding accept_rounds accept_round at
  stopped-stays zero w clients = refl
  stopped-stays (suc n) w clients = stopped-stays n w clients

  after_answer :
      (n : ℕ) (w : W) (clients : List (ClientConnection Con Snd Rcv)) (a : Option Answer × W)
      → ((w : W) (clients : List (ClientConnection Con Snd Rcv))
          → (accept_rounds q n (at true w clients)).spawned ≡ clients ++ oks (answers n w))
      → (accept_rounds q n (accepted q (at true w clients) a)).spawned
        ≡ clients ++ oks (elim a.0 [ none ↦ [] | some r ↦ r ∷ answers n a.1 ])
  unfolding accepted at
  after_answer n w clients (none, w') next =
      ap (λ g. g.spawned) (stopped-stays n w' clients) ∙ sym (append-nil clients)
  after_answer n w clients (some (ok client), w') next =
      next w' (clients ++ (client ∷ [])) ∙ append_assoc clients (client ∷ []) _
  after_answer n w clients (some (err _), w') next = next w' clients

  rounds-answers :
      (n : ℕ) (w : W) (clients : List (ClientConnection Con Snd Rcv))
      → (accept_rounds q n (at true w clients)).spawned ≡ clients ++ oks (answers n w)
  unfolding accept_rounds answers accept_round at
  rounds-answers zero w clients = sym (append-nil clients)
  rounds-answers (suc n) w clients = after_answer n w clients (accept q server w) (rounds-answers n)

module _ {W SC CC End Inc Con Snd Rcv : Type 0} (q : Quinn W SC CC End Inc Con Snd Rcv) where
  accepted-server :
      (g : Gateway W End Con Snd Rcv) (a : Option (Answer q g.server) × W)
      → (accepted q g a).server ≡ g.server
  unfolding accepted
  accepted-server g (none, w) = refl
  accepted-server g (some (ok client), w) = refl
  accepted-server g (some (err _), w) = refl

  round-server : (g : Gateway W End Con Snd Rcv) → (accept_round q g).server ≡ g.server
  unfolding accept_round
  round-server g = elim (Bool-cases g.serving) [
    | inl on ↦ simp on (accepted-server g (accept q g.server g.world))
    | inr off ↦ simp off refl
  ]

  rounds-server : (n : ℕ) (g : Gateway W End Con Snd Rcv) → (accept_rounds q n g).server ≡ g.server
  unfolding accept_rounds
  rounds-server zero g = refl
  rounds-server (suc n) g = rounds-server n (accept_round q g) ∙ round-server g

module _ {W Cert Key ServerTls ClientTls Roots SC CC Transport End Inc Con Snd Rcv : Type 0}
    (host : Host) (lib : TlsLib W Cert Key ServerTls ClientTls Roots SC CC Transport)
    (q : Quinn W SC CC End Inc Con Snd Rcv) where
  -- What `serve` has done with its endpoint after so many rounds.
  pub record Serves (rounds : ℕ) (config : Config) (p : Process W) (g : Gateway W End Con Snd Rcv)
      : Type 0 where
    pub bound : (build_server host lib q config p).0 ≡ ok g.server
    pub each_once :
        g.spawned ≡ oks (answers q g.server rounds (build_server host lib q config p).1.world)

  served :
      (n : ℕ) (config : Config) (p : Process W) (g : Gateway W End Con Snd Rcv)
      (r : Result (List ℕ) End)
      → (build_server host lib q config p).0 ≡ r
      → (elim r [
        | ok server ↦
            ok (accept_rounds q n (opened host lib q (build_server host lib q config p).1 server))
        | err e ↦ err e
      ])
        ≡ ok g
      → Serves n config p g
  unfolding opened at
  served n config p g (err e) b h = absurd (ground arith)
  served n config p g (ok server) b h =
      let (_, p') = build_server host lib q config p in
      let same : accept_rounds q n (opened host lib q p' server) ≡ g = ok_injective _ _ _ _ h in
      let there = sym (rounds-server q n (opened host lib q p' server)) ∙ ap (λ g. g.server) same in
      record {
        bound = b ∙ ap ok there;
        each_once =
            sym (ap (λ g. g.spawned) same)
            ∙ rounds-answers q server n p'.world []
            ∙ ap (λ s. oks (answers q s n p'.world)) there;
      }

  -- Every client that the endpoint lets in is served, once and in the order of arrival, up to the
  -- closing of the endpoint: a client that fails to connect does not stop the gateway, nor does it take
  -- the place of another.
  pub serve-Serves :
      (rounds : ℕ) (config : Config) (p : Process W) (g : Gateway W End Con Snd Rcv)
      → serve host lib q rounds config p ≡ ok g
      → Serves rounds config p g
  unfolding serve
  serve-Serves rounds config p g h = served rounds config p g _ refl h
