-- ===== src/Server/Concurrent/Tests.antt =====
-- Two clients of one session: the first is sent its output while the second attaches.
use mathlib.Core.List.{Sublist}
use tty_gateway.Server.Concurrent.Tied.{IsQuiet}
use tty_gateway.Base.{arith, ℕ, ◌≡◌, refl, none, some, List, [], ◌∷◌, ◌++◌, codes, get_elem?, take}
use tty_gateway.Core.Scrollback.{fresh-Holds, default_scrollback_bytes, append}
use tty_gateway.Core.Registry.{
  SessionManager, Session, spawn, with_scrollback, ingest, update, create,
}
use tty_gateway.Core.Registry.Evolves.{Evolves-refl}
use tty_gateway.Core.Reader.{poll}
use tty_gateway.Quota.Float.Fixed.{fixed}
use tty_gateway.Server.Conn.{send}
use tty_gateway.Server.Rely.{IsFair}
use tty_gateway.Server.Serve.{Serving, take_turn, chunks, limiter}
use tty_gateway.Server.Serve.Output.{outputs, held}
use tty_gateway.Server.Concurrent.{Connections, Act, takes, attaches, puts_out, attached, step, run}
use tty_gateway.Server.Concurrent.Delivered.{
  Output, Beginnings, run-Output, run-InOrder, clients_agree,
}
use tty_gateway.Server.Tests.{server, live, typing}
use tty_gateway.Server.Serve.Tests.{session}

server-IsFair : IsFair server
server-IsFair = record { others = λ w m. Evolves-refl m }

abbrev acts : List (Act fixed (λ w. 0) server)
acts =
    attaches live tt []
    ∷ puts_out 0 (codes "$ ls")
    ∷ takes 0 chunks
    ∷ takes 0 chunks
    ∷ attaches live tt []
    ∷ puts_out 0 (codes "a b")
    ∷ takes 1 chunks
    ∷ []

both : Connections fixed (λ w. 0) server
unfolding run
both = run fixed (λ w. 0) server acts (record { manager = typing.manager; served = [] })

served_at : ℕ → Serving fixed (λ w. 0) server
unfolding both
served_at i = elim (get_elem? both.served i) [
  | none ↦ attached fixed (λ w. 0) server live tt [] typing.manager
  | some s ↦ s
]

first_sent : outputs (served_at 0).conn.log ++ held (served_at 0).sending ≡ codes "$ ls"
unfolding served_at both typing create append update ingest poll take_turn step limiter send
first_sent = refl

second_sent : outputs (served_at 1).conn.log ++ held (served_at 1).sending ≡ codes "$ lsa b"
unfolding served_at both typing create append update ingest poll take_turn step limiter send
second_sent = refl

run-Output_example :
    Output fixed
      (λ w. 0)
      server
      server-IsFair
      []
      0
      session
      both
      (λ all.
        outputs (served_at 0).conn.log ++ held (served_at 0).sending
        ≡ take (served_at 0).reader.cursor all)
unfolding served_at both typing create append update ingest poll take_turn step limiter send
run-Output_example =
    run-Output fixed (λ w. 0) server server-IsFair [] 0 session
      (fresh-Holds default_scrollback_bytes) acts typing.manager refl 0 (served_at 0) refl refl

clients_agree_example :
    Output fixed
      (λ w. 0)
      server
      server-IsFair
      []
      0
      session
      both
      (λ all.
        Beginnings
          (outputs (served_at 0).conn.log ++ held (served_at 0).sending)
          (outputs (served_at 1).conn.log ++ held (served_at 1).sending))
unfolding served_at both typing create append update ingest poll take_turn step limiter send
clients_agree_example =
    clients_agree fixed (λ w. 0) server server-IsFair [] 0 session
      (fresh-Holds default_scrollback_bytes) acts typing.manager refl 0 (served_at 0) refl refl 1
      (served_at 1) refl refl

-- A session that keeps four bytes, and a client that misses some of its output.
small : SessionManager ℕ
small =
    (create (with_scrollback ℕ 4) 7 (1 ∷ []) (record { input = 5; server_fingerprint = none })).0

abbrev small_session : Session ℕ
small_session = spawn 7 (1 ∷ []) (record { input = 5; server_fingerprint = none }) 4

abbrev misses : List (Act fixed (λ w. 0) server)
misses =
    attaches live tt []
    ∷ puts_out 0 (codes "$ ls")
    ∷ takes 0 chunks
    ∷ takes 0 chunks
    ∷ puts_out 0 (codes "abcdefgh")
    ∷ takes 0 chunks
    ∷ []

slow : Connections fixed (λ w. 0) server
unfolding run
slow = run fixed (λ w. 0) server misses (record { manager = small; served = [] })

late : Serving fixed (λ w. 0) server
unfolding slow
late = elim (get_elem? slow.served 0) [
  | none ↦ attached fixed (λ w. 0) server live tt [] small
  | some s ↦ s
]

late_sent : outputs late.conn.log ++ held late.sending ≡ codes "$ lsefgh"
unfolding late slow small create append update ingest poll take_turn step limiter send
late_sent = refl

server-IsQuiet : IsQuiet server
server-IsQuiet = record { others = λ w m. refl }

run-InOrder_example :
    Sublist
      (outputs late.conn.log ++ held late.sending)
      (take late.reader.cursor (codes "$ lsabcdefgh"))
unfolding late slow small create append update ingest poll take_turn step limiter send
run-InOrder_example =
    run-InOrder fixed (λ w. 0) server server-IsQuiet [] 0 small_session (fresh-Holds 4) misses small
      refl 0 late refl refl (omega arith)
