-- ===== src/Core/Lifetime/Tests.antt =====
-- Runs of a session, and the theorems on its life at them.
use tty_gateway.Base.{
  Bytes, ◌≤◌, ◌^◌, ◌⊎◌, ◌≡◌, ◌≢◌, refl, true, false, List, [], ◌∷◌, ◌++◌, codes, length, arith, suc,
}
use tty_gateway.Core.Scrollback.{Holds, append}
use tty_gateway.Core.Scrollback.Cuts.{concat}
use tty_gateway.Ssh.Client.{bytes, resize}
use tty_gateway.Ssh.Actor.{
  output, extended, eof, wrote, sent_output, window_change, round, flush_resize,
}
use tty_gateway.Core.Lifetime.{
  over, Turn, message, command, delivers, gives, ingests, drops, run, spawned,
}
use tty_gateway.Core.Lifetime.Aside.{held}
use tty_gateway.Core.Lifetime.Output.{printed-run, closed-Holds}
use tty_gateway.Core.Lifetime.Input.{Applied, run-Applied}
use tty_gateway.Core.Lifetime.Held.{writes, giving, dropping, prints, run-runs}
use tty_gateway.Core.Lifetime.Ends.{times, run-closes}

-- The shell prints and exits while a client types.
abbrev exits : List Turn
exits =
    message (output (codes "$ "))
    ∷ gives (bytes (codes "exit"))
    ∷ gives (resize 80 24)
    ∷ delivers
    ∷ command true
    ∷ command true
    ∷ ingests
    ∷ message (extended (codes "bye"))
    ∷ delivers
    ∷ message eof
    ∷ []

abbrev to_the_end : List Turn
to_the_end = exits ++ (ingests ∷ ingests ∷ [])

carried_out :
    (run exits (spawned 4)).effects
    ≡ sent_output (codes "$ ")
      ∷ wrote (codes "exit")
      ∷ window_change 80 24
      ∷ sent_output (codes "bye")
      ∷ []
unfolding run round flush_resize append
carried_out = refl

printed-run_example :
    let l = run exits (spawned 4) in
    (come : Bytes) × (l.printed ≡ come ++ (concat l.output ++ held l.ssh))
    × ((2 ^ 64 ≤ length come) ⊎ Holds come l.inner)
printed-run_example = printed-run 4 exits

closed-Holds_example : Holds (run to_the_end (spawned 4)).printed (run to_the_end (spawned 4)).inner
unfolding run round append
closed-Holds_example = closed-Holds 4 to_the_end refl (omega arith)

run-Applied_example : Applied (run exits (spawned 4))
run-Applied_example = run-Applied 4 exits

run-closes_example :
    let l = run exits (spawned 4) in
    (run (times (suc (length l.output)) ingests) l).inner.closed ≡ true
unfolding run round
run-closes_example = run-closes 4 exits refl

-- The registry drops the session, and nobody else has it.
abbrev dropped : List Turn
dropped = gives (bytes (codes "ls")) ∷ drops ∷ command true ∷ message (output (codes "a b")) ∷ []

run-runs_example :
    ((run dropped (spawned 4)).ssh ≢ over) × ((run dropped (spawned 4)).inner.closed ≡ false)
run-runs_example =
    run-runs 4 dropped
      (giving (bytes (codes "ls")), (dropping, (writes, (prints (codes "a b"), tt))))
