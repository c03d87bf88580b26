-- ===== src/Ssh/Tests.antt =====
-- A run of the task that owns the SSH channel.
use tty_gateway.Base.{◌≡◌, refl, true, none, List, [], ◌∷◌, codes}
use tty_gateway.Ssh.Client.{bytes, resize}
use tty_gateway.Ssh.Actor.{
  Round, from_target, from_client, output, eof, window_change, sent_output, wrote, actor,
}

abbrev rounds : List Round
rounds =
    from_client (resize 80 24) true
    ∷ from_client (resize 90 30) true
    ∷ from_target (output (codes "hi")) true
    ∷ from_client (bytes (codes "ls")) true
    ∷ from_target eof true
    ∷ from_client (bytes (codes "late")) true
    ∷ []

actor_run :
    actor none rounds
    ≡ window_change 80 24 ∷ window_change 90 30 ∷ sent_output (codes "hi") ∷ wrote (codes "ls") ∷ []
unfolding actor
actor_run = refl
