-- ===== src/Core/Tests.antt =====
-- Runs at concrete inputs, and the theorems of this component at inputs that meet their hypotheses.
use tty_gateway.Base.{
  ℕ, Bytes, ◌-◌, ◌≡◌, refl, List, [], ◌∷◌, arith, some, none, if◌then◌else◌, codes, drop, length,
}
use tty_gateway.Core.Scrollback.{fresh, append}
use tty_gateway.Base.Map.{
  get-empty, get, nat_eq, bytes_eq, insert, remove as remove_entry, beq_bytes,
}
use tty_gateway.Core.Registry.{SessionManager, SshHandle, new, create, remove, resume, len}
use tty_gateway.Core.Registry.Invariant.{IsConsistent}
use tty_gateway.Core.Registry.{token_of}
use tty_gateway.Core.Registry.View.{resume-remove}
use tty_gateway.Core.Registry.Table.{lookup, size}
use tty_gateway.Core.Registry.Directory.{directory, resume-directory, resume-len}
use tty_gateway.Core.Registry.Reach.{Reach, here, also, creates, removes, reachable-IsConsistent}
use tty_gateway.Core.Scrollback.Cuts.{feed, feed-concat}
use tty_gateway.Core.Scrollback.{default_scrollback_bytes}
use tty_gateway.Core.Reader.{poll, answer}
use tty_gateway.Core.Reader.Delivery.{Event, output, ended, attach, next, step, run, start}
use tty_gateway.Core.Reader.Delivery.Exact.{next_delivers_all}
use tty_gateway.Core.Reader.Delivery.Lossy.{next-answer, replay_after_attach}

-- Ten bytes into a scrollback of eight: the oldest two are trimmed.
abbrev busy : List Event
busy = output (codes "012345") ∷ next ∷ output (codes "6789") ∷ []

abbrev over : List Event
over = output (codes "bye") ∷ ended ∷ []

busy_buffer : (run (start 8) busy).inner.buf ≡ codes "23456789"
unfolding run step append poll
busy_buffer = refl

busy_read : (step (run (start 8) busy) next).received ≡ codes "0123456789"
unfolding run step append poll
busy_read = refl

busy_late : (step (step (run (start 8) busy) attach) next).received ≡ codes "23456789"
unfolding run step append poll
busy_late = refl

next_delivers_all_example :
    (step (run (start 10) busy) next).received ≡ (run (start 10) busy).history
next_delivers_all_example = next_delivers_all 10 busy (omega arith) (omega arith)

next-answer_example :
    let l = run (start 8) busy in poll l.cursor l.inner ≡ answer l.history l.inner l.cursor
next-answer_example = next-answer 8 busy (omega arith)

replay_after_attach_example :
    let l = run (start 8) busy in
    (step (step l attach) next).received ≡ drop (length l.history - 8) l.history
replay_after_attach_example = replay_after_attach 8 busy (omega arith)

abbrev handle : SshHandle ℕ
handle = record { input = 0; server_fingerprint = some (codes "SHA256:test") }

one : SessionManager ℕ
unfolding create insert
one = (create (new ℕ) 7 (1 ∷ 2 ∷ []) handle).0

one-Reach : Reach (new ℕ) one
unfolding one
one-Reach = also here (creates 7 (1 ∷ 2 ∷ []) handle (get-empty {V = ℕ} _) (get-empty {V = ℕ} _))

reachable-IsConsistent_example : IsConsistent one
reachable-IsConsistent_example = reachable-IsConsistent ℕ default_scrollback_bytes one one-Reach

one-IsConsistent : IsConsistent one
one-IsConsistent = reachable-IsConsistent ℕ default_scrollback_bytes one one-Reach

resume-remove_example :
    resume (remove one 7) (1 ∷ 2 ∷ [])
    ≡ (if beq_bytes (token_of one.heap 0) (1 ∷ 2 ∷ []) then none else resume one (1 ∷ 2 ∷ []))
unfolding one get insert remove_entry
resume-remove_example = resume-remove one 7 0 (1 ∷ 2 ∷ []) one-IsConsistent refl

feed-concat_example :
    feed (fresh 8) (codes "0123" ∷ codes "456789" ∷ [])
    ≡ feed (fresh 8) (codes "0" ∷ [] ∷ codes "123456789" ∷ [])
feed-concat_example =
    feed-concat (fresh 8) (codes "0123" ∷ codes "456789" ∷ [])
      (codes "0" ∷ [] ∷ codes "123456789" ∷ [])
      (record { bounded = omega arith; unwrapped = omega arith }) refl

-- Three sessions, of which the first two are removed, in the one order or the other.
abbrev three : SessionManager ℕ
three = (create (create one 8 (3 ∷ []) handle).0 9 (4 ∷ []) handle).0

three-Reach : Reach (new ℕ) three
unfolding one get insert remove_entry
three-Reach =
    also (also one-Reach (creates 8 (3 ∷ []) handle refl refl))
      (creates 9 (4 ∷ []) handle refl refl)

abbrev left : SessionManager ℕ
left = remove (remove three 7) 8

left-Reach : Reach (new ℕ) left
left-Reach = also (also three-Reach (removes 7)) (removes 8)

abbrev right : SessionManager ℕ
right = remove (remove three 8) 7

right-Reach : Reach (new ℕ) right
right-Reach = also (also three-Reach (removes 8)) (removes 7)

resume-directory_example :
    ((t : Bytes) → resume left t ≡ lookup (directory left-Reach) t)
    × (len left ≡ size (directory left-Reach))
resume-directory_example = resume-directory ℕ default_scrollback_bytes left left-Reach

resume-left : (t : Bytes) → resume left t ≡ resume right t
unfolding one create remove resume get insert remove_entry
resume-left t = refl

resume-len_example : (directory left-Reach ≡ directory right-Reach) × (len left ≡ len right)
resume-len_example =
    resume-len ℕ default_scrollback_bytes left right left-Reach right-Reach resume-left
