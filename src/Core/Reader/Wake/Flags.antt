-- ===== src/Core/Reader/Wake/Flags.antt =====
-- A `Notify` that meets its documentation: each future has a flag.
use tty_gateway.Base.{
  ℕ, ◌+◌, ◌≡◌, refl, Bool, true, false, List, [], ◌∷◌, ◌==◌, if◌then◌else◌, arith, codes,
}
use tty_gateway.Core.Reader.{poll}
use tty_gateway.Core.Scrollback.{append}
use tty_gateway.Core.Reader.Wake.{
  Notify, IsReliable, returned, Turn, reader, output, notifies, run, start,
}
use tty_gateway.Core.Reader.Wake.Lossless.{next_wakes}

data Flag : Type 0 where
  made registered notified : Flag

record Flags : Type 0 where
  next : ℕ
  flag : ℕ → Flag

abbrev register : Flag → Flag
register notified = notified
register _ = registered

abbrev notify : Flag → Flag
notify made = made
notify _ = notified

abbrev is_armed : Flag → Bool
is_armed made = false
is_armed _ = true

abbrev is_woken : Flag → Bool
is_woken notified = true
is_woken _ = false

abbrev flags : Notify Flags ℕ
flags = record {
  notified = λ n. (n.next, record n { next = n.next + 1 });
  enable = λ f n. record n { flag = λ g. if g == f then register (n.flag g) else n.flag g };
  notify_waiters = λ n. record n { flag = λ g. notify (n.flag g) };
  armed = λ f n. is_armed (n.flag f);
  woken = λ f n. is_woken (n.flag f);
}

flags-IsReliable : IsReliable flags
flags-IsReliable = record {
  enabled = λ f n. ground arith;
  wakes = λ f n h. ground arith;
  armed-notified = λ f n h. h;
  armed-enable = λ f g n h. ground arith;
  armed-notify = λ f n h. ground arith;
  woken-notified = λ f n h. h;
  woken-enable = λ f g n h. ground arith;
}

abbrev none_yet : Flags
none_yet = record { next = 0; flag = λ f. made }

-- The reader checks and finds nothing, then output comes, and then the reader waits.
abbrev race : List (Turn flags)
race = reader ∷ reader ∷ reader ∷ output (codes "hi") ∷ []

next_wakes_example :
    (run flags
      (notifies ∷ reader ∷ reader ∷ reader ∷ [])
      (run flags race (start flags 8 none_yet))).place
    ≡ returned (poll 0 (run flags race (start flags 8 none_yet)).inner).0
unfolding run append poll
next_wakes_example = next_wakes flags flags-IsReliable 8 none_yet race 0 refl (λ e. ground arith)
