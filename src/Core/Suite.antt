-- ===== src/Core/Suite.antt =====
-- The unit tests of crates/gw-core/src/lib.rs. A test shares the session with the ingest task: which of
-- them goes on is a schedule, and a test passes when it does under each schedule of some length, after
-- which both go on to their end.
use tty_gateway.Base.{
  ℕ, zero, suc, ◌≡◌, refl, Bool, true, false, ◌&&◌, Option, none, some, List, [], ◌∷◌, ◌++◌, map,
  Bytes, codes, length, get_elem?, ltb, ◌==◌, if◌then◌else◌,
}
use tty_gateway.Base.Map.{beq_bytes, get, insert}
use tty_gateway.Ssh.Client.{bytes, resize}
use tty_gateway.Core.Scrollback.{append, default_scrollback_bytes}
use tty_gateway.Core.Reader.{SessionReader, Polled, chunk, finished, poll}
use tty_gateway.Core.Registry.{
  SessionManager, Session, SshHandle, new, with_scrollback, create, resume, reader, ingest,
  ingest_end, id_of, token_of,
}
use tty_gateway.Core.Lifetime.{run, spawned, gives}

-- The test at one moment: the messages that were sent and are not yet taken, whether `feed` was
-- dropped, and what `read_n` has got, or that `next` has answered `None`.
record Bench : Type 0 where
  manager : SessionManager ℕ
  feed : List Bytes
  dropped : Bool
  reader : SessionReader
  got : Bytes
  none_said : Bool

-- `fake_handle`, without its channels
abbrev fake_handle : SshHandle ℕ
fake_handle = record { input = 0; server_fingerprint = some (codes "SHA256:test") }

-- A turn of the ingest task.
ingest_next : Bench → List Bytes → Bench
ingest_next b [] =
    if b.dropped then record b { manager = ingest_end b.manager b.reader.session } else b
ingest_next b (msg ∷ rest) = record b {
  manager = ingest b.manager b.reader.session msg;
  feed = rest;
}

polled : Bench → Polled × ℕ → Bench
polled b (chunk piece, cursor) = record b {
  reader = record b.reader { cursor = cursor };
  got = b.got ++ piece;
}
polled b (finished, cursor) = record b {
  reader = record b.reader { cursor = cursor };
  none_said = true;
}
polled b (_, cursor) = record b { reader = record b.reader { cursor = cursor } }

-- `reader.next()`, as far as it comes in one turn.
next_turn : Bench → Option (Session ℕ) → Bench
unfolding polled
next_turn b none = b
next_turn b (some session) = polled b (poll b.reader.cursor session.inner)

-- A turn of `read_n`, which ends when it has `n` bytes, or `next` has answered `None`.
read_n : ℕ → Bench → Bench
unfolding next_turn
read_n n b =
    if b.none_said
    then b
    else (if ltb (length b.got) n
        then next_turn b (get_elem? b.manager.heap b.reader.session)
        else b)

turns : ℕ → List Bool → Bench → Bench
unfolding ingest_next read_n
turns n [] b = b
turns n (true ∷ ts) b = turns n ts (ingest_next b b.feed)
turns n (false ∷ ts) b = turns n ts (read_n n b)

-- All schedules of a length, each with turns enough for both to end.
schedules : ℕ → List (List Bool)
schedules zero = (true ∷ true ∷ true ∷ false ∷ false ∷ []) ∷ []
schedules (suc k) =
    let rest = schedules k in map (λ ts. true ∷ ts) rest ++ map (λ ts. false ∷ ts) rest

every : List (List Bool) → (List Bool → Bool) → Bool
every [] p = true
every (ts ∷ tss) p = p ts && every tss p

-- What `read_n` returns under a schedule, for a session of the manager.
read_under : ℕ → SessionManager ℕ → ℕ → List Bytes → Bool → List Bool → Bench
unfolding turns
read_under n manager session feed dropped ts = turns n ts (record {
  manager = manager;
  feed = feed;
  dropped = dropped;
  reader = reader session;
  got = [];
  none_said = false;
})

-- Under each of the schedules of five turns before both go on to their end.
passed : (List Bool → Bool) → Bool
unfolding every schedules
passed = every (schedules 5)

replays_scrollback_then_streams_live : List Bool → Bool
unfolding read_under
replays_scrollback_then_streams_live ts =
    let (mgr, session) = create (new ℕ) 7 (1 ∷ 2 ∷ []) fake_handle in
    beq_bytes (read_under 11 mgr session (codes "hello " ∷ codes "world" ∷ []) false ts).got
      (codes "hello world")

resume_returns_same_session_and_replays_all : List Bool → Bool
unfolding read_under
resume_returns_same_session_and_replays_all ts =
    let (mgr, session) = create (new ℕ) 7 (1 ∷ 2 ∷ []) fake_handle in
    elim (resume mgr (token_of mgr.heap session)) [
      | none ↦ false
      | some resumed ↦
          (id_of mgr.heap resumed == id_of mgr.heap session)
          && beq_bytes (read_under 6 mgr resumed (codes "abc" ∷ codes "def" ∷ []) false ts).got
              (codes "abcdef")
    ]

-- `read_n` and then `next`, which goes on until the ingest task is at its end.
reader_ends_when_session_closes : List Bool → Bool
unfolding read_under
reader_ends_when_session_closes ts =
    let (mgr, session) = create (new ℕ) 7 (1 ∷ 2 ∷ []) fake_handle in
    let b = read_under 3 mgr session (codes "bye" ∷ []) true ts in
    beq_bytes b.got (codes "bye") && (next_turn b (get_elem? b.manager.heap session)).none_said

-- The input is accepted, and is what waits for the SSH task.
forwards_input_to_ssh : Bool
forwards_input_to_ssh =
    let l = run (gives (bytes (codes "ls\n")) ∷ []) (spawned default_scrollback_bytes) in
    (length l.given == 1) && elim l.input [
      | [] ↦ false
      | bytes d ∷ rest ↦ beq_bytes d (codes "ls\n")
      | resize cols rows ∷ rest ↦ false
    ]

scrollback_is_bounded_and_advances_cursor : List Bool → Bool
unfolding read_under
scrollback_is_bounded_and_advances_cursor ts =
    let (mgr, session) = create (with_scrollback ℕ 8) 7 (1 ∷ 2 ∷ []) fake_handle in
    beq_bytes (read_under 8 mgr session (codes "0123456789" ∷ []) false ts).got (codes "23456789")

replays_scrollback_then_streams_live_lem : passed replays_scrollback_then_streams_live ≡ true
unfolding passed replays_scrollback_then_streams_live create ingest poll append
replays_scrollback_then_streams_live_lem = refl

resume_returns_same_session_and_replays_all_lem :
    passed resume_returns_same_session_and_replays_all ≡ true
unfolding passed resume_returns_same_session_and_replays_all create resume get insert ingest poll
    append
resume_returns_same_session_and_replays_all_lem = refl

reader_ends_when_session_closes_lem : passed reader_ends_when_session_closes ≡ true
unfolding passed reader_ends_when_session_closes next_turn create ingest ingest_end poll append
reader_ends_when_session_closes_lem = refl

forwards_input_to_ssh_lem : forwards_input_to_ssh ≡ true
unfolding forwards_input_to_ssh run
forwards_input_to_ssh_lem = refl

scrollback_is_bounded_and_advances_cursor_lem :
    passed scrollback_is_bounded_and_advances_cursor ≡ true
unfolding passed scrollback_is_bounded_and_advances_cursor create ingest poll append
scrollback_is_bounded_and_advances_cursor_lem = refl
