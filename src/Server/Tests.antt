-- ===== src/Server/Tests.antt =====
-- A server whose calls all succeed, and the theorems of this component at it.
use tty_gateway.Base.{
  ℕ, ◌*◌, ◌%◌, ◌^◌, ◌++◌, All, arith, ◌≡◌, refl, true, Option, none, some, List, [], ◌∷◌, codes,
}
use tty_gateway.Base.Results.{ok}
use tty_gateway.Base.Action.{◌>>=◌}
use tty_gateway.Proto.Frame.{
  TargetSpec, ClientFrame, hello, open_shell, ping, password, sign_response,
}
use tty_gateway.Core.Registry.{new, create}
use tty_gateway.Quota.Hook.{allow_all}
use tty_gateway.Ssh.Client.{Russh, done, ask}
use tty_gateway.Ssh.Open.{connect, authenticate, finish_open, open_with}
use tty_gateway.Server.Conn.{Event, Conn, Env, recv, send}
use tty_gateway.Server.Conn.Says.{Says}
use tty_gateway.Server.Signer.{open_for_auth}
use tty_gateway.Server.Signer.{await_signature}
use tty_gateway.Server.Signer.Matching.{
  Matches, IsPassedOver, stale, alive, await_signature-Matches, await_signature-append,
}
use tty_gateway.Quota.Float.Fixed.{fixed, billion}
use tty_gateway.Quota.Bucket.{TokenBucket, time_until}
use tty_gateway.Server.Serve.Throttle.{returns, Holds, throttle_wakes}
use tty_gateway.Quota.Float.Rounds.{fixed_rounds}
use tty_gateway.Quota.Meter.{UsageMeter}
use tty_gateway.Proto.Frame.{input}
use tty_gateway.Server.Serve.{
  chunks, serve, begin, Turn, handle_connection, receiver, oobs, client_detached,
}
use tty_gateway.Server.Serve.Usage.{to_shell, to_client, sum, serve-usage}
use tty_gateway.Server.Serve.Account.{AsksFor, handle_connection-AsksFor}
use tty_gateway.Server.Serve.Report.{Reported, handle_connection-Reported}
use tty_gateway.Server.Serve.Input.{all_input, serve-input}
use tty_gateway.Server.Negotiate.{Negotiated, negotiate}
use tty_gateway.Server.Negotiate.Conversation.{Conversation}
use tty_gateway.Server.Negotiate.Protocol.{negotiate-Conversation}

abbrev pub willing : {S : Type 0} → Russh S ℕ ℕ ℕ ℕ
willing = record {
  connect = λ host port check cell s.
      let (_, cell') = check cell (codes "SHA256:x") in ((ok 1, cell'), s);
  authenticate_password = λ h user secret s. (ok true, s);
  decode_secret_key = λ pem passphrase. ok 2;
  authenticate_publickey = λ h user key s. (ok true, s);
  from_openssh = λ line. ok 3;
  to_openssh = λ key. ok (codes "ssh-ed25519 A");
  authenticate_publickey_with = λ h user key s. (ask 3 none (7 ∷ []) (λ _. done (ok true)), s);
  channel_open_session = λ h s. (ok 4, s);
  request_pty = λ ch term cols rows s. (ok tt, s);
  request_shell = λ ch s. (ok tt, s);
}

abbrev pub server : Env (Unit {0}) ℕ ℕ ℕ ℕ ℕ
server = record {
  wait = λ w. w;
  gone = codes "closed";
  send = λ frame w. (ok tt, w);
  hook = allow_all;
  russh = willing;
  spawn = λ ssh w. (record { input = 5; server_fingerprint = ssh.server_fingerprint }, w);
  new_session_id = λ w. (7, w);
  new_resume_token = λ w. (1 ∷ 2 ∷ [], w);
  send_input = λ tx input w. (true, w);
  debug = λ frame. codes "frame";
  others = λ w m. m;
}

abbrev pub target : TargetSpec
target = record { host = codes "box"; port = 22; user = codes "root" }

abbrev arriving : List ClientFrame → Conn (Unit {0}) ℕ
arriving frames = record { world = tt; manager = new ℕ; inbox = frames; log = [] }

abbrev pub by_password : Conn (Unit {0}) ℕ
by_password =
    arriving
      (hello 1 (codes "cli") none none ∷ open_shell target (password (codes "pw")) 80 24 ∷ [])

abbrev signing : Conn (Unit {0}) ℕ
signing = arriving (ping ∷ sign_response 9 (8 ∷ []) ∷ sign_response 1 (6 ∷ []) ∷ [])

-- The connection after the negotiation, and what came of it.
unfoldable pub negotiated : Conn (Unit {0}) ℕ
negotiated = (negotiate server by_password).1

abbrev pub live : Negotiated
live = record {
  session = 0;
  entitlement = record { max_bytes_per_sec = none; max_sessions = none };
  account_token = none;
}

abbrev pub live_session : Option Negotiated
live_session = some live

pub succeeds : negotiate server by_password ≡ (ok live_session, negotiated)
unfolding negotiated negotiate recv send ◌>>=◌ open_for_auth connect authenticate finish_open
    open_with create
succeeds = refl

negotiate-Conversation_example : Says Conversation by_password live_session negotiated
negotiate-Conversation_example =
    negotiate-Conversation server by_password negotiated live_session succeeds

-- A keepalive and a late answer, then the answer to request 1, then a keepalive.
abbrev passed : List ClientFrame
passed = ping ∷ sign_response 9 (8 ∷ []) ∷ []

passed-IsPassedOver : All (IsPassedOver 1) passed
passed-IsPassedOver = (alive, (stale 9 (8 ∷ []) (omega arith), tt))

await_signature-append_example :
    await_signature server 1 (passed ++ (sign_response 1 (6 ∷ []) ∷ ping ∷ []))
    ≡ (ok (6 ∷ []), ping ∷ [])
await_signature-append_example =
    await_signature-append server 1 passed (ping ∷ []) (6 ∷ []) passed-IsPassedOver

await_signature-Matches_example :
    Matches server 1 (ping ∷ sign_response 1 (6 ∷ []) ∷ ping ∷ []) (6 ∷ []) (ping ∷ [])
unfolding await_signature
await_signature-Matches_example =
    await_signature-Matches server 1 (ping ∷ sign_response 1 (6 ∷ []) ∷ ping ∷ []) (ping ∷ [])
      (6 ∷ []) refl

abbrev pub shell : Negotiated
shell = record {
  session = 0;
  entitlement = record { max_bytes_per_sec = some 100; max_sessions = none };
  account_token = none;
}

-- A manager with one session, and a client that types and then leaves.
unfoldable pub typing : Conn (Unit {0}) ℕ
unfolding create
typing = record (arriving (input (codes "ls") ∷ ping ∷ [])) {
  manager = (create (new ℕ) 7 (1 ∷ []) (record { input = 5; server_fingerprint = none })).0;
}

abbrev turns : List (Turn fixed (λ w. 0) server)
turns = receiver ∷ receiver ∷ oobs ∷ receiver ∷ []

serve-usage_example :
    let s = serve fixed (λ w. 0) server turns (begin fixed (λ w. 0) server shell typing) in
    (said : List Event) × (s.conn.log ≡ typing.log ++ said)
    × (s.meter.bytes_in ≡ sum to_shell said % 2 ^ 64)
    × (s.meter.bytes_out ≡ sum to_client said % 2 ^ 64)
serve-usage_example = serve-usage fixed (λ w. 0) server turns shell typing

abbrev two_in : UsageMeter
two_in = record { bytes_in = 2; bytes_out = 0 }

serve-input_example :
    all_input fixed
      (λ w. 0)
      server
      (serve fixed (λ w. 0) server turns (begin fixed (λ w. 0) server shell typing)).conn
    ≡ all_input fixed (λ w. 0) server typing
serve-input_example =
    serve-input fixed (λ w. 0) server turns (begin fixed (λ w. 0) server shell typing)

abbrev leaves : List (Turn fixed (λ w. 0) server)
leaves = receiver ∷ []

-- The sender task looks for output once more.
abbrev late : List (Turn fixed (λ w. 0) server)
late = chunks ∷ []

left :
    (serve fixed (λ w. 0) server leaves (begin fixed (λ w. 0) server live negotiated)).outcome
    ≡ some client_detached
unfolding negotiated serve negotiate recv send ◌>>=◌ open_for_auth connect authenticate finish_open
    open_with create
left = refl

handle_connection-Reported_example :
    Reported fixed
      (λ w. 0)
      server
      live
      negotiated
      (serve fixed (λ w. 0) server leaves (begin fixed (λ w. 0) server live negotiated))
      (handle_connection fixed (λ w. 0) server leaves late by_password)
handle_connection-Reported_example =
    handle_connection-Reported fixed (λ w. 0) server leaves late by_password negotiated live
      client_detached succeeds left

handle_connection-AsksFor_example :
    AsksFor fixed
      (λ w. 0)
      server
      live.account_token
      by_password
      (handle_connection fixed (λ w. 0) server leaves late by_password)
handle_connection-AsksFor_example =
    handle_connection-AsksFor fixed (λ w. 0) server leaves late by_password negotiated live succeeds

-- An empty bucket of 10 bytes per second and of 10 bytes, which is asked for 5 bytes twice.
abbrev empty : TokenBucket fixed.Num
unfolding fixed
empty = record { capacity = 10 * billion; tokens = 0; rate = 10 * billion }

empty-Holds : Holds fixed fixed_rounds 10 5 empty
unfolding fixed fixed_rounds
empty-Holds = record {
  rate_is = refl;
  valid = record { full = refl; nonneg = refl; room = refl; flows = refl };
  room = refl;
  small = omega arith;
}

throttle_wakes_example : returns fixed (some (empty, 100)) 100 (500000000 ∷ 2 ∷ []) 5 ≡ true
throttle_wakes_example =
    throttle_wakes fixed fixed_rounds 10 empty 100 500000000 2 5 (omega arith) empty-Holds
      (unfold time_until fixed in omega arith) (unfold fixed_rounds in omega arith)
