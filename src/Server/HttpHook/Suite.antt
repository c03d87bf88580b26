-- ===== src/Server/HttpHook/Suite.antt =====
-- The unit tests of crates/gw-server/src/http_hook.rs. The server of the tests answers every request
-- with a success and one body, which is given here as what `serde_json` reads of it.
use tty_gateway.Base.{
  ℕ, ◌≡◌, refl, Bool, true, false, ◌&&◌, ◌||◌, Option, none, some, [], ◌∷◌, Text, codes, length,
  take, ◌==◌,
}
use tty_gateway.Base.Map.{beq_bytes}
use tty_gateway.Base.Results.{ok}
use tty_gateway.Quota.Hook.{Answer, allowed, denied, denied_text, unlimited}
use tty_gateway.Server.HttpHook.{
  AuthorizeResponse, SessionOpenResponse, Http, new, authorize, session_open,
}

-- `str::contains`
contains : Text → Text → Bool
contains [] part = beq_bytes [] part
contains (b ∷ bs) part = beq_bytes (take (length part) (b ∷ bs)) part || contains bs part

-- The two bodies that a test may have to answer with.
abbrev mock : AuthorizeResponse → SessionOpenResponse → Http (Unit {0}) (Unit {0})
mock to_authorize to_session_open = record {
  send = λ url key body w. (ok tt, w);
  is_success = λ response. true;
  status = λ response. codes "200 OK";
  json_authorize = λ response w. (ok to_authorize, w);
  json_session_open = λ response w. (ok to_session_open, w);
}

-- The body of a test that does not ask for it.
abbrev no_authorize : AuthorizeResponse
no_authorize = record { allowed = false; reason = none; entitlement = unlimited }

abbrev no_session_open : SessionOpenResponse
no_session_open = record { allowed = false; reason = none }

is_some_of : Option ℕ → ℕ → Bool
is_some_of none n = false
is_some_of (some m) n = m == n

-- `unwrap_err`, and what the text of the error holds.
denial_contains : {A : Type 0} → Answer A → Text → Bool
unfolding contains
denial_contains (allowed a) part = false
denial_contains (denied d) part = contains (denied_text d) part

allowed_maps_entitlement : Bool
unfolding is_some_of
allowed_maps_entitlement =
    let body : AuthorizeResponse = record {
      allowed = true;
      reason = none;
      entitlement = record { max_bytes_per_sec = some 1000; max_sessions = some 5 };
    } in
    elim (authorize (mock body no_session_open) (new (codes "http://127.0.0.1:4000") none) tt
      (codes "ipad") (some (codes "tok-123"))).0 [
        | allowed e ↦ is_some_of e.max_bytes_per_sec 1000 && is_some_of e.max_sessions 5
        | denied d ↦ false
      ]

denied_relays_reason : Bool
unfolding denial_contains
denied_relays_reason =
    let body : AuthorizeResponse = record {
      allowed = false;
      reason = some (codes "over session quota");
      entitlement = unlimited;
    } in
    denial_contains
      (authorize (mock body no_session_open) (new (codes "http://127.0.0.1:4000") none) tt
        (codes "ipad") none).0
      (codes "over session quota")

session_open_refused_is_denied : Bool
unfolding denial_contains
session_open_refused_is_denied =
    let body : SessionOpenResponse = record {
      allowed = false;
      reason = some (codes "session limit reached (3 concurrent)");
    } in
    denial_contains
      (session_open (mock no_authorize body)
        (new (codes "http://127.0.0.1:4000") (some (codes "secret"))) tt (some (codes "tok"))
        (codes "sess-1") (codes "ipad")).0
      (codes "session limit reached")

base_url_is_normalized : Bool
base_url_is_normalized =
    beq_bytes (new (codes "http://cp:8080/v1/authorize") none).base (codes "http://cp:8080")
    && beq_bytes (new (codes "http://cp:8080/") none).base (codes "http://cp:8080")

allowed_maps_entitlement_lem : allowed_maps_entitlement ≡ true
unfolding allowed_maps_entitlement authorize
allowed_maps_entitlement_lem = refl

denied_relays_reason_lem : denied_relays_reason ≡ true
unfolding denied_relays_reason authorize
denied_relays_reason_lem = refl

session_open_refused_is_denied_lem : session_open_refused_is_denied ≡ true
unfolding session_open_refused_is_denied session_open
session_open_refused_is_denied_lem = refl

base_url_is_normalized_lem : base_url_is_normalized ≡ true
unfolding base_url_is_normalized new
base_url_is_normalized_lem = refl
