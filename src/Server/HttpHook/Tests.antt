-- ===== src/Server/HttpHook/Tests.antt =====
-- A control plane that answers by its state, and the theorems of this component at it.
use tty_gateway.Base.{ℕ, suc, ◌≡◌, refl, true, none, some, [], ◌∷◌, codes, ◌==◌}
use tty_gateway.Base.Results.{ok}
use tty_gateway.Base.Utf8.{from_utf8_lossy}
use tty_gateway.Quota.Hook.{Entitlement}
use tty_gateway.Server.HttpHook.{
  authorize_request, session_open_request, Http, HttpAuthHook, new, token_string, lossy, post,
  authorize, session_open, report_usage,
}
use tty_gateway.Server.HttpHook.FailClosed.{Granted, authorize-Granted, Opened, session_open-Opened}

-- A truncated character, and a byte that begins none.
replaces :
    from_utf8_lossy (97 ∷ 0xe2 ∷ 0x82 ∷ 98 ∷ 0xff ∷ [])
    ≡ 97 ∷ 0xef ∷ 0xbf ∷ 0xbd ∷ 98 ∷ 0xef ∷ 0xbf ∷ 0xbd ∷ []
unfolding from_utf8_lossy
replaces = refl

keeps : from_utf8_lossy (0xe2 ∷ 0x82 ∷ 0xac ∷ 33 ∷ []) ≡ 0xe2 ∷ 0x82 ∷ 0xac ∷ 33 ∷ []
unfolding from_utf8_lossy
keeps = refl

strips : (new (codes "http://cp:8080/v1/authorize") none).base ≡ codes "http://cp:8080"
unfolding new
strips = refl

trims : (new (codes "http://cp:8080//") none).base ≡ codes "http://cp:8080"
unfolding new
trims = refl

-- A slash behind the suffix hides it.
keeps_suffix : (new (codes "http://cp/v1/authorize/") none).base ≡ codes "http://cp/v1/authorize"
unfolding new
keeps_suffix = refl

abbrev gold : Entitlement
gold = record { max_bytes_per_sec = some 1000; max_sessions = some 5 }

-- The response is its status; the state counts the requests.
abbrev plane : Http ℕ ℕ
plane = record {
  send = λ url key body w. (ok 200, suc w);
  is_success = λ response. response == 200;
  status = λ response. codes "status";
  json_authorize =
      λ response w. (ok (record { allowed = true; reason = none; entitlement = gold }), w);
  json_session_open = λ response w. (ok (record { allowed = true; reason = none }), w);
}

abbrev hook : HttpAuthHook
hook = record { base = codes "http://cp"; key = some (codes "k") }

silent : report_usage plane hook 7 none (codes "1") 0 0 ≡ 7
unfolding report_usage
silent = refl

authorize-Granted_example :
    Granted plane hook
      (post plane hook
        (codes "/v1/authorize")
        (authorize_request (codes "ipad") (lossy (some (codes "tok"))))
        0)
      gold
unfolding authorize
authorize-Granted_example =
    authorize-Granted plane hook 0 (codes "ipad") (some (codes "tok")) gold refl

session_open-Opened_example : Opened plane hook (
    post plane hook
      (codes "/v1/sessions/open")
      (session_open_request (token_string none) (codes "1") (codes "ipad"))
      0)
unfolding session_open
session_open-Opened_example = session_open-Opened plane hook 0 none (codes "1") (codes "ipad") refl
