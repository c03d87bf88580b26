-- ===== src/Server/HttpHook.antt =====
-- `HttpAuthHook` of crates/gw-server/src/http_hook.rs. `reqwest` and `serde_json` are parameters: what is
-- sent is a request with the fields of the source's structs, and what comes back is a response that can
-- be read as JSON.
pub mod FailClosed
pub mod BaseUrl
pub mod Tests
mod Suite
use tty_gateway.Base.{
  ℕ, ◌-◌, ◌==◌, ◌&&◌, Bool, true, false, Option, none, some, List, [], ◌∷◌, ◌++◌, Bytes, Text,
  codes, length, take, drop, leb, if◌then◌else◌,
}
use tty_gateway.Base.Map.{beq_bytes}
use tty_gateway.Base.Results.{Result, ok, err}
use tty_gateway.Base.Utf8.{from_utf8_lossy}
use tty_gateway.Quota.Hook.{Entitlement, Denied, Answer, allowed, denied, AuthHook}

-- The bodies of the requests.
pub data Request : Type 0 where
  -- client_name, account_token
  authorize_request : Text → Option Text → Request
  -- account_token, session_id, client_name
  session_open_request : Text → Text → Text → Request
  -- account_token, session_id
  session_close_request : Text → Text → Request
  -- account_token, session_id, bytes_in, bytes_out
  usage_report : Text → Text → ℕ → ℕ → Request

pub record AuthorizeResponse : Type 0 where
  pub allowed : Bool
  pub reason : Option Text
  pub entitlement : Entitlement

pub record SessionOpenResponse : Type 0 where
  pub allowed : Bool
  pub reason : Option Text

-- URL, `x-gateway-key`, body; errors as their texts.
pub record Http (W Resp : Type 0) : Type 0 where
  pub send : Text → Option Text → Request → W → Result Text Resp × W
  pub is_success : Resp → Bool
  pub status : Resp → Text
  pub json_authorize : Resp → W → Result Text AuthorizeResponse × W
  pub json_session_open : Resp → W → Result Text SessionOpenResponse × W

-- `str::strip_suffix`
unfoldable pub strip_suffix : Text → Text → Option Text
strip_suffix suffix s =
    let n = length s - length suffix in
    if leb (length suffix) (length s) && beq_bytes (drop n s) suffix then some (take n s) else none

-- `/`
abbrev pub slash : ℕ
slash = 47

-- A byte in front of a text from which the trailing slashes were popped.
keep_byte : ℕ → Text → Text
keep_byte b [] = if b == slash then [] else b ∷ []
keep_byte b (c ∷ cs) = b ∷ c ∷ cs

-- `while base.ends_with('/') { base.pop(); }`
unfoldable pub pop_slashes : Text → Text
unfolding keep_byte
pop_slashes [] = []
pop_slashes (b ∷ bs) = keep_byte b (pop_slashes bs)

pub record HttpAuthHook : Type 0 where
  pub base : Text
  pub key : Option Text

unfoldable pub without_suffix : Text → Option Text → Text
without_suffix base none = base
without_suffix base (some stripped) = stripped

-- `HttpAuthHook::new`
unfoldable pub new : Text → Option Text → HttpAuthHook
unfolding without_suffix strip_suffix pop_slashes
new base key = record {
  base = pop_slashes (without_suffix base (strip_suffix (codes "/v1/authorize") base));
  key = key;
}

-- `HttpAuthHook::token_string`
unfoldable pub token_string : Option Bytes → Text
token_string none = []
token_string (some token) = from_utf8_lossy token

unfoldable pub lossy : Option Bytes → Option Text
lossy none = none
lossy (some token) = some (from_utf8_lossy token)

-- `unwrap_or_else`
abbrev reason_or : Text → Option Text → Text
reason_or text none = text
reason_or text (some reason) = reason

abbrev pub deny : (A : Type 0) → Text → Answer A
deny A reason = denied (record { reason = reason })

module _ {W Resp : Type 0} (http : Http W Resp) (h : HttpAuthHook) where
  unfoldable pub post : Text → Request → W → Result Text Resp × W
  post path body w = http.send (h.base ++ path) h.key body w

  authorize_parsed : Result Text AuthorizeResponse → Answer Entitlement
  authorize_parsed (err e) = deny _ (codes "bad control-plane response: " ++ e)
  authorize_parsed (ok parsed) =
      if parsed.allowed
      then allowed parsed.entitlement
      else deny _ (reason_or (codes "authorization denied") parsed.reason)

  authorize_sent : Result Text Resp × W → Answer Entitlement × W
  unfolding authorize_parsed
  authorize_sent (err e, w) = (deny _ (codes "control plane unreachable: " ++ e), w)
  authorize_sent (ok response, w) =
      let (parsed, w') = http.json_authorize response w in
      if http.is_success response
      then (authorize_parsed parsed, w')
      else (deny _ (codes "control plane returned " ++ http.status response), w)

  unfoldable pub authorize : W → Text → Option Bytes → Answer Entitlement × W
  unfolding authorize_sent post lossy
  authorize w client_name account_token =
      authorize_sent
        (post (codes "/v1/authorize") (authorize_request client_name (lossy account_token)) w)

  session_open_parsed : Result Text SessionOpenResponse → Answer (Unit {0})
  session_open_parsed (err e) = deny _ (codes "bad control-plane response: " ++ e)
  session_open_parsed (ok parsed) =
      if parsed.allowed
      then allowed tt
      else deny _ (reason_or (codes "session refused") parsed.reason)

  session_open_sent : Result Text Resp × W → Answer (Unit {0}) × W
  unfolding session_open_parsed
  session_open_sent (err e, w) = (deny _ (codes "control plane unreachable: " ++ e), w)
  session_open_sent (ok response, w) =
      let (parsed, w') = http.json_session_open response w in
      if http.is_success response
      then (session_open_parsed parsed, w')
      else (deny _ (codes "control plane returned " ++ http.status response), w)

  unfoldable pub session_open : W → Option Bytes → Text → Text → Answer (Unit {0}) × W
  unfolding session_open_sent post token_string
  session_open w account_token session_id client_name = session_open_sent (
      post (codes "/v1/sessions/open")
        (session_open_request (token_string account_token) session_id client_name) w)

  -- A failure is only logged.
  unfoldable pub session_close : W → Option Bytes → Text → W
  unfolding post token_string
  session_close w account_token session_id =
      (post (codes "/v1/sessions/close")
        (session_close_request (token_string account_token) session_id) w).1

  unfoldable pub report_usage : W → Option Bytes → Text → ℕ → ℕ → W
  unfolding post token_string
  report_usage w account_token session_id bytes_in bytes_out =
      if (bytes_in == 0) && (bytes_out == 0)
      then w
      else (post (codes "/v1/usage")
          (usage_report (token_string account_token) session_id bytes_in bytes_out) w).1

  -- `impl AuthHook for HttpAuthHook`
  abbrev pub http_hook : AuthHook W
  http_hook = record {
    authorize = authorize;
    session_open = session_open;
    session_close = session_close;
    report_usage = report_usage;
  }
