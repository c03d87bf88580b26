-- ===== src/Server/HttpHook/FailClosed.antt =====
-- What the control plane must have answered before a client is let in.
use tty_gateway.Base.{◌≡◌, refl, true, Option, Bytes, Text, codes, arith, Bool-cases, inl, inr}
use tty_gateway.Base.Results.{Result, ok, err}
use tty_gateway.Quota.Hook.{Entitlement, allowed}
use tty_gateway.Server.HttpHook.{
  authorize_request, session_open_request, AuthorizeResponse, SessionOpenResponse, Http,
  HttpAuthHook, post, authorize, authorize_sent, authorize_parsed, session_open, session_open_sent,
  session_open_parsed, token_string, lossy,
}

module _ {W Resp : Type 0} (http : Http W Resp) (h : HttpAuthHook) where
  -- The request was answered by a success whose body allows the client with this entitlement.
  pub record Granted (sent : Result Text Resp × W) (e : Entitlement) : Type 0 where
    pub response : Resp
    pub parsed : AuthorizeResponse
    pub answered : sent.0 ≡ ok response
    pub success : http.is_success response ≡ true
    pub read : (http.json_authorize response sent.1).0 ≡ ok parsed
    pub yes_said : parsed.allowed ≡ true
    pub granted : parsed.entitlement ≡ e

  parsed-allowed :
      (r : Result Text AuthorizeResponse) (e : Entitlement)
      → authorize_parsed http h r ≡ allowed e
      → (p : AuthorizeResponse) × (r ≡ ok p) × (p.allowed ≡ true) × (p.entitlement ≡ e)
  unfolding authorize_parsed
  parsed-allowed (err x) e g = absurd (ground arith)
  parsed-allowed (ok p) e g = elim (Bool-cases p.allowed) [
    | inl said ↦ (p, refl, said, ground (arith, said))
    | inr said ↦ absurd (ground (arith, said))
  ]

  sent-allowed :
      (r : Result Text Resp) (w : W) (e : Entitlement)
      → (authorize_sent http h (r, w)).0 ≡ allowed e
      → Granted (r, w) e
  unfolding authorize_sent
  sent-allowed (err x) w e g = absurd (ground arith)
  sent-allowed (ok response) w e g = elim (Bool-cases (http.is_success response)) [
    | inl fine ↦
        (let (p, read, said, is) =
            parsed-allowed (http.json_authorize response w).0 e (ground (arith, fine)) in
          record {
            response = response;
            parsed = p;
            answered = refl;
            success = fine;
            read = read;
            yes_said = said;
            granted = is;
          })
    | inr bad ↦ absurd (ground (arith, bad))
  ]

  -- A client is authorized only if the control plane answered the authorization request with a
  -- success whose body could be read and says that it is allowed, and then with exactly the
  -- entitlement of that body: an unreachable control plane, an error status and an unreadable body
  -- all deny.
  pub authorize-Granted :
      (w : W) (client_name : Text) (token : Option Bytes) (e : Entitlement)
      → (authorize http h w client_name token).0 ≡ allowed e
      → Granted
          (post http h (codes "/v1/authorize") (authorize_request client_name (lossy token)) w)
          e
  unfolding authorize
  authorize-Granted w client_name token e g = sent-allowed _ _ e g

  pub record Opened (sent : Result Text Resp × W) : Type 0 where
    pub response : Resp
    pub parsed : SessionOpenResponse
    pub answered : sent.0 ≡ ok response
    pub success : http.is_success response ≡ true
    pub read : (http.json_session_open response sent.1).0 ≡ ok parsed
    pub yes_said : parsed.allowed ≡ true

  opened-allowed :
      (r : Result Text SessionOpenResponse)
      → session_open_parsed http h r ≡ allowed tt
      → (p : SessionOpenResponse) × (r ≡ ok p) × (p.allowed ≡ true)
  unfolding session_open_parsed
  opened-allowed (err x) g = absurd (ground arith)
  opened-allowed (ok p) g = elim (Bool-cases p.allowed) [
    | inl said ↦ (p, refl, said)
    | inr said ↦ absurd (ground (arith, said))
  ]

  open_sent-allowed :
      (r : Result Text Resp) (w : W)
      → (session_open_sent http h (r, w)).0 ≡ allowed tt
      → Opened (r, w)
  unfolding session_open_sent
  open_sent-allowed (err x) w g = absurd (ground arith)
  open_sent-allowed (ok response) w g = elim (Bool-cases (http.is_success response)) [
    | inl fine ↦
        (let (p, read, said) =
            opened-allowed (http.json_session_open response w).0 (ground (arith, fine)) in
          record {
            response = response;
            parsed = p;
            answered = refl;
            success = fine;
            read = read;
            yes_said = said;
          })
    | inr bad ↦ absurd (ground (arith, bad))
  ]

  -- A session is let open only if the control plane answered with a success whose body could be read
  -- and says that it is allowed.
  pub session_open-Opened :
      (w : W) (token : Option Bytes) (session_id client_name : Text)
      → (session_open http h w token session_id client_name).0 ≡ allowed tt
      → Opened (
          post http h
            (codes "/v1/sessions/open")
            (session_open_request (token_string token) session_id client_name)
            w)
  unfolding session_open
  session_open-Opened w token session_id client_name g = open_sent-allowed _ _ g
