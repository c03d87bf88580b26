-- ===== src/Quota/Hook.antt =====
-- `Entitlement`, `Denied` and the trait `AuthHook` of crates/gw-core/src/quota.rs, with `AllowAll`.
-- What a hook keeps or talks to is its state `S`; each call takes it and returns it.
use tty_gateway.Base.{ℕ, Option, none, ◌++◌, Bytes, Text, codes}

pub record Entitlement : Type 0 where
  pub max_bytes_per_sec : Option ℕ
  pub max_sessions : Option ℕ

abbrev pub unlimited : Entitlement
unlimited = record { max_bytes_per_sec = none; max_sessions = none }

pub record Denied : Type 0 where
  pub reason : Text

-- `Display` of `Denied`.
abbrev pub denied_text : Denied → Text
denied_text d = codes "authorization denied: " ++ d.reason

pub data Answer (A : Type 0) : Type 0 where
  allowed : A → Answer A
  denied : Denied → Answer A

pub record AuthHook (S : Type 0) : Type 0 where
  pub authorize : S → Text → Option Bytes → Answer Entitlement × S
  pub session_open : S → Option Bytes → Text → Text → Answer (Unit {0}) × S
  pub session_close : S → Option Bytes → Text → S
  pub report_usage : S → Option Bytes → Text → ℕ → ℕ → S

-- The trait's default methods around an `authorize`.
abbrev pub minimal_hook :
    {S : Type 0} → (S → Text → Option Bytes → Answer Entitlement × S) → AuthHook S
minimal_hook authorize = record {
  authorize = authorize;
  session_open = λ s token id name. (allowed tt, s);
  session_close = λ s token id. s;
  report_usage = λ s token id bytes_in bytes_out. s;
}

abbrev pub allow_all : {S : Type 0} → AuthHook S
allow_all = minimal_hook (λ s name token. (allowed unlimited, s))
