-- ===== src/Core/Registry.antt =====
-- `Session` and `SessionManager` of crates/gw-core/src/lib.rs: the registry of live sessions, by id
-- and by resume token. `Arc<Session>` is an address in `heap`: whoever holds the address still sees
-- the session after `remove`. The sender half of the SSH actor's input channel is tokio's, so its
-- type is a parameter; ids and tokens come from `uuid` and `rand`, and are arguments of `create`.
pub mod Invariant
pub mod View
pub mod Reach
pub mod Evolves
pub mod Calm
pub mod Table
pub mod Directory
use tty_gateway.Base.{
  ℕ, ◌≡◌, Bool, false, Option, none, some, List, [], ◌∷◌, ◌++◌, Bytes, Text, length, get_elem?, set,
  ◌==◌,
}
use tty_gateway.Base.Map.{Map, get, insert, remove as erase, nat_eq, bytes_eq}
use tty_gateway.Core.Scrollback.{
  SessionInner, fresh, append, close as close_inner, default_scrollback_bytes,
}
use tty_gateway.Core.Reader.{SessionReader}

-- `SshHandle`, without the receiver of the output: what comes out of it are the calls of `ingest`
-- and `ingest_end`.
pub record SshHandle (Tx : Type 0) : Type 0 where
  pub input : Tx
  pub server_fingerprint : Option Text

pub record Session (Tx : Type 0) : Type 0 where
  pub id : ℕ
  pub resume_token : Bytes
  pub server_fingerprint : Option Text
  pub input : Tx
  pub inner : SessionInner

pub record Registry : Type 0 where
  pub by_id : Map ℕ ℕ
  pub by_token : Map Bytes ℕ

pub record SessionManager (Tx : Type 0) : Type 0 where
  pub inner : Registry
  pub open inner use *
  pub max_scrollback : ℕ
  pub heap : List (Session Tx)

abbrev pub with_scrollback : (Tx : Type 0) → ℕ → SessionManager Tx
with_scrollback Tx max_scrollback = record {
  inner = record { by_id = []; by_token = [] };
  max_scrollback = max_scrollback;
  heap = [];
}

abbrev pub new : (Tx : Type 0) → SessionManager Tx
new Tx = with_scrollback Tx default_scrollback_bytes

-- `session.reader()`, at the session's address.
abbrev pub reader : ℕ → SessionReader
reader session = record { session = session; cursor = 0 }

module _ {Tx : Type 0} where
  abbrev pub spawn : ℕ → Bytes → SshHandle Tx → ℕ → Session Tx
  spawn id resume_token ssh max_bytes = record {
    id = id;
    resume_token = resume_token;
    server_fingerprint = ssh.server_fingerprint;
    input = ssh.input;
    inner = fresh max_bytes;
  }

  -- The id and the token of the session at an address. An `Arc` always leads to a session, so the
  -- answer where there is none is never used.
  abbrev pub id_of : List (Session Tx) → ℕ → ℕ
  id_of heap session = elim (get_elem? heap session) [ none ↦ 0 | some s ↦ s.id ]

  abbrev pub token_of : List (Session Tx) → ℕ → Bytes
  token_of heap session = elim (get_elem? heap session) [ none ↦ [] | some s ↦ s.resume_token ]

  -- The new manager and the address of the new session.
  unfoldable pub create : SessionManager Tx → ℕ → Bytes → SshHandle Tx → SessionManager Tx × ℕ
  create m id token ssh =
      let session = length m.heap in
      (
        record m {
          inner = record {
            by_id = insert m.by_id id session;
            by_token = insert m.by_token token id;
          };
          heap = m.heap ++ (spawn id token ssh m.max_scrollback ∷ []);
        },
        session,
      )

  -- `reg.by_id.get(id).cloned()`
  by_id_of : SessionManager Tx → Option ℕ → Option ℕ
  by_id_of m none = none
  by_id_of m (some id) = get m.by_id id

  unfoldable pub resume : SessionManager Tx → Bytes → Option ℕ
  unfolding by_id_of
  resume m token = by_id_of m (get m.by_token token)

  -- `reg.by_token.remove(&session.resume_token)`
  forget_token : List (Session Tx) → Option ℕ → Map Bytes ℕ → Map Bytes ℕ
  forget_token heap none tokens = tokens
  forget_token heap (some session) tokens = elim (get_elem? heap session) [
    | none ↦ tokens
    | some s ↦ erase tokens s.resume_token
  ]

  unfoldable pub remove : SessionManager Tx → ℕ → SessionManager Tx
  unfolding forget_token
  remove m id = record m {
    inner = record {
      by_id = erase m.by_id id;
      by_token = forget_token m.heap (get m.by_id id) m.by_token;
    };
  }

  unfoldable pub len : SessionManager Tx → ℕ
  len m = length m.by_id

  unfoldable pub is_empty : SessionManager Tx → Bool
  unfolding len
  is_empty m = len m == 0

  -- A change of the session at an address, seen by all who hold it.
  unfoldable pub update : SessionManager Tx → ℕ → (Session Tx → Session Tx) → SessionManager Tx
  update m session f = elim (get_elem? m.heap session) [
    | none ↦ m
    | some s ↦ record m { heap = set m.heap session (f s) }
  ]

  -- One message of the output channel, in the loop of `spawn_ingest`.
  unfoldable pub ingest : SessionManager Tx → ℕ → Bytes → SessionManager Tx
  unfolding update
  ingest m session bytes = update m session (λ s. record s { inner = append s.inner bytes })

  -- The channel is closed: the end of `spawn_ingest`.
  unfoldable pub ingest_end : SessionManager Tx → ℕ → SessionManager Tx
  unfolding update
  ingest_end m session = update m session (λ s. record s { inner = close_inner s.inner })

  unfoldable pub is_closed : SessionManager Tx → ℕ → Bool
  is_closed m session = elim (get_elem? m.heap session) [ none ↦ false | some s ↦ s.inner.closed ]
