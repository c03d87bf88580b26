-- ===== src/Server/Serve/Tests.antt =====
-- A session that others give output while its client types, and a client that comes back to it.
use tty_gateway.Base.{ℕ, none, [], ◌∷◌}
use tty_gateway.Core.Scrollback.{default_scrollback_bytes}
use tty_gateway.Core.Registry.{Session, spawn}

abbrev pub session : Session ℕ
session =
    spawn 7 (1 ∷ []) (record { input = 5; server_fingerprint = none }) default_scrollback_bytes
