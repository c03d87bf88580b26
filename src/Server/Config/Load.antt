-- ===== src/Server/Config/Load.antt =====
-- What decides how the gateway authorizes its clients.
use tty_gateway.Base.{◌≡◌, ◌≢◌, refl, subst, fun_ext, Option, some, [], ◌∷◌, Text, codes, arith}
use tty_gateway.Base.Results.{Result, ok, err}
use tty_gateway.Server.Config.{
  Config, Host, override, load, overridden, control_plane, or_else, authority_at, authority,
}

override_set :
    (v : Option Text) (url : Text) → v ≡ some url → url ≢ [] → override v ≡ (λ old. some url)
unfolding override
override_set v [] e ne = absurd (ne refl)
override_set v (b ∷ bs) e ne = rw e (fun_ext (λ old. refl))

by_environment :
    (host : Host) (url key : Text) (loaded : Result Text Config) (config : Config)
    → override (host.var (codes "SHARK_CONTROL_PLANE_URL")) ≡ (λ old. some url)
    → override (host.var (codes "SHARK_GATEWAY_KEY")) ≡ (λ old. some key)
    → overridden host loaded ≡ ok config
    → authority config ≡ control_plane url (some key)
unfolding overridden authority or_else authority_at
by_environment host url key (err e) config u k h = absurd (ground arith)
by_environment host url key (ok c) config u k h =
    subst (λ d. elim d [ ok x ↦ authority x ≡ control_plane url (some key) | err e ↦ Unit {0} ]) h
      (rw u (rw k refl))

-- A control plane that the environment names is the one that is asked, with the key of the
-- environment if it has one, whatever the file says, as long as the configuration loads at all.
pub authority-load :
    (host : Host) (path url key : Text) (config : Config)
    → host.var (codes "SHARK_CONTROL_PLANE_URL") ≡ some url
    → url ≢ []
    → host.var (codes "SHARK_GATEWAY_KEY") ≡ some key
    → key ≢ []
    → load host path ≡ ok config
    → authority config ≡ control_plane url (some key)
unfolding load
authority-load host path url key config u nu k nk loaded =
    by_environment host url key _ config (override_set _ url u nu) (override_set _ key k nk) loaded
