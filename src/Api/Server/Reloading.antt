-- ===== src/Api/Server/Reloading.antt =====
-- Reload of internal/api/api.go on success and on failure.
use proxs.Config.Daemon.{DaemonConfig}
use proxs.Prelude.{
  [], ◌≡◌, refl, sym, ap, ◌⊎◌, inl, inr, Bool, true, false, Option, none, some, List, Option-cases,
  eq_refl, nat_eq, list_eq, Text,
}
use proxs.FilePath.{FilePath}
use proxs.Config.{ProxyConfig, StorageConfig}
use proxs.Api.Server.{
  make_health, Server, make_clients, init_clients, cache_changed, reload, DaemonConfig,
}

unchanged : (cfg : DaemonConfig) → cache_changed cfg cfg ≡ false
unfolding cache_changed
unchanged cfg = rw (eq_refl cfg.cache_dir, eq_refl cfg.cache_max_mb) refl

module _ {ℓ} {Client : Type ℓ} (new_client : ProxyConfig → StorageConfig → Option Client) where
  reload-failed :
      (can_make : FilePath → Bool) (cfg : DaemonConfig) (s : Server Client)
      → make_clients new_client cfg.proxy cfg.storages [] ≡ none
      → reload new_client can_make cfg s ≡ (false, s)
  unfolding reload init_clients
  reload-failed can_make cfg s n = rw (n, reload, init_clients) refl

  reload-made :
      (can_make : FilePath → Bool) (cfg : DaemonConfig) (s : Server Client)
      (cs : List (Text × Client))
      → make_clients new_client cfg.proxy cfg.storages [] ≡ some cs
      → reload new_client can_make cfg s
        ≡ (true, record s { cfg = cfg; clients = cs; health = make_health cfg.storages [] })
  unfolding reload init_clients
  reload-made can_make cfg s cs e = rw (e, reload, init_clients, unchanged cfg) refl

  -- A reload fails only if a client cannot be made, and then changes nothing; otherwise it takes
  -- over the configuration and makes its clients anew, with the proxies of the new configuration,
  -- and leaves the cache with the directory and the limit that it had.
  pub reload-outcome :
      (can_make : FilePath → Bool) (cfg : DaemonConfig) (s : Server Client)
      → let (succeeded, s') = reload new_client can_make cfg s in
        ((make_clients new_client cfg.proxy cfg.storages [] ≡ none)
          × (succeeded ≡ false)
          × (s' ≡ s))
        ⊎ (succeeded ≡ true)
          × (some s'.clients ≡ make_clients new_client cfg.proxy cfg.storages [])
          × (s'.cfg ≡ cfg)
          × (s'.cache ≡ s.cache)
  reload-outcome can_make cfg s =
      elim (Option-cases (make_clients new_client cfg.proxy cfg.storages [])) [
        | inl n ↦ inl (
          n,
          ap (λ x. x.0) (reload-failed can_make cfg s n),
          ap (λ x. x.1) (reload-failed can_make cfg s n),
        )
        | inr (cs, e) ↦ inr (rw (reload-made can_make cfg s cs e) (refl, sym e, refl, refl))
      ]
