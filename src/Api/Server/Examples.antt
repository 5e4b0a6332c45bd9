-- ===== src/Api/Server/Examples.antt =====
-- The theorems about the server at small ones.

use proxs.Config.Daemon.{DaemonConfig, default_daemon_config}
use proxs.Config.{ProxyConfig, StorageConfig, new_storage}
use proxs.Api.Server.Status.{handle_status, reply, handle_status-check_all_health}
use proxs.Api.Server.{check_all_health, Server, make_clients, reload, DaemonConfig}
use proxs.Api.Server.Reloading.{reload-outcome}
use proxs.Prelude.{
  refl, arith, Bool, list_beq, ◌≡◌, ◌⊎◌, true, false, Option, none, some, [], ◌∷◌, nat_eq, list_eq,
  codes, arith,
}
use proxs.Cache.Sample.{plain_json, small_cache}

-- A client for every storage.
abbrev any_client : ProxyConfig → StorageConfig → Option {0} Unit
any_client proxy sc = some tt

abbrev small_config : DaemonConfig
small_config = record default_daemon_config {
  cache_dir = codes "c" ∷ [];
  cache_max_mb = 1;
  headroom_gb = 1;
  storages = new_storage (codes "s") ∷ [];
}

abbrev server : Server {0} Unit
server = record { cfg = small_config; clients = []; health = []; usage = []; cache = small_cache }

-- The cache is to move, with the limit changed.
abbrev moved_config : DaemonConfig
moved_config = record small_config { cache_dir = codes "d" ∷ []; cache_max_mb = 2 }

reload-outcome_example :
    let (succeeded, s') = reload any_client (λ p. true) moved_config server in
    ((make_clients any_client moved_config.proxy moved_config.storages [] ≡ none)
      × (succeeded ≡ false)
      × (s' ≡ server))
    ⊎ (succeeded ≡ true)
      × (some s'.clients ≡ make_clients any_client moved_config.proxy moved_config.storages [])
      × (s'.cfg ≡ moved_config)
      × (s'.cache ≡ server.cache)
reload-outcome_example = reload-outcome any_client (λ p. true) moved_config server

-- A bucket of three bytes, and one that cannot be reached.
abbrev two_clients : Server {0} Bool
two_clients = record {
  cfg = small_config;
  clients = (codes "s", true) ∷ (codes "t", false) ∷ [];
  health = [];
  usage = [];
  cache = small_cache;
}

handle_status-check_all_health_example :
    handle_status (codes "s") (check_all_health (λ c. c) (λ c. some (1 ∷ 2 ∷ [])) two_clients)
    ≡ reply (record {
      storage_id = codes "s";
      online = true;
      total = 1073741827;
      used = 3;
      available = 1073741824;
    })
unfolding list_beq
handle_status-check_all_health_example =
    handle_status-check_all_health (λ c. c) (λ c. some (1 ∷ 2 ∷ [])) (codes "s") two_clients true
      (λ e. ground (arith, e)) (refl, (refl, tt)) refl (omega arith)
