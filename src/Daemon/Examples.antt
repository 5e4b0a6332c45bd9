-- ===== src/Daemon/Examples.antt =====
-- The theorem about the signals at a daemon with one storage.
use proxs.Daemon.Main.{Flags}
use proxs.Prelude.{refl, ◌≡◌, ◌≢◌, ◌⊎◌, list_beq}
use proxs.Cache.Eviction.{Visit}
use proxs.S3client.Memory.{memory}
use proxs.Cache.Sample.{plain_json, small_cache, iso_path, iso_info, idle}
use proxs.Api.Sample.{new_bucket}
use proxs.Api.Server.{Server, get_client}
use proxs.Daemon.Command.{command, served, Resynced, command-outcome}
use proxs.Prelude.{
  true, false, Option, none, some, List, [], ◌∷◌, if◌then◌else◌, ◌==◌, nat_eq, list_eq, Text, codes,
}
use proxs.Config.{ProxyConfig, ProxyConfig, StorageConfig, new_storage}
use proxs.Config.Daemon.{DaemonConfig, default_daemon_config}
use proxs.Daemon.{Signal, hangup, terminate}

-- A client for each storage but one named "x", which knows its bucket and its proxy.
abbrev client_for : ProxyConfig → StorageConfig → Option (Text × Text)
client_for proxy sc =
    if sc.storage_id == codes "x" then none else some (sc.bucket, proxy.http_proxy)

abbrev started_config : DaemonConfig
started_config = record default_daemon_config { storages = new_storage (codes "s") ∷ [] }

abbrev other_config : DaemonConfig
other_config = record default_daemon_config {
  proxy = record { http_proxy = codes "p"; https_proxy = []; no_proxy = [] };
  storages = new_storage (codes "t") ∷ [];
}

abbrev bad_config : DaemonConfig
bad_config = record default_daemon_config { storages = new_storage (codes "x") ∷ [] }

abbrev three_signals : List Signal
three_signals = hangup (some other_config) ∷ hangup (some bad_config) ∷ terminate ∷ []

abbrev plain_flags : Flags
plain_flags = record {
  config_path = [];
  show_version = false;
  resync_storage = [];
  force_latest = false;
}

abbrev running_server : Server (Text × Text)
running_server = record {
  cfg = started_config;
  clients = (codes "s", ([], [])) ∷ [];
  health = [];
  usage = [];
  cache = small_cache;
}

-- A resync of a storage with one file.
command-outcome_example :
    let visits : List Visit = (iso_path, some iso_info) ∷ [] in
    (command small_cache (λ p. false) running_server visits idle new_bucket [] (codes "s") true
        ≡ true)
      × (get_client (codes "s") running_server ≢ none)
      × Resynced small_cache (λ p. false) running_server visits idle new_bucket (codes "s") true
    ⊎ (command small_cache (λ p. false) running_server visits idle new_bucket [] (codes "s") true
        ≡ false)
      × (get_client (codes "s") running_server ≡ none)
      × ((served small_cache (λ p. false) running_server visits idle new_bucket (codes "s") true).1
          ≡ idle)
      × ((served small_cache (λ p. false) running_server visits idle new_bucket (codes "s") true).2
          ≡ new_bucket)
unfolding list_beq
command-outcome_example =
    command-outcome small_cache (λ p. false) running_server ((iso_path, some iso_info) ∷ []) idle
      new_bucket [] (codes "s") true refl
