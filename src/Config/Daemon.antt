-- ===== src/Config/Daemon.antt =====
-- The configuration of the daemon (internal/config/config.go): its defaults, and LoadDaemonConfig.
-- Files, the split of a file into lines and the coding of JSON are parameters.
use proxs.Prelude.{ℕ, Option, none, some, List, [], ◌∷◌, nat_eq, list_eq, Text, codes}
use proxs.FilePath.{FilePath, join}
use proxs.Config.{
  StorageConfig, ProxyConfig, Numbers, Credential, load_credential, discover_storages,
}

-- `DaemonConfig`. The limit of the cache and the headroom are not negative.
pub record DaemonConfig : Type 0 where
  pub socket_path : FilePath
  pub cache_dir : FilePath
  pub cache_max_mb : ℕ
  pub credential_dir : FilePath
  pub storage_cfg : FilePath
  pub headroom_gb : ℕ
  pub proxy : ProxyConfig
  pub storages : List StorageConfig

-- `DefaultDaemonConfig`.
abbrev pub default_daemon_config : DaemonConfig
default_daemon_config = record {
  socket_path = codes "run" ∷ codes "proxs3d.sock" ∷ [];
  cache_dir = codes "var" ∷ codes "cache" ∷ codes "proxs3" ∷ [];
  cache_max_mb = 4096;
  credential_dir = codes "etc" ∷ codes "pve" ∷ codes "priv" ∷ codes "proxs3" ∷ [];
  storage_cfg = codes "etc" ∷ codes "pve" ∷ codes "storage.cfg" ∷ [];
  headroom_gb = 100;
  proxy = record { http_proxy = []; https_proxy = []; no_proxy = [] };
  storages = [];
}

module _ (numbers : Numbers) (files : FilePath → Option Text) (lines : Text → List Text)
    (unmarshal : Text → DaemonConfig → Option DaemonConfig)
    (unmarshal_credential : Text → Option Credential) where
  -- `cfg.DiscoverStorages()`.
  unfoldable pub with_storages : DaemonConfig → Option DaemonConfig
  unfolding discover_storages load_credential
  with_storages cfg =
      let raws : Option (List Text) = elim (files cfg.storage_cfg) [
        | none ↦ none
        | some text ↦ some (lines text)
      ] in
      let load =
        load_credential (λ name. files (join cfg.credential_dir (name ∷ [])))
          unmarshal_credential in
      elim (discover_storages numbers load raws) [
        | none ↦ none
        | some found ↦ some (record cfg { storages = found })
      ]

  -- `LoadDaemonConfig`: the JSON of the file goes over the defaults.
  unfoldable pub load_daemon_config : FilePath → Option DaemonConfig
  unfolding with_storages
  load_daemon_config path = elim (files path) [
    | none ↦ none
    | some text ↦ elim (unmarshal text default_daemon_config) [
      | none ↦ none
      | some cfg ↦ with_storages cfg
    ]
  ]
