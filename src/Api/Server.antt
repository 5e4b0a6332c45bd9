-- ===== src/Api/Server.antt =====
-- The state of the server and how New, initClients, Reload and checkAllHealth set it
-- (internal/api/api.go). A client is of a type that is not known here: s3client.New and the calls
-- of a client are parameters.
pub mod Reloading
pub mod Status
pub mod Expiry
mod Examples
use proxs.Prelude.{
  lookup, insert, ◌%◌, ◌^◌, ℕ, ◌+◌, Bool, true, false, not, ◌||◌, Option, none, some, List, ◌∷◌,
  if◌then◌else◌, ◌==◌, nat_eq, list_eq, Text, [],
}
use proxs.FilePath.{FilePath}
use proxs.Config.{ProxyConfig, StorageConfig}
use proxs.Config.Daemon.{DaemonConfig}
use proxs.Cache.Entry.{FileCache}

-- `Server`, with maps as association lists; the uploads are in a module of their own.
pub record Server {ℓ} (Client : Type ℓ) : Type ℓ where
  pub cfg : DaemonConfig
  pub clients : List (Text × Client)
  pub health : List (Text × Bool)
  pub usage : List (Text × ℕ)
  pub cache : FileCache

-- `cache.New`, and whether the directory can be made.
unfoldable pub new_cache : (FilePath → Bool) → DaemonConfig → Option FileCache
new_cache can_make cfg =
    if can_make cfg.cache_dir
    then some (record { base_dir = cfg.cache_dir; max_mb = cfg.cache_max_mb })
    else none

-- Whether the test of `Reload` finds that the cache changed.
unfoldable pub cache_changed : DaemonConfig → DaemonConfig → Bool
cache_changed cfg old =
    not (cfg.cache_dir == old.cache_dir) || not (cfg.cache_max_mb == old.cache_max_mb)

-- The health that the loop of `initClients` makes.
unfoldable pub make_health : List StorageConfig → List (Text × Bool) → List (Text × Bool)
unfolding insert
make_health [] health = health
make_health (sc ∷ rest) health = make_health rest (insert sc.storage_id false health)

module _ {ℓ} {Client : Type ℓ} (new_client : ProxyConfig → StorageConfig → Option Client) where
  -- The loop of `initClients`, with the clients so far: a client for each storage, or the error of
  -- the first that has none.
  unfoldable pub make_clients :
      ProxyConfig → List StorageConfig → List (Text × Client) → Option (List (Text × Client))
  unfolding insert
  make_clients proxy [] clients = some clients
  make_clients proxy (sc ∷ rest) clients = elim (new_client proxy sc) [
    | none ↦ none
    | some c ↦ make_clients proxy rest (insert sc.storage_id c clients)
  ]

  -- `initClients`.
  unfoldable pub init_clients : DaemonConfig → Server Client → Option (Server Client)
  unfolding make_clients make_health
  init_clients cfg s = elim (make_clients cfg.proxy cfg.storages []) [
    | none ↦ none
    | some cs ↦ some (record s { clients = cs; health = make_health cfg.storages [] })
  ]

  -- `New`; the bookkeeping of uploads is in a module of its own.
  unfoldable pub new_server : (FilePath → Bool) → DaemonConfig → Option (Server Client)
  unfolding new_cache init_clients
  new_server can_make cfg = elim (new_cache can_make cfg) [
    | none ↦ none
    | some fc ↦
        init_clients cfg (record { cfg = cfg; clients = []; health = []; usage = []; cache = fc })
  ]

  -- `Reload`, with the error that it returns: `cfg` is stored before it is compared.
  unfoldable pub reload : (FilePath → Bool) → DaemonConfig → Server Client → Bool × Server Client
  unfolding init_clients new_cache cache_changed
  reload can_make cfg s = elim (init_clients cfg s) [
    | none ↦ (false, s)
    | some s' ↦
        let stored = record s' { cfg = cfg } in
        if cache_changed cfg stored.cfg
        then elim (new_cache can_make cfg) [
          | none ↦ (false, stored)
          | some fc ↦ (true, record stored { cache = fc })
        ]
        else (true, stored)
  ]

-- `getClient`.
unfoldable pub get_client {ℓ} : {Client : Type ℓ} → Text → Server Client → Option Client
get_client storage s = lookup storage s.clients

-- The sum of the sizes on int64, with the total so far.
unfoldable pub total_size : List ℕ → ℕ → ℕ
total_size [] total = total
total_size (n ∷ ns) total = total_size ns ((total + n) % 2 ^ 64)

-- `checkAllHealth`: `reachable` is HeadBucket, `sizes` the sizes that ListObjects gives.
module _ {ℓ} {Client : Type ℓ} (reachable : Client → Bool) (sizes : Client → Option (List ℕ)) where
  unfoldable pub health_of : List (Text × Client) → List (Text × Bool)
  health_of [] = []
  health_of ((id, c) ∷ rest) = (id, reachable c) ∷ health_of rest

  unfoldable pub usage_of : List (Text × Client) → List (Text × ℕ)
  unfolding total_size
  usage_of [] = []
  usage_of ((id, c) ∷ rest) =
      let others = usage_of rest in
      if not (reachable c)
      then others
      else elim (sizes c) [ none ↦ others | some ns ↦ (id, total_size ns 0) ∷ others ]

  unfoldable pub check_all_health : Server Client → Server Client
  unfolding health_of usage_of
  check_all_health s = record s { health = health_of s.clients; usage = usage_of s.clients }
