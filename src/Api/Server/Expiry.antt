-- ===== src/Api/Server/Expiry.antt =====
-- evictByAge of internal/api/api.go: the eviction by age of every storage that asks for it.
use proxs.Prelude.{ℕ, ◌+◌, ◌*◌, List, [], ◌∷◌, if◌then◌else◌, ◌==◌, nat_eq, list_eq, Text}
use proxs.Host.{Host}
use proxs.Config.{StorageConfig}
use proxs.Cache.Meta.{MetaJson}
use proxs.Cache.Entry.{FileCache}
use proxs.Cache.Eviction.{Visit, evict_by_age}

-- 24 hours.
abbrev pub day : ℕ
day = 86400000000000

-- The loop over the storages. `visits` is the walk of each storage; the answer counts the files that
-- were removed.
unfoldable pub evict_storages :
    ⦃json : MetaJson⦄ → FileCache → (Text → List Visit) → List StorageConfig → Host → ℕ × Host
unfolding evict_by_age
evict_storages fc visits [] h = (0, h)
evict_storages fc visits (sc ∷ rest) h =
    let (removed, h') =
      evict_by_age fc sc.storage_id (sc.cache_max_age * day) (visits sc.storage_id) h in
    let skipped = evict_storages fc visits rest h in
    let (others, h'') = evict_storages fc visits rest h' in
    if sc.cache_max_age == 0 then skipped else (removed + others, h'')
