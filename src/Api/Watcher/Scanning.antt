-- ===== src/Api/Watcher/Scanning.antt =====
-- What scanPendingUploads of internal/api/watcher.go queues.
use proxs.Cache.Below.{rel_text-storage}
use proxs.Cache.Paths.{IsEntry}
use proxs.FilePath.{FilePath}
use proxs.Prelude.{◌≡◌, false, not, some, List, ◌∷◌, arith, if◌then◌else◌, nat_eq, list_eq, Text}
use proxs.Host.{Host, FileInfo, stat}
use proxs.Cache.Meta.{MetaJson, covers}
use proxs.Cache.Entry.{FileCache, path, get_meta, mark_pending}
use proxs.Api.Watcher.{is_auxiliary, scan_key, scan_pending, FilePath}

module _ ⦃json : MetaJson⦄ (fc : FileCache) (storage key : Text) where
  scan_key-covers :
      (h : Host) (info : FileInfo)
      → stat h (path fc storage key) ≡ some info
      → info.is_dir ≡ false
      → (scan_key fc storage key h).0 ≡ not (covers (get_meta fc storage key h) info)
  unfolding scan_key mark_pending covers
  scan_key-covers h info s d = ground arith

  -- The scan of a restart queues a content file exactly if no metadata covers it: a file without
  -- metadata, one that is marked pending, and one that changed since its metadata was recorded. The
  -- cache directory of the configuration is that of the cache.
  pub scan_pending-covers :
      (queue : List FilePath) (h : Host) (info : FileInfo)
      → IsEntry storage key
      → is_auxiliary (path fc storage key) ≡ false
      → stat h (path fc storage key) ≡ some info
      → info.is_dir ≡ false
      → (scan_pending fc fc.base_dir storage (path fc storage key, some info) (queue, h)).0
        ≡ (if covers (get_meta fc storage key h) info then queue else path fc storage key ∷ queue)
  unfolding scan_pending
  scan_pending-covers queue h info e x s d =
      rw (rel_text-storage fc storage key e, scan_pending)
        (ground (arith, scan_key-covers h info s d))
