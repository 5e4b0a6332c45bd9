-- ===== src/Api/Watcher.antt =====
-- How the watcher recognises files to upload: cacheRelKey, markPendingUpload and scanPendingUploads
-- of internal/api/watcher.go. The queue of the watcher is the list of paths, the last one first.
pub mod Keys
pub mod Scanning
pub mod Loop
pub mod Probe
pub mod Watched
mod InUse
mod Examples
use proxs.Prelude.{
  Bool, true, false, ◌||◌, Option, none, some, List, ◌∷◌, if◌then◌else◌, nat_eq, list_eq, Text,
  codes, [],
}
use proxs.FilePath.{FilePath, join, rel, join_slash, path_has_suffix}
use proxs.Host.{Host}
use proxs.Cache.Meta.{MetaJson}
use proxs.Cache.Entry.{FileCache, get_meta, mark_pending}
use proxs.Cache.Eviction.{rel_text, Visit}

-- A path relative to the cache directory as a storage and a key.
abbrev pub storage_and_key : List Text → Option (Text × Text)
storage_and_key [] = none
storage_and_key (c ∷ []) = none
storage_and_key (c ∷ d ∷ ds) = some (c, join_slash (d ∷ ds))

-- `cacheRelKey`. The directory is that of the configuration, which the cache keeps its own copy of.
unfoldable pub cache_rel_key : FilePath → FilePath → Option (Text × Text)
cache_rel_key cache_dir p = storage_and_key (rel cache_dir p)

-- Whether a path is not one of content: a temporary file or a sidecar.
unfoldable pub is_auxiliary : FilePath → Bool
is_auxiliary p = path_has_suffix p (codes ".tmp") || path_has_suffix p (codes ".meta")

module _ ⦃json : MetaJson⦄ (fc : FileCache) where
  -- What the scan does with a key: queue it without a mark if it has no metadata.
  unfoldable pub scan_key : Text → Text → Host → Bool × Host
  scan_key storage key h = elim (get_meta fc storage key h) [
    | none ↦ (true, h)
    | some _ ↦ mark_pending fc storage key h
  ]

  module _ (cache_dir : FilePath) where
    -- `markPendingUpload`.
    unfoldable pub mark_pending_upload : FilePath → Host → Bool × Host
    unfolding is_auxiliary cache_rel_key
    mark_pending_upload p h =
        if is_auxiliary p then (false, h) else elim (cache_rel_key cache_dir p) [
          | none ↦ (false, h)
          | some place ↦ mark_pending fc place.0 place.1 h
        ]

    -- One visit of the walk of `scanPendingUploads` in the tree of a storage.
    unfoldable pub scan_pending : Text → Visit → List FilePath × Host → List FilePath × Host
    unfolding scan_key is_auxiliary rel_text
    scan_pending storage (p, none) (queue, h) = (queue, h)
    scan_pending storage (p, some info) (queue, h) =
        let (queued, h') = scan_key storage (rel_text (join cache_dir (storage ∷ [])) p) h in
        if info.is_dir || is_auxiliary p
        then (queue, h)
        else if queued
        then (p ∷ queue, h')
        else (queue, h')

    unfoldable pub scan_tree : Text → List Visit → List FilePath × Host → List FilePath × Host
    unfolding scan_pending
    scan_tree storage [] s = s
    scan_tree storage (v ∷ vs) s = scan_tree storage vs (scan_pending storage v s)
