-- ===== src/Cache/SizeLimit.antt =====
-- evictIfNeeded of internal/cache/cache.go: the scan, the order and the removals. Sizes and the
-- limit are taken to fit 63 bits.
use proxs.Prelude.{
  ℕ, ◌+◌, ◌-◌, ◌*◌, ◌/◌, Bool, false, not, ◌&&◌, ◌||◌, none, some, List, [], ◌∷◌, ◌++◌, ltb, leb,
  if◌then◌else◌, ◌==◌, nat_eq, list_eq, Text, codes,
}
use proxs.FilePath.{FilePath, rel, join_slash, append_text, path_has_suffix, passes_through}
use proxs.Host.{
  Host, FileInfo, Removal, remove_as, clear_immutable, remove, retry, removed, not_exist, failed,
}
use proxs.Cache.Meta.{MetaJson}
use proxs.Cache.Entry.{FileCache, get_meta}
use proxs.Cache.Eviction.{Visit, sidecar_of, only_copy}

-- `cachedFile`; the time is in seconds.
pub record CachedFile : Type 0 where
  pub path : FilePath
  pub size : ℕ
  pub mod_time : ℕ

-- Thirty minutes.
abbrev pub evict_min_age : ℕ
evict_min_age = 1800000000000

abbrev pub nanos : ℕ
nanos = 1000000000

abbrev pub bytes_per_mb : ℕ
bytes_per_mb = 1048576

pub record Scan : Type 0 where
  pub files : List CachedFile
  pub total_size : ℕ
  pub protected_size : ℕ

-- Files that the scan leaves out altogether.
unfoldable pub is_sidecar : FilePath → Bool
is_sidecar p = passes_through p (codes ".meta") || path_has_suffix p (codes ".meta")

unfoldable pub is_young : Host → FileInfo → Bool
is_young h info = ltb h.now (info.mtime + evict_min_age)

module _ ⦃json : MetaJson⦄ (fc : FileCache) where
  -- The test of the scan on the parts of the relative path, the storage and the key.
  unfoldable pub awaits_upload_at : List Text → Host → Bool
  awaits_upload_at (storage ∷ c ∷ cs) h =
      not (storage == codes ".downloads") && only_copy (get_meta fc storage (join_slash (c ∷ cs)) h)
  awaits_upload_at _ h = false

  unfoldable pub awaits_upload : FilePath → Host → Bool
  unfolding awaits_upload_at
  awaits_upload p h = awaits_upload_at (rel fc.base_dir p) h

  unfoldable pub is_protected : Host → FilePath → FileInfo → Bool
  unfolding is_young awaits_upload
  is_protected h p info = is_young h info || awaits_upload p h

  unfoldable pub scan_visit : Host → Visit → Scan → Scan
  unfolding is_sidecar is_protected
  scan_visit h (p, none) s = s
  scan_visit h (p, some info) s =
      if info.is_dir || is_sidecar p
      then s
      else if is_protected h p info
      then record s {
        total_size = s.total_size + info.size;
        protected_size = s.protected_size + info.size;
      }
      else record s {
        total_size = s.total_size + info.size;
        files =
            s.files ++ record { path = p; size = info.size; mod_time = info.mtime / nanos } ∷ [];
      }

  unfoldable pub scan_from : Host → List Visit → Scan → Scan
  scan_from h [] s = s
  scan_from h (v ∷ vs) s = scan_from h vs (scan_visit h v s)

-- `sort.Slice` by modification time.
unfoldable pub insert_by_time : CachedFile → List CachedFile → List CachedFile
insert_by_time f [] = f ∷ []
insert_by_time f (g ∷ gs) =
    let later = insert_by_time f gs in if ltb g.mod_time f.mod_time then g ∷ later else f ∷ g ∷ gs

unfoldable pub sort_by_time : List CachedFile → List CachedFile
sort_by_time [] = []
sort_by_time (f ∷ fs) = insert_by_time f (sort_by_time fs)

-- The second attempt of a removal, after any error.
unfoldable pub retried : FilePath → Removal × Host → Removal × Host
retried p (removed, h) = (removed, h)
retried p (not_exist, h) = remove_as retry p (clear_immutable p h)
retried p (failed, h) = remove_as retry p (clear_immutable p h)

-- The removal of `evictIfNeeded`.
unfoldable pub remove_evicted : FilePath → Host → Removal × Host
unfolding retried
remove_evicted p h = retried p (remove_as remove p h)

unfoldable pub drop_evicted : FileCache → FilePath → Host → Host
drop_evicted fc p h =
    (remove_as remove (sidecar_of fc p) (remove_as remove (append_text p (codes ".meta")) h).1).1

-- The total that is left after a removal, and the host.
unfoldable pub settle_eviction : FileCache → CachedFile → ℕ → Removal × Host → ℕ × Host
unfolding drop_evicted
settle_eviction fc f total (removed, h) = (total - f.size, drop_evicted fc f.path h)
settle_eviction fc f total (_, h) = (total, h)

unfoldable pub evict_file : FileCache → CachedFile → ℕ × Host → ℕ × Host
unfolding remove_evicted settle_eviction
evict_file fc f (total, h) = settle_eviction fc f total (remove_evicted f.path h)

-- The loop over the sorted files, until the total fits.
unfoldable pub evict_files : FileCache → ℕ → List CachedFile → ℕ × Host → ℕ × Host
evict_files fc max_bytes [] s = s
evict_files fc max_bytes (f ∷ fs) s =
    let rest = evict_files fc max_bytes fs (evict_file fc f s) in
    if leb s.0 max_bytes then s else rest

-- The removals of `evictIfNeeded` after a scan; other writers may come in between.
unfoldable pub evict_scanned : FileCache → Scan → Host → ℕ × Host
unfolding evict_files
evict_scanned fc scan h =
    let max_bytes = fc.max_mb * bytes_per_mb in
    if leb scan.total_size max_bytes
    then (scan.total_size, h)
    else evict_files fc max_bytes (sort_by_time scan.files) (scan.total_size, h)

module _ ⦃json : MetaJson⦄ (fc : FileCache) where
  unfoldable pub scan : List Visit → Host → Scan
  unfolding scan_from
  scan visits h = scan_from fc h visits (record { files = []; total_size = 0; protected_size = 0 })

  -- `evictIfNeeded`, with no writer between the scan and the removals.
  unfoldable pub evict_if_needed : List Visit → Host → Host
  unfolding evict_scanned scan
  evict_if_needed visits h = if fc.max_mb == 0 then h else (evict_scanned fc (scan visits h) h).1
