-- ===== src/Cache/SizeSafety.antt =====
-- evictIfNeeded of internal/cache/cache.go and the files that were not uploaded.
use proxs.FilePath.Laws.{split-cons, rel-append, join_slash-split}
use proxs.Cache.Paths.{IsEntry, path-eq}
use proxs.Cache.Meta.{MetaJson}
use proxs.Prelude.{
  beq_of_ne, ℕ, ◌*◌, ◌≡◌, refl, ap, inl, inr, Bool, true, false, ◌||◌, none, some, List, [], ◌∷◌,
  ◌++◌, arith, ltb, leb, if◌then◌else◌, Bool-cases, ◌==◌, nat_eq, list_eq, All, Text, codes, split,
}
use proxs.FilePath.{FilePath, slash, join_slash, path_has_suffix}
use proxs.Host.{
  Host, FileInfo, Removal, remove_as, clear_immutable, remove, retry, removed, not_exist, failed,
}
use proxs.Cache.Entry.{FileCache, path, get_meta}
use proxs.Cache.Below.{IsBelow}
use proxs.Cache.Kept.{
  Kept, Kept-refl, Kept-trans, IsOther, remove_as-Kept, clear_immutable-Kept, IsOthers,
  below-IsOthers,
}
use proxs.Cache.Eviction.{Visit, is_regular, only_copy}
use proxs.Cache.SizeLimit.{
  CachedFile, bytes_per_mb, Scan, is_sidecar, awaits_upload_at, awaits_upload, is_protected,
  scan_visit, scan_from, insert_by_time, sort_by_time, retried, remove_evicted, drop_evicted,
  settle_eviction, evict_file, evict_files, evict_scanned, scan, evict_if_needed,
}
use proxs.Cache.AgeSafety.{if-Kept}

-- What the walk of the cache directory visits: directories, the root among them, sidecars, and files
-- that lie outside the metadata tree.
pub record IsCacheVisit (fc : FileCache) (v : Visit) : Type 0 where
  pub below : is_regular v.1 ≡ true → is_sidecar v.0 ≡ false → IsBelow fc v.0

module _ (fc : FileCache) (storage key : Text) where
  abbrev pub AllOthers : List CachedFile → Type 0
  AllOthers = All λ f. IsOthers fc storage key f.path

  retry-Kept :
      (p : FilePath) (h h' : Host)
      → IsOther fc storage key p
      → Kept fc storage key h h'
      → Kept fc storage key h (remove_as retry p (clear_immutable p h')).1
  retry-Kept p h h' o k = Kept-trans fc storage key _ _ _ k (
      Kept-trans fc storage key _ _ _ (clear_immutable-Kept fc storage key p h' o)
        (remove_as-Kept fc storage key retry p _ o))

  retried-Kept :
      (p : FilePath) (h : Host) (r : Removal × Host)
      → IsOther fc storage key p
      → Kept fc storage key h r.1
      → Kept fc storage key h (retried p r).1
  unfolding retried
  retried-Kept p h (removed, h') o k = k
  retried-Kept p h (not_exist, h') o k = retry-Kept p h h' o k
  retried-Kept p h (failed, h') o k = retry-Kept p h h' o k

  drop_evicted-Kept :
      (p : FilePath) (h : Host)
      → IsOthers fc storage key p
      → Kept fc storage key h (drop_evicted fc p h)
  unfolding drop_evicted
  drop_evicted-Kept p h o =
      Kept-trans fc storage key _ _ _ (remove_as-Kept fc storage key remove _ h o.legacy_sidecar)
        (remove_as-Kept fc storage key remove _ _ o.sidecar)

  settle_eviction-Kept :
      (f : CachedFile) (total : ℕ) (h : Host) (r : Removal × Host)
      → IsOthers fc storage key f.path
      → Kept fc storage key h r.1
      → Kept fc storage key h (settle_eviction fc f total r).1
  unfolding settle_eviction
  settle_eviction-Kept f total h (removed, h') o k =
      Kept-trans fc storage key _ _ _ k (drop_evicted-Kept f.path h' o)
  settle_eviction-Kept f total h (not_exist, h') o k = k
  settle_eviction-Kept f total h (failed, h') o k = k

  evict_file-Kept :
      (f : CachedFile) (total : ℕ) (h : Host)
      → IsOthers fc storage key f.path
      → Kept fc storage key h (evict_file fc f (total, h)).1
  unfolding evict_file remove_evicted
  evict_file-Kept f total h o = settle_eviction-Kept f total h (remove_evicted f.path h) o (
      retried-Kept f.path h (remove_as remove f.path h) o.itself
        (remove_as-Kept fc storage key remove f.path h o.itself))

  evict_files-Kept :
      (max_bytes : ℕ) (fs : List CachedFile) (total : ℕ) (h : Host)
      → AllOthers fs
      → Kept fc storage key h (evict_files fc max_bytes fs (total, h)).1
  unfolding evict_files
  evict_files-Kept max_bytes [] total h a = Kept-refl fc storage key h
  evict_files-Kept max_bytes (f ∷ fs) total h a =
      if-Kept fc storage key h (leb total max_bytes) _ _ (Kept-refl fc storage key h) (
        Kept-trans fc storage key _ _ _ (evict_file-Kept f total h a.0) (
          evict_files-Kept max_bytes fs (evict_file fc f (total, h)).0
            (evict_file fc f (total, h)).1 a.1))

  insert_by_time-All :
      (f : CachedFile) (fs : List CachedFile)
      → IsOthers fc storage key f.path
      → AllOthers fs
      → AllOthers (insert_by_time f fs)
  unfolding insert_by_time
  insert_by_time-All f [] o a = (o, a)
  insert_by_time-All f (g ∷ gs) o a = elim (Bool-cases (ltb g.mod_time f.mod_time)) [
    | inl b ↦ rw b (a.0, insert_by_time-All f gs o a.1)
    | inr b ↦ rw b (o, a)
  ]

  sort_by_time-All : (fs : List CachedFile) → AllOthers fs → AllOthers (sort_by_time fs)
  unfolding sort_by_time
  sort_by_time-All [] a = a
  sort_by_time-All (f ∷ fs) a = insert_by_time-All f (sort_by_time fs) a.0 (sort_by_time-All fs a.1)

  add-All :
      (fs : List CachedFile) (f : CachedFile)
      → AllOthers fs
      → IsOthers fc storage key f.path
      → AllOthers (fs ++ f ∷ [])
  add-All [] f a o = (o, tt)
  add-All (g ∷ gs) f a o = (a.0, add-All gs f a.1 o)

  pub evict_scanned-Kept :
      (s : Scan) (h : Host) → AllOthers s.files → Kept fc storage key h (evict_scanned fc s h).1
  unfolding evict_scanned
  evict_scanned-Kept s h a =
      if-Kept fc storage key h (leb s.total_size (fc.max_mb * bytes_per_mb)) _ _
        (Kept-refl fc storage key h)
        (evict_files-Kept (fc.max_mb * bytes_per_mb) (sort_by_time s.files) s.total_size h
          (sort_by_time-All s.files a))

module _ ⦃json : MetaJson⦄ (fc : FileCache) (storage key : Text) (e : IsEntry storage key)
    (plain : path_has_suffix (path fc storage key) (codes ".meta") ≡ false)
    (cached : (storage == codes ".downloads") ≡ false) where
  awaits_upload-at :
      (h : Host) (x : Text) (xs parts : List Text)
      → only_copy (get_meta fc storage key h) ≡ true
      → parts ≡ x ∷ xs
      → join_slash parts ≡ key
      → awaits_upload_at fc (storage ∷ parts) h ≡ true
  unfolding awaits_upload_at
  awaits_upload-at h x xs parts o q k = rw q (ground (arith, cached, o, rw q at k))

  awaits_upload-entry :
      (h : Host)
      → only_copy (get_meta fc storage key h) ≡ true
      → awaits_upload fc (path fc storage key) h ≡ true
  unfolding awaits_upload
  awaits_upload-entry h o =
      let (x, xs, q) = split-cons slash key in
      rw (path-eq fc e, rel-append fc.base_dir (storage ∷ split slash key))
        (awaits_upload-at h x xs (split slash key) o q (join_slash-split key))

  evictable-ne :
      (h : Host) (p : FilePath) (info : FileInfo)
      → only_copy (get_meta fc storage key h) ≡ true
      → is_protected fc h p info ≡ false
      → (p == path fc storage key) ≡ false
  unfolding is_protected
  evictable-ne h p info o b = beq_of_ne λ (q : p ≡ path fc storage key).
      ground (arith, ap (λ x. awaits_upload fc x h) q, awaits_upload-entry h o)

  if-All :
      (b : Bool) (x y : Scan)
      → AllOthers fc storage key x.files
      → (b ≡ false → AllOthers fc storage key y.files)
      → AllOthers fc storage key (if b then x else y).files
  if-All true x y a k = a
  if-All false x y a k = k refl

  scan_visit-All :
      (h : Host) (v : Visit) (s : Scan)
      → only_copy (get_meta fc storage key h) ≡ true
      → IsCacheVisit fc v
      → AllOthers fc storage key s.files
      → AllOthers fc storage key (scan_visit fc h v s).files
  unfolding scan_visit
  scan_visit-All h (p, none) s o v a = a
  scan_visit-All h (p, some info) s o v a = if-All (info.is_dir || is_sidecar p) s _ a λ c.
      if-All (is_protected fc h p info) _ _ a λ b. add-All fc storage key s.files _ a (
        below-IsOthers fc storage key e p (v.below (ground arith) (ground arith)) plain
          (evictable-ne h p info o b))

  scan_from-All :
      (h : Host) (vs : List Visit) (s : Scan)
      → only_copy (get_meta fc storage key h) ≡ true
      → All (IsCacheVisit fc) vs
      → AllOthers fc storage key s.files
      → AllOthers fc storage key (scan_from fc h vs s).files
  unfolding scan_from
  scan_from-All h [] s o v a = a
  scan_from-All h (v ∷ vs) s o k a =
      scan_from-All h vs (scan_visit fc h v s) o k.1 (scan_visit-All h v s o k.0 a)

  pub scan-All :
      (visits : List Visit) (h : Host)
      → All (IsCacheVisit fc) visits
      → only_copy (get_meta fc storage key h) ≡ true
      → AllOthers fc storage key (scan fc visits h).files
  unfolding scan
  scan-All visits h v o = scan_from-All h visits _ o v tt

  -- Eviction by size, with nothing else writing meanwhile, leaves a cached file that is marked
  -- pending or has no metadata as it is, whatever the sizes and the age of the files are. Its name
  -- does not end in ".meta", it is not under .downloads, and the walk visits clean paths.
  pub evict_if_needed-spares :
      (visits : List Visit) (h : Host)
      → All (IsCacheVisit fc) visits
      → only_copy (get_meta fc storage key h) ≡ true
      → (evict_if_needed fc visits h).fs (path fc storage key) ≡ h.fs (path fc storage key)
  unfolding evict_if_needed
  evict_if_needed-spares visits h v o = elim (Bool-cases (fc.max_mb == 0)) [
    | inl c ↦ rw (c, evict_if_needed) refl
    | inr c ↦
        let kept = evict_scanned-Kept fc storage key (scan fc visits h) h (scan-All visits h v o) in
        rw (c, evict_if_needed) kept.content
  ]
