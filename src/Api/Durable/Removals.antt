-- ===== src/Api/Durable/Removals.antt =====
-- Removals and the content of a file (internal/cache/cache.go): Invalidate, Remove and the evictions.
use proxs.Prelude.{
  ℕ, suc, ◌+◌, ◌*◌, Bool, true, false, not, none, some, List, [], ◌∷◌, arith, ltb, leb,
  if◌then◌else◌, ◌==◌, eq_iff, nat_eq, list_eq, Text,
}
use proxs.FilePath.{FilePath}
use proxs.Host.{
  Op, Host, Removal, is_failed, remove_as, clear_immutable, remove, retry, removed, not_exist,
  failed,
}
use proxs.Cache.Meta.{MetaJson}
use proxs.Cache.Entry.{FileCache, path, remove_meta, invalidate, remove_content}
use proxs.Cache.Eviction.{
  Visit, drop_sidecars, remove_aged, unsent, evict_aged, visit_aged, walk_aged, evict_by_age,
}
use proxs.Cache.SizeLimit.{
  CachedFile, bytes_per_mb, Scan, sort_by_time, retried, remove_evicted, drop_evicted,
  settle_eviction, evict_file, evict_files, evict_scanned,
}
use proxs.Api.Durable.{Fits, path}

module _ (c : Text) (p : FilePath) where
  abbrev pub FitsAt : Host → Type 0
  FitsAt h = Fits c (h.fs p)

  pub remove_as-FitsAt :
      (op : Op) (q : FilePath) (h : Host) → FitsAt h → FitsAt (remove_as op q h).1
  unfolding remove_as
  remove_as-FitsAt op q h k = ground (arith, eq_iff q p)

  pub clear_immutable-FitsAt : (q : FilePath) (h : Host) → FitsAt h → FitsAt (clear_immutable q h)
  unfolding clear_immutable
  clear_immutable-FitsAt q h k = ground (arith, eq_iff q p)

  again-FitsAt :
      (q : FilePath) (h : Host) → FitsAt h → FitsAt (remove_as retry q (clear_immutable q h)).1
  again-FitsAt q h k = remove_as-FitsAt retry q _ (clear_immutable-FitsAt q h k)

  pub if-FitsAt {ℓ} :
      {R : Type ℓ} (b : Bool) (x y : R × Host)
      → FitsAt x.1
      → FitsAt y.1
      → FitsAt (if b then x else y).1
  if-FitsAt true x y kx ky = kx
  if-FitsAt false x y kx ky = ky

  remove_aged-FitsAt : (q : FilePath) (h : Host) → FitsAt h → FitsAt (remove_aged q h).1
  unfolding remove_aged
  remove_aged-FitsAt q h k =
      let once = remove_as-FitsAt remove q h k in
      if-FitsAt (is_failed (remove_as remove q h).0) _ (remove_as remove q h)
        (again-FitsAt q _ once) once

  drop_sidecars-FitsAt :
      (fc : FileCache) (q : FilePath) (h : Host) → FitsAt h → FitsAt (drop_sidecars fc q h)
  unfolding drop_sidecars
  drop_sidecars-FitsAt fc q h k = remove_as-FitsAt remove _ _ (remove_as-FitsAt remove _ h k)

  module _ ⦃json : MetaJson⦄ (fc : FileCache) where
    evict_aged-FitsAt :
        (q : FilePath) (count : ℕ) (h : Host) → FitsAt h → FitsAt (evict_aged fc q (count, h)).1
    unfolding evict_aged
    evict_aged-FitsAt q count h k =
        let once = remove_aged-FitsAt q h k in
        if-FitsAt (is_failed (remove_aged q h).0) (count, (remove_aged q h).1)
          (suc count, drop_sidecars fc q (remove_aged q h).1) once
          (drop_sidecars-FitsAt fc q _ once)

    visit_aged-FitsAt :
        (storage : Text) (max_age count : ℕ) (v : Visit) (h : Host)
        → FitsAt h
        → FitsAt (visit_aged fc storage max_age v (count, h)).1
    unfolding visit_aged
    visit_aged-FitsAt storage max_age count (q, none) h k = k
    visit_aged-FitsAt storage max_age count (q, some info) h k = if-FitsAt info.is_dir _ _ k (
        if-FitsAt (not (ltb (info.mtime + max_age) h.now)) _ _ k
          (if-FitsAt (unsent fc storage q h) _ _ k (evict_aged-FitsAt q count h k)))

    walk_aged-FitsAt :
        (storage : Text) (max_age count : ℕ) (vs : List Visit) (h : Host)
        → FitsAt h
        → FitsAt (walk_aged fc storage max_age vs (count, h)).1
    unfolding walk_aged
    walk_aged-FitsAt storage max_age count [] h k = k
    walk_aged-FitsAt storage max_age count (v ∷ vs) h k =
        walk_aged-FitsAt storage max_age (visit_aged fc storage max_age v (count, h)).0 vs _
          (visit_aged-FitsAt storage max_age count v h k)

    pub evict_by_age-FitsAt :
        (storage : Text) (max_age : ℕ) (vs : List Visit) (h : Host)
        → FitsAt h
        → FitsAt (evict_by_age fc storage max_age vs h).1
    unfolding evict_by_age
    evict_by_age-FitsAt storage max_age vs h k =
        if-FitsAt (max_age == 0) (0, h) _ k (walk_aged-FitsAt storage max_age 0 vs h k)

  retried-FitsAt : (q : FilePath) (r : Removal × Host) → FitsAt r.1 → FitsAt (retried q r).1
  unfolding retried
  retried-FitsAt q (removed, h) k = k
  retried-FitsAt q (not_exist, h) k = again-FitsAt q h k
  retried-FitsAt q (failed, h) k = again-FitsAt q h k

  settle_eviction-FitsAt :
      (fc : FileCache) (f : CachedFile) (total : ℕ) (r : Removal × Host)
      → FitsAt r.1
      → FitsAt (settle_eviction fc f total r).1
  unfolding settle_eviction drop_evicted
  settle_eviction-FitsAt fc f total (removed, h) k =
      remove_as-FitsAt remove _ _ (remove_as-FitsAt remove _ h k)
  settle_eviction-FitsAt fc f total (not_exist, h) k = k
  settle_eviction-FitsAt fc f total (failed, h) k = k

  evict_file-FitsAt :
      (fc : FileCache) (f : CachedFile) (total : ℕ) (h : Host)
      → FitsAt h
      → FitsAt (evict_file fc f (total, h)).1
  unfolding evict_file remove_evicted
  evict_file-FitsAt fc f total h k =
      settle_eviction-FitsAt fc f total (remove_evicted f.path h)
        (retried-FitsAt f.path (remove_as remove f.path h) (remove_as-FitsAt remove f.path h k))

  evict_files-FitsAt :
      (fc : FileCache) (max_bytes : ℕ) (fs : List CachedFile) (total : ℕ) (h : Host)
      → FitsAt h
      → FitsAt (evict_files fc max_bytes fs (total, h)).1
  unfolding evict_files
  evict_files-FitsAt fc max_bytes [] total h k = k
  evict_files-FitsAt fc max_bytes (f ∷ fs) total h k =
      if-FitsAt (leb total max_bytes) (total, h) _ k
        (evict_files-FitsAt fc max_bytes fs (evict_file fc f (total, h)).0 _
          (evict_file-FitsAt fc f total h k))

  pub evict_scanned-FitsAt :
      (fc : FileCache) (s : Scan) (h : Host) → FitsAt h → FitsAt (evict_scanned fc s h).1
  unfolding evict_scanned
  evict_scanned-FitsAt fc s h k =
      if-FitsAt (leb s.total_size (fc.max_mb * bytes_per_mb)) (s.total_size, h) _ k
        (evict_files-FitsAt fc _ (sort_by_time s.files) s.total_size h k)

  pub remove_meta-FitsAt :
      (fc : FileCache) (storage key : Text) (h : Host)
      → FitsAt h
      → FitsAt (remove_meta fc storage key h)
  unfolding remove_meta
  remove_meta-FitsAt fc storage key h k =
      remove_as-FitsAt remove _ _ (remove_as-FitsAt remove _ h k)

  pub invalidate-FitsAt :
      (fc : FileCache) (storage key : Text) (h : Host)
      → FitsAt h
      → FitsAt (invalidate fc storage key h)
  unfolding invalidate
  invalidate-FitsAt fc storage key h k = ground (
    arith,
    remove_as-FitsAt remove (path fc storage key) h k,
    remove_meta-FitsAt fc storage key (remove_as remove (path fc storage key) h).1,
  )

  pub remove_content-FitsAt : (q : FilePath) (h : Host) → FitsAt h → FitsAt (remove_content q h).1
  unfolding remove_content
  remove_content-FitsAt q h k =
      let once = remove_as-FitsAt remove q _ (clear_immutable-FitsAt q h k) in
      if-FitsAt (is_failed (remove_as remove q (clear_immutable q h)).0) _ _ (again-FitsAt q _ once)
        once
