-- ===== src/Cache/Usage.antt =====
-- SizeMB of internal/cache/cache.go, beside the total that evictIfNeeded works with. The sum is taken
-- to fit 63 bits.
use proxs.Prelude.{
  ℕ, ◌+◌, ◌/◌, ◌≤◌, none, some, List, [], ◌∷◌, arith, if◌then◌else◌, nat_eq, list_eq,
}
use proxs.Host.{Host}
use proxs.Cache.Meta.{MetaJson}
use proxs.Cache.Entry.{FileCache}
use proxs.Cache.Eviction.{Visit}
use proxs.Cache.SizeLimit.{Scan, bytes_per_mb, scan_visit, scan_from, scan}

-- The walk, with the total so far.
unfoldable add_sizes : List Visit → ℕ → ℕ
add_sizes [] total = total
add_sizes ((p, none) ∷ rest) total = add_sizes rest total
add_sizes ((p, some info) ∷ rest) total =
    add_sizes rest (if info.is_dir then total else total + info.size)

-- `SizeMB`, on the visits of a walk of the cache directory.
unfoldable size_mb : List Visit → ℕ
unfolding add_sizes
size_mb visits = add_sizes visits 0 / bytes_per_mb

module _ ⦃json : MetaJson⦄ (fc : FileCache) where
  scan_visit-total :
      (h : Host) (v : Visit) (s : Scan) (total : ℕ)
      → s.total_size ≤ total
      → (scan_visit fc h v s).total_size ≤ add_sizes (v ∷ []) total
  unfolding scan_visit add_sizes
  scan_visit-total h (p, none) s total l = l
  scan_visit-total h (p, some info) s total l = ground (arith, l)

  scan_from-total :
      (h : Host) (vs : List Visit) (s : Scan) (total : ℕ)
      → s.total_size ≤ total
      → (scan_from fc h vs s).total_size ≤ add_sizes vs total
  unfolding scan_from add_sizes
  scan_from-total h [] s total l = l
  scan_from-total h ((p, none) ∷ vs) s total l =
      scan_from-total h vs _ total (scan_visit-total h (p, none) s total l)
  scan_from-total h ((p, some info) ∷ vs) s total l =
      scan_from-total h vs _ _ (scan_visit-total h (p, some info) s total l)

  -- What the eviction by size counts is at most what `SizeMB` adds up on the same walk.
  scan-total : (visits : List Visit) (h : Host) → (scan fc visits h).total_size ≤ add_sizes visits 0
  unfolding scan
  scan-total visits h = scan_from-total h visits _ 0 (omega arith)
