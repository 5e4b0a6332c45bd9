-- ===== src/Cache/Placement/Linked.antt =====
-- Link of internal/cache/cache.go on a file that lies in its place already.
use proxs.Prelude.{◌≡◌, refl, true, false, some, nat_eq, list_eq, Text}
use proxs.FilePath.{FilePath}
use proxs.Host.{Host, mkdir}
use proxs.Host.Laws.{IsWritable}
use proxs.Cache.Meta.{FileMeta, MetaJson}
use proxs.Cache.Entry.{FileCache, path, meta_path, get_meta, stamped, write_meta}
use proxs.Cache.Paths.{IsEntry, path-ne-meta_path}
use proxs.Cache.Recorded.{get_meta-write_meta, fs-write_meta}
use proxs.Cache.Placement.{same_file, link_entry}

module _ ⦃json : MetaJson⦄ (fc : FileCache) (storage key : Text) (meta : FileMeta) (h : Host) where
  link_entry-same :
      (src : FilePath)
      → same_file h src (path fc storage key) ≡ true
      → h.denied mkdir (path fc storage key) ≡ false
      → link_entry fc storage key src meta h ≡ write_meta fc storage key meta h
  unfolding link_entry
  link_entry-same src s d = rw (d, s, link_entry) refl

  -- A file that already is the cache entry, under whatever name, keeps its content when it is
  -- registered, and the given metadata is recorded for it.
  pub link_entry-in_place :
      (src : FilePath)
      → IsEntry storage key
      → IsWritable h (meta_path fc storage key)
      → h.denied mkdir (path fc storage key) ≡ false
      → same_file h src (path fc storage key) ≡ true
      → let h' = link_entry fc storage key src meta h in
        (h'.fs (path fc storage key) ≡ h.fs (path fc storage key))
        × (get_meta fc storage key h' ≡ some (stamped fc storage key meta h))
  link_entry-in_place src e w d s = rw (link_entry-same src s d) (
    fs-write_meta fc storage key meta h (path fc storage key) (path-ne-meta_path fc e),
    get_meta-write_meta fc storage key meta h w,
  )
