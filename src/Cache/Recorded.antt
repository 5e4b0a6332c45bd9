-- ===== src/Cache/Recorded.antt =====
-- What writeMeta leaves for getMeta, and what it leaves alone.
use proxs.Prelude.{◌≡◌, false, some, arith, ◌==◌, nat_eq, list_eq, Text}
use proxs.FilePath.{FilePath}
use proxs.Host.{Host, stat}
use proxs.Host.Laws.{
  IsWritable, fs-write_file, denied-write_file, now-write_file, read_file-write_file, stat-fs,
  read_file-fs,
}
use proxs.Cache.Meta.{FileMeta, MetaJson}
use proxs.Cache.Entry.{FileCache, path, meta_path, legacy_path, get_meta, stamped, write_meta}
use proxs.Cache.Paths.{IsEntry, path-ne-meta_path}

module _ ⦃json : MetaJson⦄ where
  -- `getMeta` depends on the two sidecars only.
  pub get_meta-fs :
      (fc : FileCache) (storage key : Text) (h h' : Host)
      → h'.denied ≡ h.denied
      → h'.fs (meta_path fc storage key) ≡ h.fs (meta_path fc storage key)
      → h'.fs (legacy_path fc storage key) ≡ h.fs (legacy_path fc storage key)
      → get_meta fc storage key h' ≡ get_meta fc storage key h
  unfolding get_meta
  get_meta-fs fc storage key h h' d m l = ground (
    arith,
    read_file-fs h h' (meta_path fc storage key) m d,
    read_file-fs h h' (legacy_path fc storage key) l d,
  )

  module _ (fc : FileCache) (storage key : Text) (meta : FileMeta) (h : Host) where
    -- Metadata that could be written is read back, stamped.
    pub get_meta-write_meta :
        IsWritable h (meta_path fc storage key)
        → get_meta fc storage key (write_meta fc storage key meta h)
          ≡ some (stamped fc storage key meta h)
    unfolding get_meta write_meta
    get_meta-write_meta w =
        let m = stamped fc storage key meta h in
        ground (
          arith,
          w.mkdir_ok,
          read_file-write_file (meta_path fc storage key) h (json.marshal m) w,
          json.unmarshal-marshal m,
        )

    -- Nothing else is written.
    pub fs-write_meta :
        (q : FilePath)
        → (meta_path fc storage key == q) ≡ false
        → (write_meta fc storage key meta h).fs q ≡ h.fs q
    unfolding write_meta
    fs-write_meta q ne = ground (
      arith,
      fs-write_file (meta_path fc storage key) q ne h
          (json.marshal (stamped fc storage key meta h)),
    )

    pub stat-write_meta :
        IsEntry storage key
        → stat (write_meta fc storage key meta h) (path fc storage key)
          ≡ stat h (path fc storage key)
    stat-write_meta e =
        stat-fs h (write_meta fc storage key meta h) (path fc storage key)
          (fs-write_meta (path fc storage key) (path-ne-meta_path fc e))

    pub denied-write_meta : (write_meta fc storage key meta h).denied ≡ h.denied
    unfolding write_meta
    denied-write_meta = ground (
      arith,
      denied-write_file (meta_path fc storage key) h (json.marshal (stamped fc storage key meta h)),
    )

    pub now-write_meta : (write_meta fc storage key meta h).now ≡ h.now
    unfolding write_meta
    now-write_meta = ground (
      arith,
      now-write_file (meta_path fc storage key) h (json.marshal (stamped fc storage key meta h)),
    )
