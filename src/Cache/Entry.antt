-- ===== src/Cache/Entry.antt =====
-- The operations of FileCache on one entry (internal/cache/cache.go). Each runs under the lock
-- `mu`, so each is one step from a host to a host.
use proxs.Prelude.{
  ℕ, Bool, true, false, not, ◌&&◌, ◌||◌, Option, none, some, [], ◌∷◌, ◌++◌, ltb, if◌then◌else◌,
  ◌==◌, nat_eq, list_eq, Text, codes,
}
use proxs.FilePath.{FilePath, join, append_text}
use proxs.Host.{
  Host, FileInfo, Removal, is_failed, stat, read_file, write_file, remove_as, remove, retry, mkdir,
  clear_immutable,
}
use proxs.Cache.Meta.{FileMeta, MetaJson, covers}

-- A limit of 0 stands for every one that is not positive.
pub record FileCache : Type 0 where
  pub base_dir : FilePath
  pub max_mb : ℕ

-- `path` and `ExpectedPath`.
unfoldable pub path : FileCache → Text → Text → FilePath
path fc storage key = join fc.base_dir (storage ∷ key ∷ [])

unfoldable pub meta_path : FileCache → Text → Text → FilePath
meta_path fc storage key = join fc.base_dir (codes ".meta" ∷ storage ∷ (key ++ codes ".json") ∷ [])

unfoldable pub legacy_path : FileCache → Text → Text → FilePath
unfolding path
legacy_path fc storage key = append_text (path fc storage key) (codes ".meta")

-- The inode of the content file, 0 if there is none.
unfoldable pub inode_at : Host → FilePath → ℕ
inode_at h p = elim (stat h p) [ none ↦ 0 | some info ↦ info.inode ]

-- `MarkPending`.
unfoldable pub pending_meta : FileInfo → FileMeta
pending_meta info = record {
  etag = [];
  last_modified = info.mtime;
  size = info.size;
  cached_at = 0;
  pending_upload = true;
  inode = 0;
}

-- Whether metadata marks a file pending later than `started`, 0 being the zero time.
unfoldable pub pending_since : ℕ → Option FileMeta → Bool
pending_since started none = false
pending_since started (some cur) =
    not (started == 0) && (cur.pending_upload && ltb started cur.cached_at)

-- The sidecars of an entry go, as far as they can.
unfoldable pub remove_meta : FileCache → Text → Text → Host → Host
remove_meta fc storage key h =
    (remove_as remove (legacy_path fc storage key)
      (remove_as remove (meta_path fc storage key) h).1).1

-- `Invalidate`.
unfoldable pub invalidate : FileCache → Text → Text → Host → Host
unfolding remove_meta
invalidate fc storage key h =
    let (res, h') = remove_as remove (path fc storage key) h in
    if is_failed res then h' else remove_meta fc storage key h'

-- The two attempts of `Remove` to delete the content file.
unfoldable pub remove_content : FilePath → Host → Removal × Host
remove_content p h =
    let (res, h') = remove_as remove p (clear_immutable p h) in
    if is_failed res then remove_as retry p (clear_immutable p h') else (res, h')

module _ ⦃json : MetaJson⦄ where
  -- `getMeta`: the sidecar under .meta/, or the legacy one beside the file.
  unfoldable pub get_meta : FileCache → Text → Text → Host → Option FileMeta
  get_meta fc storage key h = elim (read_file h (meta_path fc storage key)) [
    | some data_read ↦ json.unmarshal data_read
    | none ↦ elim (read_file h (legacy_path fc storage key)) [
      | some data_read ↦ json.unmarshal data_read
      | none ↦ none
    ]
  ]

  -- What `writeMeta` records: the metadata stamped with the time and the file's inode.
  unfoldable pub stamped : FileCache → Text → Text → FileMeta → Host → FileMeta
  unfolding inode_at
  stamped fc storage key meta h = record meta {
    cached_at = h.now;
    inode = inode_at h (path fc storage key);
  }

  unfoldable pub write_meta : FileCache → Text → Text → FileMeta → Host → Host
  write_meta fc storage key meta h =
      if h.denied mkdir (meta_path fc storage key)
      then h
      else (write_file (meta_path fc storage key) (json.marshal (stamped fc storage key meta h))
          h).1

  unfoldable pub mark_pending : FileCache → Text → Text → Host → Bool × Host
  unfolding pending_meta
  mark_pending fc storage key h = elim (stat h (path fc storage key)) [
    | none ↦ (false, h)
    | some info ↦
        if info.is_dir || covers (get_meta fc storage key h) info
        then (false, h)
        else (true, write_meta fc storage key (pending_meta info) h)
  ]

  -- `MarkSynced`.
  unfoldable pub mark_synced :
      FileCache → Text → Text → FileInfo → ℕ → FileMeta → Host → Bool × Host
  unfolding pending_since
  mark_synced fc storage key uploaded started meta h = elim (stat h (path fc storage key)) [
    | none ↦ (false, h)
    | some info ↦
        if not (
          info.inode == uploaded.inode
          && info.size == uploaded.size
          && info.mtime == uploaded.mtime)
        then (false, h)
        else if pending_since started (get_meta fc storage key h)
        then (false, h)
        else (true, write_meta fc storage key meta h)
  ]

  -- `IsStale`; an absent ETag is the empty text.
  unfoldable pub is_stale : FileCache → Text → Text → Text → ℕ → Host → Bool
  is_stale fc storage key remote_etag remote_modified h = elim (get_meta fc storage key h) [
    | none ↦ true
    | some meta ↦
        if not (remote_etag == [])
        then not (meta.etag == remote_etag)
        else ltb meta.last_modified remote_modified
  ]

  -- A leftover must not look like a write of PVE.
  unfoldable pub settle_leftover : FileCache → Text → Text → Host → Host
  settle_leftover fc storage key h = elim (get_meta fc storage key h) [
    | none ↦ h
    | some meta ↦
        if meta.pending_upload
        then write_meta fc storage key (record meta { pending_upload = false }) h
        else h
  ]

  -- `Remove`, with the error that it returns.
  unfoldable pub remove_entry : FileCache → Text → Text → Host → Removal × Host
  unfolding remove_content settle_leftover remove_meta
  remove_entry fc storage key h =
      let (res, h') = remove_content (path fc storage key) h in
      if is_failed res
      then (res, settle_leftover fc storage key h')
      else (res, remove_meta fc storage key h')

-- `Has`.
unfoldable pub has : FileCache → Text → Text → Host → Bool
has fc storage key h = elim (stat h (path fc storage key)) [ none ↦ false | some _ ↦ true ]

-- `Path`, `none` where it returns the empty text.
unfoldable pub cached_path : FileCache → Text → Text → Host → Option FilePath
cached_path fc storage key h = elim (stat h (path fc storage key)) [
  | none ↦ none
  | some _ ↦ some (path fc storage key)
]
