-- ===== src/Api/Upload/Success.antt =====
-- uploadOnce of internal/api/watcher.go where S3 accepts the file.
use proxs.Cache.Synced.{IsSame, mark_synced-unless}
use proxs.Cache.Pending.{
  marked, covered, gone, directory, IsPending, IsCovered, mark_pending-covers, Marks,
  mark_pending-Marks, gone,
}
use proxs.Cache.Recorded.{get_meta-write_meta, fs-write_meta}
use proxs.Host.Laws.{IsWritable, stat-eq, stat_unique}
use proxs.Cache.Paths.{IsEntry, path-ne-meta_path}
use proxs.Prelude.{
  ℕ, ◌≤◌, ◌≡◌, refl, ◌∙◌, subst, true, false, some, arith, nat_eq, list_eq, length, Text,
}
use proxs.Host.{File, Host, FileInfo, info_of, stat, read_file, open_file, file}
use proxs.S3client.Library.{Sdk, IsLawful}
use proxs.S3client.{Head, head_object, put_object}
use proxs.S3client.Laws.{put_object-stores}
use proxs.Cache.Meta.{FileMeta, MetaJson, covers}
use proxs.Cache.Entry.{
  FileCache, path, meta_path, inode_at, pending_since, get_meta, stamped, write_meta, mark_pending,
  mark_synced,
}
use proxs.Api.Upload.{
  plain_meta, begin_upload, finish_upload, transfer_file, complete, upload_once, transfer,
}

module _ ⦃json : MetaJson⦄ (fc : FileCache) (storage key : Text) (h : Host) (f : File)
    (m : FileMeta) (etag : Text) where
  -- A file that PVE wrote and the daemon marked, and that nothing keeps from being read.
  pub record IsDue : Type 0 where
    pub content : h.fs (path fc storage key) ≡ some (file f)
    pub readable : h.denied open_file (path fc storage key) ≡ false
    pub has_mark : get_meta fc storage key h ≡ some m
    pub uncovered : covers (some m) (info_of (file f)) ≡ false
    pub marked_before : m.cached_at ≤ h.now
    pub written_before : f.mtime ≤ h.now

  due-begin :
      IsDue
      → (head : Head)
      → begin_upload fc storage key false head h ≡ transfer (info_of (file f)) h.now h
  unfolding begin_upload stat
  due-begin d head = ground (arith, d.content, d.readable, d.has_mark, d.uncovered)

  due-transfer :
      ⦃sdk : Sdk⦄ (b : sdk.State)
      → IsDue
      → transfer_file fc storage key h b ≡ put_object key f.content b
  unfolding transfer_file read_file
  due-transfer b d = ground (arith, d.content, d.readable)

  abbrev pub recorded : FileMeta
  recorded = plain_meta etag h.now (length f.content)

  due-synced :
      IsDue
      → mark_synced fc storage key (info_of (file f)) h.now recorded h
        ≡ (true, write_meta fc storage key recorded h)
  unfolding mark_synced stat pending_since
  due-synced d = ground (arith, d.content, d.has_mark, d.marked_before)

  pub due-upload_once :
      ⦃sdk : Sdk⦄ (b : sdk.State)
      → IsDue
      → (put_object key f.content b).0 ≡ some etag
      → upload_once fc storage key h b
        ≡ (false, write_meta fc storage key recorded h, (put_object key f.content b).1)
  unfolding upload_once
  due-upload_once b d r =
      rw (
        due-begin d (head_object key b),
        complete,
        due-transfer b d,
        r,
        finish_upload,
        due-synced d,
      )

  recorded-covers :
      IsDue → covers (some (stamped fc storage key recorded h)) (info_of (file f)) ≡ true
  unfolding covers stamped inode_at
  recorded-covers d =
      ground (arith, stat-eq h (path fc storage key) (file f) d.content, d.written_before)

  due-mark_pending :
      (h' : Host)
      → IsDue
      → h'.fs (path fc storage key) ≡ h.fs (path fc storage key)
      → get_meta fc storage key h' ≡ some (stamped fc storage key recorded h)
      → (mark_pending fc storage key h').0 ≡ false
  due-mark_pending h' d k g =
      mark_pending-covers fc storage key h' (info_of (file f))
        (stat-eq h' (path fc storage key) (file f) (k ∙ d.content)) refl
      ∙ rw (g, recorded-covers d)

  -- When S3 accepts it, the upload of a file that PVE wrote and the daemon marked ends with no
  -- retry, the bytes of the file under its key, metadata in sync that carries the ETag S3 gave, and
  -- the file untouched; asked about that state, `MarkPending` finds nothing to upload.
  pub upload_once-success :
      ⦃sdk : Sdk⦄ (laws : IsLawful sdk) (b : sdk.State)
      → IsEntry storage key
      → IsWritable h (meta_path fc storage key)
      → IsDue
      → (put_object key f.content b).0 ≡ some etag
      → let (retry_wanted, h', b') = upload_once fc storage key h b in
        (retry_wanted ≡ false)
        × (laws.content b' key ≡ some f.content)
        × (get_meta fc storage key h' ≡ some (stamped fc storage key recorded h))
        × (h'.fs (path fc storage key) ≡ h.fs (path fc storage key))
        × ((mark_pending fc storage key h').0 ≡ false)
  upload_once-success laws b e w d r =
      let g = get_meta-write_meta fc storage key recorded h w in
      let k =
        fs-write_meta fc storage key recorded h (path fc storage key) (path-ne-meta_path fc e) in
      rw (due-upload_once b d r)
        (refl, put_object-stores laws key f.content etag b r, g, k, due-mark_pending _ d k g)

module _ ⦃json : MetaJson⦄ (fc : FileCache) (storage key : Text) where
  finish-changed :
      (info : FileInfo) (started : ℕ) (etag : Text) (h : Host)
      → (mark_synced fc storage key info started (plain_meta etag h.now info.size) h ≡ (false, h))
      → finish_upload fc storage key info started false (some etag) h
        ≡ (false, (mark_pending fc storage key h).1)
  unfolding finish_upload
  finish-changed info started etag h e = rw e

  -- PVE writes while the transfer runs: `info` is the file as it was opened, `h` the machine when
  -- S3 answers. If the file there is a regular one that is no longer the uploaded one, and no
  -- metadata covers it, the attempt ends with metadata that marks the newer content pending, and no
  -- retry of its own.
  pub finish_upload-rewritten :
      (info info' : FileInfo) (started : ℕ) (etag : Text) (h : Host)
      → IsEntry storage key
      → IsWritable h (meta_path fc storage key)
      → stat h (path fc storage key) ≡ some info'
      → info'.is_dir ≡ false
      → ¬ IsSame info' info
      → ¬ IsCovered info' (get_meta fc storage key h)
      → ((finish_upload fc storage key info started false (some etag) h).0 ≡ false)
        × IsPending info' (
            get_meta fc storage key
              (finish_upload fc storage key info started false (some etag) h).1)
  finish_upload-rewritten info info' started etag h e w s d ns nc =
      let unsynced =
        mark_synced-unless fc storage key info started (plain_meta etag h.now info.size) h info' s
          ns in
      rw (finish-changed info started etag h unsynced)
        (refl, marks (mark_pending-Marks fc storage key h e w))
    where
      marks :
          Marks fc storage key h (mark_pending fc storage key h)
          → IsPending info' (get_meta fc storage key (mark_pending fc storage key h).1)
      marks (marked i t _ _ _ p _) =
          subst (λ x. IsPending x (get_meta fc storage key (mark_pending fc storage key h).1))
            (stat_unique h (path fc storage key) t s) p
      marks (gone t _) = cc
      marks (directory i t d' _) = cc
      marks (covered i t c _) = absurd (
          nc (
            subst (λ x. IsCovered x (get_meta fc storage key h))
              (stat_unique h (path fc storage key) t s) c))
