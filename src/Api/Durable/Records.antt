-- ===== src/Api/Durable/Records.antt =====
-- The operations that write metadata (internal/cache/cache.go, internal/api/watcher.go,
-- internal/api/resync.go) and the content of the file.
use proxs.Prelude.{
  ℕ, ◌≡◌, refl, inl, inr, Bool, Option, none, some, [], arith, if◌then◌else◌, Bool-cases,
  Option-cases, nat_eq, list_eq, Text, false,
}
use proxs.Host.{Host, FileInfo, stat, read_file, open_file}
use proxs.S3client.Library.{Sdk}
use proxs.S3client.{Head, head_object, put_object, found, missing, unknown}
use proxs.Cache.Meta.{FileMeta, MetaJson}
use proxs.Cache.Paths.{IsEntry, path-ne-meta_path}
use proxs.Cache.Recorded.{fs-write_meta}
use proxs.Cache.Entry.{
  pending_meta, get_meta, FileCache, path, write_meta, mark_pending, mark_synced, settle_leftover,
}
use proxs.Api.Upload.{
  reconcile_local, Begun, over, transfer, local_unknown, local_in_sync, local_older, LocalState,
  local_missing, local_newer, begin_unknown, begin_upload, finish_upload, head_meta, plain_meta,
}
use proxs.Api.Resync.{resync_upload, resync_backfill, resync_file}
use proxs.Api.Download.{backfill}

module _ ⦃json : MetaJson⦄ (fc : FileCache) (storage key : Text) (e : IsEntry storage key) where
  -- The file itself is as it was.
  abbrev pub SameFile : Host → Host → Type 0
  SameFile h h' = h'.fs (path fc storage key) ≡ h.fs (path fc storage key)

  pub write_meta-SameFile :
      (meta : FileMeta) (h : Host) → SameFile h (write_meta fc storage key meta h)
  write_meta-SameFile meta h =
      fs-write_meta fc storage key meta h (path fc storage key) (path-ne-meta_path fc e)

  pub mark_pending-SameFile : (h : Host) → SameFile h (mark_pending fc storage key h).1
  unfolding mark_pending
  mark_pending-SameFile h = elim (Option-cases (stat h (path fc storage key))) [
    | inl s ↦ ground arith
    | inr (info, s) ↦ ground (arith, write_meta-SameFile (pending_meta info) h)
  ]

  pub mark_synced-SameFile :
      (info : FileInfo) (started : ℕ) (meta : FileMeta) (h : Host)
      → SameFile h (mark_synced fc storage key info started meta h).1
  unfolding mark_synced
  mark_synced-SameFile info started meta h = ground (arith, write_meta-SameFile meta h)

  pub settle_leftover-SameFile : (h : Host) → SameFile h (settle_leftover fc storage key h)
  unfolding settle_leftover
  settle_leftover-SameFile h = elim (Option-cases (get_meta fc storage key h)) [
    | inl s ↦ ground arith
    | inr (meta, s) ↦ ground (arith, write_meta-SameFile (record meta { pending_upload = false }) h)
  ]

  pub finish_upload-SameFile :
      (info : FileInfo) (started : ℕ) (canceled : Bool) (answer : Option Text) (h : Host)
      → SameFile h (finish_upload fc storage key info started canceled answer h).1
  unfolding finish_upload
  finish_upload-SameFile info started canceled none h = refl
  finish_upload-SameFile info started canceled (some etag) h =
      let meta = plain_meta etag h.now info.size in
      let (ok, h') = mark_synced fc storage key info started meta h in
      ground (arith, mark_synced-SameFile info started meta h, mark_pending-SameFile h')

  pub backfill-SameFile : (head : Head) (h : Host) → SameFile h (backfill fc storage key head h)
  unfolding backfill
  backfill-SameFile (found head) h = write_meta-SameFile (head_meta head) h
  backfill-SameFile missing h = refl
  backfill-SameFile unknown h = refl

  -- The host of an attempt that has begun.
  abbrev pub host_of : Begun → Host
  host_of (over retry_wanted h) = h
  host_of (transfer info started h) = h

  begin_unknown-SameFile :
      (info : FileInfo) (started : ℕ) (state : LocalState) (head : Head) (h : Host)
      → SameFile h (host_of (begin_unknown fc storage key info started state head h))
  unfolding begin_unknown
  begin_unknown-SameFile info started local_unknown head h = refl
  begin_unknown-SameFile info started local_in_sync (found head) h =
      mark_synced-SameFile info started (head_meta head) h
  begin_unknown-SameFile info started local_in_sync missing h = mark_pending-SameFile h
  begin_unknown-SameFile info started local_in_sync unknown h = mark_pending-SameFile h
  begin_unknown-SameFile info started local_older head h =
      mark_synced-SameFile info started (plain_meta [] info.mtime info.size) h
  begin_unknown-SameFile info started local_missing head h = mark_pending-SameFile h
  begin_unknown-SameFile info started local_newer head h = mark_pending-SameFile h

  pub begin_upload-SameFile :
      (canceled : Bool) (head : Head) (h : Host)
      → SameFile h (host_of (begin_upload fc storage key canceled head h))
  unfolding begin_upload
  begin_upload-SameFile canceled head h = elim (Option-cases (stat h (path fc storage key))) [
    | inl s ↦ ground arith
    | inr (info, s) ↦
        ground (arith, begin_unknown-SameFile info h.now (reconcile_local info head) head h)
  ]

  module _ ⦃sdk : Sdk⦄ where
    pub resync_backfill-SameFile :
        (head : Head) (h : Host) → SameFile h (resync_backfill fc storage key head h)
    unfolding resync_backfill
    resync_backfill-SameFile (found head) h = ground (arith, write_meta-SameFile (head_meta head) h)
    resync_backfill-SameFile missing h = refl
    resync_backfill-SameFile unknown h = refl

    -- The end of an upload of a resync.
    recorded :
        (info : FileInfo) (etag : Text) (h : Host)
        → let (ok, h') =
            mark_synced fc storage key info h.now (plain_meta etag h.now info.size) h in
          SameFile h (if ok then h' else (mark_pending fc storage key h').1)
    recorded info etag h =
        let (ok, h') = mark_synced fc storage key info h.now (plain_meta etag h.now info.size) h in
        ground (
          arith,
          mark_synced-SameFile info h.now (plain_meta etag h.now info.size) h,
          mark_pending-SameFile h',
        )

    resync_upload-SameFile :
        (h : Host) (b : sdk.State) → SameFile h (resync_upload fc storage key h b).1
    unfolding resync_upload
    resync_upload-SameFile h b = elim (Bool-cases (h.denied open_file (path fc storage key))) [
      | inl d ↦ rw (resync_upload, d) refl
      | inr a ↦ elim (Option-cases (stat h (path fc storage key))) [
        | inl gone ↦ rw (resync_upload, a, gone) refl
        | inr (info, there) ↦ elim (Option-cases (read_file h (path fc storage key))) [
          | inl unread ↦ rw (resync_upload, a, there, unread) refl
          | inr (body, read) ↦ elim (Option-cases (put_object key body b).0) [
            | inl lost ↦ rw (resync_upload, a, there, read, lost) refl
            | inr (etag, put) ↦ rw (resync_upload, a, there, read, put) (recorded info etag h)
          ]
        ]
      ]
    ]

    pub resync_file-SameFile :
        (force in_use : Bool) (info : FileInfo) (h : Host) (b : sdk.State)
        → SameFile h (resync_file fc storage key force in_use info h b).1
    unfolding resync_file
    resync_file-SameFile force in_use info h b =
        ground (arith, resync_upload-SameFile h b, resync_backfill-SameFile (head_object key b) h)
