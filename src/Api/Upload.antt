-- ===== src/Api/Upload.antt =====
-- One upload attempt of the watcher: reconcileLocal and uploadOnce of internal/api/watcher.go.
-- The attempt is cut where the transfer to S3 takes its time: PVE may write to the file in between.
pub mod Outcomes
pub mod Success
pub mod Examples
use proxs.Prelude.{
  ℕ, Bool, true, false, Option, none, some, ltb, if◌then◌else◌, ◌==◌, nat_eq, list_eq, Text, [],
}
use proxs.Host.{Host, FileInfo, stat, read_file, open_file}
use proxs.S3client.Library.{Sdk}
use proxs.S3client.{ObjectInfo, Head, head_object, put_object, found, missing, unknown}
use proxs.Cache.Meta.{FileMeta, MetaJson, covers}
use proxs.Cache.Entry.{FileCache, path, get_meta, mark_pending, mark_synced}

-- `localState`.
pub data LocalState : Type 0 where
  local_unknown local_missing local_in_sync local_newer local_older : LocalState

unfoldable pub reconcile_local : FileInfo → Head → LocalState
reconcile_local info missing = local_missing
reconcile_local info unknown = local_unknown
reconcile_local info (found head) =
    if ltb head.last_modified info.mtime
    then local_newer
    else if info.size == head.size
    then local_in_sync
    else local_older

-- The metadata that a HEAD answer stands for.
abbrev pub head_meta : ObjectInfo → FileMeta
head_meta head = record {
  etag = head.etag;
  last_modified = head.last_modified;
  size = head.size;
  cached_at = 0;
  pending_upload = false;
  inode = 0;
}

-- Metadata in sync, without an ETag where there is none.
abbrev pub plain_meta : Text → ℕ → ℕ → FileMeta
plain_meta etag modified size = record {
  etag = etag;
  last_modified = modified;
  size = size;
  cached_at = 0;
  pending_upload = false;
  inode = 0;
}

-- Where an attempt stands: it is over, and to be retried or not, or the file, in the state `info`,
-- is to be transferred.
pub data Begun : Type 0 where
  over : Bool → Host → Begun
  transfer : FileInfo → ℕ → Host → Begun

module _ ⦃json : MetaJson⦄ (fc : FileCache) (storage key : Text) where
  -- A file without metadata: the newer side wins.
  unfoldable pub begin_unknown : FileInfo → ℕ → LocalState → Head → Host → Begun
  begin_unknown info started local_unknown head h = over true h
  begin_unknown info started local_in_sync (found head) h =
      over false (mark_synced fc storage key info started (head_meta head) h).1
  begin_unknown info started local_older head h =
      over false (mark_synced fc storage key info started (plain_meta [] info.mtime info.size) h).1
  begin_unknown info started _ head h = transfer info h.now (mark_pending fc storage key h).1

  -- Up to the transfer. `canceled` is the flag of the upload state, `head` the answer of
  -- HeadObject if it is asked.
  unfoldable pub begin_upload : Bool → Head → Host → Begun
  unfolding begin_unknown reconcile_local
  begin_upload canceled head h =
      if h.denied open_file (path fc storage key)
      then over false h
      else elim (stat h (path fc storage key)) [
        | none ↦ over false h
        | some info ↦ if canceled then over false h else elim (get_meta fc storage key h) [
          | none ↦ begin_unknown info h.now (reconcile_local info head) head h
          | some meta ↦ if covers (some meta) info then over false h else transfer info h.now h
        ]
      ]

  -- After the transfer was answered: with an ETag, or with an error. The result says whether to
  -- retry.
  unfoldable pub finish_upload : FileInfo → ℕ → Bool → Option Text → Host → Bool × Host
  finish_upload info started canceled none h = (true, h)
  finish_upload info started canceled (some etag) h =
      if canceled
      then (false, h)
      else let (ok, h') =
          mark_synced fc storage key info started (plain_meta etag h.now info.size) h in
        if ok then (false, h') else (false, (mark_pending fc storage key h').1)

module _ ⦃json : MetaJson⦄ ⦃sdk : Sdk⦄ (fc : FileCache) (storage key : Text) where
  -- The transfer: the content that the open file has, if it can be read.
  unfoldable pub transfer_file : Host → sdk.State → Option Text × sdk.State
  transfer_file h b = elim (read_file h (path fc storage key)) [
    | none ↦ (none, b)
    | some body ↦ put_object key body b
  ]

  -- The rest of an attempt that has begun, when nothing comes in between.
  unfoldable pub complete : Begun → sdk.State → Bool × Host × sdk.State
  unfolding transfer_file finish_upload
  complete (over retry_wanted h) b = (retry_wanted, h, b)
  complete (transfer info started h) b =
      let (answer, b') = transfer_file h b in
      let (retry_wanted, h') = finish_upload fc storage key info started false answer h in
      (retry_wanted, h', b')

  -- `uploadOnce` from end to end, for a storage with a client.
  unfoldable pub upload_once : Host → sdk.State → Bool × Host × sdk.State
  unfolding begin_upload complete
  upload_once h b = complete (begin_upload fc storage key false (head_object key b) h) b
