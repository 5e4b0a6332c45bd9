-- ===== src/Api/Resync.antt =====
-- One file of handleResync (internal/api/resync.go), with what is reported of it.
mod Safety
pub mod Walk
pub mod Request
mod Examples
use proxs.Prelude.{
  Bool, not, ◌&&◌, ◌||◌, Option, none, some, ltb, if◌then◌else◌, ◌==◌, nat_eq, list_eq, Text,
}
use proxs.Host.{Host, FileInfo, stat, read_file, open_file}
use proxs.S3client.Library.{Sdk}
use proxs.S3client.{ObjectInfo, Head, head_object, put_object, found, missing, unknown}
use proxs.Cache.Meta.{FileMeta, MetaJson, covers}
use proxs.Cache.Entry.{FileCache, path, get_meta, write_meta, mark_pending, mark_synced}
use proxs.Api.Upload.{head_meta, plain_meta}

-- What the switch decides: upload, in sync, or a conflict that is skipped.
pub data Decision : Type 0 where
  upload in_sync conflict : Decision

-- Whether the sizes match and the local file is not newer, or metadata covers it.
unfoldable pub same_content : Option FileMeta → FileInfo → ObjectInfo → Bool
same_content meta info head =
    info.size == head.size && (covers meta info || not (ltb head.last_modified info.mtime))

unfoldable pub decide : Bool → Option FileMeta → FileInfo → Head → Decision
unfolding same_content
decide force meta info missing = upload
decide force meta info unknown = upload
decide force meta info (found head) =
    if same_content meta info head
    then in_sync
    else if ltb head.last_modified info.mtime
    then upload
    else if force
    then upload
    else conflict

-- What a file adds to the summary.
pub data Count : Type 0 where
  nothing_done uploaded skipped conflicting errored : Count

module _ ⦃json : MetaJson⦄ ⦃sdk : Sdk⦄ (fc : FileCache) (storage key : Text) where
  -- The upload, with no change in between.
  unfoldable pub resync_upload : Host → sdk.State → Count × Host × sdk.State
  resync_upload h b =
      if h.denied open_file (path fc storage key)
      then (errored, h, b)
      else elim (stat h (path fc storage key)) [
        | none ↦ (errored, h, b)
        | some info ↦ elim (read_file h (path fc storage key)) [
          | none ↦ (errored, h, b)
          | some body ↦
              let (answer, b') = put_object key body b in
              elim answer [
                | none ↦ (errored, h, b')
                | some etag ↦
                    let (recorded, h') =
                      mark_synced fc storage key info h.now (plain_meta etag h.now info.size) h in
                    (uploaded, if recorded then h' else (mark_pending fc storage key h').1, b')
              ]
        ]
      ]

  -- Metadata for a file in sync that has none.
  unfoldable pub resync_backfill : Head → Host → Host
  resync_backfill (found head) h = elim (get_meta fc storage key h) [
    | none ↦ write_meta fc storage key (head_meta head) h
    | some _ ↦ h
  ]
  resync_backfill _ h = h

  -- One regular file of the walk, `in_use` saying whether another process has it open.
  unfoldable pub resync_file : Bool → Bool → FileInfo → Host → sdk.State → Count × Host × sdk.State
  unfolding decide resync_upload resync_backfill
  resync_file force in_use info h b =
      if in_use
      then (skipped, h, b)
      else let head = head_object key b in
        elim (decide force (get_meta fc storage key h) info head) [
          | upload ↦ resync_upload h b
          | in_sync ↦ (nothing_done, resync_backfill head h, b)
          | conflict ↦ (conflicting, h, b)
        ]
