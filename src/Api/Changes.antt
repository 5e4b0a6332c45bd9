-- ===== src/Api/Changes.antt =====
-- The handlers that change S3 and the cache together (internal/api/api.go): handleDelete,
-- handleCopy, handleRename and handleUpload, for a storage that has a client, from the end of
-- blockUploads on where they call it. Until they return no upload of the blocked paths starts, and
-- nothing else writes while one runs.
pub mod Safety
pub mod Deleted
pub mod Copies
mod Examples
use proxs.Prelude.{
  Bool, true, false, not, ◌||◌, Option, none, some, if◌then◌else◌, nat_eq, list_eq, Text,
}
use proxs.FilePath.{FilePath}
use proxs.Host.{
  Host, FileInfo, put_node, stat, read_file, created, write_file, remove_as, clear_immutable,
  rename_file, mkdir, open_file, remove, file,
}
use proxs.S3client.Library.{Sdk}
use proxs.S3client.{put_object, delete_object, copy_object}
use proxs.Cache.Meta.{MetaJson}
use proxs.Cache.Entry.{
  FileCache, path, invalidate, get_meta, mark_synced, remove_entry, has, cached_path,
}
use proxs.Cache.Placement.{link_entry}
use proxs.Api.Upload.{plain_meta}

-- The response of a handler: `{"status": "ok"}`, or an internal error.
pub data Status : Type 0 where
  ok error : Status

abbrev pub Outcome : ⦃sdk : Sdk⦄ → Type 0
Outcome ⦃sdk = sdk⦄ = Status × Host × sdk.State

unfoldable pub can_open : FilePath → Host → Bool
can_open p h = elim (stat h p) [ none ↦ false | some _ ↦ not (h.denied open_file p) ]

-- The copy into a destination that was just created, and its removal if that fails.
unfoldable pub fill_copy : FilePath → FilePath → Host → Bool × Host
fill_copy src dst h = elim (read_file h src) [
  | none ↦ (false, (remove_as remove dst h).1)
  | some body ↦
      let (written, h') = write_file dst body h in
      if written then (true, h') else (false, (remove_as remove dst h').1)
]

-- `copyLocalFile`, whether it succeeded. The source is read after the destination was truncated.
unfoldable pub copy_local_file : FilePath → FilePath → Host → Bool × Host
unfolding can_open fill_copy
copy_local_file src dst h =
    if not (can_open src h) || h.denied mkdir dst
    then (false, h)
    else let h' = clear_immutable dst h in
      elim (created h' dst) [
        | none ↦ (false, h')
        | some empty_file ↦ fill_copy src dst (put_node h' dst (some (file empty_file)))
      ]

-- `putFile`: the ETag and the file as it was opened, or an error.
unfoldable pub put_file :
    ⦃sdk : Sdk⦄ → Text → FilePath → Host → sdk.State → Option (Text × FileInfo) × sdk.State
put_file key p h b = if h.denied open_file p then (none, b) else elim (stat h p) [
  | none ↦ (none, b)
  | some info ↦ elim (read_file h p) [
    | none ↦ (none, b)
    | some body ↦
        let (answer, b') = put_object key body b in
        elim answer [ none ↦ (none, b') | some etag ↦ (some (etag, info), b') ]
  ]
]

module _ ⦃json : MetaJson⦄ ⦃sdk : Sdk⦄ (fc : FileCache) (storage : Text) where
  -- `localAuthoritative`.
  unfoldable pub local_authoritative : Text → Host → Bool
  unfolding cached_path
  local_authoritative key h = elim (cached_path fc storage key h) [
    | none ↦ false
    | some _ ↦ elim (get_meta fc storage key h) [ none ↦ true | some meta ↦ meta.pending_upload ]
  ]

  -- `recordOwnWrite`.
  unfoldable pub record_own_write : Text → FileInfo → Text → Host → Host
  record_own_write key info etag h =
      (mark_synced fc storage key info 0 (plain_meta etag h.now info.size) h).1

  -- `handleDelete`.
  unfoldable pub handle_delete : Text → Host → sdk.State → Outcome
  handle_delete key h b =
      let (answer, b') = delete_object key b in
      if answer then (ok, (remove_entry fc storage key h).1, b') else (error, h, b')

  -- The copy of the cache entry after S3 copied the object.
  unfoldable pub copy_entry : Text → Text → Text → Host → Host
  unfolding copy_local_file record_own_write
  copy_entry src_key dst_key etag h =
      let dst = path fc storage dst_key in
      let (copied, h') = copy_local_file (path fc storage src_key) dst h in
      if copied
      then elim (stat h' dst) [ none ↦ h' | some info ↦ record_own_write dst_key info etag h' ]
      else h'

  -- The local destination first, then the upload of its bytes.
  unfoldable pub copy_local : Text → Text → Host → sdk.State → Outcome
  unfolding copy_local_file put_file record_own_write
  copy_local src_key dst_key h b =
      let dst = path fc storage dst_key in
      let (copied, h') = copy_local_file (path fc storage src_key) dst h in
      let (answer, b') = put_file dst_key dst h' b in
      if not copied then (error, h', b) else elim answer [
        | none ↦ (error, invalidate fc storage dst_key h', b')
        | some sent ↦ (ok, record_own_write dst_key sent.1 sent.0 h', b')
      ]

  -- `handleCopy`.
  unfoldable pub handle_copy : Text → Text → Host → sdk.State → Outcome
  unfolding local_authoritative has copy_entry copy_local
  handle_copy src_key dst_key h b =
      let cached = has fc storage src_key h in
      if local_authoritative src_key h
      then copy_local src_key dst_key h b
      else let (answer, b') = copy_object src_key dst_key b in
        elim answer [
          | some etag ↦ (ok, if cached then copy_entry src_key dst_key etag h else h, b')
          | none ↦ if cached then copy_local src_key dst_key h b' else (error, h, b')
        ]

  -- The move of the cache entry, whose directory a failed rename stands for; `uploaded` is the
  -- state of the file that was uploaded, if it was.
  unfoldable pub move_entry : Text → Text → Text → Option FileInfo → Host → Host
  unfolding record_own_write
  move_entry src_key dst_key etag uploaded h =
      let src = path fc storage src_key in
      let dst = path fc storage dst_key in
      let (moved, h') = rename_file src dst (clear_immutable src h) in
      if not moved then h' else elim uploaded [
        | some info ↦ record_own_write dst_key info etag h'
        | none ↦ elim (stat h' dst) [
          | none ↦ h'
          | some info ↦ record_own_write dst_key info etag h'
        ]
      ]

  -- After the destination is on S3: the source goes, there and here. An error of the deletion is
  -- only logged.
  unfoldable pub finish_rename :
      Text → Text → Text → Option FileInfo → Bool → Host → sdk.State → Outcome
  unfolding move_entry
  finish_rename src_key dst_key etag uploaded cached h b =
      let (answer, b') = delete_object src_key b in
      let h' = if cached then move_entry src_key dst_key etag uploaded h else h in
      (ok, invalidate fc storage src_key h', b')

  -- The destination from the local file.
  unfoldable pub rename_local : Text → Text → Bool → Host → sdk.State → Outcome
  unfolding put_file finish_rename
  rename_local src_key dst_key cached h b =
      let (answer, b') = put_file dst_key (path fc storage src_key) h b in
      if not cached then (error, h, b) else elim answer [
        | none ↦ (error, h, b')
        | some sent ↦ finish_rename src_key dst_key sent.0 (some sent.1) cached h b'
      ]

  -- `handleRename`.
  unfoldable pub handle_rename : Text → Text → Host → sdk.State → Outcome
  unfolding local_authoritative has finish_rename rename_local
  handle_rename src_key dst_key h b =
      let cached = has fc storage src_key h in
      if local_authoritative src_key h
      then rename_local src_key dst_key cached h b
      else let (answer, b') = copy_object src_key dst_key b in
        elim answer [
          | some etag ↦ finish_rename src_key dst_key etag none cached h b'
          | none ↦ rename_local src_key dst_key cached h b'
        ]

  -- `handleUpload` of the file at `local_path`, where a path that cannot be opened is an error too.
  unfoldable pub handle_upload : Text → FilePath → Host → sdk.State → Outcome
  unfolding put_file
  handle_upload key local_path h b =
      let (answer, b') = put_file key local_path h b in
      elim answer [
        | none ↦ (error, h, b')
        | some sent ↦
            (ok, link_entry fc storage key local_path (plain_meta sent.0 h.now sent.1.size) h, b')
      ]
