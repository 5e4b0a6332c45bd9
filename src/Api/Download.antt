-- ===== src/Api/Download.antt =====
-- handleDownload of internal/api/api.go, for a storage that has a client. Nothing else writes while
-- it runs.
pub mod Parts
pub mod Local
pub mod Fetched
pub mod Examples
use proxs.Prelude.{
  ℕ, Bool, true, false, ◌||◌, Option, none, some, ◌∷◌, if◌then◌else◌, nat_eq, list_eq, length, Text,
  codes, [],
}
use proxs.FilePath.{FilePath, join}
use proxs.Host.{
  Host, FileInfo, put_node, stat, created, write_file, remove_as, rename_file, mkdir, remove, file,
}
use proxs.S3client.Library.{Sdk}
use proxs.S3client.{ObjectInfo, Head, download_object, found, missing, unknown}
use proxs.Cache.Meta.{FileMeta, MetaJson}
use proxs.Cache.Entry.{FileCache, path, invalidate, get_meta, write_meta, is_stale, remove_entry}
use proxs.Api.Upload.{
  LocalState, reconcile_local, head_meta, plain_meta, local_unknown, local_missing, local_in_sync,
  local_newer,
}

-- What the handler writes: the path of the file, or an HTTP error.
pub data Response : Type 0 where
  served : FilePath → Response
  http_error : ℕ → Response

abbrev pub not_found : Response
not_found = http_error 404

abbrev pub internal_error : Response
internal_error = http_error 500

-- The response, whether an upload was requested, and the host.
abbrev pub Reply : Type 0
Reply = Response × Bool × Host

-- The handling of a cached file ends the request, or leaves the rest to a download.
pub data Cached : Type 0 where
  answered : Reply → Cached
  refetch : Host → Cached

-- The states of a file without metadata in which the local copy is authoritative.
abbrev pub is_local : LocalState → Bool
is_local local_missing = true
is_local local_newer = true
is_local _ = false

abbrev pub is_in_sync : LocalState → Bool
is_in_sync local_in_sync = true
is_in_sync _ = false

abbrev pub is_pending : Option FileMeta → Bool
is_pending none = false
is_pending (some meta) = meta.pending_upload

-- `state` in the handler: `reconcileLocal` is asked only without metadata.
unfoldable pub local_state : Option FileMeta → FileInfo → Head → LocalState
unfolding reconcile_local
local_state none info head = reconcile_local info head
local_state (some meta) info head = local_unknown

-- Where a download is kept until it is complete.
unfoldable pub download_path : FileCache → Text → Text → FilePath
download_path fc storage key = join fc.base_dir (codes ".downloads" ∷ storage ∷ key ∷ [])

module _ ⦃json : MetaJson⦄ (fc : FileCache) (storage key : Text) where
  -- A cached file that is neither authoritative nor without metadata.
  unfoldable pub check_remote : Head → Host → Cached
  check_remote missing h = answered (not_found, false, (remove_entry fc storage key h).1)
  check_remote unknown h = answered (served (path fc storage key), false, h)
  check_remote (found head) h =
      if is_stale fc storage key head.etag head.last_modified h
      then refetch (invalidate fc storage key h)
      else answered (served (path fc storage key), false, h)

  unfoldable pub backfill : Head → Host → Host
  backfill (found head) h = write_meta fc storage key (head_meta head) h
  backfill _ h = h

  unfoldable pub serve_cached : FileInfo → Head → Host → Cached
  unfolding local_state check_remote backfill
  serve_cached info head h =
      let meta = get_meta fc storage key h in
      let state = local_state meta info head in
      if is_pending meta || is_local state
      then answered (served (path fc storage key), true, h)
      else if is_in_sync state
      then answered (served (path fc storage key), false, backfill head h)
      else check_remote head h

  -- The file is complete under its temporary name: move it into the cache.
  unfoldable pub install : ObjectInfo → ℕ → Host → Reply
  install head size h =
      let tmp = download_path fc storage key in
      let final = path fc storage key in
      if h.denied mkdir final
      then (internal_error, false, (remove_as remove tmp h).1)
      else let (ok, h') = rename_file tmp final h in
        if ok
        then (
          served final,
          false,
          write_meta fc storage key (plain_meta head.etag head.last_modified size) h',
        )
        else (internal_error, false, (remove_as remove tmp h').1)

module _ ⦃json : MetaJson⦄ ⦃sdk : Sdk⦄ (fc : FileCache) (storage key : Text) where
  unfoldable pub download : ObjectInfo → sdk.State → Host → Reply
  unfolding install
  download head b h =
      let tmp = download_path fc storage key in
      if h.denied mkdir tmp then (internal_error, false, h) else elim (created h tmp) [
        | none ↦ (internal_error, false, h)
        | some empty_file ↦ elim (download_object key b) [
          | none ↦ (
            internal_error,
            false,
            (remove_as remove tmp (put_node h tmp (some (file empty_file)))).1,
          )
          | some body ↦
              let (ok, h') = write_file tmp body h in
              if ok
              then install fc storage key head (length body) h'
              else (internal_error, false, (remove_as remove tmp h').1)
        ]
      ]

  unfoldable pub fetch : Head → sdk.State → Host → Reply
  unfolding download
  fetch missing b h = (not_found, false, h)
  fetch unknown b h = (internal_error, false, h)
  fetch (found head) b h = download head b h

  unfoldable pub after_cached : Cached → Head → sdk.State → Reply
  unfolding fetch
  after_cached (answered r) head b = r
  after_cached (refetch h) head b = fetch head b h

  -- `handleDownload`, from the answer of HeadObject on.
  unfoldable pub handle_download : Head → sdk.State → Host → Reply
  unfolding after_cached serve_cached fetch
  handle_download head b h = elim (stat h (path fc storage key)) [
    | none ↦ fetch head b h
    | some info ↦ after_cached (serve_cached fc storage key info head h) head b
  ]
