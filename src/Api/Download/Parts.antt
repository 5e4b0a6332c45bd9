-- ===== src/Api/Download/Parts.antt =====
-- handleDownload of internal/api/api.go cut where no lock is held: the look at the cache, what is
-- done about the cached file, the transfer, the move into the cache, and the metadata. The
-- temporary file is written with the move, since nothing else reads it; one download of a key runs
-- at a time.
use proxs.Prelude.{
  ℕ, ◌≡◌, refl, inl, inr, Bool, true, false, ◌||◌, Option, none, some, arith, if◌then◌else◌,
  Bool-cases, Option-cases, nat_eq, list_eq, length, Text,
}
use proxs.Host.{
  Host, FileInfo, put_node, stat, created, write_file, remove_as, rename_file, mkdir, remove, file,
}
use proxs.S3client.Library.{Sdk}
use proxs.S3client.{ObjectInfo, Head, download_object, found, missing, unknown}
use proxs.Cache.Meta.{MetaJson}
use proxs.Cache.Entry.{FileCache, path, invalidate, get_meta, write_meta, is_stale, remove_entry}
use proxs.Api.Upload.{plain_meta}
use proxs.Api.Download.{
  is_local, is_in_sync, is_pending, local_state, download_path, backfill, install, download, fetch,
  after_cached, serve_cached, check_remote, handle_download,
}

-- What the look at the cache comes to.
pub data Action : Type 0 where
  serves backfills purges refetches fetches : Action

pub data Pull : Type 0 where
  no_pull : Pull
  judged : Action → Head → Pull
  asked : ObjectInfo → Pull
  fetched : ObjectInfo → Option Text → Pull
  placed : ObjectInfo → ℕ → Pull

abbrev pub size_of : Option Text → ℕ
size_of none = 0
size_of (some body) = length body

-- What follows the work on the cached file.
unfoldable pub next_pull : Action → Head → Pull
next_pull refetches (found o) = asked o
next_pull fetches (found o) = asked o
next_pull _ _ = no_pull

module _ ⦃json : MetaJson⦄ (fc : FileCache) (storage key : Text) where
  unfoldable pub remote_action : Head → Host → Action
  remote_action missing h = purges
  remote_action unknown h = serves
  remote_action (found o) h =
      if is_stale fc storage key o.etag o.last_modified h then refetches else serves

  unfoldable pub cached_action : FileInfo → Head → Host → Action
  unfolding local_state remote_action
  cached_action info head h =
      let meta = get_meta fc storage key h in
      let state = local_state meta info head in
      if is_pending meta || is_local state
      then serves
      else if is_in_sync state
      then backfills
      else remote_action head h

  unfoldable pub action_of : Head → Host → Action
  unfolding cached_action
  action_of head h = elim (stat h (path fc storage key)) [
    | none ↦ fetches
    | some info ↦ cached_action info head h
  ]

  unfoldable pub act : Action → Head → Host → Host
  unfolding backfill
  act serves head h = h
  act fetches head h = h
  act backfills head h = backfill fc storage key head h
  act purges head h = (remove_entry fc storage key h).1
  act refetches head h = invalidate fc storage key h

  -- The move of the complete file, with whether it succeeded.
  unfoldable pub move_in : Host → Bool × Host
  move_in h =
      let tmp = download_path fc storage key in
      let final = path fc storage key in
      if h.denied mkdir final
      then (false, (remove_as remove tmp h).1)
      else let (ok, h') = rename_file tmp final h in
        if ok then (true, h') else (false, (remove_as remove tmp h').1)

  -- The temporary file with what was transferred, and the move.
  unfoldable pub save : Option Text → Host → Bool × Host
  unfolding move_in
  save answer h =
      let tmp = download_path fc storage key in
      if h.denied mkdir tmp then (false, h) else elim (created h tmp) [
        | none ↦ (false, h)
        | some empty_file ↦ elim answer [
          | none ↦ (false, (remove_as remove tmp (put_node h tmp (some (file empty_file)))).1)
          | some body ↦
              let (ok, h') = write_file tmp body h in
              if ok then move_in h' else (false, (remove_as remove tmp h').1)
        ]
      ]

  -- The metadata of the new file.
  unfoldable pub store_meta : ObjectInfo → ℕ → Host → Host
  store_meta o size h = write_meta fc storage key (plain_meta o.etag o.last_modified size) h

  abbrev saved : ObjectInfo → Option Text → Bool × Host → Host
  saved o answer (ok, h) = if ok then store_meta o (size_of answer) h else h

  module _ ⦃sdk : Sdk⦄ (b : sdk.State) where
    -- The parts one after the other.
    abbrev finish : Pull → Host → Host
    finish (asked o) h = saved o (download_object key b) (save (download_object key b) h)
    finish _ h = h

    install-parts :
        (o : ObjectInfo) (body : Text) (h : Host)
        → (install fc storage key o (length body) h).2 ≡ saved o (some body) (move_in h)
    unfolding install move_in store_meta
    install-parts o body h = ground arith

    download-parts :
        (o : ObjectInfo) (h : Host)
        → (download fc storage key o b h).2
          ≡ saved o (download_object key b) (save (download_object key b) h)
    unfolding download save
    download-parts o h = elim (Bool-cases (h.denied mkdir (download_path fc storage key))) [
      | inl d ↦ rw (download, save, d) refl
      | inr a ↦ elim (Option-cases (created h (download_path fc storage key))) [
        | inl n ↦ rw (download, save, a, n) refl
        | inr (f, made) ↦ elim (Option-cases (download_object key b)) [
          | inl lost ↦ rw (download, save, a, made, lost) refl
          | inr (body, read) ↦
              elim (Bool-cases (write_file (download_path fc storage key) body h).0) [
                | inl ok ↦
                    rw (download, save, a, made, read, ok)
                      (install-parts o body (write_file (download_path fc storage key) body h).1)
                | inr torn ↦ rw (download, save, a, made, read, torn) refl
              ]
        ]
      ]
    ]

    fetch-parts :
        (head : Head) (h : Host)
        → (fetch fc storage key head b h).2 ≡ finish (next_pull fetches head) h
    unfolding fetch next_pull
    fetch-parts missing h = refl
    fetch-parts unknown h = refl
    fetch-parts (found o) h = download-parts o h

    serve_cached-parts :
        (info : FileInfo) (head : Head) (h : Host)
        → (after_cached fc storage key (serve_cached fc storage key info head h) head b).2
          ≡ finish
              (next_pull (cached_action info head h) head)
              (act (cached_action info head h) head h)
    unfolding serve_cached check_remote remote_action cached_action after_cached act next_pull fetch
    serve_cached-parts info missing h = ground arith
    serve_cached-parts info unknown h = ground arith
    serve_cached-parts info (found o) h =
        ground (arith, download-parts o (invalidate fc storage key h))

    -- A download with nothing in between is its parts one after the other.
    handle_download-parts :
        (head : Head) (h : Host)
        → (handle_download fc storage key head b h).2
          ≡ finish (next_pull (action_of head h) head) (act (action_of head h) head h)
    unfolding handle_download action_of act
    handle_download-parts head h = elim (Option-cases (stat h (path fc storage key))) [
      | inl gone ↦ rw (handle_download, action_of, gone) (fetch-parts head h)
      | inr (info, there) ↦ rw (handle_download, action_of, there) (serve_cached-parts info head h)
    ]
