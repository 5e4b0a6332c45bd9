-- ===== src/Api/Download/Local.antt =====
-- What a download may do to a file that is in the cache (internal/api/api.go).
use proxs.Cache.Paths.{IsEntry, path-ne-meta_path}
use proxs.Cache.Recorded.{fs-write_meta}
use proxs.Prelude.{
  Bool-cases, Option-cases, refl, ◌⊎◌, inl, inr, ◌<◌, ◌≡◌, ◌≢◌, true, false, none, some, [], ltb,
  ◌==◌, arith, nat_eq, list_eq, Text,
}
use proxs.Host.{Host, FileInfo, stat}
use proxs.S3client.Library.{Sdk}
use proxs.S3client.{ObjectInfo, Head, found, missing, unknown}
use proxs.Cache.Meta.{FileMeta, MetaJson}
use proxs.Cache.Entry.{FileCache, path, get_meta, is_stale}
use proxs.Api.Upload.{head_meta, reconcile_local}
use proxs.Api.Download.{
  after_cached, local_state, check_remote, serve_cached, backfill, handle_download, served,
}

module _ ⦃json : MetaJson⦄ (fc : FileCache) (storage key : Text) (h : Host) where
  -- The metadata says that S3 had this content, and S3 has another one now.
  pub data IsReplaced (m : FileMeta) (o : ObjectInfo) : Type 0 where
    other_etag : (o.etag == []) ≡ false → (m.etag == o.etag) ≡ false → IsReplaced m o
    later : (o.etag == []) ≡ true → m.last_modified < o.last_modified → IsReplaced m o

  -- Why the cached file may be removed or replaced: its metadata says that it was uploaded, and S3
  -- has no object or another one; or it has no metadata, and S3 has an object of another size that
  -- is not older.
  pub data IsOutdated (info : FileInfo) (head : Head) : Type 0 where
    purged :
        (m : FileMeta)
        → get_meta fc storage key h ≡ some m
        → m.pending_upload ≡ false
        → head ≡ missing
        → IsOutdated info head
    replaced :
        (m : FileMeta) (o : ObjectInfo)
        → get_meta fc storage key h ≡ some m
        → m.pending_upload ≡ false
        → head ≡ found o
        → IsReplaced m o
        → IsOutdated info head
    unlike :
        (o : ObjectInfo)
        → get_meta fc storage key h ≡ none
        → head ≡ found o
        → (o.last_modified < info.mtime → ⊥)
        → info.size ≢ o.size
        → IsOutdated info head

  module _ ⦃sdk : Sdk⦄ (b : sdk.State) where
    abbrev pub IsSpared : Head → Type 0
    IsSpared head =
        let (response, _, h') = handle_download fc storage key head b h in
        (response ≡ served (path fc storage key))
        × (h'.fs (path fc storage key) ≡ h.fs (path fc storage key))

    synced_spares :
        (info : FileInfo) (m : FileMeta) (head : Head)
        → stat h (path fc storage key) ≡ some info
        → get_meta fc storage key h ≡ some m
        → m.pending_upload ≡ false
        → IsSpared head ⊎ IsOutdated info head
    unfolding handle_download serve_cached local_state check_remote after_cached is_stale
    synced_spares info m missing s g p = inr (purged m g p refl)
    synced_spares info m unknown s g p = inl (ground (arith, s, g, p), ground (arith, s, g, p))
    synced_spares info m (found o) s g p = elim (Bool-cases (o.etag == [])) [
      | inl t ↦ elim (Bool-cases (ltb m.last_modified o.last_modified)) [
        | inl l ↦ inr (replaced m o g p refl (later t (ground (arith, l))))
        | inr l ↦ inl (ground (arith, s, g, p, t, l), ground (arith, s, g, p, t, l))
      ]
      | inr t ↦ elim (Bool-cases (m.etag == o.etag)) [
        | inl q ↦ inl (ground (arith, s, g, p, t, q), ground (arith, s, g, p, t, q))
        | inr q ↦ inr (replaced m o g p refl (other_etag t q))
      ]
    ]

    recorded_spares :
        (info : FileInfo) (m : FileMeta) (head : Head)
        → stat h (path fc storage key) ≡ some info
        → get_meta fc storage key h ≡ some m
        → IsSpared head ⊎ IsOutdated info head
    unfolding handle_download serve_cached local_state after_cached
    recorded_spares info m head s g = elim (Bool-cases m.pending_upload) [
      | inl p ↦ inl (ground (arith, s, g, p), ground (arith, s, g, p))
      | inr p ↦ synced_spares info m head s g p
    ]

    unrecorded_spares :
        (info : FileInfo) (head : Head)
        → IsEntry storage key
        → stat h (path fc storage key) ≡ some info
        → get_meta fc storage key h ≡ none
        → IsSpared head ⊎ IsOutdated info head
    unfolding handle_download serve_cached local_state reconcile_local backfill after_cached
    unrecorded_spares info missing e s g = inl (ground (arith, s, g), ground (arith, s, g))
    unrecorded_spares info unknown e s g = inl (ground (arith, s, g), ground (arith, s, g))
    unrecorded_spares info (found o) e s g = elim (Bool-cases (ltb o.last_modified info.mtime)) [
      | inl l ↦ inl (ground (arith, s, g, l), ground (arith, s, g, l))
      | inr l ↦ elim (Bool-cases (info.size == o.size)) [
        | inl z ↦
            let same =
              fs-write_meta fc storage key (head_meta o) h (path fc storage key)
                (path-ne-meta_path fc e) in
            inl (ground (arith, s, g, l, z), ground (arith, s, g, l, z, same))
        | inr z ↦ inr (unlike o g refl (λ n. ground (arith, n, l)) (λ n. ground (arith, n, z)))
      ]
    ]

    -- Whatever S3 answered, a download of a cached file answers with its path and leaves the file as
    -- it is, or the file is outdated: its metadata does not say that an upload is pending, and S3
    -- answered that it has no object, or one with another ETag or, without ETags, a later one; or
    -- it has no metadata, and S3 has an object of another size that is not older than the file.
    pub handle_download-spares :
        (info : FileInfo) (head : Head)
        → IsEntry storage key
        → stat h (path fc storage key) ≡ some info
        → IsSpared head ⊎ IsOutdated info head
    handle_download-spares info head e s = elim (Option-cases (get_meta fc storage key h)) [
      | inl g ↦ unrecorded_spares info head e s g
      | inr (m, g) ↦ recorded_spares info m head s g
    ]
