-- ===== src/Api/Changes/Safety.antt =====
-- The outcomes of handleRename (internal/api/api.go).
use proxs.Prelude.{
  ◌≡◌, ◌≢◌, ◌⊎◌, inl, inr, Bool, true, false, none, arith, Option-cases, ◌==◌, nat_eq, list_eq,
  Text,
}
use proxs.FilePath.{FilePath}
use proxs.Host.{Host, read_file}
use proxs.S3client.Library.{Sdk, is_plain, IsLawful}
use proxs.S3client.{put_object, copy_object}
use proxs.S3client.Laws.{
  put_object-stores, put_object-keeps, delete_object-keeps, copy_object-stores, copy_object-keeps,
}
use proxs.Cache.Meta.{MetaJson}
use proxs.Cache.Entry.{FileCache, path, has}
use proxs.Api.Changes.{
  put_file, local_authoritative, finish_rename, rename_local, handle_rename, ok, error,
}

module _ ⦃json : MetaJson⦄ ⦃sdk : Sdk⦄ (laws : IsLawful sdk) (fc : FileCache) (storage : Text) where
  put_file-other :
      (key other : Text) (p : FilePath) (h : Host) (b : sdk.State)
      → (key == other) ≡ false
      → laws.content (put_file key p h b).1 other ≡ laws.content b other
  unfolding put_file
  put_file-other key other p h b n = elim (Option-cases (read_file h p)) [
    | inl r ↦ ground arith
    | inr (body, r) ↦ ground (arith, put_object-keeps laws key body other b n)
  ]

  rename_local-error :
      (src_key dst_key : Text) (cached : Bool) (h : Host) (b : sdk.State)
      → (dst_key == src_key) ≡ false
      → (rename_local fc storage src_key dst_key cached h b).0 ≡ error
      → ((rename_local fc storage src_key dst_key cached h b).1 ≡ h)
        × (laws.content (rename_local fc storage src_key dst_key cached h b).2 src_key
            ≡ laws.content b src_key)
  unfolding rename_local finish_rename
  rename_local-error src_key dst_key cached h b n e =
      ground (arith, put_file-other dst_key src_key (path fc storage src_key) h b n)

  -- A rename that answers an error has changed nothing in the cache and left the source object on
  -- S3, if the two keys differ.
  pub handle_rename-error :
      (src_key dst_key : Text) (h : Host) (b : sdk.State)
      → (dst_key == src_key) ≡ false
      → (handle_rename fc storage src_key dst_key h b).0 ≡ error
      → ((handle_rename fc storage src_key dst_key h b).1 ≡ h)
        × (laws.content (handle_rename fc storage src_key dst_key h b).2 src_key
            ≡ laws.content b src_key)
  unfolding handle_rename finish_rename
  handle_rename-error src_key dst_key h b n e =
      let cached = has fc storage src_key h in
      ground (
        arith,
        rename_local-error src_key dst_key cached h b n,
        rename_local-error src_key dst_key cached h (copy_object src_key dst_key b).1 n,
        copy_object-keeps laws src_key dst_key src_key b n,
      )

  pub copy_object-copied :
      (src dst : Text) (b : sdk.State)
      → is_plain src ≡ true
      → ((copy_object src dst b).0 ≡ none)
        ⊎ (laws.content (copy_object src dst b).1 dst ≡ laws.content b src)
          × (laws.content b src ≢ none)
  copy_object-copied src dst b p = elim (Option-cases (copy_object src dst b).0) [
    | inl r ↦ inl r
    | inr (etag, r) ↦ inr (copy_object-stores laws src dst etag b p r)
  ]

  pub put_file-sent :
      (key : Text) (p : FilePath) (h : Host) (b : sdk.State)
      → ((put_file key p h b).0 ≡ none)
        ⊎ (laws.content (put_file key p h b).1 key ≡ read_file h p) × (read_file h p ≢ none)
  unfolding put_file
  put_file-sent key p h b = elim (Option-cases (read_file h p)) [
    | inl r ↦ ground arith
    | inr (body, r) ↦ elim (Option-cases (put_object key body b).0) [
      | inl t ↦ ground arith
      | inr (etag, t) ↦ ground (arith, put_object-stores laws key body etag b t)
    ]
  ]

  -- What the destination on S3 holds after a rename: the bytes of the cached file, or, if that is
  -- not the only copy, what the source object held.
  abbrev pub Moved : Text → Text → Host → sdk.State → sdk.State → Type 0
  Moved src_key dst_key h b b' =
      (laws.content b' dst_key ≢ none)
      × ((laws.content b' dst_key ≡ read_file h (path fc storage src_key))
          ⊎ (local_authoritative fc storage src_key h ≡ false)
            × (laws.content b' dst_key ≡ laws.content b src_key))

  rename_local-sent :
      (src_key dst_key : Text) (cached : Bool) (h : Host) (b : sdk.State)
      → (src_key == dst_key) ≡ false
      → (rename_local fc storage src_key dst_key cached h b).0 ≡ ok
      → (laws.content (rename_local fc storage src_key dst_key cached h b).2 dst_key
          ≡ read_file h (path fc storage src_key))
        × (read_file h (path fc storage src_key) ≢ none)
  unfolding rename_local finish_rename
  rename_local-sent src_key dst_key cached h b n e =
      let b' = (put_file dst_key (path fc storage src_key) h b).1 in
      ground (
        arith,
        put_file-sent dst_key (path fc storage src_key) h b,
        delete_object-keeps laws src_key dst_key b' n,
      )

  -- A rename that answers ok has put under the destination key the bytes of the cached file, or, if
  -- that is not the only copy, what the source object held. The two keys differ, and the source
  -- needs no encoding in a URL.
  pub handle_rename-Moved :
      (src_key dst_key : Text) (h : Host) (b : sdk.State)
      → (src_key == dst_key) ≡ false
      → is_plain src_key ≡ true
      → (handle_rename fc storage src_key dst_key h b).0 ≡ ok
      → Moved src_key dst_key h b (handle_rename fc storage src_key dst_key h b).2
  unfolding handle_rename finish_rename
  handle_rename-Moved src_key dst_key h b n p e =
      let cached = has fc storage src_key h in
      let b' = (copy_object src_key dst_key b).1 in
      ground (
        arith,
        copy_object-copied src_key dst_key b p,
        delete_object-keeps laws src_key dst_key b' n,
        rename_local-sent src_key dst_key cached h b n,
        rename_local-sent src_key dst_key cached h b' n,
      )
