-- ===== src/Api/Changes/Copies.antt =====
-- handleCopy and handleUpload (internal/api/api.go): what the destination holds on S3 and here.
use mathlib.Core.List.{append_cancel_left}
use proxs.Prelude.{
  ℕ, ◌≡◌, ◌≢◌, ◌⊎◌, sym, ap, ◌∙◌, inl, inr, true, false, Option, none, some, arith, Option-cases,
  ◌==◌, eq_iff, eq_refl, beq_of_ne, nat_eq, list_eq, Text,
}
use proxs.FilePath.{FilePath, join_slash}
use proxs.FilePath.Laws.{join_slash-split, tail-eq}
use proxs.Host.{
  Host, Node, FileInfo, file, put_node, read_file, created, write_file, clear_immutable,
}
use proxs.Host.Laws.{read_file-fs}
use proxs.S3client.Library.{Sdk, is_plain, IsLawful}
use proxs.S3client.{copy_object}
use proxs.Cache.Meta.{FileMeta, MetaJson}
use proxs.Cache.Paths.{IsEntry, path-eq}
use proxs.Cache.Placement.Linked.{link_entry-in_place}
use proxs.Host.Laws.{IsWritable}
use proxs.Host.{mkdir}
use proxs.Prelude.{refl}
use proxs.Cache.Entry.{stamped}
use proxs.Cache.Entry.{meta_path, get_meta}
use proxs.Cache.Placement.{same_file, link_entry}
use proxs.Cache.Eviction.{only_copy}
use proxs.Cache.Recorded.{denied-write_meta}
use proxs.Cache.Entry.{stamped}
use proxs.Cache.Entry.{FileCache, path, mark_synced}
use proxs.Api.Upload.{plain_meta}
use proxs.Api.Durable.Records.{mark_synced-SameFile}
use proxs.Api.Changes.{
  fill_copy, copy_local_file, put_file, local_authoritative, record_own_write, copy_local,
  handle_copy, handle_upload, ok, error, link_entry,
}
use proxs.Api.Changes.Safety.{copy_object-copied, put_file-sent}

-- What is read at a path, if it can be read at all.
abbrev Reads : Host → FilePath → Option Text → Type 0
Reads h p r = (read_file h p ≡ none) ⊎ (read_file h p ≡ r)

write_file-Reads :
    (p : FilePath) (c : Text) (h : Host)
    → (write_file p c h).0 ≡ true
    → Reads (write_file p c h).1 p (some c)
unfolding write_file read_file
write_file-Reads p c h w = ground (arith, eq_refl p)

fill_copy-Reads :
    (src dst : FilePath) (h : Host)
    → (fill_copy src dst h).0 ≡ true
    → Reads (fill_copy src dst h).1 dst (read_file h src)
unfolding fill_copy
fill_copy-Reads src dst h f = elim (Option-cases (read_file h src)) [
  | inl r ↦ ground arith
  | inr (body, r) ↦ ground (arith, write_file-Reads dst body h)
]

-- A source that is another file than the destination is read as it was.
truncated-reads :
    (src dst : FilePath) (h : Host) (n : Option Node)
    → (dst == src) ≡ false
    → read_file (put_node (clear_immutable dst h) dst n) src ≡ read_file h src
unfolding read_file clear_immutable
truncated-reads src dst h n ne = ground arith

copy_local_file-Reads :
    (src dst : FilePath) (h : Host)
    → (dst == src) ≡ false
    → (copy_local_file src dst h).0 ≡ true
    → Reads (copy_local_file src dst h).1 dst (read_file h src)
unfolding copy_local_file
copy_local_file-Reads src dst h ne c = elim (Option-cases (created (clear_immutable dst h) dst)) [
  | inl r ↦ ground arith
  | inr (f, r) ↦
      let h' = put_node (clear_immutable dst h) dst (some (file f)) in
      ground (arith, fill_copy-Reads src dst h', truncated-reads src dst h (some (file f)) ne)
]

-- Entries with different keys are different files.
path-ne :
    (fc : FileCache) (storage a b : Text)
    → IsEntry storage a
    → IsEntry storage b
    → (a == b) ≡ false
    → (path fc storage a == path fc storage b) ≡ false
path-ne fc storage a b e e' n = beq_of_ne λ q.
    let same =
      tail-eq (append_cancel_left fc.base_dir _ _ (sym (path-eq fc e) ∙ q ∙ path-eq fc e')) in
    cc (n, (eq_iff a b).1 (sym (join_slash-split a) ∙ ap join_slash same ∙ join_slash-split b))

module _ ⦃json : MetaJson⦄ ⦃sdk : Sdk⦄ (laws : IsLawful sdk) (fc : FileCache) (storage : Text) where
  denied-mark_synced :
      (key : Text) (info : FileInfo) (started : ℕ) (meta : FileMeta) (h : Host)
      → (mark_synced fc storage key info started meta h).1.denied ≡ h.denied
  unfolding mark_synced
  denied-mark_synced key info started meta h =
      ground (arith, denied-write_meta fc storage key meta h)

  record_own_write-reads :
      (key : Text) (info : FileInfo) (etag : Text) (h : Host)
      → IsEntry storage key
      → read_file (record_own_write fc storage key info etag h) (path fc storage key)
        ≡ read_file h (path fc storage key)
  unfolding record_own_write
  record_own_write-reads key info etag h e =
      let meta = plain_meta etag h.now info.size in
      read_file-fs h _ (path fc storage key) (mark_synced-SameFile fc storage key e info 0 meta h)
        (denied-mark_synced key info 0 meta h)

  -- The destination has the bytes of the cached source, on S3 and in the cache.
  abbrev pub CopiedHere : Text → Text → Host → Host → sdk.State → Type 0
  CopiedHere src_key dst_key h h' b' =
      (laws.content b' dst_key ≢ none)
      × (laws.content b' dst_key ≡ read_file h (path fc storage src_key))
      × (read_file h' (path fc storage dst_key) ≡ laws.content b' dst_key)

  -- The destination on S3 has what the source object held, of which the cached source is a copy.
  abbrev pub CopiedThere : Text → Text → Host → sdk.State → sdk.State → Type 0
  CopiedThere src_key dst_key h b b' =
      (laws.content b' dst_key ≢ none)
      × (laws.content b' dst_key ≡ laws.content b src_key)
      × (local_authoritative fc storage src_key h ≡ false)

  copy_local-Copied :
      (src_key dst_key : Text) (h : Host) (b : sdk.State)
      → (path fc storage dst_key == path fc storage src_key) ≡ false
      → IsEntry storage dst_key
      → (copy_local fc storage src_key dst_key h b).0 ≡ ok
      → CopiedHere src_key dst_key h
          (copy_local fc storage src_key dst_key h b).1
          (copy_local fc storage src_key dst_key h b).2
  unfolding copy_local
  copy_local-Copied src_key dst_key h b n e o =
      let src = path fc storage src_key in
      let dst = path fc storage dst_key in
      let h' = (copy_local_file src dst h).1 in
      elim (Option-cases (put_file dst_key dst h' b).0) [
        | inl r ↦ ground arith
        | inr ((etag, info), r) ↦ ground (
          arith,
          copy_local_file-Reads src dst h n,
          put_file-sent laws fc storage dst_key dst h' b,
          record_own_write-reads dst_key info etag h' e,
        )
      ]

  -- A copy between two different keys that answers ok has put an object under the destination key.
  -- Either it holds the bytes of the cached source, and the cached destination holds the same; or
  -- it holds what the source object held, and the cached source is no content that S3 may lack. The
  -- source needs no encoding in a URL.
  pub handle_copy-Copied :
      (src_key dst_key : Text) (h : Host) (b : sdk.State)
      → (dst_key == src_key) ≡ false
      → IsEntry storage src_key
      → IsEntry storage dst_key
      → is_plain src_key ≡ true
      → (handle_copy fc storage src_key dst_key h b).0 ≡ ok
      → CopiedHere src_key dst_key h
          (handle_copy fc storage src_key dst_key h b).1
          (handle_copy fc storage src_key dst_key h b).2
        ⊎ CopiedThere src_key dst_key h b (handle_copy fc storage src_key dst_key h b).2
  unfolding handle_copy
  handle_copy-Copied src_key dst_key h b n e e' p o =
      let ne = path-ne fc storage dst_key src_key e' e n in
      let b' = (copy_object src_key dst_key b).1 in
      ground (
        arith,
        copy_object-copied laws fc storage src_key dst_key b p,
        copy_local-Copied src_key dst_key h b ne e',
        copy_local-Copied src_key dst_key h b' ne e',
      )

  registered :
      (key : Text) (local_path : FilePath) (etag : Text) (size : ℕ) (h : Host)
      → IsEntry storage key
      → IsWritable h (meta_path fc storage key)
      → h.denied mkdir (path fc storage key) ≡ false
      → same_file h local_path (path fc storage key) ≡ true
      → let h' = link_entry fc storage key local_path (plain_meta etag h.now size) h in
        (h'.fs (path fc storage key) ≡ h.fs (path fc storage key))
        × (only_copy (get_meta fc storage key h') ≡ false)
  unfolding only_copy stamped
  registered key local_path etag size h e w d s =
      let meta = plain_meta etag h.now size in
      let kept = link_entry-in_place fc storage key meta h local_path e w d s in
      (kept.0, rw kept.1 refl)

  -- An upload on request of a file that already is the cache entry. If it answers ok, S3 has the
  -- bytes of the file under its key, the file is as it was, and its metadata says that S3 has it;
  -- if it answers an error, nothing has changed in the cache. The directory and the metadata can be
  -- written.
  pub handle_upload-outcome :
      (key : Text) (local_path : FilePath) (h : Host) (b : sdk.State)
      → IsEntry storage key
      → IsWritable h (meta_path fc storage key)
      → h.denied mkdir (path fc storage key) ≡ false
      → same_file h local_path (path fc storage key) ≡ true
      → let (status, h', b') = handle_upload fc storage key local_path h b in
        ((status ≡ ok)
          × (laws.content b' key ≡ read_file h local_path)
          × (laws.content b' key ≢ none)
          × (h'.fs (path fc storage key) ≡ h.fs (path fc storage key))
          × (only_copy (get_meta fc storage key h') ≡ false))
        ⊎ ((status ≡ error) × (h' ≡ h))
  unfolding handle_upload
  handle_upload-outcome key local_path h b e w d s =
      elim (Option-cases (put_file key local_path h b).0) [
        | inl r ↦ ground arith
        | inr ((etag, info), r) ↦ ground (
          arith,
          put_file-sent laws fc storage key local_path h b,
          registered key local_path etag info.size h e w d s,
        )
      ]
