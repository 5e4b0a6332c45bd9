-- ===== src/Api/Download/Fetched.antt =====
-- A download of a file that is not cached, from S3 to the cache.
use mathlib.Core.List.{append_assoc, append_cancel_left}
use proxs.Prelude.{
  beq_of_ne, beq_false_sym, ℕ, ◌≡◌, refl, sym, ◌∙◌, true, false, none, some, [], ◌∷◌, ◌++◌, arith,
  ◌==◌, eq_iff, eq_refl, nat_eq, list_beq, list_eq, length, Text, codes, add_byte, split,
}
use proxs.FilePath.{FilePath, slash, join, IsName}
use proxs.FilePath.Laws.{head-eq, push_names-All}
use proxs.Host.{
  File, Host, put_node, info_of, stat, created, write_file, rename_file, mkdir, create, write,
  rename, file,
}
use proxs.Host.Laws.{IsWritable, IsWritable-frame, stat-eq}
use proxs.S3client.Library.{Sdk}
use proxs.S3client.{ObjectInfo, download_object, found}
use proxs.Cache.Meta.{MetaJson, covers}
use proxs.Cache.Entry.{
  FileCache, path, meta_path, inode_at, get_meta, stamped, write_meta, mark_pending,
}
use proxs.Cache.Paths.{IsEntry, path-eq, meta_path-eq, path-ne-meta_path}
use proxs.Cache.Recorded.{get_meta-write_meta, fs-write_meta}
use proxs.Cache.Pending.{mark_pending-covers}
use proxs.Api.Upload.{plain_meta}
use proxs.Api.Download.{download_path, install, download, handle_download, served}

downloads-IsName : IsName (codes ".downloads")
unfolding list_beq
downloads-IsName = record { nonempty = refl; not_dot = refl; not_dots = refl }

module _ (fc : FileCache) {storage key : Text} (e : IsEntry storage key) where
  download_path-eq :
      download_path fc storage key ≡ fc.base_dir ++ codes ".downloads" ∷ storage ∷ split slash key
  unfolding download_path join split add_byte
  download_path-eq =
      rw
        (
          push_names-All fc.base_dir (codes ".downloads" ∷ []) (downloads-IsName, tt),
          e.storage_whole,
          push_names-All (fc.base_dir ++ codes ".downloads" ∷ []) (storage ∷ [])
              (e.storage_name, tt),
          push_names-All _ _ e.key_names,
        )
        (simp append_assoc)

  download-ne-meta_path : (download_path fc storage key == meta_path fc storage key) ≡ false
  unfolding list_beq
  download-ne-meta_path = beq_of_ne λ (q : download_path fc storage key ≡ meta_path fc storage key).
      let k =
        head-eq
          (append_cancel_left fc.base_dir _ _ (sym download_path-eq ∙ q ∙ meta_path-eq fc e)) in
      cc k

  pub download-ne-path :
      (storage == codes ".downloads") ≡ false
      → (download_path fc storage key == path fc storage key) ≡ false
  download-ne-path ne = beq_of_ne λ (q : download_path fc storage key ≡ path fc storage key).
      let k =
        head-eq (append_cancel_left fc.base_dir _ _ (sym download_path-eq ∙ q ∙ path-eq fc e)) in
      cc (ne, (eq_iff storage (codes ".downloads")).1 (sym k))

module _ ⦃json : MetaJson⦄ (fc : FileCache) (storage key : Text) (h : Host) where
  abbrev tmp : FilePath
  tmp = download_path fc storage key

  abbrev final : FilePath
  final = path fc storage key

  -- Nothing is in the way of a download, neither at its temporary name nor at its final one.
  pub record IsClear : Type 0 where
    pub tmp_free : h.fs (download_path fc storage key) ≡ none
    pub final_free : h.fs (path fc storage key) ≡ none
    pub tmp_mkdir : h.denied mkdir (download_path fc storage key) ≡ false
    pub tmp_create : h.denied create (download_path fc storage key) ≡ false
    pub tmp_write : h.denied write (download_path fc storage key) ≡ false
    pub final_mkdir : h.denied mkdir (path fc storage key) ≡ false
    pub final_rename : h.denied rename (path fc storage key) ≡ false

  -- The file that a download makes of these bytes.
  abbrev pub fetched_file : Text → File
  fetched_file body = record {
    content = body;
    mtime = h.now;
    inode = h.fresh_inode (download_path fc storage key);
    immutable = false;
  }

  abbrev pub installed : Text → Host
  installed body =
      put_node (put_node (put_node h tmp (some (file (fetched_file body)))) tmp none) final
        (some (file (fetched_file body)))

  clear-created :
      IsClear
      → created h tmp
        ≡ some
            (record { content = []; mtime = h.now; inode = h.fresh_inode tmp; immutable = false })
  unfolding created
  clear-created c = ground (arith, c.tmp_free, c.tmp_create)

  clear-write_file :
      (body : Text)
      → IsClear
      → write_file tmp body h ≡ (true, put_node h tmp (some (file (fetched_file body))))
  unfolding write_file
  clear-write_file body c = ground (arith, clear-created c, c.tmp_write)

  clear-rename_file :
      (body : Text)
      → IsClear
      → (tmp == final) ≡ false
      → rename_file tmp final (put_node h tmp (some (file (fetched_file body))))
        ≡ (true, installed body)
  unfolding rename_file
  clear-rename_file body c ne = ground (arith, eq_refl tmp, c.final_free, c.final_rename)

  clear-install :
      (head : ObjectInfo) (body : Text)
      → IsClear
      → (tmp == final) ≡ false
      → install fc storage key head (length body) (put_node h tmp (some (file (fetched_file body))))
        ≡ (
          served final,
          false,
          write_meta fc storage key
              (plain_meta head.etag head.last_modified (length body))
              (installed body),
        )
  unfolding install
  clear-install head body c ne = ground (arith, c.final_mkdir, clear-rename_file body c ne)

  clear-download :
      ⦃sdk : Sdk⦄ (head : ObjectInfo) (b : sdk.State) (body : Text)
      → IsClear
      → (tmp == final) ≡ false
      → download_object key b ≡ some body
      → download fc storage key head b h ≡ (
        served final,
        false,
        write_meta fc storage key
            (plain_meta head.etag head.last_modified (length body))
            (installed body),
      )
  unfolding download
  clear-download head b body c ne d = ground (
    arith,
    clear-created c,
    c.tmp_mkdir,
    d,
    clear-write_file body c,
    clear-install head body c ne,
  )

module _ ⦃json : MetaJson⦄ (fc : FileCache) (storage key : Text) (h : Host) where
  clear-handle_download :
      ⦃sdk : Sdk⦄ (head : ObjectInfo) (b : sdk.State)
      → IsClear fc storage key h
      → handle_download fc storage key (found head) b h ≡ download fc storage key head b h
  unfolding handle_download stat
  clear-handle_download head b c = ground (arith, c.final_free)

  installed-fs :
      (body : Text) (q : FilePath)
      → (download_path fc storage key == q) ≡ false
      → (path fc storage key == q) ≡ false
      → (installed fc storage key h body).fs q ≡ h.fs q
  installed-fs body q t f = ground (arith, t, f)

  installed-final :
      (body : Text)
      → (installed fc storage key h body).fs (path fc storage key)
        ≡ some (file (fetched_file fc storage key h body))
  installed-final body = rw (eq_refl (path fc storage key))

  installed-tmp :
      (body : Text)
      → (download_path fc storage key == path fc storage key) ≡ false
      → (installed fc storage key h body).fs (download_path fc storage key) ≡ none
  installed-tmp body ne = ground (
    arith,
    eq_refl (download_path fc storage key),
    beq_false_sym (download_path fc storage key) (path fc storage key) ne,
  )

  fetched-covers :
      (body : Text) (etag : Text) (modified : ℕ)
      → covers
          (some (
            stamped fc storage key
              (plain_meta etag modified (length body))
              (installed fc storage key h body)))
          (info_of (file (fetched_file fc storage key h body)))
        ≡ true
  unfolding covers stamped inode_at
  fetched-covers body etag modified = ground (
    arith,
    stat-eq (installed fc storage key h body) (path fc storage key)
        (file (fetched_file fc storage key h body)) (installed-final body),
  )

  fetched-mark_pending :
      (body : Text) (etag : Text) (modified : ℕ) (h' : Host)
      → h'.fs (path fc storage key) ≡ some (file (fetched_file fc storage key h body))
      → get_meta fc storage key h'
        ≡ some (
            stamped fc storage key
              (plain_meta etag modified (length body))
              (installed fc storage key h body))
      → (mark_pending fc storage key h').0 ≡ false
  fetched-mark_pending body etag modified h' f g =
      mark_pending-covers fc storage key h' (info_of (file (fetched_file fc storage key h body)))
        (stat-eq h' (path fc storage key) (file (fetched_file fc storage key h body)) f) refl
      ∙ rw (g, fetched-covers body etag modified)

  -- A file that is not cached, whose object S3 has and serves, and that nothing on the machine is
  -- in the way of, is downloaded: its path is answered, the file there has the bytes of the object,
  -- the temporary file is gone, the metadata is in sync with the ETag of the HEAD answer, and
  -- `MarkPending` does not take the file for a write of PVE.
  pub handle_download-fetches :
      ⦃sdk : Sdk⦄ (head : ObjectInfo) (b : sdk.State) (body : Text)
      → IsEntry storage key
      → (storage == codes ".downloads") ≡ false
      → IsClear fc storage key h
      → IsWritable h (meta_path fc storage key)
      → download_object key b ≡ some body
      → let (response, requested, h') = handle_download fc storage key (found head) b h in
        (response ≡ served (path fc storage key))
        × (h'.fs (path fc storage key) ≡ some (file (fetched_file fc storage key h body)))
        × (h'.fs (download_path fc storage key) ≡ none)
        × (get_meta fc storage key h'
            ≡ some (
                stamped fc storage key
                  (plain_meta head.etag head.last_modified (length body))
                  (installed fc storage key h body)))
        × ((mark_pending fc storage key h').0 ≡ false)
  handle_download-fetches head b body e ns c w d =
      let tmp = download_path fc storage key in
      let final = path fc storage key in
      let k = installed fc storage key h body in
      let meta = plain_meta head.etag head.last_modified (length body) in
      let w' =
        IsWritable-frame h k (meta_path fc storage key)
          (installed-fs body (meta_path fc storage key) (download-ne-meta_path fc e) (
            beq_false_sym (meta_path fc storage key) (path fc storage key)
              (path-ne-meta_path fc e)))
          refl w in
      let g = get_meta-write_meta fc storage key meta k w' in
      let fa =
        fs-write_meta fc storage key meta k (path fc storage key) (path-ne-meta_path fc e)
        ∙ installed-final body in
      let fb =
        fs-write_meta fc storage key meta k (download_path fc storage key) (
          beq_false_sym (download_path fc storage key) (meta_path fc storage key)
            (download-ne-meta_path fc e))
        ∙ installed-tmp body (download-ne-path fc e ns) in
      rw
        (
          clear-handle_download head b c,
          clear-download fc storage key h head b body c (download-ne-path fc e ns) d,
        )
        (refl, fa, fb, g, fetched-mark_pending body head.etag head.last_modified _ fa g)
