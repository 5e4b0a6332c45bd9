-- ===== src/Api/Durable/Marks.antt =====
-- An entry that is marked pending, and what the daemon does to it on its own.
use proxs.S3client.Laws.{put_object-stores}
use proxs.Cache.Pending.{mark_pending-write}
use proxs.Api.Download.Parts.{action_of, cached_action, serves}
use proxs.Prelude.{
  ap, none, ◌⊎◌, inl, inr, Bool-cases, some, sym, ◌∙◌, ◌≡◌, refl, sym, subst, inl, inr, Bool, true,
  false, Option, some, arith, Option-cases, eq_refl, nat_eq, list_eq, Text, ◌⊎◌, Bool-cases, ◌∙◌,
  ap,
}
use proxs.Host.{
  dir, file, File, Node, Host, FileInfo, info_of, stat, read_file, created, write_file, file,
  open_file,
}
use proxs.Host.Laws.{IsWritable, stat-eq}
use proxs.S3client.Library.{Sdk, IsLawful}
use proxs.S3client.{Head, found, missing, unknown, head_object, put_object}
use proxs.Cache.Meta.{FileMeta, MetaJson, covers}
use proxs.Cache.Paths.{IsEntry}
use proxs.Cache.Entry.{
  FileCache, path, meta_path, stamped, write_meta, get_meta, pending_meta, mark_pending,
}
use proxs.Api.Upload.{begin_upload}
use proxs.Api.Resync.{resync_backfill, resync_file, resync_upload}
use proxs.Api.Durable.{Holds, IsMark, IsMarked, resync_file, put_object}
use proxs.Api.Durable.Records.{mark_pending-SameFile, host_of}

module _ ⦃json : MetaJson⦄ ⦃sdk : Sdk⦄ (laws : IsLawful sdk) (fc : FileCache) (storage key c : Text)
    (e : IsEntry storage key) where
  abbrev pub Marked : Host → Type 0
  Marked = IsMarked laws fc storage key c

  -- What `getMeta` and `os.Stat` tell of a marked entry.
  pub record Told (h : Host) : Type 0 where
    pub meta : FileMeta
    pub read : get_meta fc storage key h ≡ some meta
    pub pends : meta.pending_upload ≡ true
    pub content : File
    pub located : h.fs (path fc storage key) ≡ some (file content)
    pub content_eq : content.content ≡ c

  mark_file :
      (n : Option Node)
      → IsMark laws fc storage key n
      → (f : File) × (m : FileMeta) × (n ≡ some (file f))
        × (json.unmarshal f.content ≡ some m)
        × (m.pending_upload ≡ true)
  mark_file none k = elim k [ ]
  mark_file (some dir) k = elim k [ ]
  mark_file (some (file f)) (m, u, p) = (f, m, refl, u, p)

  mark-get_meta :
      (h : Host) (f : File) (m : FileMeta)
      → IsWritable h (meta_path fc storage key)
      → h.fs (meta_path fc storage key) ≡ some (file f)
      → json.unmarshal f.content ≡ some m
      → get_meta fc storage key h ≡ some m
  unfolding get_meta read_file
  mark-get_meta h f m w at u = ground (arith, w.open_ok)

  held_file : (n : Option Node) → Holds c n → (f : File) × (n ≡ some (file f)) × (f.content ≡ c)
  held_file none k = elim k [ ]
  held_file (some dir) k = elim k [ ]
  held_file (some (file f)) k = (f, refl, k)

  write_meta-IsMark :
      (meta : FileMeta) (h : Host)
      → IsWritable h (meta_path fc storage key)
      → meta.pending_upload ≡ true
      → IsMark laws fc storage key
          ((write_meta fc storage key meta h).fs (meta_path fc storage key))
  unfolding write_meta write_file stamped
  write_meta-IsMark meta h w p = elim (Option-cases (created h (meta_path fc storage key))) [
    | inl none_made ↦ absurd (w.create_ok none_made)
    | inr (f, made) ↦
        rw
          (write_meta, w.mkdir_ok, write_file, made, w.write_ok, eq_refl (meta_path fc storage key))
          (stamped fc storage key meta h, json.unmarshal-marshal _, p)
  ]

  pub marked_told : (h : Host) → IsWritable h (meta_path fc storage key) → Marked h → Told h
  marked_told h w k =
      let (f, m, at, u, p) = mark_file (h.fs (meta_path fc storage key)) k.mark in
      let (g, located, same) = held_file (h.fs (path fc storage key)) k.held in
      record {
        meta = m;
        read = mark-get_meta h f m w at u;
        pends = p;
        content = g;
        located = located;
        content_eq = same;
      }

  told_covers : {h : Host} (t : Told h) (info : FileInfo) → covers (some t.meta) info ≡ false
  unfolding covers
  told_covers t info = rw t.pends refl

  module _ (h : Host) (w : IsWritable h (meta_path fc storage key)) (k : Marked h) where
    abbrev told : Told h
    told = marked_told h w k

    told_stat : stat h (path fc storage key) ≡ some (info_of (file told.content))
    told_stat = stat-eq h (path fc storage key) (file told.content) told.located

    marks :
        mark_pending fc storage key h
        ≡ (true, write_meta fc storage key (pending_meta (info_of (file told.content))) h)
    marks =
        mark_pending-write fc storage key h (info_of (file told.content)) told_stat
          (rw told.read (told_covers told (info_of (file told.content))))

    pub mark_pending-Marked : Marked (mark_pending fc storage key h).1
    unfolding pending_meta
    mark_pending-Marked = record {
      held = subst (Holds c) (sym (mark_pending-SameFile fc storage key e h)) k.held;
      mark = rw marks (write_meta-IsMark (pending_meta (info_of (file told.content))) h w refl);
    }

    pub begin_upload-same :
        (canceled : Bool) (head : Head)
        → host_of fc storage key e (begin_upload fc storage key canceled head h) ≡ h
    unfolding begin_upload
    begin_upload-same canceled head =
        ground (arith, told_stat, told.read, told_covers told (info_of (file told.content)))

    -- A download that looks at the cache now serves the file.
    pub action_of-serves : (head : Head) → action_of fc storage key head h ≡ serves
    unfolding action_of cached_action
    action_of-serves head = rw (action_of, cached_action, told_stat, told.read, told.pends) refl

    resync_backfill-same : (head : Head) → resync_backfill fc storage key head h ≡ h
    unfolding resync_backfill
    resync_backfill-same (found head) = rw (resync_backfill, told.read) refl
    resync_backfill-same missing = refl
    resync_backfill-same unknown = refl

    read_told :
        (body : Text) → read_file h (path fc storage key) ≡ some body → told.content.content ≡ body
    unfolding read_file
    read_told body read = ground (arith, told.located)

    -- A resync leaves the entry marked, or S3 has the content.
    resync_upload-outcome :
        (b : sdk.State)
        → let (count, h', b') = resync_upload fc storage key h b in
          (h' ≡ h) ⊎ (laws.content b' key ≡ some c)
    unfolding resync_upload
    resync_upload-outcome b = elim (Bool-cases (h.denied open_file (path fc storage key))) [
      | inl d ↦ inl (rw (resync_upload, d) refl)
      | inr a ↦ elim (Option-cases (read_file h (path fc storage key))) [
        | inl unread ↦ inl (rw (resync_upload, a, told_stat, unread) refl)
        | inr (body, read) ↦ elim (Option-cases (put_object key body b).0) [
          | inl lost ↦ inl (rw (resync_upload, a, told_stat, read, lost) refl)
          | inr (etag, put) ↦ inr (
              rw (resync_upload, a, told_stat, read, put)
                (put_object-stores laws key body etag b put
                  ∙ ap some (sym (read_told body read) ∙ told.content_eq)))
        ]
      ]
    ]

    pub resync_file-outcome :
        (force in_use : Bool) (info : FileInfo) (b : sdk.State)
        → let (count, h', b') = resync_file fc storage key force in_use info h b in
          (h' ≡ h) ⊎ (laws.content b' key ≡ some c)
    unfolding resync_file
    resync_file-outcome force in_use info b =
        ground (arith, resync_upload-outcome b, resync_backfill-same (head_object key b))
