-- ===== src/Api/Watcher/Watched.antt =====
-- The directories that addWatchDirs (internal/api/watcher.go) watches, and where mergeLocalFiles
-- (internal/api/api.go) looks for files.
use mathlib.Core.List.{Memᴰ, flat_map}
use proxs.Prelude.{
  Bool, ◌≡◌, refl, sym, ◌∙◌, ap, true, Option, some, List, [], ◌∷◌, list_beq, nat_eq, list_eq, Text,
  codes, add_byte, split, member_flat_map,
}
use proxs.FilePath.{FilePath, join, push_names, push_name}
use proxs.Host.{FileInfo}
use proxs.Names.{content_to_prefix}
use proxs.Api.Listing.{DirEntry}
use proxs.Api.Listing.Local.{LocalFile, plain_file, disk_file}
use proxs.Api.Watcher.Probe.{prefix_dirs, child_dirs, dirs_below, prefix_watches, watch_dirs}

-- The content types that `contentToPrefix` names.
abbrev pub content_types : List Text
content_types =
    codes "iso"
    ∷ codes "vztmpl"
    ∷ codes "snippets"
    ∷ codes "backup"
    ∷ codes "import"
    ∷ codes "images"
    ∷ []

-- The directory of a content type is one of those that are watched.
record IsPrefixDir (base_dir : FilePath) (content : Text) : Type 0 where
  sub_dir : Text
  among : Memᴰ sub_dir prefix_dirs
  same : join base_dir (content_to_prefix content ∷ []) ≡ join base_dir (sub_dir ∷ [])

IsPrefixDir-at :
    (base_dir : FilePath) {content c : Text} (sub_dir : Text)
    → content ≡ c
    → Memᴰ sub_dir prefix_dirs
    → join base_dir (content_to_prefix c ∷ []) ≡ join base_dir (sub_dir ∷ [])
    → IsPrefixDir base_dir content
IsPrefixDir-at base_dir sub_dir e among same = record {
  sub_dir = sub_dir;
  among = among;
  same = ap (λ x. join base_dir (content_to_prefix x ∷ [])) e ∙ same;
}

content_types-IsPrefixDir :
    (base_dir : FilePath) (content : Text)
    → Memᴰ content content_types
    → IsPrefixDir base_dir content
unfolding prefix_dirs content_to_prefix join push_names push_name split add_byte list_beq
content_types-IsPrefixDir base_dir content (Memᴰ.head e) =
    IsPrefixDir-at base_dir (codes "template/iso") e (Memᴰ.head refl) refl
content_types-IsPrefixDir base_dir content (Memᴰ.tail (Memᴰ.head e)) =
    IsPrefixDir-at base_dir (codes "template/cache") e (Memᴰ.tail (Memᴰ.head refl)) refl
content_types-IsPrefixDir base_dir content (Memᴰ.tail (Memᴰ.tail (Memᴰ.head e))) =
    IsPrefixDir-at base_dir (codes "snippets") e (Memᴰ.tail (Memᴰ.tail (Memᴰ.head refl))) refl
content_types-IsPrefixDir base_dir content (Memᴰ.tail (Memᴰ.tail (Memᴰ.tail (Memᴰ.head e)))) =
    IsPrefixDir-at base_dir (codes "dump") e (Memᴰ.tail (Memᴰ.tail (Memᴰ.tail (Memᴰ.head refl))))
      refl
content_types-IsPrefixDir base_dir content
      (Memᴰ.tail (Memᴰ.tail (Memᴰ.tail (Memᴰ.tail (Memᴰ.head e))))) =
    IsPrefixDir-at base_dir (codes "import") e
      (Memᴰ.tail (Memᴰ.tail (Memᴰ.tail (Memᴰ.tail (Memᴰ.head refl))))) refl
content_types-IsPrefixDir base_dir content
      (Memᴰ.tail (Memᴰ.tail (Memᴰ.tail (Memᴰ.tail (Memᴰ.tail (Memᴰ.head e)))))) =
    IsPrefixDir-at base_dir (codes "images") e
      (Memᴰ.tail (Memᴰ.tail (Memᴰ.tail (Memᴰ.tail (Memᴰ.tail (Memᴰ.head refl)))))) refl
content_types-IsPrefixDir base_dir content
      (Memᴰ.tail (Memᴰ.tail (Memᴰ.tail (Memᴰ.tail (Memᴰ.tail (Memᴰ.tail m)))))) =
    elim m [ ]

module _ (exists : FilePath → Bool) (read_dir : FilePath → Option (List DirEntry)) where
  -- The directory that a local file lies in.
  abbrev pub directory_of :
      {storage content : Text} {local_dir : FilePath} {key volname : Text} {i : FileInfo}
      → LocalFile storage content read_dir local_dir key volname i
      → FilePath
  directory_of {local_dir} (plain_file entries e i r m d l s) = local_dir
  directory_of {local_dir} (disk_file entries disks e d i r m k c r' m' k' s) =
      join local_dir (e.name ∷ [])

  -- Directories that can be read exist.
  module _
      (readable : (dir : FilePath) (entries : List DirEntry)
        → read_dir dir ≡ some entries
        → exists dir ≡ true) where
    dirs_below-machine :
        (dir : FilePath) (entries : List DirEntry) (e : DirEntry)
        → read_dir dir ≡ some entries
        → Memᴰ e entries
        → e.is_dir ≡ true
        → Memᴰ (join dir (e.name ∷ [])) (dirs_below read_dir dir)
    unfolding dirs_below child_dirs
    dirs_below-machine dir entries e r m k =
        rw (dirs_below, r)
          (member_flat_map (child_dirs dir) m (rw (k, child_dirs) (Memᴰ.head refl)))

    prefix_watches-file :
        {storage content : Text} {local_dir : FilePath} {key volname : Text} {i : FileInfo}
        (base_dir : FilePath) (sub_dir : Text)
        (f : LocalFile storage content read_dir local_dir key volname i)
        → local_dir ≡ join base_dir (sub_dir ∷ [])
        → Memᴰ (directory_of f) (prefix_watches exists read_dir base_dir sub_dir)
    unfolding prefix_watches
    prefix_watches-file {local_dir} base_dir sub_dir (plain_file entries e i r m d l s) q =
        rw (sym q, readable _ entries r, prefix_watches) (Memᴰ.head refl)
    prefix_watches-file {local_dir} base_dir sub_dir
          (disk_file entries disks e d i r m k c r' m' k' s) q =
        rw (sym q, readable _ entries r, prefix_watches)
          (Memᴰ.tail (dirs_below-machine local_dir entries e r m k))

    -- Every file on disk that a listing of a known content type finds lies in a directory that is
    -- watched, if its storage has a client and directories that can be read exist.
    pub watch_dirs-LocalFile :
        {storage content : Text} {key volname : Text} {i : FileInfo} (cache_dir : FilePath)
        (storages : List Text)
        (f : LocalFile storage content read_dir
          (join cache_dir (storage ∷ content_to_prefix content ∷ []))
          key
          volname
          i)
        → Memᴰ storage storages
        → Memᴰ content content_types
        → Memᴰ (directory_of f) (watch_dirs exists read_dir cache_dir storages)
    unfolding watch_dirs join
    watch_dirs-LocalFile {storage} {content} cache_dir storages f known named =
        let base_dir = join cache_dir (storage ∷ []) in
        let p = content_types-IsPrefixDir base_dir content named in
        member_flat_map
          (λ id. flat_map (prefix_watches exists read_dir (join cache_dir (id ∷ []))) prefix_dirs)
          known
          (member_flat_map (prefix_watches exists read_dir base_dir) p.among
            (prefix_watches-file base_dir p.sub_dir f p.same))
