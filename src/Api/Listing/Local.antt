-- ===== src/Api/Listing/Local.antt =====
-- The volumes of local files that mergeLocalFiles of internal/api/api.go adds.
use mathlib.Core.List.{Memᴰ, flat_map}
use mathlib.Core.Option.{some_inj}
use mathlib.Core.List.Memᴰ
use proxs.Prelude.{
  ◌∙◌, ◌≡◌, refl, sym, subst, inl, inr, true, false, not, ◌&&◌, Option, some, List, [], ◌∷◌, ◌++◌,
  arith, Bool-cases, Option-cases, ◌==◌, eq_iff, nat_eq, list_eq, Text, codes, flat_map_member,
  member_flat_map,
}
use proxs.FilePath.{FilePath, join}
use proxs.Host.{FileInfo}
use proxs.Names.{content_to_prefix}
use proxs.Api.Listing.{
  DirEntry, VolumeInfo, has_key, volume_info, local_volume, is_leftover, disk_volume, entry_volumes,
  machine_volumes,
}

has_key-false : (keys : List Text) (key : Text) → has_key keys key ≡ false → ¬ Memᴰ key keys
unfolding has_key
has_key-false [] key n m = elim m [ ]
has_key-false (k ∷ ks) key n (Memᴰ.head e) = ground (arith, eq_iff k key, n, e)
has_key-false (k ∷ ks) key n (Memᴰ.tail m) = has_key-false ks key (ground (arith, n)) m

false-has_key : (keys : List Text) (key : Text) → ¬ Memᴰ key keys → has_key keys key ≡ false
unfolding has_key
false-has_key [] key n = refl
false-has_key (k ∷ ks) key n =
    let below = false-has_key ks key (λ m. n (Memᴰ.tail m)) in
    elim (Bool-cases (k == key)) [
      | inl same ↦ absurd (n (Memᴰ.head (sym ((eq_iff k key).0 same))))
      | inr differ ↦ rw differ below
    ]

module _ (storage content : Text) (read_dir : FilePath → Option (List DirEntry)) where
  abbrev prefix : Text
  prefix = content_to_prefix content

  -- The files under the directory of the content type: those in it, and for images those in the
  -- directory of each virtual machine.
  pub data LocalFile (local_dir : FilePath) : (key volname : Text) → FileInfo → Type 0 where
    plain_file :
        (entries : List DirEntry) (e : DirEntry) (i : FileInfo)
        → read_dir local_dir ≡ some entries
        → Memᴰ e entries
        → e.is_dir ≡ false
        → is_leftover e ≡ false
        → e.info ≡ some i
        → LocalFile local_dir (prefix ++ e.name) (content ++ codes "/" ++ e.name) i
    disk_file :
        (entries disks : List DirEntry) (e d : DirEntry) (i : FileInfo)
        → read_dir local_dir ≡ some entries
        → Memᴰ e entries
        → e.is_dir ≡ true
        → (content == codes "images" && not (e.name == codes ".meta")) ≡ true
        → read_dir (join local_dir (e.name ∷ [])) ≡ some disks
        → Memᴰ d disks
        → d.is_dir ≡ false
        → d.info ≡ some i
        → LocalFile local_dir
            (prefix ++ (e.name ++ codes "/" ++ d.name))
            (e.name ++ codes "/" ++ d.name)
            i

  module _ (keys : List Text) where
    -- A volume of a local file whose key S3 does not have.
    pub record IsLocal (local_dir : FilePath) (v : VolumeInfo) : Type 0 where
      pub key : Text
      pub volname : Text
      pub info : FileInfo
      pub on_disk : LocalFile local_dir key volname info
      pub not_remote : ¬ Memᴰ key keys
      pub told : v ≡ volume_info storage content key volname info.size

    local_volume-member :
        (key volname : Text) (info : Option FileInfo) (v : VolumeInfo)
        → Memᴰ v (local_volume storage content read_dir keys key volname info)
        → (i : FileInfo) × (info ≡ some i)
          × (has_key keys key ≡ false)
          × (v ≡ volume_info storage content key volname i.size)
    unfolding local_volume
    local_volume-member key volname info v m = elim (Bool-cases (has_key keys key)) [
      | inl known ↦ absurd (Memᴰ.not-nil (subst (Memᴰ v) (rw known refl) m))
      | inr fresh ↦ elim (Option-cases info) [
        | inl gone ↦ absurd (Memᴰ.not-nil (subst (Memᴰ v) (rw (fresh, gone) refl) m))
        | inr (i, there) ↦
            (i, there, fresh, Memᴰ.eq_of_singleton (subst (Memᴰ v) (rw (fresh, there) refl) m))
      ]
    ]

    member-local_volume :
        (key volname : Text) (info : Option FileInfo) (i : FileInfo)
        → info ≡ some i
        → ¬ Memᴰ key keys
        → Memᴰ
            (volume_info storage content key volname i.size)
            (local_volume storage content read_dir keys key volname info)
    unfolding local_volume
    member-local_volume key volname info i there n =
        rw (false-has_key keys key n, there) (Memᴰ.head refl)

    disk_volume-IsLocal :
        (local_dir : FilePath) (entries disks : List DirEntry) (e d : DirEntry) (v : VolumeInfo)
        → read_dir local_dir ≡ some entries
        → Memᴰ e entries
        → e.is_dir ≡ true
        → (content == codes "images" && not (e.name == codes ".meta")) ≡ true
        → read_dir (join local_dir (e.name ∷ [])) ≡ some disks
        → Memᴰ d disks
        → Memᴰ v (disk_volume storage content read_dir keys e.name d)
        → IsLocal local_dir v
    unfolding disk_volume
    disk_volume-IsLocal local_dir entries disks e d v r among w images r' below m =
        elim (Bool-cases d.is_dir) [
          | inl sub ↦ absurd (Memᴰ.not-nil (subst (Memᴰ v) (rw sub refl) m))
          | inr file ↦
              let (i, there, fresh, told) =
                local_volume-member (prefix ++ (e.name ++ codes "/" ++ d.name))
                  (e.name ++ codes "/" ++ d.name) d.info v (subst (Memᴰ v) (rw file refl) m) in
              record {
                key = _;
                volname = _;
                info = i;
                on_disk = disk_file entries disks e d i r among w images r' below file there;
                not_remote = has_key-false keys _ fresh;
                told = told;
              }
        ]

    machine_volumes-IsLocal :
        (local_dir : FilePath) (entries : List DirEntry) (e : DirEntry) (v : VolumeInfo)
        → read_dir local_dir ≡ some entries
        → Memᴰ e entries
        → e.is_dir ≡ true
        → Memᴰ v (machine_volumes storage content read_dir keys local_dir e)
        → IsLocal local_dir v
    unfolding machine_volumes
    machine_volumes-IsLocal local_dir entries e v r among w m =
        elim (Bool-cases (content == codes "images" && not (e.name == codes ".meta"))) [
          | inr other ↦ absurd (Memᴰ.not-nil (subst (Memᴰ v) (rw other refl) m))
          | inl images ↦ elim (Option-cases (read_dir (join local_dir (e.name ∷ [])))) [
            | inl gone ↦ absurd (Memᴰ.not-nil (subst (Memᴰ v) (rw (images, gone) refl) m))
            | inr (disks, r') ↦
                let (d, below, made) =
                  flat_map_member (disk_volume storage content read_dir keys e.name) disks
                    (subst (Memᴰ v) (rw (images, r') refl) m) in
                disk_volume-IsLocal local_dir entries disks e d v r among w images r' below made
          ]
        ]

    pub entry_volumes-IsLocal :
        (local_dir : FilePath) (entries : List DirEntry) (e : DirEntry) (v : VolumeInfo)
        → read_dir local_dir ≡ some entries
        → Memᴰ e entries
        → Memᴰ v (entry_volumes storage content read_dir keys local_dir e)
        → IsLocal local_dir v
    unfolding entry_volumes
    entry_volumes-IsLocal local_dir entries e v r among m = elim (Bool-cases e.is_dir) [
      | inl w ↦
          machine_volumes-IsLocal local_dir entries e v r among w (subst (Memᴰ v) (rw w refl) m)
      | inr file ↦ elim (Bool-cases (is_leftover e)) [
        | inl left ↦ absurd (Memᴰ.not-nil (subst (Memᴰ v) (rw (file, left) refl) m))
        | inr content_file ↦
            let (i, there, fresh, told) =
              local_volume-member (prefix ++ e.name) (content ++ codes "/" ++ e.name) e.info v
                (subst (Memᴰ v) (rw (file, content_file) refl) m) in
            record {
              key = _;
              volname = _;
              info = i;
              on_disk = plain_file entries e i r among file content_file there;
              not_remote = has_key-false keys _ fresh;
              told = told;
            }
      ]
    ]

    pub member-entry_volumes :
        (local_dir : FilePath) (entries : List DirEntry) {key volname : Text} {i : FileInfo}
        → read_dir local_dir ≡ some entries
        → LocalFile local_dir key volname i
        → ¬ Memᴰ key keys
        → Memᴰ
            (volume_info storage content key volname i.size)
            (flat_map (entry_volumes storage content read_dir keys local_dir) entries)
    unfolding entry_volumes machine_volumes disk_volume
    member-entry_volumes local_dir entries r (plain_file _ e i r' among file content_file there) n =
        member_flat_map (entry_volumes storage content read_dir keys local_dir)
          (subst (Memᴰ e) (some_inj.0 (sym r' ∙ r)) among)
          (rw (file, content_file)
            (member-local_volume (prefix ++ e.name) (content ++ codes "/" ++ e.name) e.info i there
              n))
    member-entry_volumes local_dir entries r
          (disk_file _ disks e d i r' among w images r'' below file there) n =
        member_flat_map (entry_volumes storage content read_dir keys local_dir)
          (subst (Memᴰ e) (some_inj.0 (sym r' ∙ r)) among)
          (rw (w, images, r'')
            (member_flat_map (disk_volume storage content read_dir keys e.name) below
              (rw file (member-local_volume _ _ d.info i there n))))

  pub LocalFile-entries :
      {local_dir : FilePath} {key volname : Text} {i : FileInfo}
      → LocalFile local_dir key volname i
      → (entries : List DirEntry) × (read_dir local_dir ≡ some entries)
  LocalFile-entries (plain_file entries _ _ r _ _ _ _) = (entries, r)
  LocalFile-entries (disk_file entries _ _ _ _ r _ _ _ _ _ _ _) = (entries, r)
