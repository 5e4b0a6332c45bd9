-- ===== src/Api/Listing/Complete.antt =====
-- The answer of handleList (internal/api/api.go) and the volumes that there are.
use mathlib.Core.List.{Memᴰ, flat_map}
use mathlib.Core.List.Memᴰ
use proxs.Prelude.{
  ◌≡◌, refl, sym, subst, ◌↔◌, ◌⊎◌, inl, inr, false, Option, none, some, List, [], ◌∷◌, Bool-cases,
  Option-cases, nat_eq, list_eq, Text, flat_map_member, member_flat_map,
}
use proxs.FilePath.{FilePath, join}
use proxs.S3client.Library.{Sdk}
use proxs.S3client.{ObjectInfo, list_objects}
use proxs.Names.{content_to_prefix}
use proxs.Api.Listing.{
  DirEntry, VolumeInfo, volume_info, is_directory_marker, volume_name, remote_volume, remote_key,
  merge_local_files, handle_list,
}
use proxs.Api.Listing.Local.{IsLocal}
use proxs.Api.Listing.Merged.{
  merge_local_files-IsLocal, volumes-merge_local_files, IsLocal-merge_local_files,
}

-- The objects that S3 lists, none if it cannot be asked.
abbrev pub objects_of : Option (List ObjectInfo) → List ObjectInfo
objects_of none = []
objects_of (some objects) = objects

module _ (storage content : Text) where
  -- A volume of an object that is not a directory marker.
  pub record IsRemote (objects : List ObjectInfo) (v : VolumeInfo) : Type 0 where
    pub object : ObjectInfo
    pub among : Memᴰ object objects
    pub not_marker : is_directory_marker storage content object ≡ false
    pub told :
        v ≡ volume_info storage content object.key (volume_name storage content object) object.size

  remote_volume-IsRemote :
      (objects : List ObjectInfo) (v : VolumeInfo)
      → Memᴰ v (flat_map (remote_volume storage content) objects)
      → IsRemote objects v
  unfolding remote_volume
  remote_volume-IsRemote objects v m =
      let (o, among, made) = flat_map_member (remote_volume storage content) objects m in
      elim (Bool-cases (is_directory_marker storage content o)) [
        | inl marker ↦ absurd (Memᴰ.not-nil (subst (Memᴰ v) (rw marker refl) made))
        | inr not_marker ↦ record {
          object = o;
          among = among;
          not_marker = not_marker;
          told = Memᴰ.eq_of_singleton (subst (Memᴰ v) (rw not_marker refl) made);
        }
      ]

  IsRemote-remote_volume :
      (objects : List ObjectInfo) (v : VolumeInfo)
      → IsRemote objects v
      → Memᴰ v (flat_map (remote_volume storage content) objects)
  unfolding remote_volume
  IsRemote-remote_volume objects v p =
      member_flat_map (remote_volume storage content) p.among (rw p.not_marker (Memᴰ.head p.told))

  module _ ⦃sdk : Sdk⦄ (read_dir : FilePath → Option (List DirEntry)) (cache_dir : FilePath)
      (s : sdk.State) where
    abbrev pub remote : List ObjectInfo
    remote = objects_of (list_objects (content_to_prefix content) s)

    abbrev pub remote_keys : List Text
    remote_keys = flat_map (remote_key storage content) remote

    abbrev pub local_dir : FilePath
    local_dir = join cache_dir (storage ∷ content_to_prefix content ∷ [])

    handle_list-eq :
        handle_list storage content read_dir cache_dir s
        ≡ merge_local_files storage content read_dir remote_keys local_dir
            (flat_map (remote_volume storage content) remote)
    unfolding handle_list flat_map
    handle_list-eq = elim (Option-cases (list_objects (content_to_prefix content) s)) [
      | inl offline ↦ rw (handle_list, offline) refl
      | inr (objects, online) ↦ rw (handle_list, online) refl
    ]

    abbrev pub IsVolume : VolumeInfo → Type 0
    IsVolume v = IsRemote remote v ⊎ IsLocal storage content read_dir remote_keys local_dir v

    -- The answer of a listing holds exactly the volumes of the objects that S3 lists under the
    -- prefix of the content type, but for directory markers, and those of the local files of the
    -- content type whose keys are not among them; while S3 cannot be asked, those of all local
    -- files.
    pub handle_list-IsVolume :
        (v : VolumeInfo) → Memᴰ v (handle_list storage content read_dir cache_dir s) ↔ IsVolume v
    handle_list-IsVolume v = (
      λ m.
          elim (merge_local_files-IsLocal storage content read_dir remote_keys local_dir
            (flat_map (remote_volume storage content) remote) v (subst (Memᴰ v) handle_list-eq m)) [
              | inl there ↦ inl (remote_volume-IsRemote remote v there)
              | inr here ↦ inr here
            ],
      λ p. subst (Memᴰ v) (sym handle_list-eq) (elim p [
        | inl there ↦
            volumes-merge_local_files storage content read_dir remote_keys local_dir _ v
              (IsRemote-remote_volume remote v there)
        | inr here ↦
            IsLocal-merge_local_files storage content read_dir remote_keys local_dir _ v here
      ]),
    )
