-- ===== src/Api/Listing/Merged.antt =====
-- mergeLocalFiles of internal/api/api.go over a list of volumes.
use mathlib.Core.List.{Memᴰ}
use mathlib.Core.List.Memᴰ
use proxs.Prelude.{
  refl, subst, ◌⊎◌, inl, inr, Option, List, Option-cases, nat_eq, list_eq, Text, flat_map_member,
}
use proxs.FilePath.{FilePath}
use proxs.Api.Listing.{DirEntry, VolumeInfo, entry_volumes, merge_local_files}
use proxs.Api.Listing.Local.{
  IsLocal, LocalFile-entries, entry_volumes-IsLocal, member-entry_volumes,
}

module _ (storage content : Text) (read_dir : FilePath → Option (List DirEntry)) where
  pub merge_local_files-IsLocal :
      (keys : List Text) (local_dir : FilePath) (volumes : List VolumeInfo) (v : VolumeInfo)
      → Memᴰ v (merge_local_files storage content read_dir keys local_dir volumes)
      → Memᴰ v volumes ⊎ IsLocal storage content read_dir keys local_dir v
  unfolding merge_local_files
  merge_local_files-IsLocal keys local_dir volumes v m = elim (Option-cases (read_dir local_dir)) [
    | inl gone ↦ inl (subst (Memᴰ v) (rw (merge_local_files, gone) refl) m)
    | inr (entries, r) ↦
        elim (Memᴰ.append_cases volumes (subst (Memᴰ v) (rw (merge_local_files, r) refl) m)) [
          | inl there ↦ inl there
          | inr here ↦
              let (e, among, made) =
                flat_map_member (entry_volumes storage content read_dir keys local_dir) entries
                  here in
              inr (
                entry_volumes-IsLocal storage content read_dir keys local_dir entries e v r among
                  made)
        ]
  ]

  pub volumes-merge_local_files :
      (keys : List Text) (local_dir : FilePath) (volumes : List VolumeInfo) (v : VolumeInfo)
      → Memᴰ v volumes
      → Memᴰ v (merge_local_files storage content read_dir keys local_dir volumes)
  unfolding merge_local_files
  volumes-merge_local_files keys local_dir volumes v m = elim (Option-cases (read_dir local_dir)) [
    | inl gone ↦ rw (merge_local_files, gone) m
    | inr (entries, r) ↦ rw (merge_local_files, r) (Memᴰ.append_left _ m)
  ]

  pub IsLocal-merge_local_files :
      (keys : List Text) (local_dir : FilePath) (volumes : List VolumeInfo) (v : VolumeInfo)
      → IsLocal storage content read_dir keys local_dir v
      → Memᴰ v (merge_local_files storage content read_dir keys local_dir volumes)
  unfolding merge_local_files
  IsLocal-merge_local_files keys local_dir volumes v p =
      let (entries, r) = LocalFile-entries storage content read_dir p.on_disk in
      rw (merge_local_files, r)
        (Memᴰ.append_right volumes (
          Memᴰ.cast p.told (
            member-entry_volumes storage content read_dir keys local_dir entries r p.on_disk
              p.not_remote)))
