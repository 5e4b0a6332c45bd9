-- ===== src/Api/Listing.antt =====
-- The list of volumes: handleList and mergeLocalFiles of internal/api/api.go, for a known storage.
-- `os.ReadDir` is a parameter. Each function gives the volumes that the code appends.
pub mod Local
pub mod Merged
pub mod Complete
mod Examples
use proxs.Prelude.{
  ℕ, Bool, true, false, not, ◌&&◌, ◌||◌, Option, none, some, List, [], ◌∷◌, ◌++◌, if◌then◌else◌,
  ◌==◌, nat_eq, list_eq, Text, codes, has_suffix, trim_prefix, split,
}
use proxs.FilePath.{FilePath, slash, join, base_name}
use proxs.Host.{FileInfo}
use proxs.S3client.Library.{Sdk}
use proxs.S3client.{ObjectInfo, list_objects}
use proxs.Names.{content_to_prefix, detect_format}
use mathlib.Core.List.{flat_map}

-- `os.DirEntry`: Info fails if the entry went away.
pub record DirEntry : Type 0 where
  pub name : Text
  pub is_dir : Bool
  pub info : Option FileInfo

-- `VolumeInfo`.
pub record VolumeInfo : Type 0 where
  pub volume : Text
  pub key : Text
  pub size : ℕ
  pub format : Text
  pub content : Text

-- `filepath.Base` of a key that does not end in a slash.
abbrev pub base_text : Text → Text
base_text key = if key == [] then codes "." else base_name (split slash key)

-- The map `s3Keys`, as the list of its keys.
unfoldable pub has_key : List Text → Text → Bool
has_key [] key = false
has_key (k ∷ ks) key = if k == key then true else has_key ks key

abbrev pub is_leftover : DirEntry → Bool
is_leftover e = has_suffix e.name (codes ".tmp") || has_suffix e.name (codes ".meta")

module _ (storage content : Text) where
  abbrev pub volume_info : Text → Text → ℕ → VolumeInfo
  volume_info key volname size = record {
    volume = storage ++ codes ":" ++ volname;
    key = key;
    size = size;
    format = detect_format key;
    content = content;
  }

  abbrev pub is_directory_marker : ObjectInfo → Bool
  is_directory_marker o = has_suffix o.key (codes "/")

  abbrev pub volume_name : ObjectInfo → Text
  volume_name o =
      if content == codes "images"
      then trim_prefix o.key (content_to_prefix content)
      else content ++ codes "/" ++ base_text o.key

  -- What `handleList` makes of one object.
  unfoldable pub remote_volume : ObjectInfo → List VolumeInfo
  remote_volume o =
      if is_directory_marker o then [] else volume_info o.key (volume_name o) o.size ∷ []

  unfoldable pub remote_key : ObjectInfo → List Text
  remote_key o = if is_directory_marker o then [] else o.key ∷ []

  module _ (read_dir : FilePath → Option (List DirEntry)) (keys : List Text) where
    -- A local file, unless S3 has its key or it is gone.
    unfoldable pub local_volume : Text → Text → Option FileInfo → List VolumeInfo
    unfolding has_key
    local_volume key volname info =
        if has_key keys key
        then []
        else elim info [ none ↦ [] | some i ↦ volume_info key volname i.size ∷ [] ]

    -- An entry of the directory of a virtual machine.
    unfoldable pub disk_volume : Text → DirEntry → List VolumeInfo
    unfolding local_volume
    disk_volume machine d =
        let volname = machine ++ codes "/" ++ d.name in
        if d.is_dir then [] else local_volume (content_to_prefix content ++ volname) volname d.info

    -- An entry that is a directory.
    unfoldable pub machine_volumes : FilePath → DirEntry → List VolumeInfo
    unfolding disk_volume
    machine_volumes local_dir e =
        if content == codes "images" && not (e.name == codes ".meta")
        then elim (read_dir (join local_dir (e.name ∷ []))) [
          | none ↦ []
          | some disks ↦ flat_map (disk_volume e.name) disks
        ]
        else []

    unfoldable pub entry_volumes : FilePath → DirEntry → List VolumeInfo
    unfolding machine_volumes local_volume
    entry_volumes local_dir e =
        if e.is_dir
        then machine_volumes local_dir e
        else if is_leftover e
        then []
        else local_volume (content_to_prefix content ++ e.name) (content ++ codes "/" ++ e.name)
            e.info

    -- `mergeLocalFiles`.
    unfoldable pub merge_local_files : FilePath → List VolumeInfo → List VolumeInfo
    unfolding entry_volumes
    merge_local_files local_dir volumes = elim (read_dir local_dir) [
      | none ↦ volumes
      | some entries ↦ volumes ++ flat_map (entry_volumes local_dir) entries
    ]

  -- `handleList`. While S3 cannot be asked, the local files are all that there is.
  unfoldable pub handle_list :
      ⦃sdk : Sdk⦄ → (FilePath → Option (List DirEntry)) → FilePath → sdk.State → List VolumeInfo
  unfolding merge_local_files remote_volume remote_key
  handle_list ⦃sdk = sdk⦄ read_dir cache_dir s =
      let local_dir = join cache_dir (storage ∷ content_to_prefix content ∷ []) in
      elim (list_objects (content_to_prefix content) s) [
        | none ↦ merge_local_files read_dir [] local_dir []
        | some objects ↦
            merge_local_files read_dir (flat_map remote_key objects) local_dir
              (flat_map remote_volume objects)
      ]
