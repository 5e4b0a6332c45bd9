-- ===== src/Api/Listing/Examples.antt =====
-- The theorem about listings at a bucket with one object and a directory with three files.
use mathlib.Core.List.{Memᴰ}
use proxs.Prelude.{String, ◌↔◌, false, Option, none, some, List, [], ◌∷◌, nat_eq, list_eq, codes}
use proxs.FilePath.{FilePath}
use proxs.S3client.Library.{Sdk, answered}
use proxs.S3client.Memory.{memory}
use proxs.Api.Sample.{new_bucket}
use proxs.Api.Listing.{DirEntry, VolumeInfo, volume_info, handle_list}
use proxs.Api.Listing.Complete.{IsVolume, handle_list-IsVolume}

-- The bucket lists one object.
abbrev listing : Sdk
listing = record memory {
  pages = λ prefix b.
      answered (
        record {
          listed_key = some (codes "template/iso/a.iso");
          listed_size = some 5;
          listed_tag = none;
          listed_modified = none;
        }
        ∷ [])
      ∷ [];
}

abbrev named : String → DirEntry
named s = record {
  name = codes s;
  is_dir = false;
  info = some (record { size = 3; mtime = 1; inode = 2; is_dir = false });
}

-- One file that S3 has, one that it does not have, and a partial one.
abbrev three_files : FilePath → Option (List DirEntry)
three_files p = some (named "a.iso" ∷ named "b.iso" ∷ named "c.tmp" ∷ [])

abbrev waiting_volume : VolumeInfo
waiting_volume =
    volume_info (codes "s") (codes "iso") (codes "template/iso/b.iso") (codes "iso/b.iso") 3

handle_list-IsVolume_example :
    Memᴰ waiting_volume (
      handle_list (codes "s") (codes "iso") ⦃sdk = listing⦄ three_files (codes "c" ∷ []) new_bucket)
    ↔ IsVolume
        (codes "s")
        (codes "iso")
        ⦃sdk = listing⦄
        three_files
        (codes "c" ∷ [])
        new_bucket
        waiting_volume
handle_list-IsVolume_example =
    handle_list-IsVolume (codes "s") (codes "iso") ⦃sdk = listing⦄ three_files (codes "c" ∷ [])
      new_bucket waiting_volume
