-- ===== src/Api/Download/Examples.antt =====
-- The theorems about downloads at the sample machine.

use proxs.Prelude.{
  ◌⊎◌, ◌≡◌, refl, false, none, some, arith, nat_eq, list_beq, list_eq, codes, add_byte, split,
}
use proxs.FilePath.{push_name, push_names, join}
use proxs.Host.{stat, created, file}
use proxs.Host.Laws.{IsWritable}
use proxs.S3client.{download_object, found, missing}
use proxs.S3client.Memory.{memory}
use proxs.Api.Sample.{marked_host, new_bucket, iso_object, full_bucket, bare, object_info}
use proxs.Cache.Entry.{path, meta_path, get_meta, stamped, mark_pending}
use proxs.Cache.Sample.{plain_json, small_cache, iso_key, iso_entry, iso_info}
use proxs.Api.Upload.{plain_meta}
use proxs.Api.Download.{download_path, handle_download, served}
use proxs.Api.Download.Local.{handle_download-spares, IsSpared, IsOutdated}
use proxs.Api.Download.Fetched.{IsClear, fetched_file, installed, handle_download-fetches}

handle_download-spares_example :
    IsSpared small_cache (codes "s") iso_key marked_host new_bucket missing
    ⊎ IsOutdated small_cache (codes "s") iso_key marked_host iso_info missing
unfolding stat path join push_names push_name split add_byte list_beq
handle_download-spares_example =
    handle_download-spares small_cache (codes "s") iso_key marked_host new_bucket iso_info missing
      iso_entry refl

pub bare_clear : IsClear small_cache (codes "s") iso_key bare
bare_clear = record {
  tmp_free = refl;
  final_free = refl;
  tmp_mkdir = refl;
  tmp_create = refl;
  tmp_write = refl;
  final_mkdir = refl;
  final_rename = refl;
}

pub bare-IsWritable : IsWritable bare (meta_path small_cache (codes "s") iso_key)
unfolding created
bare-IsWritable = record {
  mkdir_ok = refl;
  write_ok = refl;
  open_ok = refl;
  create_ok = λ e. ground arith;
}

handle_download-fetches_example :
    let (response, requested, h') =
      handle_download small_cache
        (codes "s")
        iso_key
        (found (object_info iso_object))
        full_bucket
        bare in
    (response ≡ served (path small_cache (codes "s") iso_key))
    × (h'.fs (path small_cache (codes "s") iso_key)
        ≡ some (file (fetched_file small_cache (codes "s") iso_key bare iso_object.body)))
    × (h'.fs (download_path small_cache (codes "s") iso_key) ≡ none)
    × (get_meta small_cache (codes "s") iso_key h'
        ≡ some (
            stamped small_cache
              (codes "s")
              iso_key
              (plain_meta (codes "e") 30 2)
              (installed small_cache (codes "s") iso_key bare iso_object.body)))
    × ((mark_pending small_cache (codes "s") iso_key h').0 ≡ false)
unfolding download_object list_beq
handle_download-fetches_example =
    handle_download-fetches small_cache (codes "s") iso_key bare (object_info iso_object)
      full_bucket iso_object.body iso_entry refl bare_clear bare-IsWritable refl
