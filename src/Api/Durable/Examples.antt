-- ===== src/Api/Durable/Examples.antt =====
-- The theorem about the life of an entry at the sample machine: a scan of the eviction by size, and
-- the start of an upload.
use proxs.Prelude.{
  refl, ◌⊎◌, false, none, some, [], ◌∷◌, nat_eq, list_beq, list_eq, codes, has_prefix, has_suffix,
  add_byte, split,
}
use proxs.FilePath.{join, push_names, push_name, path_has_suffix, base_name}
use proxs.S3client.{missing}
use proxs.S3client.Memory.{memory, memory-IsLawful}
use proxs.Cache.Entry.{path, meta_path}
use proxs.Cache.Sample.{plain_json, small_cache, iso_key, iso_entry}
use proxs.Api.Sample.{new_bucket, pending_mark, marked_host}
use proxs.Api.Upload.Examples.{marked-IsWritable}
use proxs.Api.Upload.{begin_upload}
use proxs.Api.Download.Parts.{no_pull}
use proxs.Cache.SizeLimit.{scan}
use proxs.Api.Durable.{
  System, idle, Fits, begun, begins, scans, Reach, here, next, IsMarked, IsSent,
}
use proxs.Api.Durable.Lossless.{Reach-lossless}

abbrev waiting : System
waiting = record {
  host = marked_host;
  bucket = new_bucket;
  flight = idle;
  pull = no_pull;
  scanned = none;
}

abbrev looked : System
looked = record waiting { scanned = some (scan small_cache [] marked_host) }

abbrev uploading : System
uploading =
    begun memory-IsLawful small_cache (codes "s") iso_key looked
      (begin_upload small_cache (codes "s") iso_key false missing marked_host)

uploading_reached : Reach memory-IsLawful small_cache (codes "s") iso_key waiting uploading
uploading_reached =
    next (next here marked-IsWritable (scans [] tt)) marked-IsWritable (begins false missing refl)

waiting-IsMarked : IsMarked memory-IsLawful small_cache (codes "s") iso_key (7 ∷ 8 ∷ []) marked_host
unfolding path meta_path join push_names push_name split add_byte list_beq
waiting-IsMarked = record { held = refl; mark = (pending_mark, refl, refl) }

Reach-lossless_example :
    (IsSent memory-IsLawful small_cache (codes "s") iso_key (7 ∷ 8 ∷ []) uploading.bucket
      ⊎ IsMarked memory-IsLawful small_cache (codes "s") iso_key (7 ∷ 8 ∷ []) uploading.host)
    × Fits (7 ∷ 8 ∷ []) (uploading.host.fs (path small_cache (codes "s") iso_key))
unfolding path_has_suffix has_suffix has_prefix base_name path join push_names push_name split
    add_byte list_beq
Reach-lossless_example =
    Reach-lossless memory-IsLawful small_cache (codes "s") iso_key (7 ∷ 8 ∷ []) iso_entry refl refl
      waiting uploading refl refl refl waiting-IsMarked uploading_reached
