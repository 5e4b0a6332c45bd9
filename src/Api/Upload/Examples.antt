-- ===== src/Api/Upload/Examples.antt =====
-- The theorems about upload attempts at the sample machine.

use proxs.Prelude.{
  ◌≡◌, refl, false, some, [], ◌∷◌, arith, nat_eq, list_beq, list_eq, codes, add_byte, split,
}
use proxs.FilePath.{push_name, push_names, join, append_text}
use proxs.Host.{stat, read_file, created}
use proxs.Host.Laws.{IsWritable}
use proxs.S3client.{put_object, missing}
use proxs.S3client.Memory.{memory_upload, memory, memory-IsLawful}
use proxs.Api.Sample.{new_bucket, pending_mark, marked_host, old_info}
use proxs.Cache.Meta.{covers}
use proxs.Cache.Entry.{path, meta_path, legacy_path, get_meta, stamped, mark_pending}
use proxs.Cache.Pending.{IsPending}
use proxs.Cache.Sample.{
  plain_json, small_cache, iso_key, iso_entry, iso_file, allowed, iso_info, idle,
  machine-IsWritable,
}
use proxs.Api.Upload.{reconcile_local, begin_unknown, begin_upload, finish_upload, upload_once}
use proxs.Api.Upload.Outcomes.{Reason, begin_upload-Reason}
use proxs.Api.Upload.Success.{IsDue, recorded, upload_once-success, finish_upload-rewritten}

begin_upload-Reason_example :
    (stat idle (path small_cache (codes "s") iso_key) ≡ some iso_info)
    × (false ≡ false)
    × Reason small_cache (codes "s") iso_key missing idle iso_info
unfolding begin_upload begin_unknown reconcile_local get_meta stat read_file path meta_path
    legacy_path join push_names push_name split add_byte list_beq append_text
begin_upload-Reason_example =
    begin_upload-Reason small_cache (codes "s") iso_key false missing idle
      (mark_pending small_cache (codes "s") iso_key idle).1 iso_info 100 refl

pub marked-IsWritable : IsWritable marked_host (meta_path small_cache (codes "s") iso_key)
unfolding created meta_path join push_names push_name split add_byte list_beq
marked-IsWritable = record {
  mkdir_ok = refl;
  write_ok = refl;
  open_ok = refl;
  create_ok = λ e. ground arith;
}

pub marked_due :
    IsDue small_cache (codes "s") iso_key marked_host (iso_file false) pending_mark (codes "e")
unfolding covers get_meta stat read_file path meta_path legacy_path join push_names push_name split
    add_byte list_beq append_text
marked_due = record {
  content = refl;
  readable = refl;
  has_mark = refl;
  uncovered = refl;
  marked_before = omega arith;
  written_before = omega arith;
}

upload_once-success_example :
    let (retry_wanted, h', b') =
      upload_once small_cache (codes "s") iso_key marked_host new_bucket in
    (retry_wanted ≡ false)
    × (memory-IsLawful.content b' iso_key ≡ some (7 ∷ 8 ∷ []))
    × (get_meta small_cache (codes "s") iso_key h'
        ≡ some (
            stamped small_cache
              (codes "s")
              iso_key
              (recorded small_cache
                (codes "s")
                iso_key
                marked_host
                (iso_file false)
                pending_mark
                (codes "e"))
              marked_host))
    × (h'.fs (path small_cache (codes "s") iso_key)
        ≡ marked_host.fs (path small_cache (codes "s") iso_key))
    × ((mark_pending small_cache (codes "s") iso_key h').0 ≡ false)
unfolding put_object memory_upload
upload_once-success_example =
    upload_once-success small_cache (codes "s") iso_key marked_host (iso_file false) pending_mark
      (codes "e") memory-IsLawful new_bucket iso_entry marked-IsWritable marked_due refl

finish_upload-rewritten_example :
    ((finish_upload small_cache (codes "s") iso_key old_info 45 false (some (codes "e")) idle).0
      ≡ false)
    × IsPending iso_info (
        get_meta small_cache
          (codes "s")
          iso_key
          (finish_upload small_cache
            (codes "s")
            iso_key
            old_info
            45
            false
            (some (codes "e"))
            idle).1)
unfolding get_meta stat read_file path meta_path legacy_path join push_names push_name split
    add_byte list_beq append_text
finish_upload-rewritten_example =
    finish_upload-rewritten small_cache (codes "s") iso_key old_info iso_info 45 (codes "e") idle
      iso_entry (machine-IsWritable (iso_file false) allowed refl refl refl refl) refl refl
      (λ q. cc (q.same_size)) (λ c. cc (c.recorded))
