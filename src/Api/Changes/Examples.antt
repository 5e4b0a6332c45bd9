-- ===== src/Api/Changes/Examples.antt =====
-- The theorems about delete and rename at the sample machine.

use proxs.S3client.Library.{is_plain}
use proxs.Api.Sample.{new_bucket}
use proxs.Cache.Sample.{iso_path, iso_entry, iso_file, allowed, machine-IsWritable}
use proxs.Host.{created, write_file, remove_as, clear_immutable}
use proxs.Cache.Placement.{same_file}
use proxs.Cache.Eviction.{only_copy}
use proxs.Cache.Paths.{IsEntry}
use proxs.Api.Changes.{handle_copy, copy_local, copy_local_file, can_open, fill_copy, handle_upload}
use proxs.Api.Changes.Copies.{CopiedHere, CopiedThere, handle_copy-Copied, handle_upload-outcome}
use proxs.Api.Sample.{marked_host, pending_mark, aged_bucket}
use proxs.Host.{Host, file}
use proxs.S3client.Memory.{Object}
use proxs.Cache.Meta.{FileMeta, covers}
use proxs.Cache.Entry.{mark_synced, write_meta, stamped, inode_at}
use proxs.Api.Changes.{copy_entry, record_own_write}
use proxs.Prelude.{Text, true, some, [], ◌∷◌, if◌then◌else◌, ◌==◌, Option}
use proxs.Prelude.{false, ◌≢◌}
use proxs.Prelude.{◌≡◌, refl, ◌⊎◌, none, nat_eq, list_beq, list_eq, codes, add_byte, split}
use proxs.FilePath.{push_name, push_names, join, append_text}
use proxs.Host.{stat, read_file}
use proxs.S3client.{put_object, delete_object, copy_object}
use proxs.S3client.Memory.{memory_upload, memory_delete, memory_copy, memory, memory-IsLawful}
use proxs.Api.Sample.{full_bucket, other_key, cut_off}
use proxs.Cache.Entry.{path, meta_path, legacy_path, get_meta, has, cached_path}
use proxs.Cache.Sample.{plain_json, small_cache, iso_key, idle}
use proxs.Api.Changes.{
  put_file, local_authoritative, finish_rename, rename_local, handle_rename, ok, error,
}
use proxs.Host.{remove_as}
use proxs.Api.Changes.Safety.{handle_rename-error, Moved, handle_rename-Moved}

handle_rename-error_example :
    ((handle_rename small_cache (codes "s") iso_key other_key idle cut_off).1 ≡ idle)
    × (memory-IsLawful.content
          (handle_rename small_cache (codes "s") iso_key other_key idle cut_off).2
          iso_key
        ≡ memory-IsLawful.content cut_off iso_key)
unfolding is_plain put_object copy_object delete_object memory_upload memory_copy memory_delete
    handle_rename rename_local put_file local_authoritative cached_path has get_meta stat read_file
    path meta_path legacy_path join push_names push_name split add_byte list_beq append_text
handle_rename-error_example =
    handle_rename-error memory-IsLawful small_cache (codes "s") iso_key other_key idle cut_off refl
      refl

handle_rename-Moved_example :
    Moved memory-IsLawful small_cache
      (codes "s")
      iso_key
      other_key
      idle
      full_bucket
      (handle_rename small_cache (codes "s") iso_key other_key idle full_bucket).2
unfolding is_plain put_object copy_object delete_object memory_upload memory_copy memory_delete
    handle_rename rename_local finish_rename put_file local_authoritative cached_path has get_meta
    stat read_file path meta_path legacy_path join push_names push_name split add_byte list_beq
    append_text
handle_rename-Moved_example =
    handle_rename-Moved memory-IsLawful small_cache (codes "s") iso_key other_key idle full_bucket
      refl refl refl

other_entry : IsEntry (codes "s") other_key
unfolding split add_byte list_beq
other_entry = record {
  storage_whole = refl;
  storage_name = record { nonempty = refl; not_dot = refl; not_dots = refl };
  storage_not_meta = refl;
  key_names = (
    record { nonempty = refl; not_dot = refl; not_dots = refl },
    (record { nonempty = refl; not_dot = refl; not_dots = refl }, tt),
  );
}

handle_copy-Copied_example :
    let (status, h', b') = handle_copy small_cache (codes "s") iso_key other_key idle full_bucket in
    CopiedHere memory-IsLawful small_cache (codes "s") iso_key other_key idle h' b'
    ⊎ CopiedThere memory-IsLawful small_cache (codes "s") iso_key other_key idle full_bucket b'
unfolding is_plain put_object memory_upload handle_copy copy_local copy_local_file can_open
    fill_copy created write_file remove_as clear_immutable put_file local_authoritative cached_path
    has get_meta stat read_file path meta_path legacy_path join push_names push_name split add_byte
    list_beq append_text
handle_copy-Copied_example =
    handle_copy-Copied memory-IsLawful small_cache (codes "s") iso_key other_key idle full_bucket
      refl iso_entry other_entry refl refl

handle_upload-outcome_example :
    let (status, h', b') = handle_upload small_cache (codes "s") iso_key iso_path idle new_bucket in
    ((status ≡ ok)
      × (memory-IsLawful.content b' iso_key ≡ read_file idle iso_path)
      × (memory-IsLawful.content b' iso_key ≢ none)
      × (h'.fs (path small_cache (codes "s") iso_key)
          ≡ idle.fs (path small_cache (codes "s") iso_key))
      × (only_copy (get_meta small_cache (codes "s") iso_key h') ≡ false))
    ⊎ ((status ≡ error) × (h' ≡ idle))
unfolding same_file stat path join push_names push_name split add_byte list_beq
handle_upload-outcome_example =
    handle_upload-outcome memory-IsLawful small_cache (codes "s") iso_key iso_path idle new_bucket
      iso_entry (machine-IsWritable (iso_file false) allowed refl refl refl refl) refl refl

-- A cached file that was confirmed, before another node replaced the object.
abbrev outdated : Host
outdated = record marked_host {
  fs = λ p.
      if p == iso_path
      then some (file (iso_file false))
      else if p == meta_path small_cache (codes "s") iso_key
      then some (
          file (record {
            content =
                plain_json.marshal (record pending_mark {
                  pending_upload = false;
                  etag = codes "e";
                  cached_at = 60;
                });
            mtime = 60;
            inode = 12;
            immutable = false;
          }))
      else none;
}

abbrev tag_of : Option FileMeta → Option Text
tag_of none = none
tag_of (some meta) = some meta.etag

abbrev object_tag : Option Object → Option Text
object_tag none = none
object_tag (some o) = some o.etag

abbrev object_body : Option Object → Option Text
object_body none = none
object_body (some o) = some o.body

-- The copy keeps the old bytes under the tag of the new object.
copies_outdated :
    let (status, h', b') =
      handle_copy small_cache (codes "s") iso_key other_key outdated aged_bucket in
    (read_file h' (path small_cache (codes "s") other_key) ≡ some (7 ∷ 8 ∷ []))
    × (object_body (b'.objects other_key) ≡ some (1 ∷ []))
    × (tag_of (get_meta small_cache (codes "s") other_key h') ≡ object_tag (b'.objects other_key))
    × (covers
          (get_meta small_cache (codes "s") other_key h')
          (record { size = 2; mtime = 100; inode = 11; is_dir = false })
        ≡ true)
unfolding is_plain copy_object memory_copy handle_copy copy_entry record_own_write mark_synced
    write_meta stamped inode_at covers copy_local_file can_open fill_copy created write_file
    remove_as clear_immutable local_authoritative cached_path has get_meta stat read_file path
    meta_path legacy_path join push_names push_name split add_byte list_beq append_text
copies_outdated = (refl, refl, refl, refl)
