-- ===== src/Cache/Examples.antt =====
-- The theorems about the cache at the sample machine.
use proxs.Cache.SizeSafety.{IsCacheVisit, evict_if_needed-spares}
use proxs.Cache.SizeLimit.{evict_if_needed}
use proxs.Cache.Below.{entry-IsBelow}
use proxs.Cache.AgeSafety.{evict_by_age-spares}
use proxs.Cache.RemoveEntry.{mark_pending-remove_entry}
use proxs.Host.{Host, stat, read_file, created, write_file, remove_as, clear_immutable}
use proxs.Cache.SizeLimit.{Scan, bytes_per_mb, evict_scanned}
use proxs.Cache.SizeOrder.{IsOldestFirst, evict_scanned-IsOldestFirst}
use proxs.FilePath.{FilePath, push_name, push_names, join, base_name, append_text, path_has_suffix}
use proxs.Cache.Removal.{SidecarsRemovable}
use proxs.Cache.Eviction.{Visit, only_copy, evict_by_age}
use proxs.Prelude.{
  List, ◌*◌, ◌≡◌, refl, sym, ◌↔◌, inl, true, false, some, [], ◌∷◌, nat_eq, list_beq, list_eq, codes,
  has_prefix, has_suffix, add_byte, split,
}
use proxs.Host.Laws.{IsWritable}
use proxs.Cache.Meta.{FileMeta}
use proxs.Cache.Entry.{
  path, meta_path, legacy_path, remove_content, get_meta, write_meta, mark_pending, mark_synced,
  remove_entry,
}
use proxs.Cache.Pending.{Marks, mark_pending-Marks}
use proxs.Cache.Synced.{Syncs, mark_synced-Syncs, Touched, mark_pending-mark_synced}
use proxs.Cache.Sample.{
  plain_json, small_cache, iso_key, iso_entry, iso_path, iso_file, machine, allowed, iso_info, idle,
  stuck, path_iso, machine-IsWritable,
}

idle_meta : IsWritable idle (meta_path small_cache (codes "s") iso_key)
idle_meta = machine-IsWritable (iso_file false) allowed refl refl refl refl

mark_pending-Marks_example :
    Marks small_cache (codes "s") iso_key idle (mark_pending small_cache (codes "s") iso_key idle)
mark_pending-Marks_example =
    mark_pending-Marks small_cache (codes "s") iso_key idle iso_entry idle_meta

abbrev synced_meta : FileMeta
synced_meta = record {
  etag = codes "e";
  last_modified = 60;
  size = 2;
  cached_at = 0;
  pending_upload = false;
  inode = 0;
}

mark_synced-Syncs_example :
    Syncs small_cache
      (codes "s")
      iso_key
      iso_info
      10
      synced_meta
      idle
      (mark_synced small_cache (codes "s") iso_key iso_info 10 synced_meta idle)
mark_synced-Syncs_example =
    mark_synced-Syncs small_cache (codes "s") iso_key iso_info 10 synced_meta idle iso_entry
      idle_meta

synced_iso : (mark_synced small_cache (codes "s") iso_key iso_info 10 synced_meta idle).0 ≡ true
unfolding mark_synced get_meta stat read_file path meta_path legacy_path join push_names push_name
    split add_byte list_beq append_text
synced_iso = refl

mark_pending-mark_synced_example :
    ((mark_pending small_cache
        (codes "s")
        iso_key
        (mark_synced small_cache (codes "s") iso_key iso_info 10 synced_meta idle).1).0
      ≡ true)
    ↔ Touched small_cache (codes "s") iso_key iso_info 10 synced_meta idle iso_info
unfolding mark_synced write_meta write_file created get_meta stat read_file path meta_path
    legacy_path join push_names push_name split add_byte list_beq append_text
mark_pending-mark_synced_example =
    mark_pending-mark_synced small_cache (codes "s") iso_key iso_info 10 synced_meta idle
      (mark_synced small_cache (codes "s") iso_key iso_info 10 synced_meta idle).1 iso_info
      iso_entry idle_meta refl synced_iso refl refl refl

idle_sidecars : SidecarsRemovable small_cache (codes "s") iso_key iso_entry idle
unfolding remove_as path meta_path legacy_path join push_names push_name split add_byte list_beq
    append_text
idle_sidecars = record { current = λ e. cc; legacy = λ e. cc }

abbrev flagged : Host
flagged = machine (iso_file true) allowed

mark_pending-remove_entry_example :
    (mark_pending small_cache
      (codes "s")
      iso_key
      (remove_entry small_cache (codes "s") iso_key stuck).1).0
    ≡ true
unfolding stat get_meta read_file remove_entry remove_content clear_immutable remove_as path
    meta_path legacy_path join push_names push_name split add_byte list_beq append_text
mark_pending-remove_entry_example =
    mark_pending-remove_entry small_cache (codes "s") iso_key stuck iso_info iso_entry refl refl
      refl refl

abbrev iso_visit : Visit
iso_visit = (iso_path, some iso_info)

abbrev folder : FilePath → Visit
folder p = (p, some (record { size = 0; mtime = 1; inode = 1; is_dir = true }))

-- The walk of the storage, from its directory on.
abbrev storage_walk : List Visit
storage_walk =
    folder (codes "c" ∷ codes "s" ∷ [])
    ∷ folder (codes "c" ∷ codes "s" ∷ codes "t" ∷ [])
    ∷ iso_visit
    ∷ []

abbrev cache_walk : List Visit
cache_walk = folder (codes "c" ∷ []) ∷ storage_walk

evict_by_age-spares_example :
    (evict_by_age small_cache (codes "s") 5 storage_walk idle).1.fs
      (path small_cache (codes "s") iso_key)
    ≡ idle.fs (path small_cache (codes "s") iso_key)
unfolding only_copy get_meta read_file path_has_suffix has_suffix has_prefix base_name path
    meta_path legacy_path join push_names push_name split add_byte list_beq append_text
evict_by_age-spares_example =
    evict_by_age-spares small_cache (codes "s") iso_key iso_entry refl 5 storage_walk idle
      (
        record { place = λ q. cc q },
        (
          record { place = λ q. cc q },
          (
            record {
              place = λ q. record { key = iso_key; entry = iso_entry; located = sym path_iso };
            },
            tt,
          ),
        ),
      )
      (inl refl)

iso_visit-IsCacheVisit : IsCacheVisit small_cache iso_visit
unfolding path join push_names push_name split add_byte list_beq
iso_visit-IsCacheVisit = record { below = λ r q. entry-IsBelow small_cache iso_entry }

evict_if_needed-spares_example :
    (evict_if_needed small_cache cache_walk idle).fs (path small_cache (codes "s") iso_key)
    ≡ idle.fs (path small_cache (codes "s") iso_key)
unfolding only_copy get_meta read_file path_has_suffix has_suffix has_prefix base_name path
    meta_path legacy_path join push_names push_name split add_byte list_beq append_text
evict_if_needed-spares_example =
    evict_if_needed-spares small_cache (codes "s") iso_key iso_entry refl refl cache_walk idle
      (
        record { below = λ r q. cc r },
        (
          record { below = λ r q. cc r },
          (record { below = λ r q. cc r }, (iso_visit-IsCacheVisit, tt)),
        ),
      )
      refl

-- Two files of a megabyte each.
abbrev two_files : Scan
two_files = record {
  files =
      record { path = iso_path; size = 1048576; mod_time = 20 }
      ∷ record { path = codes "c" ∷ codes "s" ∷ codes "b" ∷ []; size = 1048576; mod_time = 10 }
      ∷ [];
  total_size = 2097152;
  protected_size = 0;
}

evict_scanned-IsOldestFirst_example :
    IsOldestFirst
      (small_cache.max_mb * bytes_per_mb)
      two_files.files
      (two_files.total_size, idle)
      (evict_scanned small_cache two_files idle)
evict_scanned-IsOldestFirst_example = evict_scanned-IsOldestFirst small_cache two_files idle
