-- ===== src/Api/Watcher/Examples.antt =====
-- The theorems about the watcher at the sample machine.
use proxs.Host.{Host, stat}
use proxs.Api.Watcher.Loop.{Busy, judge, tick, take_event, run, request, tick_of}
use proxs.Api.Watcher.Loop.Rounds.{is_started, IsReady, tick-IsReady}
use proxs.Api.Watcher.Loop.Tracking.{WasGone, run-keeps}
use proxs.Api.Watcher.Loop.Marking.{Episode, take_event-Episode}
use proxs.Api.Watcher.{cache_rel_key, is_auxiliary, scan_pending}
use proxs.Api.Watcher.Keys.{cache_rel_key-path}
use proxs.Api.Watcher.Scanning.{scan_pending-covers}
use mathlib.Core.List.{Memᴰ}
use proxs.FilePath.{FilePath}
use proxs.Prelude.{Option, List, ◌==◌}
use proxs.Api.Listing.{DirEntry}
use proxs.Api.Listing.Local.{LocalFile, disk_file}
use proxs.Names.{content_to_prefix}
use proxs.Api.Watcher.Probe.{watch_dirs}
use proxs.Api.Watcher.Watched.{directory_of, watch_dirs-LocalFile}
use proxs.Prelude.{
  ℕ, ◌≡◌, refl, ◌≢◌, ◌↔◌, ◌⊎◌, true, false, none, some, [], ◌∷◌, if◌then◌else◌, nat_eq, list_beq,
  list_eq, codes, has_prefix, has_suffix, add_byte, split, lookup,
}
use proxs.FilePath.{push_name, push_names, join, base_name, path_has_suffix}
use proxs.Cache.Meta.{covers}
use proxs.Cache.Entry.{path, get_meta}
use proxs.Cache.Sample.{
  plain_json, small_cache, iso_key, iso_entry, iso_path, iso_file, allowed, iso_info, idle,
  stat_iso, machine-IsWritable,
}

cache_rel_key-path_example :
    cache_rel_key small_cache.base_dir (path small_cache (codes "s") iso_key)
    ≡ some (codes "s", iso_key)
cache_rel_key-path_example = cache_rel_key-path small_cache (codes "s") iso_key iso_entry refl

scan_pending-covers_example :
    (scan_pending small_cache small_cache.base_dir
      (codes "s")
      (path small_cache (codes "s") iso_key, some iso_info)
      ([], idle)).0
    ≡ (if covers (get_meta small_cache (codes "s") iso_key idle) iso_info
        then []
        else path small_cache (codes "s") iso_key ∷ [])
unfolding is_auxiliary path_has_suffix has_suffix has_prefix base_name path join push_names
    push_name split add_byte list_beq
scan_pending-covers_example =
    scan_pending-covers small_cache (codes "s") iso_key [] idle iso_info iso_entry refl stat_iso
      refl

take_event-Episode_example : Episode small_cache (codes "s") iso_key [] idle (
    take_event small_cache small_cache.base_dir true
      (path small_cache (codes "s") iso_key)
      ([], idle))
unfolding is_auxiliary path_has_suffix has_suffix has_prefix base_name path join push_names
    push_name split add_byte list_beq
take_event-Episode_example =
    take_event-Episode small_cache (codes "s") iso_key [] idle iso_entry refl
      (machine-IsWritable (iso_file false) allowed refl refl refl refl) refl

-- Nothing is blocked or in use.
abbrev free : Busy
free = record { blocked = λ p. false; in_use = λ p. false }

-- Four seconds later.
abbrev later : Host
later = record idle { now = 4000000100 }

tick-IsReady_example : (is_started iso_path (tick free later ((iso_path, 100) ∷ [])).0 ≡ true) ↔ (
    (seen : ℕ) × (lookup iso_path ((iso_path, 100) ∷ []) ≡ some seen)
    × IsReady free later iso_path seen)
tick-IsReady_example = tick-IsReady free later ((iso_path, 100) ∷ []) iso_path (refl, tt)

-- The tick of the example starts the upload.
tick_starts : tick free later ((iso_path, 100) ∷ []) ≡ (iso_path ∷ [], [])
unfolding tick judge stat path_has_suffix has_suffix has_prefix base_name list_beq
tick_starts = refl

run-keeps_example :
    (lookup iso_path
        (run small_cache small_cache.base_dir
          ((request iso_path, idle) ∷ (tick_of free, later) ∷ [])
          ((iso_path, 100) ∷ [])).1
      ≢ none)
    ⊎ ((is_started iso_path
            (run small_cache small_cache.base_dir
              ((request iso_path, idle) ∷ (tick_of free, later) ∷ [])
              ((iso_path, 100) ∷ [])).0
          ≡ true)
        ⊎ WasGone iso_path ((request iso_path, idle) ∷ (tick_of free, later) ∷ []))
unfolding list_beq
run-keeps_example =
    run-keeps small_cache small_cache.base_dir
      ((request iso_path, idle) ∷ (tick_of free, later) ∷ []) ((iso_path, 100) ∷ []) iso_path
      (refl, tt) (λ q. cc q)

abbrev machine_100 : DirEntry
machine_100 = record { name = codes "100"; is_dir = true; info = none }

abbrev disk_0 : DirEntry
disk_0 = record { name = codes "disk-0.raw"; is_dir = false; info = some iso_info }

abbrev machine_dir : FilePath
machine_dir = codes "c" ∷ codes "s" ∷ codes "images" ∷ codes "100" ∷ []

-- A storage with the image of one virtual machine.
abbrev image_tree : FilePath → Option (List DirEntry)
image_tree p = if p == machine_dir then some (disk_0 ∷ []) else some (machine_100 ∷ [])

image_file :
    LocalFile
      (codes "s")
      (codes "images")
      image_tree
      (join (codes "c" ∷ []) (codes "s" ∷ content_to_prefix (codes "images") ∷ []))
      (codes "images/100/disk-0.raw")
      (codes "100/disk-0.raw")
      iso_info
unfolding content_to_prefix join push_names push_name split add_byte list_beq
image_file =
    disk_file (machine_100 ∷ []) (disk_0 ∷ []) machine_100 disk_0 iso_info refl (Memᴰ.head refl)
      refl refl refl (Memᴰ.head refl) refl refl

watch_dirs-LocalFile_example :
    Memᴰ
      (directory_of (λ p. true) image_tree image_file)
      (watch_dirs (λ p. true) image_tree (codes "c" ∷ []) (codes "s" ∷ []))
watch_dirs-LocalFile_example =
    watch_dirs-LocalFile (λ p. true) image_tree (λ dir entries r. refl) (codes "c" ∷ [])
      (codes "s" ∷ []) image_file (Memᴰ.head refl)
      (Memᴰ.tail (Memᴰ.tail (Memᴰ.tail (Memᴰ.tail (Memᴰ.tail (Memᴰ.head refl))))))
