-- ===== src/Cache/Eviction.antt =====
-- EvictByAge and evictIfNeeded of internal/cache/cache.go. What filepath.Walk visits is a list: the
-- path, and what is known of the file, `none` where the visit reports an error.
use proxs.Prelude.{
  ℕ, suc, ◌+◌, Bool, true, false, not, ◌&&◌, Option, none, some, List, [], ◌∷◌, ◌++◌, ltb,
  if◌then◌else◌, ◌==◌, nat_eq, list_eq, Text, codes,
}
use proxs.FilePath.{FilePath, join, rel, join_slash, append_text, path_has_suffix}
use proxs.Host.{Host, FileInfo, Removal, is_failed, remove_as, clear_immutable, remove, retry}
use proxs.Cache.Meta.{FileMeta, MetaJson}
use proxs.Cache.Entry.{FileCache, get_meta}

abbrev pub Visit : Type 0
Visit = FilePath × Option FileInfo

-- `filepath.Rel` and `filepath.ToSlash`, as a text.
unfoldable pub rel_text : FilePath → FilePath → Text
rel_text base p = elim (rel base p) [ [] ↦ codes "." | c ∷ cs ↦ join_slash (c ∷ cs) ]

-- The sidecar of a path, from its text relative to the cache directory.
unfoldable pub sidecar_of : FileCache → FilePath → FilePath
unfolding rel_text
sidecar_of fc p = join fc.base_dir (codes ".meta" ∷ (rel_text fc.base_dir p ++ codes ".json") ∷ [])

-- The two sidecars of a deleted file.
unfoldable pub drop_sidecars : FileCache → FilePath → Host → Host
drop_sidecars fc p h =
    (remove_as remove (append_text p (codes ".meta")) (remove_as remove (sidecar_of fc p) h).1).1

abbrev pub is_regular : Option FileInfo → Bool
is_regular none = false
is_regular (some info) = not info.is_dir

-- Metadata of a file whose only copy is the local one: none, or marked pending.
unfoldable pub only_copy : Option FileMeta → Bool
only_copy none = true
only_copy (some meta) = meta.pending_upload

-- The removal of `EvictByAge`: a second attempt follows the first unless there was no file.
unfoldable pub remove_aged : FilePath → Host → Removal × Host
remove_aged p h =
    let (res, h') = remove_as remove p h in
    if is_failed res then remove_as retry p (clear_immutable p h') else (res, h')

module _ ⦃json : MetaJson⦄ (fc : FileCache) where
  -- The file's content was not uploaded, as far as its metadata tells.
  unfoldable pub unsent : Text → FilePath → Host → Bool
  unfolding only_copy rel_text
  unsent storage p h =
      not (path_has_suffix p (codes ".meta"))
      && only_copy (get_meta fc storage (rel_text (join fc.base_dir (storage ∷ [])) p) h)

  unfoldable pub evict_aged : FilePath → ℕ × Host → ℕ × Host
  unfolding remove_aged drop_sidecars
  evict_aged p (count, h) =
      let (res, h') = remove_aged p h in
      if is_failed res then (count, h') else (suc count, drop_sidecars fc p h')

  -- One visit of the walk of `EvictByAge`; `Before(now - max_age)` is a sum on this side.
  unfoldable pub visit_aged : Text → ℕ → Visit → ℕ × Host → ℕ × Host
  unfolding unsent evict_aged
  visit_aged storage max_age (p, none) (count, h) = (count, h)
  visit_aged storage max_age (p, some info) (count, h) =
      if info.is_dir
      then (count, h)
      else if not (ltb (info.mtime + max_age) h.now)
      then (count, h)
      else if unsent storage p h
      then (count, h)
      else evict_aged p (count, h)

  unfoldable pub walk_aged : Text → ℕ → List Visit → ℕ × Host → ℕ × Host
  walk_aged storage max_age [] s = s
  walk_aged storage max_age (v ∷ vs) s =
      walk_aged storage max_age vs (visit_aged storage max_age v s)

  -- `EvictByAge`: the number of files removed.
  unfoldable pub evict_by_age : Text → ℕ → List Visit → Host → ℕ × Host
  unfolding walk_aged
  evict_by_age storage max_age visits h =
      if max_age == 0 then (0, h) else walk_aged storage max_age visits (0, h)
