-- ===== src/Api/Resync/Walk.antt =====
-- The walk and the summary of handleResync (internal/api/resync.go), for a known storage.
-- `filepath.Walk` is given by the entries of the tree in its order; it leaves out those below a
-- directory whose visit answers SkipDir.
use proxs.Prelude.{
  ℕ, ◌+◌, ◌≡◌, refl, inl, inr, Bool, true, false, not, ◌&&◌, ◌||◌, Option, none, some, List, [],
  ◌∷◌, arith, if◌then◌else◌, Bool-cases, Option-cases, ◌==◌, nat_eq, list_eq, any, Text, codes,
}
use proxs.FilePath.{FilePath, join, base_name, path_has_suffix}
use proxs.Host.{Host, FileInfo, stat, read_file}
use proxs.S3client.Library.{Sdk, IsLawful}
use proxs.S3client.{put_object}
use proxs.S3client.Laws.{put_object-keeps}
use proxs.Cache.Meta.{MetaJson}
use proxs.Cache.Entry.{FileCache, path}
use proxs.Cache.Eviction.{Visit, rel_text}
use proxs.Api.Resync.{
  Count, resync_upload, resync_file, nothing_done, uploaded, skipped, conflicting, errored,
  open_file, read_file,
}

-- The numbers of the summary.
pub record Summary : Type 0 where
  pub uploads : ℕ
  pub skips : ℕ
  pub conflicts : ℕ
  pub errors : ℕ

unfoldable pub add_count : Count → Summary → Summary
add_count nothing_done sum = sum
add_count uploaded sum = record sum { uploads = sum.uploads + 1 }
add_count skipped sum = record sum { skips = sum.skips + 1 }
add_count conflicting sum = record sum { conflicts = sum.conflicts + 1 }
add_count errored sum = record sum { errors = sum.errors + 1 }

-- Whether a path is below a directory.
unfoldable pub is_below : FilePath → FilePath → Bool
is_below [] [] = false
is_below [] (c ∷ p) = true
is_below (d ∷ dir) [] = false
is_below (d ∷ dir) (c ∷ p) = d == c && is_below dir p

abbrev pub is_left_out : Option FilePath → FilePath → Bool
is_left_out none p = false
is_left_out (some dir) p = is_below dir p

-- What the filters of the walk let through.
abbrev pub is_content : FilePath → FileInfo → Bool
is_content p info =
    not info.is_dir && not (path_has_suffix p (codes ".tmp") || path_has_suffix p (codes ".meta"))

module _ ⦃json : MetaJson⦄ ⦃sdk : Sdk⦄ (fc : FileCache) (storage : Text) (force : Bool)
    (in_use : FilePath → Bool) where
  abbrev pub Progress : Type 0
  Progress = Summary × Host × sdk.State

  abbrev pub storage_dir : FilePath
  storage_dir = join fc.base_dir (storage ∷ [])

  abbrev pub counted : Summary → Count × Host × sdk.State → Progress
  counted sum (c, h, b) = (add_count c sum, h, b)

  -- One visit.
  unfoldable pub resync_visit : Visit → Progress → Progress
  unfolding resync_file add_count rel_text
  resync_visit (p, none) (sum, h, b) = (add_count errored sum, h, b)
  resync_visit (p, some info) (sum, h, b) =
      if is_content p info
      then counted sum (resync_file fc storage (rel_text storage_dir p) force (in_use p) info h b)
      else (sum, h, b)

  -- Whether the visit answers SkipDir.
  abbrev pub skips_dir : Visit → Bool
  skips_dir (p, none) = false
  skips_dir (p, some info) = info.is_dir && base_name p == codes ".meta"

  abbrev pub left_out_next : Visit → Option FilePath → Option FilePath
  left_out_next v skipped_dir = if skips_dir v then some v.0 else skipped_dir

  -- The walk, after a directory that was skipped.
  unfoldable pub resync_walk : Option FilePath → List Visit → Progress → Progress
  unfolding resync_visit is_below
  resync_walk skipped_dir [] s = s
  resync_walk skipped_dir (v ∷ vs) s =
      let onward : Progress = resync_walk skipped_dir vs s in
      let further = resync_walk (left_out_next v skipped_dir) vs (resync_visit v s) in
      if is_left_out skipped_dir v.0 then onward else further

  -- `handleResync`, with the summary if there is a directory.
  unfoldable pub handle_resync : List Visit → Host → sdk.State → Option Summary × Host × sdk.State
  unfolding resync_walk
  handle_resync visits h b = elim (stat h storage_dir) [
    | none ↦ (none, h, b)
    | some _ ↦
        let (sum, h', b') =
          resync_walk none visits
            (record { uploads = 0; skips = 0; conflicts = 0; errors = 0 }, h, b) in
        (some sum, h', b')
  ]

  -- A file of content under a key that no other process has open.
  abbrev pub is_candidate : Text → Visit → Bool
  is_candidate key (p, none) = false
  is_candidate key (p, some info) =
      is_content p info && (not (in_use p) && rel_text storage_dir p == key)

  module _ (laws : IsLawful sdk) (other : Text) where
    resync_upload-others :
        (key : Text) (h : Host) (b : sdk.State)
        → (key == other) ≡ false
        → laws.content (resync_upload fc storage key h b).2 other ≡ laws.content b other
    unfolding resync_upload
    resync_upload-others key h b n = elim (Bool-cases (h.denied open_file (path fc storage key))) [
      | inl d ↦ rw (resync_upload, d) refl
      | inr a ↦ elim (Option-cases (stat h (path fc storage key))) [
        | inl gone ↦ rw (resync_upload, a, gone) refl
        | inr (info, there) ↦ elim (Option-cases (read_file h (path fc storage key))) [
          | inl unread ↦ rw (resync_upload, a, there, unread) refl
          | inr (body, read) ↦
              let kept = put_object-keeps laws key body other b n in
              elim (Option-cases (put_object key body b).0) [
                | inl failed ↦ rw (resync_upload, a, there, read, failed) kept
                | inr (etag, put) ↦ rw (resync_upload, a, there, read, put) kept
              ]
        ]
      ]
    ]

    resync_file-others :
        (key : Text) (busy : Bool) (info : FileInfo) (h : Host) (b : sdk.State)
        → (key == other) ≡ false
        → laws.content (resync_file fc storage key force busy info h b).2 other
          ≡ laws.content b other
    unfolding resync_file
    resync_file-others key busy info h b n = ground (arith, resync_upload-others key h b n)

    resync_visit-others :
        (v : Visit) (s : Progress)
        → is_candidate other v ≡ false
        → laws.content (resync_visit v s).2 other ≡ laws.content s.2 other
    unfolding resync_visit
    resync_visit-others (p, none) s n = refl
    resync_visit-others (p, some info) (sum, h, b) n = elim (Bool-cases (is_content p info)) [
      | inr left ↦ rw (resync_visit, left) refl
      | inl content ↦ elim (Bool-cases (in_use p)) [
        | inl busy ↦ rw (resync_visit, content, busy) refl
        | inr free ↦
            rw (resync_visit, content)
              (resync_file-others (rel_text storage_dir p) (in_use p) info h b (ground (arith, n)))
      ]
    ]

    resync_walk-others :
        (skipped_dir : Option FilePath) (visits : List Visit) (s : Progress)
        → any (is_candidate other) visits ≡ false
        → laws.content (resync_walk skipped_dir visits s).2 other ≡ laws.content s.2 other
    unfolding resync_walk any
    resync_walk-others skipped_dir [] s n = refl
    resync_walk-others skipped_dir (v ∷ vs) s n = ground (
      arith,
      n,
      resync_visit-others v s,
      resync_walk-others skipped_dir vs s,
      resync_walk-others (left_out_next v skipped_dir) vs (resync_visit v s),
    )

    -- A resync of a storage, however its uploads end, leaves the content of every object alone whose
    -- key is not that of a file in the tree of the storage, where directories, temporary files,
    -- sidecars and files that another process has open do not count.
    pub handle_resync-others :
        (visits : List Visit) (h : Host) (b : sdk.State)
        → any (is_candidate other) visits ≡ false
        → laws.content (handle_resync visits h b).2 other ≡ laws.content b other
    unfolding handle_resync
    handle_resync-others visits h b n = elim (Option-cases (stat h storage_dir)) [
      | inl gone ↦ rw (handle_resync, gone) refl
      | inr (info, there) ↦ rw (handle_resync, there) (resync_walk-others none visits _ n)
    ]
