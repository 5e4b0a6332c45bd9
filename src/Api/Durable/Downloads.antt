-- ===== src/Api/Durable/Downloads.antt =====
-- The parts of handleDownload of internal/api/api.go and the content of the file, where S3 has that
-- content.

use proxs.Prelude.{
  Option, none, ◌⊎◌, ℕ, ◌≡◌, sym, subst, inl, inr, true, false, some, arith, if◌then◌else◌,
  Bool-cases, Option-cases, ◌==◌, eq_refl, nat_eq, list_eq, Text, codes,
}
use proxs.FilePath.{FilePath}
use proxs.Host.{Host, put_node, created, write_file, remove_as, rename_file, mkdir, remove, file}
use proxs.Host.Laws.{fs-write_file}
use proxs.S3client.{ObjectInfo, Head}
use proxs.Cache.Meta.{MetaJson}
use proxs.Cache.Paths.{IsEntry}
use proxs.Cache.Entry.{FileCache, path, write_meta, remove_content, settle_leftover, remove_entry}
use proxs.Api.Upload.{plain_meta}
use proxs.Api.Download.{download_path, backfill}
use proxs.Api.Download.Parts.{
  Action, serves, backfills, purges, refetches, fetches, act, move_in, save, store_meta,
}
use proxs.Api.Download.Fetched.{download-ne-path}
use proxs.Api.Durable.{Fits, Holds}
use proxs.Api.Durable.Removals.{
  FitsAt, remove_as-FitsAt, invalidate-FitsAt, remove_content-FitsAt, remove_meta-FitsAt,
}
use proxs.Api.Durable.Records.{
  SameFile, write_meta-SameFile, settle_leftover-SameFile, backfill-SameFile,
}

write_file-Holds :
    (p : FilePath) (body : Text) (h : Host)
    → (write_file p body h).0 ≡ true
    → Holds body ((write_file p body h).1.fs p)
unfolding write_file
write_file-Holds p body h ok = ground (arith, eq_refl p)

rename_file-FitsAt :
    (c : Text) (src dst : FilePath) (h : Host)
    → Holds c (h.fs src)
    → FitsAt c dst h
    → FitsAt c dst (rename_file src dst h).1
unfolding rename_file
rename_file-FitsAt c src dst h held k = ground (arith, eq_refl dst)

module _ ⦃json : MetaJson⦄ (fc : FileCache) (storage key c : Text) (e : IsEntry storage key)
    (cached : (storage == codes ".downloads") ≡ false) where
  abbrev pub Fitting : Host → Type 0
  Fitting = FitsAt c (path fc storage key)

  pub same-Fitting : (h h' : Host) → SameFile fc storage key e h h' → Fitting h → Fitting h'
  same-Fitting h h' s k = subst (Fits c) (sym s) k

  remove_entry-Fitting : (h : Host) → Fitting h → Fitting (remove_entry fc storage key h).1
  unfolding remove_entry
  remove_entry-Fitting h k =
      let (res, h') = remove_content (path fc storage key) h in
      let gone = remove_content-FitsAt c (path fc storage key) (path fc storage key) h k in
      ground (
        arith,
        same-Fitting h' (settle_leftover fc storage key h')
            (settle_leftover-SameFile fc storage key e h') gone,
        remove_meta-FitsAt c (path fc storage key) fc storage key h' gone,
      )

  -- What is done about the cached file.
  pub act-Fitting :
      (action : Action) (head : Head) (h : Host)
      → Fitting h
      → Fitting (act fc storage key action head h)
  unfolding act
  act-Fitting serves head h k = k
  act-Fitting fetches head h k = k
  act-Fitting backfills head h k =
      same-Fitting h (backfill fc storage key head h) (backfill-SameFile fc storage key e head h) k
  act-Fitting purges head h k = remove_entry-Fitting h k
  act-Fitting refetches head h k = invalidate-FitsAt c (path fc storage key) fc storage key h k

  pub store_meta-Fitting :
      (o : ObjectInfo) (size : ℕ) (h : Host)
      → Fitting h
      → Fitting (store_meta fc storage key o size h)
  unfolding store_meta
  store_meta-Fitting o size h k =
      let meta = plain_meta o.etag o.last_modified size in
      same-Fitting h (write_meta fc storage key meta h)
        (write_meta-SameFile fc storage key e meta h) k

  move_in-Fitting :
      (h : Host)
      → Holds c (h.fs (download_path fc storage key))
      → Fitting h
      → Fitting (move_in fc storage key h).1
  unfolding move_in
  move_in-Fitting h held k =
      let tmp = download_path fc storage key in
      let (ok, h') = rename_file tmp (path fc storage key) h in
      let moved = rename_file-FitsAt c tmp (path fc storage key) h held k in
      ground (
        arith,
        moved,
        remove_as-FitsAt c (path fc storage key) remove tmp h' moved,
        remove_as-FitsAt c (path fc storage key) remove tmp h k,
      )

  written_or_not :
      (h : Host)
      → Fitting h
      → let (ok, h') = write_file (download_path fc storage key) c h in
        Fitting
          (if ok
            then move_in fc storage key h'
            else (false, (remove_as remove (download_path fc storage key) h').1)).1
  written_or_not h k =
      let tmp = download_path fc storage key in
      let kept =
        same-Fitting h (write_file tmp c h).1
          (fs-write_file tmp (path fc storage key) (download-ne-path fc e cached) h c) k in
      elim (Bool-cases (write_file tmp c h).0) [
        | inl ok ↦ rw ok (move_in-Fitting (write_file tmp c h).1 (write_file-Holds tmp c h ok) kept)
        | inr torn ↦ rw torn (remove_as-FitsAt c (path fc storage key) remove tmp _ kept)
      ]

  -- The end of a transfer that failed or read the content, whichever calls fail.
  pub save-Fitting :
      (answer : Option Text) (h : Host)
      → (answer ≡ none) ⊎ (answer ≡ some c)
      → Fitting h
      → Fitting (save fc storage key answer h).1
  unfolding save
  save-Fitting answer h r k =
      let tmp = download_path fc storage key in
      let aside = download-ne-path fc e cached in
      elim (Bool-cases (h.denied mkdir tmp)) [
        | inl d ↦ rw (save, d) k
        | inr a ↦ elim (Option-cases (created h tmp)) [
          | inl n ↦ rw (save, a, n) k
          | inr (f, made) ↦
              let emptied : Fitting (put_node h tmp (some (file f))) = rw aside k in
              elim r [
                | inl lost ↦
                    rw (save, a, made, lost)
                      (remove_as-FitsAt c (path fc storage key) remove tmp _ emptied)
                | inr read ↦ rw (save, a, made, read) (written_or_not h k)
              ]
        ]
      ]
