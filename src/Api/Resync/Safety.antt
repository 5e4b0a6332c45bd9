-- ===== src/Api/Resync/Safety.antt =====
-- The decision of handleResync about one file (internal/api/resync.go), and what its upload changes.
use proxs.Prelude.{
  ◌≤◌, ◌<◌, ◌≡◌, refl, ◌≢◌, ◌⊎◌, inl, inr, Bool, true, false, Option, arith, ltb, Bool-cases,
  nat_eq, list_eq, Text,
}
use proxs.Host.{Host, FileInfo}
use proxs.S3client.Library.{Sdk}
use proxs.S3client.{ObjectInfo, Head, head_object, found, missing, unknown}
use proxs.Cache.Meta.{FileMeta, MetaJson}
use proxs.Cache.Entry.{FileCache}
use proxs.Cache.Pending.{IsCovered, IsCovered-covers}
use proxs.Api.Resync.{same_content, decide, resync_file, upload}

-- An upload is decided for one of three reasons only: HEAD found no object or failed; the local
-- file is newer and its size differs or no metadata covers it; or the sizes differ and the operator
-- forces it.
data Cause (force : Bool) (meta : Option FileMeta) (info : FileInfo) (head : Head) : Type 0 where
  unseen : (head ≡ missing) ⊎ (head ≡ unknown) → Cause force meta info head
  newer :
      (o : ObjectInfo)
      → head ≡ found o
      → o.last_modified < info.mtime
      → ¬ ((info.size ≡ o.size) × IsCovered info meta)
      → Cause force meta info head
  forced :
      (o : ObjectInfo)
      → head ≡ found o
      → info.size ≢ o.size
      → force ≡ true
      → Cause force meta info head

decide_found-Cause :
    (force : Bool) (meta : Option FileMeta) (info : FileInfo) (o : ObjectInfo)
    → decide force meta info (found o) ≡ upload
    → Cause force meta info (found o)
unfolding decide same_content
decide_found-Cause force meta info o e = elim (Bool-cases (ltb o.last_modified info.mtime)) [
  | inl n ↦ newer o refl (ground arith) (λ k. ground (arith, IsCovered-covers meta info k.1))
  | inr n ↦ forced o refl (λ s. ground arith) (ground arith)
]

-- A file is uploaded by a resync only for one of three reasons: HEAD found no object, or failed in
-- any way; the local file is newer than the object, and its size differs or no metadata covers it;
-- or the sizes differ, and the operator forces it.
decide-Cause :
    (force : Bool) (meta : Option FileMeta) (info : FileInfo) (head : Head)
    → decide force meta info head ≡ upload
    → Cause force meta info head
unfolding decide
decide-Cause force meta info missing e = unseen (inl refl)
decide-Cause force meta info unknown e = unseen (inr refl)
decide-Cause force meta info (found o) e = decide_found-Cause force meta info o e

module _ ⦃json : MetaJson⦄ ⦃sdk : Sdk⦄ (fc : FileCache) (storage key : Text) where
  -- Without `--force-latest`, if HEAD answers with an object that is at least as new as the local
  -- file, a resync of the file leaves S3 as it is.
  resync_file-keeps :
      (in_use : Bool) (info : FileInfo) (o : ObjectInfo) (h : Host) (b : sdk.State)
      → head_object key b ≡ found o
      → info.mtime ≤ o.last_modified
      → (resync_file fc storage key false in_use info h b).2 ≡ b
  unfolding resync_file decide same_content
  resync_file-keeps in_use info o h b e n = ground arith
