-- ===== src/Api/Upload/Outcomes.antt =====
-- uploadOnce of internal/api/watcher.go up to the transfer.
use proxs.Prelude.{
  ℕ, ◌<◌, ◌≡◌, refl, sym, ap, ◌∙◌, subst, inl, inr, Bool, false, ◌||◌, Option, none, some, arith,
  if◌then◌else◌, Bool-cases, Option-cases, nat_eq, list_eq, Text,
}
use proxs.Host.{Host, FileInfo, stat, open_file}
use proxs.S3client.{ObjectInfo, Head, found, missing, unknown}
use proxs.Cache.Meta.{FileMeta, MetaJson, covers}
use proxs.Cache.Entry.{FileCache, path, get_meta}
use proxs.Cache.Pending.{IsCovered, IsCovered-covers}
use proxs.Api.Upload.{reconcile_local, Begun, begin_unknown, begin_upload, over, transfer}

transfer-ne-over :
    {b : Bool} {h h' : Host} {info : FileInfo} {started : ℕ}
    → over b h ≡ transfer info started h'
    → ⊥
transfer-ne-over e = cc

module _ ⦃json : MetaJson⦄ (fc : FileCache) (storage key : Text) where
  -- Why a file is uploaded: metadata that does not cover it, or, without metadata, that S3 has no
  -- object or an older one.
  pub data Reason (head : Head) (h : Host) (info : FileInfo) : Type 0 where
    uncovered :
        (m : FileMeta)
        → get_meta fc storage key h ≡ some m
        → ¬ IsCovered info (some m)
        → Reason head h info
    absent : get_meta fc storage key h ≡ none → head ≡ missing → Reason head h info
    newer :
        (o : ObjectInfo)
        → get_meta fc storage key h ≡ none
        → head ≡ found o
        → o.last_modified < info.mtime
        → Reason head h info

  begin_unknown-Reason :
      (info info' : FileInfo) (started started' : ℕ) (head : Head) (h h' : Host)
      → get_meta fc storage key h ≡ none
      → begin_unknown fc storage key info started (reconcile_local info head) head h
        ≡ transfer info' started' h'
      → (info ≡ info') × Reason head h info
  unfolding begin_unknown reconcile_local
  begin_unknown-Reason info info' started started' missing h h' n e = (cc, absent n refl)
  begin_unknown-Reason info info' started started' unknown h h' n e = cc
  begin_unknown-Reason info info' started started' (found o) h h' n e =
      (ground arith, newer o n refl (ground arith))

  -- The attempt once the file is open and the upload not canceled.
  begin_open : Head → Host → FileInfo → Option FileMeta → Begun
  begin_open head h info none =
      begin_unknown fc storage key info h.now (reconcile_local info head) head h
  begin_open head h info (some m) =
      if covers (some m) info then over false h else transfer info h.now h

  begin_open-Reason :
      (head : Head) (h h' : Host) (info info' : FileInfo) (started : ℕ) (o : Option FileMeta)
      → get_meta fc storage key h ≡ o
      → begin_open head h info o ≡ transfer info' started h'
      → (info ≡ info') × Reason head h info
  unfolding begin_open
  begin_open-Reason head h h' info info' started none n e =
      begin_unknown-Reason info info' h.now started head h h' n e
  begin_open-Reason head h h' info info' started (some m) n e =
      elim (Bool-cases (covers (some m) info)) [
        | inl c ↦ absurd (transfer-ne-over (rw c at e))
        | inr c ↦ (ground arith, uncovered m n (λ k. cc (c, IsCovered-covers (some m) info k)))
      ]

  begin_upload-eq :
      (canceled : Bool) (head : Head) (h : Host)
      → begin_upload fc storage key canceled head h ≡ (elim (stat h (path fc storage key)) [
        | none ↦ over false h
        | some info ↦
            if h.denied open_file (path fc storage key) || canceled
            then over false h
            else begin_open head h info (get_meta fc storage key h)
      ])
  unfolding begin_upload begin_open
  begin_upload-eq canceled head h = ground arith

  -- An attempt starts a transfer only of the file as it stands, and only for one of three reasons:
  -- there is metadata and it does not cover the file, or there is none and S3 answered that it has
  -- no object, or that its object is older than the file. Without metadata a newer object is never
  -- overwritten.
  pub begin_upload-Reason :
      (canceled : Bool) (head : Head) (h h' : Host) (info : FileInfo) (started : ℕ)
      → begin_upload fc storage key canceled head h ≡ transfer info started h'
      → (stat h (path fc storage key) ≡ some info) × (canceled ≡ false) × Reason head h info
  begin_upload-Reason canceled head h h' info started e =
      let e' = sym (begin_upload-eq canceled head h) ∙ e in
      elim (Option-cases (stat h (path fc storage key))) [
        | inl s ↦ absurd (transfer-ne-over (rw s at e'))
        | inr (i, s) ↦ elim (Bool-cases (h.denied open_file (path fc storage key) || canceled)) [
          | inl g ↦ absurd (transfer-ne-over (rw g at (rw s at e')))
          | inr g ↦
              let r = begin_open-Reason head h h' i info started _ refl (rw g at (rw s at e')) in
              (s ∙ ap some r.0, ground arith, subst (λ x. Reason head h x) r.0 r.1)
        ]
      ]
