-- ===== src/Cache/RemoveEntry.antt =====
-- Remove of internal/cache/cache.go, which clears the immutable flag that PVE sets.
use proxs.Cache.Pending.{mark_pending-covers}
use proxs.Cache.Recorded.{get_meta-fs}
use proxs.Cache.Paths.{IsEntry, path-ne-meta_path, path-ne-legacy}
use proxs.Cache.Meta.{MetaJson, FileMeta, covers}
use proxs.Prelude.{
  beq_false_sym, ◌≡◌, refl, sym, ap, ◌∙◌, ◌≢◌, ◌⊎◌, inl, inr, true, false, Option, none, some,
  arith, ◌==◌, eq_refl, nat_eq, list_eq, Text,
}
use proxs.FilePath.{FilePath}
use proxs.Host.{
  Op, File, Host, FileInfo, stat, Removal, remove_as, clear_immutable, remove, retry, clear_flag,
  file, removed, failed,
}
use proxs.Host.Laws.{
  fs-remove_as, fs-clear_immutable, denied-remove_as, denied-clear_immutable, now-remove_as,
  now-clear_immutable, remove_as-outcome,
}
use proxs.Cache.Entry.{
  FileCache, path, remove_meta, invalidate, remove_content, get_meta, mark_pending, settle_leftover,
  remove_entry,
}

module _ (p : FilePath) (h : Host) where
  -- Clearing the flag is not seen by `os.Stat`.
  stat-clear_immutable : stat (clear_immutable p h) p ≡ stat h p
  unfolding stat clear_immutable
  stat-clear_immutable = ground (arith, eq_refl p)

  flag_cleared :
      (f : File)
      → h.fs p ≡ some (file f)
      → h.denied clear_flag p ≡ false
      → h.denied remove p ≡ false
      → (remove_content p h).0 ≡ removed
  unfolding remove_content clear_immutable remove_as
  flag_cleared f e c r = ground (arith, eq_refl p)

  cleared : Host
  cleared = clear_immutable p h

  first : Removal × Host
  unfolding cleared
  first = remove_as remove p cleared

  again : Removal × Host
  unfolding first
  again = remove_as retry p (clear_immutable p first.1)

  remove_content-first : first.0 ≢ failed → remove_content p h ≡ first
  unfolding remove_content first
  remove_content-first f = ground arith

  remove_content-again : first.0 ≡ failed → remove_content p h ≡ again
  unfolding remove_content again
  remove_content-again f = ground arith

  -- What every attempt keeps, the content removal keeps.
  remove_content-keeps :
      (P : Host → Type 0)
      → P h
      → ((k : Host) → P k → P (clear_immutable p k))
      → ((op : Op) (k : Host) → P k → P (remove_as op p k).1)
      → P (remove_content p h).1
  unfolding again
  remove_content-keeps P base clear rm = elim (remove_as-outcome p cleared remove) [
    | inl (ok, _) ↦ rw (remove_content-first ok) (rm remove _ (clear h base))
    | inr (f, _) ↦ rw (remove_content-again f) (rm retry _ (clear _ (rm remove _ (clear h base))))
  ]

  fs-remove_content : (q : FilePath) → (p == q) ≡ false → (remove_content p h).1.fs q ≡ h.fs q
  fs-remove_content q ne =
      remove_content-keeps (λ k. k.fs q ≡ h.fs q) refl (λ k e. fs-clear_immutable p q ne k ∙ e)
        (λ op k e. fs-remove_as p q ne k op ∙ e)

  denied-remove_content : (remove_content p h).1.denied ≡ h.denied
  denied-remove_content =
      remove_content-keeps (λ k. k.denied ≡ h.denied) refl (λ k e. denied-clear_immutable p k ∙ e)
        (λ op k e. denied-remove_as p k op ∙ e)

  now-remove_content : (remove_content p h).1.now ≡ h.now
  now-remove_content =
      remove_content-keeps (λ k. k.now ≡ h.now) refl (λ k e. now-clear_immutable p k ∙ e)
        (λ op k e. now-remove_as p k op ∙ e)

module _ (p : FilePath) (h : Host) where
  -- The file is gone, or the removal failed twice and the file is as it was.
  remove_content-outcome :
      (((remove_content p h).0 ≢ failed) × ((remove_content p h).1.fs p ≡ none))
      ⊎ (((remove_content p h).0 ≡ failed) × (stat (remove_content p h).1 p ≡ stat h p))
  unfolding again
  remove_content-outcome = elim (remove_as-outcome p (cleared p h) remove) [
    | inl ok ↦ inl (rw (remove_content-first p h ok.0) ok)
    | inr (f, same) ↦ elim (remove_as-outcome p (clear_immutable p (first p h).1) retry) [
      | inl ok ↦ inl (rw (remove_content-again p h f) ok)
      | inr (f', same') ↦ inr (
          rw (remove_content-again p h f) (
            f',
            ap (λ k. stat k p) same'
                ∙ stat-clear_immutable p _
                ∙ ap (λ k. stat k p) same
                ∙ stat-clear_immutable p h,
          ))
    ]
  ]

module _ ⦃json : MetaJson⦄ (fc : FileCache) (storage key : Text) (h : Host) where
  after_content : Host
  after_content = (remove_content (path fc storage key) h).1

  get_meta-after_content :
      IsEntry storage key → get_meta fc storage key after_content ≡ get_meta fc storage key h
  unfolding after_content
  get_meta-after_content e =
      let p = path fc storage key in
      get_meta-fs fc storage key h _ (denied-remove_content p h)
        (fs-remove_content p h _ (beq_false_sym _ p (path-ne-meta_path fc e)))
        (fs-remove_content p h _ (beq_false_sym _ p (path-ne-legacy fc e)))

  -- No metadata that is left says that an upload is pending.
  abbrev pub NothingPending : Option FileMeta → Type 0
  NothingPending none = Unit
  NothingPending (some m) = m.pending_upload ≡ false

  remove_entry-failed :
      (remove_content (path fc storage key) h).0 ≡ failed
      → remove_entry fc storage key h ≡ (failed, settle_leftover fc storage key after_content)
  unfolding remove_entry after_content
  remove_entry-failed f = ground arith

  remove_entry-done :
      (remove_content (path fc storage key) h).0 ≢ failed
      → remove_entry fc storage key h
        ≡ ((remove_content (path fc storage key) h).0, remove_meta fc storage key after_content)
  unfolding remove_entry after_content
  remove_entry-done f = ground arith

  -- A file with the immutable flag, which `Invalidate` leaves in place, is removed by `Remove` as
  -- long as chattr and the removal itself work.
  remove_entry-immutable :
      (f : File)
      → h.fs (path fc storage key) ≡ some (file f)
      → f.immutable ≡ true
      → h.denied clear_flag (path fc storage key) ≡ false
      → h.denied remove (path fc storage key) ≡ false
      → (invalidate fc storage key h ≡ h) × ((remove_entry fc storage key h).0 ≡ removed)
  unfolding invalidate remove_as
  remove_entry-immutable f e i c r =
      let done = flag_cleared (path fc storage key) h f e c r in
      (
        ground arith,
        ap (λ (x : Removal × Host). x.0) (remove_entry-done (λ g. cc (done, g))) ∙ done,
      )

  settle_leftover-none :
      (k : Host) → get_meta fc storage key k ≡ none → settle_leftover fc storage key k ≡ k
  unfolding settle_leftover
  settle_leftover-none k n = rw (n, settle_leftover)

  -- A file without metadata that `Remove` fails to delete does look like a write of PVE: the next
  -- call of `MarkPending` marks it for upload, although the object was just deleted.
  pub mark_pending-remove_entry :
      (info : FileInfo)
      → IsEntry storage key
      → stat h (path fc storage key) ≡ some info
      → info.is_dir ≡ false
      → get_meta fc storage key h ≡ none
      → (remove_entry fc storage key h).0 ≡ failed
      → (mark_pending fc storage key (remove_entry fc storage key h).1).0 ≡ true
  unfolding after_content covers
  mark_pending-remove_entry info e s d n f = elim (remove_content-outcome (path fc storage key) h) [
    | inl (ok, g) ↦ absurd (ok (sym (ap (λ (x : Removal × Host). x.0) (remove_entry-done ok)) ∙ f))
    | inr (failed_twice, same) ↦
        let no_meta = get_meta-after_content e ∙ n in
        rw (remove_entry-failed failed_twice, settle_leftover-none after_content no_meta)
          (mark_pending-covers fc storage key after_content info (same ∙ s) d ∙ rw no_meta)
  ]
