-- ===== src/Api/Watcher/Loop/Marking.antt =====
-- Events of watchCacheDirs on files of content (internal/api/watcher.go).
use proxs.Prelude.{
  ◌≡◌, refl, ap, ◌∙◌, subst, ◌⊎◌, inl, inr, Bool, true, false, none, some, arith, if◌then◌else◌,
  eq_refl, nat_eq, list_eq, Text, lookup, insert, lookup-insert,
}
use proxs.Host.{Host, FileInfo, stat}
use proxs.Host.Laws.{IsWritable, stat_unique}
use proxs.Cache.Meta.{MetaJson}
use proxs.Cache.Entry.{FileCache, path, meta_path, get_meta, mark_pending}
use proxs.Cache.Paths.{IsEntry}
use proxs.Cache.Pending.{
  marked, covered, gone, directory, IsPending, IsCovered, Marks, mark_pending-Marks,
}
use proxs.Api.Watcher.{is_auxiliary, mark_pending_upload}
use proxs.Api.Watcher.Keys.{cache_rel_key-path}
use proxs.Api.Watcher.Loop.{Pending, take_event}

module _ ⦃json : MetaJson⦄ (fc : FileCache) (storage key : Text) where
  mark_pending_upload-path :
      (h : Host)
      → IsEntry storage key
      → is_auxiliary (path fc storage key) ≡ false
      → mark_pending_upload fc fc.base_dir (path fc storage key) h ≡ mark_pending fc storage key h
  unfolding mark_pending_upload
  mark_pending_upload-path h e x =
      rw (x, cache_rel_key-path fc storage key e refl, mark_pending_upload) refl

  -- What a first event on the path of an entry comes to: a new episode for a write of PVE, and
  -- nothing for a file that is gone or covered.
  pub data Episode (pending : Pending) (h : Host) (r : Pending × Host) : Type 0 where
    opened :
        (info : FileInfo)
        → stat h (path fc storage key) ≡ some info
        → info.is_dir ≡ false
        → ¬ IsCovered info (get_meta fc storage key h)
        → lookup (path fc storage key) r.0 ≡ some h.now
        → IsPending info (get_meta fc storage key r.1)
        → Episode pending h r
    ignored :
        ((info : FileInfo)
          → stat h (path fc storage key) ≡ some info
          → (info.is_dir ≡ true) ⊎ IsCovered info (get_meta fc storage key h))
        → r ≡ (pending, h)
        → Episode pending h r

  take_event-mark :
      (pending : Pending) (h : Host) (b : Bool) (h' : Host)
      → lookup (path fc storage key) pending ≡ none
      → mark_pending_upload fc fc.base_dir (path fc storage key) h ≡ (b, h')
      → take_event fc fc.base_dir true (path fc storage key) (pending, h)
        ≡ (if b then (insert (path fc storage key) h.now pending, h') else (pending, h'))
  unfolding take_event
  take_event-mark pending h b h' n m = rw (n, m, take_event) refl

  -- A create or write event on the path of an entry that is not pending yet opens an episode exactly
  -- if there is a regular file that no metadata covers: the file is then marked pending in its
  -- metadata, so that nothing purges it, before its upload is queued. Otherwise nothing changes. The
  -- cache directory of the configuration is that of the cache.
  pub take_event-Episode :
      (pending : Pending) (h : Host)
      → IsEntry storage key
      → is_auxiliary (path fc storage key) ≡ false
      → IsWritable h (meta_path fc storage key)
      → lookup (path fc storage key) pending ≡ none
      → Episode pending h (take_event fc fc.base_dir true (path fc storage key) (pending, h))
  take_event-Episode pending h e x w n = episode (mark_pending-Marks fc storage key h e w)
    where
      same :
          mark_pending_upload fc fc.base_dir (path fc storage key) h ≡ mark_pending fc storage key h
      same = mark_pending_upload-path h e x

      kept :
          mark_pending fc storage key h ≡ (false, h)
          → take_event fc fc.base_dir true (path fc storage key) (pending, h) ≡ (pending, h)
      kept r = take_event-mark pending h false h n (same ∙ r)

      episode :
          Marks fc storage key h (mark_pending fc storage key h)
          → Episode pending h (take_event fc fc.base_dir true (path fc storage key) (pending, h))
      episode (gone s r) = ignored (λ info t. cc (s, t)) (kept r)
      episode (directory info s d r) =
          ignored
            (λ i t. inl (subst (λ y. y.is_dir ≡ true) (stat_unique h (path fc storage key) s t) d))
            (kept r)
      episode (covered info s c r) =
          ignored
            (λ i t. inr (
              subst (λ y. IsCovered y (get_meta fc storage key h))
                (stat_unique h (path fc storage key) s t) c))
            (kept r)
      episode (marked info s d c t m f) =
          let eq =
            take_event-mark pending h true (mark_pending fc storage key h).1 n
              (same ∙ ap (λ y. (y, (mark_pending fc storage key h).1)) t) in
          rw eq (
            opened info s d c
              (ground (
                arith,
                lookup-insert (path fc storage key) h.now (path fc storage key) pending,
                eq_refl (path fc storage key),
              ))
              m)
