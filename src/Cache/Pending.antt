-- ===== src/Cache/Pending.antt =====
-- Which files count as written by PVE (MarkPending), and which as in sync (MarkSynced).
use proxs.Prelude.{
  ◌≤◌, ◌≡◌, refl, ◌∙◌, ◌⊎◌, inl, inr, Bool, true, false, ◌||◌, Option, none, some, arith,
  Bool-cases, Option-cases, nat_eq, list_eq, Text, not,
}
use proxs.Host.{Host, FileInfo, stat}
use proxs.Host.Laws.{IsWritable}
use proxs.Cache.Meta.{FileMeta, MetaJson, covers}
use proxs.Cache.Entry.{
  FileCache, path, meta_path, get_meta, stamped, write_meta, pending_meta, mark_pending,
}
use proxs.Cache.Paths.{IsEntry}
use proxs.Cache.Recorded.{get_meta-write_meta, stat-write_meta}

-- Metadata that says of a file in this state that its content was not uploaded yet.
pub record IsPending (info : FileInfo) (m : Option FileMeta) : Type 0 where
  pub found : FileMeta
  pub recorded : m ≡ some found
  pub pending : found.pending_upload ≡ true
  pub same_size : found.size ≡ info.size
  pub same_time : found.last_modified ≡ info.mtime

-- A file that metadata covers, as the program's comment on `Covers` puts it.
pub record IsCovered (info : FileInfo) (m : Option FileMeta) : Type 0 where
  pub found : FileMeta
  pub recorded : m ≡ some found
  pub in_sync : found.pending_upload ≡ false
  pub same_size : found.size ≡ info.size
  pub not_written_since : info.mtime ≤ found.cached_at
  pub same_file : (found.inode ≡ 0) ⊎ (found.inode ≡ info.inode)

pub covers-IsCovered :
    (m : Option FileMeta) (info : FileInfo) → covers m info ≡ true → IsCovered info m
unfolding covers
covers-IsCovered none info c = cc
covers-IsCovered (some m) info c = record {
  found = m;
  recorded = refl;
  in_sync = ground arith;
  same_size = ground arith;
  not_written_since = ground arith;
  same_file = ground arith;
}

pub IsCovered-covers :
    (m : Option FileMeta) (info : FileInfo) → IsCovered info m → covers m info ≡ true
unfolding covers
IsCovered-covers m info c = rw c.recorded (ground arith)

module _ ⦃json : MetaJson⦄ (fc : FileCache) (storage key : Text) (h : Host) where
  pub mark_pending-write :
      (info : FileInfo)
      → stat h (path fc storage key) ≡ some info
      → (info.is_dir || covers (get_meta fc storage key h) info) ≡ false
      → mark_pending fc storage key h ≡ (true, write_meta fc storage key (pending_meta info) h)
  unfolding mark_pending
  mark_pending-write info s c = ground arith

  mark_pending-keep :
      (info : FileInfo)
      → stat h (path fc storage key) ≡ some info
      → (info.is_dir || covers (get_meta fc storage key h) info) ≡ true
      → mark_pending fc storage key h ≡ (false, h)
  unfolding mark_pending
  mark_pending-keep info s c = ground arith

  mark_pending-gone :
      stat h (path fc storage key) ≡ none → mark_pending fc storage key h ≡ (false, h)
  unfolding mark_pending
  mark_pending-gone s = ground arith

  pub mark_pending-covers :
      (info : FileInfo)
      → stat h (path fc storage key) ≡ some info
      → info.is_dir ≡ false
      → (mark_pending fc storage key h).0 ≡ not (covers (get_meta fc storage key h) info)
  unfolding mark_pending
  mark_pending-covers info s d = ground arith

  -- What a call of `MarkPending` comes to.
  pub data Marks (r : Bool × Host) : Type 0 where
    marked :
        (info : FileInfo)
        → stat h (path fc storage key) ≡ some info
        → info.is_dir ≡ false
        → ¬ IsCovered info (get_meta fc storage key h)
        → r.0 ≡ true
        → IsPending info (get_meta fc storage key r.1)
        → stat r.1 (path fc storage key) ≡ some info
        → Marks r
    gone : stat h (path fc storage key) ≡ none → r ≡ (false, h) → Marks r
    directory :
        (info : FileInfo)
        → stat h (path fc storage key) ≡ some info
        → info.is_dir ≡ true
        → r ≡ (false, h)
        → Marks r
    covered :
        (info : FileInfo)
        → stat h (path fc storage key) ≡ some info
        → IsCovered info (get_meta fc storage key h)
        → r ≡ (false, h)
        → Marks r

  write_meta-IsPending :
      (info : FileInfo)
      → IsWritable h (meta_path fc storage key)
      → IsPending info (get_meta fc storage key (write_meta fc storage key (pending_meta info) h))
  unfolding stamped pending_meta
  write_meta-IsPending info w = record {
    found = stamped fc storage key (pending_meta info) h;
    recorded = get_meta-write_meta fc storage key (pending_meta info) h w;
    pending = refl;
    same_size = refl;
    same_time = refl;
  }

  -- For an entry whose metadata can be written, `MarkPending` reports true exactly when there is a
  -- regular file that no metadata covers; it then leaves metadata that marks the file pending at
  -- its size and modification time, and the file as it is. In every other case, the file gone, a
  -- directory, or covered, it reports false and changes nothing.
  pub mark_pending-Marks :
      IsEntry storage key
      → IsWritable h (meta_path fc storage key)
      → Marks (mark_pending fc storage key h)
  mark_pending-Marks e w = elim (Option-cases (stat h (path fc storage key))) [
    | inl s ↦ gone s (mark_pending-gone s)
    | inr (info, s) ↦ elim (Bool-cases (covers (get_meta fc storage key h) info)) [
      | inl c ↦ covered info s (covers-IsCovered _ info c) (mark_pending-keep info s (ground arith))
      | inr c ↦ elim (Bool-cases info.is_dir) [
        | inl d ↦ directory info s d (mark_pending-keep info s (rw d))
        | inr d ↦
            let eq = mark_pending-write info s (ground arith) in
            marked info s d (λ k. cc (c, IsCovered-covers _ info k)) (rw eq)
              (rw eq (write_meta-IsPending info w))
              (rw eq (stat-write_meta fc storage key (pending_meta info) h e ∙ s))
      ]
    ]
  ]
