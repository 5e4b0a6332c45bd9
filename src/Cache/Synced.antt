-- ===== src/Cache/Synced.antt =====
-- Recording a file as in sync (MarkSynced), and which later writes are noticed.
use proxs.Cache.Pending.{mark_pending-covers}
use proxs.Prelude.{
  ℕ, ◌<◌, ◌≡◌, refl, ◌∙◌, ◌≢◌, ◌⊎◌, inl, inr, Bool, true, false, not, ◌&&◌, Option, none, some,
  arith, if◌then◌else◌, Bool-cases, Option-cases, ◌==◌, nat_eq, list_eq, Text, ◌↔◌,
}
use proxs.Host.{Host, FileInfo, stat}
use proxs.Host.Laws.{IsWritable}
use proxs.Cache.Meta.{FileMeta, MetaJson, covers}
use proxs.Cache.Entry.{
  FileCache, path, meta_path, get_meta, inode_at, stamped, write_meta, pending_since, mark_synced,
  mark_pending,
}
use proxs.Cache.Paths.{IsEntry}
use proxs.Cache.Recorded.{get_meta-write_meta, stat-write_meta}

-- The file is the one that was uploaded: same inode, size and modification time.
pub record IsSame (info uploaded : FileInfo) : Type 0 where
  pub same_inode : info.inode ≡ uploaded.inode
  pub same_size : info.size ≡ uploaded.size
  pub same_time : info.mtime ≡ uploaded.mtime

-- A write was marked after `started`, which is not the zero time.
pub record IsRewritten (started : ℕ) (m : Option FileMeta) : Type 0 where
  pub cur : FileMeta
  pub recorded : m ≡ some cur
  pub pending : cur.pending_upload ≡ true
  pub later : started < cur.cached_at
  pub checked : started ≢ 0

IsRewritten-pending_since :
    (started : ℕ) (m : Option FileMeta) → IsRewritten started m → pending_since started m ≡ true
unfolding pending_since
IsRewritten-pending_since started m r = rw r.recorded (ground arith)

pending_since-IsRewritten :
    (started : ℕ) (m : Option FileMeta) → pending_since started m ≡ true → IsRewritten started m
unfolding pending_since
pending_since-IsRewritten started none p = cc
pending_since-IsRewritten started (some cur) p = record {
  cur = cur;
  recorded = refl;
  pending = ground arith;
  later = ground arith;
  checked = ground arith;
}

module _ ⦃json : MetaJson⦄ (fc : FileCache) (storage key : Text) (uploaded : FileInfo) (started : ℕ)
    (meta : FileMeta) (h : Host) where
  -- What a call of `MarkSynced` comes to.
  pub data Syncs (r : Bool × Host) : Type 0 where
    synced :
        (info : FileInfo)
        → stat h (path fc storage key) ≡ some info
        → IsSame info uploaded
        → ¬ IsRewritten started (get_meta fc storage key h)
        → r.0 ≡ true
        → get_meta fc storage key r.1 ≡ some (stamped fc storage key meta h)
        → stat r.1 (path fc storage key) ≡ some info
        → Syncs r
    changed :
        ((info : FileInfo) → stat h (path fc storage key) ≡ some info → ¬ IsSame info uploaded)
        → r ≡ (false, h)
        → Syncs r
    rewritten : IsRewritten started (get_meta fc storage key h) → r ≡ (false, h) → Syncs r

  abbrev same : FileInfo → Bool
  same info =
      info.inode == uploaded.inode && info.size == uploaded.size && info.mtime == uploaded.mtime

  same-IsSame : (info : FileInfo) → same info ≡ true → IsSame info uploaded
  same-IsSame info b = ground arith

  mark_synced-gone :
      stat h (path fc storage key) ≡ none
      → mark_synced fc storage key uploaded started meta h ≡ (false, h)
  unfolding mark_synced
  mark_synced-gone s = ground arith

  mark_synced-eq :
      (info : FileInfo)
      → stat h (path fc storage key) ≡ some info
      → mark_synced fc storage key uploaded started meta h ≡ (
          if same info && not (pending_since started (get_meta fc storage key h))
          then (true, write_meta fc storage key meta h)
          else (false, h))
  unfolding mark_synced
  mark_synced-eq info s = ground arith

  pub mark_synced-unless :
      (info : FileInfo)
      → stat h (path fc storage key) ≡ some info
      → ¬ IsSame info uploaded
      → mark_synced fc storage key uploaded started meta h ≡ (false, h)
  mark_synced-unless info s ns = elim (Bool-cases (same info)) [
    | inl b ↦ absurd (ns (same-IsSame info b))
    | inr b ↦ mark_synced-eq info s ∙ rw b
  ]

  -- For an entry whose metadata can be written, `MarkSynced` reports true exactly when the file is
  -- the uploaded one and was not marked pending again since `started`; the metadata then reads
  -- back with the time and the inode stamped on it and the file is untouched. Otherwise it reports
  -- false and changes nothing, so a pending mark stays.
  pub mark_synced-Syncs :
      IsEntry storage key
      → IsWritable h (meta_path fc storage key)
      → Syncs (mark_synced fc storage key uploaded started meta h)
  mark_synced-Syncs e w = elim (Option-cases (stat h (path fc storage key))) [
    | inl s ↦ changed (λ info t. cc) (mark_synced-gone s)
    | inr (info, s) ↦ elim (Bool-cases (pending_since started (get_meta fc storage key h))) [
      | inl p ↦
          rewritten (pending_since-IsRewritten started _ p) (mark_synced-eq info s ∙ ground arith)
      | inr p ↦ elim (Bool-cases (same info)) [
        | inl b ↦
            let eq = mark_synced-eq info s in
            let eq' : mark_synced fc storage key uploaded started meta h
                ≡ (true, write_meta fc storage key meta h) =
              eq ∙ rw (b, p) in
            synced info s (ground arith) (λ r. cc (p, IsRewritten-pending_since started _ r))
              (rw eq') (rw eq' (get_meta-write_meta fc storage key meta h w))
              (rw eq' (stat-write_meta fc storage key meta h e ∙ s))
        | inr b ↦ changed (λ info' t same'. ground arith) (mark_synced-eq info s ∙ rw b)
      ]
    ]
  ]

  -- What a later write of the file has changed, compared with what was recorded at the time of `h`.
  abbrev pub Touched : FileInfo → Type 0
  Touched info =
      (info.size ≢ meta.size)
      ⊎ (h.now < info.mtime)
      ⊎ (inode_at h (path fc storage key) ≢ 0) × (info.inode ≢ inode_at h (path fc storage key))

  mark_synced-get_meta :
      IsEntry storage key
      → IsWritable h (meta_path fc storage key)
      → (mark_synced fc storage key uploaded started meta h).0 ≡ true
      → get_meta fc storage key (mark_synced fc storage key uploaded started meta h).1
        ≡ some (stamped fc storage key meta h)
  mark_synced-get_meta e w r = at (mark_synced-Syncs e w)
    where
      at :
          Syncs (mark_synced fc storage key uploaded started meta h)
          → get_meta fc storage key (mark_synced fc storage key uploaded started meta h).1
            ≡ some (stamped fc storage key meta h)
      at (synced _ _ _ _ _ g _) = g
      at (changed _ eq) = cc
      at (rewritten _ eq) = cc

  Touched-covers :
      (info : FileInfo)
      → meta.pending_upload ≡ false
      → (covers (some (stamped fc storage key meta h)) info ≡ false) ↔ Touched info
  unfolding covers stamped
  Touched-covers info p = (λ c. ground arith, λ t. ground arith)

  -- After a file was recorded as in sync, and until its sidecars change, `MarkPending` takes a
  -- regular file at its path for a write of PVE exactly when it differs in size, was modified after
  -- the recording, or is another file. The daemon's own writes, made before the recording, are not
  -- uploaded again.
  pub mark_pending-mark_synced :
      (h' : Host) (info : FileInfo)
      → IsEntry storage key
      → IsWritable h (meta_path fc storage key)
      → meta.pending_upload ≡ false
      → (mark_synced fc storage key uploaded started meta h).0 ≡ true
      → get_meta fc storage key h'
        ≡ get_meta fc storage key (mark_synced fc storage key uploaded started meta h).1
      → stat h' (path fc storage key) ≡ some info
      → info.is_dir ≡ false
      → ((mark_pending fc storage key h').0 ≡ true) ↔ Touched info
  mark_pending-mark_synced h' info e w p r same_meta s d =
      let recorded = same_meta ∙ mark_synced-get_meta e w r in
      let asked = mark_pending-covers fc storage key h' info s d in
      let touched = Touched-covers info p in
      let asked' = rw recorded at asked in
      (λ t. touched.0 (ground (arith, asked', t)), λ t. ground (arith, asked', touched.1 t))
