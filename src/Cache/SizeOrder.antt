-- ===== src/Cache/SizeOrder.antt =====
-- Which files evictIfNeeded of internal/cache/cache.go takes, and how many.
use mathlib.Core.List.{Perm}
use mathlib.Core.List.Perm
use proxs.Prelude.{
  ap, sym, subst, ℕ, ◌≤◌, ◌*◌, ◌≡◌, refl, ◌⊎◌, inl, inr, true, false, List, [], ◌∷◌, ◌++◌, arith,
  ltb, leb, Bool-cases, nat_eq, list_eq, All,
}
use proxs.Host.{
  Host, Node, Op, Removal, file, dir, remove_as, clear_immutable, remove, retry, removed, not_exist,
  failed,
}
use proxs.FilePath.{FilePath}
use proxs.Cache.SizeLimit.{settle_eviction, drop_evicted, remove_evicted, retried}
use proxs.Prelude.{◌≢◌, ◌-◌, none, some, Option, eq_refl}
use proxs.Cache.Entry.{FileCache}
use proxs.Cache.SizeLimit.{
  CachedFile, bytes_per_mb, Scan, insert_by_time, sort_by_time, evict_file, evict_files,
  evict_scanned,
}

-- No younger than any of the files.
abbrev pub IsOldest : CachedFile → List CachedFile → Type 0
IsOldest f = All λ g. f.mod_time ≤ g.mod_time

abbrev IsSorted : List CachedFile → Type 0
IsSorted [] = Unit
IsSorted (f ∷ fs) = IsOldest f fs × IsSorted fs

IsOldest-older :
    (f g : CachedFile) (fs : List CachedFile)
    → f.mod_time ≤ g.mod_time
    → IsOldest g fs
    → IsOldest f fs
IsOldest-older f g [] l o = tt
IsOldest-older f g (x ∷ fs) l o = (omega (arith, l, o.0), IsOldest-older f g fs l o.1)

insert_by_time-IsOldest :
    (f g : CachedFile) (fs : List CachedFile)
    → f.mod_time ≤ g.mod_time
    → IsOldest f fs
    → IsOldest f (insert_by_time g fs)
unfolding insert_by_time
insert_by_time-IsOldest f g [] l o = (l, tt)
insert_by_time-IsOldest f g (x ∷ fs) l o = elim (Bool-cases (ltb x.mod_time g.mod_time)) [
  | inl b ↦ rw b (o.0, insert_by_time-IsOldest f g fs l o.1)
  | inr b ↦ rw b (l, o)
]

insert_by_time-IsSorted :
    (f : CachedFile) (fs : List CachedFile) → IsSorted fs → IsSorted (insert_by_time f fs)
unfolding insert_by_time
insert_by_time-IsSorted f [] s = (tt, tt)
insert_by_time-IsSorted f (g ∷ fs) s = elim (Bool-cases (ltb g.mod_time f.mod_time)) [
  | inl b ↦
      rw b (insert_by_time-IsOldest g f fs (ground arith) s.0, insert_by_time-IsSorted f fs s.1)
  | inr b ↦
      let l : f.mod_time ≤ g.mod_time = ground arith in rw b ((l, IsOldest-older f g fs l s.0), s)
]

insert_by_time-perm : (f : CachedFile) (fs : List CachedFile) → Perm (insert_by_time f fs) (f ∷ fs)
unfolding insert_by_time
insert_by_time-perm f [] = Perm.rfl
insert_by_time-perm f (g ∷ fs) = elim (Bool-cases (ltb g.mod_time f.mod_time)) [
  | inl b ↦ rw b (Perm.trans (Perm.cons g (insert_by_time-perm f fs)) (Perm.swap f g fs))
  | inr b ↦ rw b Perm.rfl
]

sort_by_time-IsSorted : (fs : List CachedFile) → IsSorted (sort_by_time fs)
unfolding sort_by_time
sort_by_time-IsSorted [] = tt
sort_by_time-IsSorted (f ∷ fs) =
    insert_by_time-IsSorted f (sort_by_time fs) (sort_by_time-IsSorted fs)

sort_by_time-perm : (fs : List CachedFile) → Perm (sort_by_time fs) fs
unfolding sort_by_time
sort_by_time-perm [] = Perm.rfl
sort_by_time-perm (f ∷ fs) =
    Perm.trans (insert_by_time-perm f (sort_by_time fs)) (Perm.cons f (sort_by_time-perm fs))

-- Both calls of `os.Remove`, the second after `chattr -i`, fail.
abbrev pub IsRefused : FilePath → Host → Type 0
IsRefused p h =
    ((remove_as remove p h).0 ≡ failed) × ((remove_as retry p (clear_immutable p h)).0 ≡ failed)

-- The file is gone and its size is off the total; or it was not there, or could not be removed, and
-- the total is as it was.
abbrev pub IsTried : CachedFile → ℕ × Host → ℕ × Host → Type 0
IsTried f s s' =
    (s.1.fs f.path ≢ none) × (s'.1.fs f.path ≡ none) × (s'.0 ≡ s.0 - f.size)
    ⊎ ((s.1.fs f.path ≡ none) ⊎ IsRefused f.path s.1) × (s'.0 ≡ s.0)

-- Once a file is gone, further removals do not bring it back.
remove_as-gone :
    (op : Op) (p q : FilePath) (h : Host) → h.fs q ≡ none → (remove_as op p h).1.fs q ≡ none
unfolding remove_as
remove_as-gone op p q h e = ground arith

drop_evicted-gone :
    (fc : FileCache) (p q : FilePath) (h : Host) → h.fs q ≡ none → (drop_evicted fc p h).fs q ≡ none
unfolding drop_evicted
drop_evicted-gone fc p q h e = remove_as-gone remove _ q _ (remove_as-gone remove _ q h e)

settle_eviction-IsTried :
    (fc : FileCache) (f : CachedFile) (total : ℕ) (h : Host) (r : Removal × Host)
    → (h.fs f.path ≢ none) × (r.0 ≡ removed) × (r.1.fs f.path ≡ none)
      ⊎ ((h.fs f.path ≡ none) ⊎ IsRefused f.path h) × (r.0 ≢ removed)
    → IsTried f (total, h) (settle_eviction fc f total r)
unfolding settle_eviction
settle_eviction-IsTried fc f total h (removed, h') (inl (there, e, gone)) =
    inl (there, drop_evicted-gone fc f.path f.path h' gone, refl)
settle_eviction-IsTried fc f total h (not_exist, h') (inl (there, e, gone)) = cc e
settle_eviction-IsTried fc f total h (failed, h') (inl (there, e, gone)) = cc e
settle_eviction-IsTried fc f total h (removed, h') (inr (k, n)) = absurd (n refl)
settle_eviction-IsTried fc f total h (not_exist, h') (inr (k, n)) = inr (k, refl)
settle_eviction-IsTried fc f total h (failed, h') (inr (k, n)) = inr (k, refl)

remove_evicted-tried :
    (p : FilePath) (h : Host) (n : Option Node)
    → h.fs p ≡ n
    → (h.fs p ≢ none) × ((remove_evicted p h).0 ≡ removed) × ((remove_evicted p h).1.fs p ≡ none)
      ⊎ ((h.fs p ≡ none) ⊎ IsRefused p h) × ((remove_evicted p h).0 ≢ removed)
unfolding remove_evicted retried remove_as clear_immutable
remove_evicted-tried p h none e = inr (inl e, ground (arith, e, eq_refl p))
remove_evicted-tried p h (some dir) e = ground (arith, e, eq_refl p)
remove_evicted-tried p h (some (file f)) e = ground (arith, e, eq_refl p)

evict_file-IsTried :
    (fc : FileCache) (f : CachedFile) (s : ℕ × Host) → IsTried f s (evict_file fc f s)
unfolding evict_file
evict_file-IsTried fc f (total, h) =
    settle_eviction-IsTried fc f total h (remove_evicted f.path h)
      (remove_evicted-tried f.path h (h.fs f.path) refl)

-- Removals of these files one after the other, before each of which there is more than fits.
pub data Tries (max_bytes : ℕ) : List CachedFile → ℕ × Host → ℕ × Host → Type 0 where
  all_tried : (s : ℕ × Host) → Tries max_bytes [] s s
  try_next :
      {f : CachedFile} {fs : List CachedFile} {s t u : ℕ × Host}
      → leb s.0 max_bytes ≡ false
      → IsTried f s t
      → Tries max_bytes fs t u
      → Tries max_bytes (f ∷ fs) s u

-- The files that an eviction tries, and those that it leaves.
pub record IsOldestFirst (max_bytes : ℕ) (fs : List CachedFile) (s s' : ℕ × Host) : Type 0 where
  pub tried : List CachedFile
  pub left : List CachedFile
  pub all : Perm (tried ++ left) fs
  pub oldest : All (λ f. IsOldest f left) tried
  pub removals : Tries max_bytes tried s s'
  pub enough : (leb s'.0 max_bytes ≡ true) ⊎ (left ≡ [])

module _ (fc : FileCache) where
  -- A loop that tried the first of the files, as many as were needed.
  record IsPrefix (max_bytes : ℕ) (fs : List CachedFile) (s s' : ℕ × Host) : Type 0 where
    tried : List CachedFile
    left : List CachedFile
    split : tried ++ left ≡ fs
    removals : Tries max_bytes tried s s'
    enough : (leb s'.0 max_bytes ≡ true) ⊎ (left ≡ [])

  evict_files-IsPrefix :
      (max_bytes : ℕ) (fs : List CachedFile) (s : ℕ × Host)
      → IsPrefix max_bytes fs s (evict_files fc max_bytes fs s)
  unfolding evict_files
  evict_files-IsPrefix max_bytes [] s = record {
    tried = [];
    left = [];
    split = refl;
    removals = all_tried s;
    enough = inr refl;
  }
  evict_files-IsPrefix max_bytes (f ∷ fs) s = elim (Bool-cases (leb s.0 max_bytes)) [
    | inl fits ↦ rw fits (record {
      tried = [];
      left = f ∷ fs;
      split = refl;
      removals = all_tried s;
      enough = inl fits;
    })
    | inr over ↦
        let rest = evict_files-IsPrefix max_bytes fs (evict_file fc f s) in
        rw over (record {
          tried = f ∷ rest.tried;
          left = rest.left;
          split = ap (◌∷◌ f) rest.split;
          removals = try_next over (evict_file-IsTried fc f s) rest.removals;
          enough = rest.enough;
        })
  ]

  IsOldest-right :
      (f : CachedFile) (tried left : List CachedFile) → IsOldest f (tried ++ left) → IsOldest f left
  IsOldest-right f [] left o = o
  IsOldest-right f (g ∷ tried) left o = IsOldest-right f tried left o.1

  IsSorted-IsOldest :
      (tried left : List CachedFile) → IsSorted (tried ++ left) → All (λ f. IsOldest f left) tried
  IsSorted-IsOldest [] left s = tt
  IsSorted-IsOldest (f ∷ tried) left s =
      (IsOldest-right f tried left s.0, IsSorted-IsOldest tried left s.1)

  -- The eviction by size tries the files of the scan by the age of their last change, the oldest
  -- first, and tries one only while the total is above the limit. Each file that it tries is then
  -- gone, with its size off the total, or it was gone before or both removals of it failed, and the
  -- total stays. It ends when the total fits or no file is left; none that it leaves is older than
  -- one that it tried.
  pub evict_scanned-IsOldestFirst :
      (scan : Scan) (h : Host)
      → IsOldestFirst
          (fc.max_mb * bytes_per_mb)
          scan.files
          (scan.total_size, h)
          (evict_scanned fc scan h)
  unfolding evict_scanned
  evict_scanned-IsOldestFirst scan h =
      elim (Bool-cases (leb scan.total_size (fc.max_mb * bytes_per_mb))) [
        | inl fits ↦
            rw (fits, evict_scanned)
              (record {
                tried = [];
                left = scan.files;
                all = Perm.rfl;
                oldest = tt;
                removals = all_tried _;
                enough = inl fits;
              })
        | inr over ↦
            let sorted = sort_by_time scan.files in
            let r = evict_files-IsPrefix (fc.max_mb * bytes_per_mb) sorted (scan.total_size, h) in
            rw (over, evict_scanned)
              (record {
                tried = r.tried;
                left = r.left;
                all = rw r.split (sort_by_time-perm scan.files);
                oldest =
                    IsSorted-IsOldest r.tried r.left
                      (subst IsSorted (sym r.split) (sort_by_time-IsSorted scan.files));
                removals = r.removals;
                enough = r.enough;
              })
      ]
