-- ===== src/Cache/AgeSafety.antt =====
-- EvictByAge of internal/cache/cache.go and the files that were not uploaded.
use proxs.Cache.Below.{rel_text-storage, IsBelow, entry-IsBelow}
use proxs.Prelude.{
  refl, inl, inr, subst, [], ◌∷◌, ℕ, suc, ◌+◌, ◌≤◌, ◌≡◌, ◌⊎◌, Bool, true, false, Option, none, some,
  List, if◌then◌else◌, ◌==◌, nat_eq, list_eq, All, Text, codes, not, ltb, arith, ap, sym,
  Bool-cases, eq_iff,
}
use proxs.FilePath.{FilePath, path_has_suffix}
use proxs.Host.{Host, FileInfo, is_failed, remove_as, clear_immutable, remove, retry}
use proxs.Cache.Meta.{MetaJson}
use proxs.Cache.Entry.{FileCache, path, get_meta}
use proxs.Cache.Paths.{IsEntry}
use proxs.Cache.Eviction.{
  Visit, is_regular, drop_sidecars, only_copy, remove_aged, evict_aged, unsent, visit_aged,
  evict_by_age, walk_aged,
}
use proxs.Cache.Kept.{
  Kept, Kept-trans, IsOther, remove_as-Kept, clear_immutable-Kept, IsOthers, Kept-refl,
  below-IsOthers, only_copy-Kept,
}

-- The path of an entry of the storage.
pub record IsPlace (fc : FileCache) (storage : Text) (p : FilePath) : Type 0 where
  pub key : Text
  pub entry : IsEntry storage key
  pub located : p ≡ path fc storage key

-- What the walk of a storage's directory visits: directories, the root among them, and files under
-- the paths of entries.
pub record IsVisit (fc : FileCache) (storage : Text) (v : Visit) : Type 0 where
  pub place : is_regular v.1 ≡ true → IsPlace fc storage v.0

-- Not older than `max_age`, as the walk saw the file.
abbrev pub IsYoung : ℕ → ℕ → Option FileInfo → Type 0
IsYoung max_age now none = Unit
IsYoung max_age now (some info) = now ≤ info.mtime + max_age

module _ (fc : FileCache) (storage key : Text) where
  pub if-Kept {ℓ} :
      {R : Type ℓ} (h : Host) (b : Bool) (x y : R × Host)
      → Kept fc storage key h x.1
      → Kept fc storage key h y.1
      → Kept fc storage key h (if b then x else y).1
  if-Kept h true x y kx ky = kx
  if-Kept h false x y kx ky = ky

  remove_aged-Kept :
      (p : FilePath) (h : Host)
      → IsOther fc storage key p
      → Kept fc storage key h (remove_aged p h).1
  unfolding remove_aged
  remove_aged-Kept p h o =
      let once = remove_as-Kept fc storage key remove p h o in
      if-Kept h (is_failed (remove_as remove p h).0)
        (remove_as retry p (clear_immutable p (remove_as remove p h).1)) (remove_as remove p h)
        (Kept-trans fc storage key _ _ _ once (
          Kept-trans fc storage key _ _ _ (clear_immutable-Kept fc storage key p _ o)
            (remove_as-Kept fc storage key retry p _ o)))
        once

  drop_sidecars-Kept :
      (p : FilePath) (h : Host)
      → IsOthers fc storage key p
      → Kept fc storage key h (drop_sidecars fc p h)
  unfolding drop_sidecars
  drop_sidecars-Kept p h o =
      Kept-trans fc storage key _ _ _ (remove_as-Kept fc storage key remove _ h o.sidecar)
        (remove_as-Kept fc storage key remove _ _ o.legacy_sidecar)

  evict_aged-Kept :
      ⦃json : MetaJson⦄ (p : FilePath) (count : ℕ) (h : Host)
      → IsOthers fc storage key p
      → Kept fc storage key h (evict_aged fc p (count, h)).1
  unfolding evict_aged
  evict_aged-Kept p count h o =
      let (res, h') = remove_aged p h in
      let kept = remove_aged-Kept p h o.itself in
      if-Kept h (is_failed res) (count, h') (suc count, drop_sidecars fc p h') kept
        (Kept-trans fc storage key _ _ _ kept (drop_sidecars-Kept p h' o))

module _ ⦃json : MetaJson⦄ (fc : FileCache) (storage key : Text) (e : IsEntry storage key) where
  module _ (plain : path_has_suffix (path fc storage key) (codes ".meta") ≡ false) where
    unsent-entry :
        (h : Host)
        → unsent fc storage (path fc storage key) h ≡ only_copy (get_meta fc storage key h)
    unfolding unsent
    unsent-entry h = rw (plain, rel_text-storage fc storage key e)

    visit_aged-spared :
        (max_age count : ℕ) (p : FilePath) (i : Option FileInfo) (h : Host)
        → p ≡ path fc storage key
        → (only_copy (get_meta fc storage key h) ≡ true) ⊎ IsYoung max_age h.now i
        → visit_aged fc storage max_age (p, i) (count, h) ≡ (count, h)
    unfolding visit_aged
    visit_aged-spared max_age count p none h at s = refl
    visit_aged-spared max_age count p (some info) h at (inl o) =
        ground (arith, ap (λ q. unsent fc storage q h) at, unsent-entry h)
    visit_aged-spared max_age count p (some info) h at (inr y) = ground arith

    visit_aged-Kept :
        (max_age count : ℕ) (v : Visit) (h : Host)
        → IsVisit fc storage v
        → (v.0 == path fc storage key) ≡ false
        → Kept fc storage key h (visit_aged fc storage max_age v (count, h)).1
    unfolding visit_aged
    visit_aged-Kept max_age count (p, none) h v ne = Kept-refl fc storage key h
    visit_aged-Kept max_age count (p, some info) h v ne =
        let same = Kept-refl fc storage key h in
        elim (Bool-cases info.is_dir) [
          | inl d ↦ rw (d, visit_aged) same
          | inr file ↦
              let at = v.place (ground arith) in
              rw (file, visit_aged)
                (if-Kept fc storage key h (not (ltb (info.mtime + max_age) h.now)) _ _ same (
                  if-Kept fc storage key h (unsent fc storage p h) _ _ same (
                    evict_aged-Kept fc storage key p count h (
                      below-IsOthers fc storage key e p
                        (subst (IsBelow fc) (sym at.located) (entry-IsBelow fc at.entry)) plain
                        ne))))
        ]

    -- Every visit of the file finds it young.
    abbrev pub AllYoung : ℕ → ℕ → List Visit → Type 0
    AllYoung max_age now = All λ v. v.0 ≡ path fc storage key → IsYoung max_age now v.1

    visit-Kept :
        (max_age count : ℕ) (v : Visit) (h : Host)
        → IsVisit fc storage v
        → (only_copy (get_meta fc storage key h) ≡ true)
          ⊎ (v.0 ≡ path fc storage key → IsYoung max_age h.now v.1)
        → Kept fc storage key h (visit_aged fc storage max_age v (count, h)).1
    visit-Kept max_age count v h a s = elim (Bool-cases (v.0 == path fc storage key)) [
      | inr ne ↦ visit_aged-Kept max_age count v h a ne
      | inl b ↦
          let at = (eq_iff v.0 (path fc storage key)).0 b in
          rw (visit_aged-spared max_age count v.0 v.1 h at (at_visit at s))
            (Kept-refl fc storage key h)
    ]
      where
        at_visit :
            v.0 ≡ path fc storage key
            → (only_copy (get_meta fc storage key h) ≡ true)
              ⊎ (v.0 ≡ path fc storage key → IsYoung max_age h.now v.1)
            → (only_copy (get_meta fc storage key h) ≡ true) ⊎ IsYoung max_age h.now v.1
        at_visit at (inl o) = inl o
        at_visit at (inr y) = inr (y at)

    spared_now :
        (max_age : ℕ) (h : Host) (v : Visit) (vs : List Visit)
        → (only_copy (get_meta fc storage key h) ≡ true) ⊎ AllYoung max_age h.now (v ∷ vs)
        → (only_copy (get_meta fc storage key h) ≡ true)
          ⊎ (v.0 ≡ path fc storage key → IsYoung max_age h.now v.1)
    spared_now max_age h v vs (inl o) = inl o
    spared_now max_age h v vs (inr y) = inr y.0

    spared_later :
        (max_age : ℕ) (h h' : Host) (v : Visit) (vs : List Visit)
        → Kept fc storage key h h'
        → (only_copy (get_meta fc storage key h) ≡ true) ⊎ AllYoung max_age h.now (v ∷ vs)
        → (only_copy (get_meta fc storage key h') ≡ true) ⊎ AllYoung max_age h'.now vs
    spared_later max_age h h' v vs k (inl o) = inl (only_copy-Kept fc storage key h h' k o)
    spared_later max_age h h' v vs k (inr y) =
        inr (subst (λ n. AllYoung max_age n vs) (sym k.same_now) y.1)

    walk_aged-Kept :
        (max_age count : ℕ) (vs : List Visit) (h : Host)
        → All (IsVisit fc storage) vs
        → (only_copy (get_meta fc storage key h) ≡ true) ⊎ AllYoung max_age h.now vs
        → Kept fc storage key h (walk_aged fc storage max_age vs (count, h)).1
    unfolding walk_aged
    walk_aged-Kept max_age count [] h a s = Kept-refl fc storage key h
    walk_aged-Kept max_age count (v ∷ vs) h a s =
        let (count', h') = visit_aged fc storage max_age v (count, h) in
        let k = visit-Kept max_age count v h a.0 (spared_now max_age h v vs s) in
        Kept-trans fc storage key h h' _ k
          (walk_aged-Kept max_age count' vs h' a.1 (spared_later max_age h h' v vs k s))

    pub evict_by_age-Kept :
        (max_age : ℕ) (visits : List Visit) (h : Host)
        → All (IsVisit fc storage) visits
        → (only_copy (get_meta fc storage key h) ≡ true) ⊎ AllYoung max_age h.now visits
        → Kept fc storage key h (evict_by_age fc storage max_age visits h).1
    unfolding evict_by_age
    evict_by_age-Kept max_age visits h a s =
        if-Kept fc storage key h (max_age == 0) (0, h) _ (Kept-refl fc storage key h)
          (walk_aged-Kept max_age 0 visits h a s)

    -- `EvictByAge` of a storage, whatever its walk visits there and whichever calls fail, keeps the
    -- content of every file whose name does not end in ".meta" and whose only copy, by its
    -- metadata, is the local one, and of every such file that its visits find no older than
    -- `max_age`.
    pub evict_by_age-spares :
        (max_age : ℕ) (visits : List Visit) (h : Host)
        → All (IsVisit fc storage) visits
        → (only_copy (get_meta fc storage key h) ≡ true) ⊎ AllYoung max_age h.now visits
        → (evict_by_age fc storage max_age visits h).1.fs (path fc storage key)
          ≡ h.fs (path fc storage key)
    evict_by_age-spares max_age visits h a s = (evict_by_age-Kept max_age visits h a s).content
