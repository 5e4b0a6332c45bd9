-- ===== src/Cache/Removal.antt =====
-- Removing an entry: Invalidate, which respects the immutable flag, and Remove, which clears it.
use proxs.Prelude.{
  ◌≡◌, sym, ◌∙◌, ◌≢◌, ◌⊎◌, inl, inr, false, none, arith, ◌==◌, nat_eq, list_eq, Text, beq_false_sym,
}
use proxs.FilePath.{FilePath}
use proxs.Host.{Op, Host, read_file, remove_as, remove, failed}
use proxs.Host.Laws.{fs-remove_as, denied-remove_as, remove_as-outcome}
use proxs.Cache.Meta.{MetaJson}
use proxs.Cache.Entry.{FileCache, path, meta_path, legacy_path, remove_meta, invalidate, get_meta}
use proxs.Cache.Paths.{IsEntry, path-ne-meta_path, legacy-ne-meta_path, path-ne-legacy}

-- A removal of this file would not fail.
abbrev pub CanRemove : Op → FilePath → Host → Type 0
CanRemove op p h = (remove_as op p h).0 ≢ failed

remove_as-local :
    (op : Op) (p : FilePath) (h h' : Host)
    → h'.fs p ≡ h.fs p
    → h'.denied ≡ h.denied
    → (remove_as op p h').0 ≡ (remove_as op p h).0
unfolding remove_as
remove_as-local op p h h' e d = ground arith

remove_as-gone :
    (op : Op) (p : FilePath) (h : Host) → CanRemove op p h → (remove_as op p h).1.fs p ≡ none
remove_as-gone op p h c = elim (remove_as-outcome p h op) [
  | inl (_, g) ↦ g
  | inr (f, _) ↦ absurd (c f)
]

module _ (fc : FileCache) (storage key : Text) (e : IsEntry storage key) (h : Host) where
  -- The sidecars of an entry can be removed.
  pub record SidecarsRemovable : Type 0 where
    pub current : CanRemove remove (meta_path fc storage key) h
    pub legacy : CanRemove remove (legacy_path fc storage key) h

  record SidecarsGone (h' : Host) : Type 0 where
    pub current : h'.fs (meta_path fc storage key) ≡ none
    pub legacy : h'.fs (legacy_path fc storage key) ≡ none

  remove_meta-SidecarsGone : SidecarsRemovable → SidecarsGone (remove_meta fc storage key h)
  unfolding remove_meta
  remove_meta-SidecarsGone r =
      let mp = meta_path fc storage key in
      let lp = legacy_path fc storage key in
      let h₁ : Host = (remove_as remove mp h).1 in
      let ne = legacy-ne-meta_path fc e in
      record {
        current =
            fs-remove_as lp mp (beq_false_sym mp lp ne) h₁ remove
            ∙ remove_as-gone remove mp h r.current;
        legacy = remove_as-gone remove lp h₁ λ f. r.legacy (
            sym (
              remove_as-local remove lp h h₁ (fs-remove_as mp lp ne h remove)
                (denied-remove_as mp h remove))
            ∙ f);
      }

  -- The content file is untouched by the removal of the sidecars.
  fs-remove_meta :
      (remove_meta fc storage key h).fs (path fc storage key) ≡ h.fs (path fc storage key)
  unfolding remove_meta
  fs-remove_meta =
      fs-remove_as (legacy_path fc storage key) (path fc storage key) (path-ne-legacy fc e) _ remove
      ∙ fs-remove_as (meta_path fc storage key) (path fc storage key) (path-ne-meta_path fc e) h
          remove

module _ ⦃json : MetaJson⦄ (fc : FileCache) (storage key : Text) where
  SidecarsGone-get_meta :
      (e : IsEntry storage key) (h h' : Host)
      → SidecarsGone fc storage key e h h'
      → get_meta fc storage key h' ≡ none
  unfolding get_meta read_file
  SidecarsGone-get_meta e h h' g = ground (arith, g.current, g.legacy)

  SidecarsRemovable-frame :
      (e : IsEntry storage key) (h h' : Host)
      → ((q : FilePath) → (path fc storage key == q) ≡ false → h'.fs q ≡ h.fs q)
      → h'.denied ≡ h.denied
      → SidecarsRemovable fc storage key e h
      → SidecarsRemovable fc storage key e h'
  SidecarsRemovable-frame e h h' frame d r =
      let p = path fc storage key in
      let mp = meta_path fc storage key in
      let lp = legacy_path fc storage key in
      record {
        current = λ f. r.current (
            sym (
              remove_as-local remove mp h h'
                (frame mp (beq_false_sym mp p (path-ne-meta_path fc e))) d)
            ∙ f);
        legacy = λ f. r.legacy (
            sym (
              remove_as-local remove lp h h' (frame lp (beq_false_sym lp p (path-ne-legacy fc e)))
                d)
            ∙ f);
      }

  -- After the content file is gone, so are the sidecars and what they told.
  pub remove_meta-gone :
      (e : IsEntry storage key) (h h' : Host)
      → ((q : FilePath) → (path fc storage key == q) ≡ false → h'.fs q ≡ h.fs q)
      → h'.denied ≡ h.denied
      → h'.fs (path fc storage key) ≡ none
      → SidecarsRemovable fc storage key e h
      → ((remove_meta fc storage key h').fs (path fc storage key) ≡ none)
        × (get_meta fc storage key (remove_meta fc storage key h') ≡ none)
  remove_meta-gone e h h' frame d g r = (
    fs-remove_meta fc storage key e h' ∙ g,
    SidecarsGone-get_meta e h' (remove_meta fc storage key h')
        (remove_meta-SidecarsGone fc storage key e h' (SidecarsRemovable-frame e h h' frame d r)),
  )

  invalidate-failed :
      (h : Host)
      → (remove_as remove (path fc storage key) h).0 ≡ failed
      → invalidate fc storage key h ≡ (remove_as remove (path fc storage key) h).1
  unfolding invalidate
  invalidate-failed h f = ground arith

  invalidate-removed :
      (h : Host)
      → (remove_as remove (path fc storage key) h).0 ≢ failed
      → invalidate fc storage key h
        ≡ remove_meta fc storage key (remove_as remove (path fc storage key) h).1
  unfolding invalidate
  invalidate-removed h f = ground arith

  -- `Invalidate` of an entry whose sidecars can be removed either removes the file together with
  -- its metadata, or, where the file cannot be removed (the immutable flag is one reason), changes
  -- nothing: a file is never left without the metadata that it had.
  invalidate-outcome :
      (h : Host) (e : IsEntry storage key)
      → SidecarsRemovable fc storage key e h
      → ((invalidate fc storage key h).fs (path fc storage key) ≡ none)
          × (get_meta fc storage key (invalidate fc storage key h) ≡ none)
        ⊎ (CanRemove remove (path fc storage key) h → ⊥) × (invalidate fc storage key h ≡ h)
  invalidate-outcome h e r =
      let p = path fc storage key in
      let h' : Host = (remove_as remove p h).1 in
      elim (remove_as-outcome p h remove) [
        | inr (f, same) ↦ inr (λ c. c f, invalidate-failed h f ∙ same)
        | inl (ok, g) ↦ inl (
            rw (invalidate-removed h ok) (
              remove_meta-gone e h h' (λ q ne. fs-remove_as p q ne h remove)
                (denied-remove_as p h remove) g r))
      ]
