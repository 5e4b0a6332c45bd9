-- ===== src/Cache/Kept.antt =====
-- What evicting one file leaves of another entry.
use mathlib.Core.List.{append_cancel_left}
use proxs.Prelude.{
  beq_of_ne, ◌≡◌, refl, sym, ap, ◌∙◌, ◌⊎◌, inl, true, false, none, ◌++◌, arith, ◌==◌, eq_iff,
  nat_eq, list_eq, Text, codes, split,
}
use proxs.FilePath.{FilePath, slash, append_text, path_has_suffix}
use proxs.FilePath.Laws.{
  head-eq, tail-eq, append_text-injective, append_text-head, append_text-split,
  path_has_suffix-below,
}
use proxs.Host.{Op, Host, read_file, remove_as, clear_immutable}
use proxs.Host.Laws.{
  fs-remove_as, fs-clear_immutable, denied-remove_as, denied-clear_immutable, now-remove_as,
  now-clear_immutable, read_file-fs,
}
use proxs.Cache.Meta.{MetaJson}
use proxs.Cache.Entry.{FileCache, path, meta_path, legacy_path, get_meta}
use proxs.Cache.Paths.{IsEntry, path-eq, meta_path-eq}
use proxs.Cache.Eviction.{sidecar_of, only_copy}
use proxs.Cache.Below.{IsBelow, sidecar_of-eq, legacy-eq}

-- The content and the metadata of an entry are kept; a legacy sidecar may be lost.
pub record Kept (fc : FileCache) (storage key : Text) (h h' : Host) : Type 0 where
  pub content : h'.fs (path fc storage key) ≡ h.fs (path fc storage key)
  pub current : h'.fs (meta_path fc storage key) ≡ h.fs (meta_path fc storage key)
  pub legacy :
      (read_file h' (legacy_path fc storage key) ≡ read_file h (legacy_path fc storage key))
      ⊎ (read_file h' (legacy_path fc storage key) ≡ none)
  pub same_denied : h'.denied ≡ h.denied
  pub same_now : h'.now ≡ h.now

-- Reading a path after a removal, of this path or another, gives what it gave, or nothing.
read_file-remove_as :
    (op : Op) (p q : FilePath) (h : Host)
    → (read_file (remove_as op p h).1 q ≡ read_file h q) ⊎ (read_file (remove_as op p h).1 q ≡ none)
unfolding read_file remove_as
read_file-remove_as op p q h = ground (arith, eq_iff p q)

read_file-clear_immutable :
    (p q : FilePath) (h : Host) → read_file (clear_immutable p h) q ≡ read_file h q
unfolding read_file clear_immutable
read_file-clear_immutable p q h = ground (arith, eq_iff p q)

module _ (fc : FileCache) (storage key : Text) where
  pub Kept-refl : (h : Host) → Kept fc storage key h h
  Kept-refl h = record {
    content = refl;
    current = refl;
    legacy = inl refl;
    same_denied = refl;
    same_now = refl;
  }

  pub Kept-trans :
      (h h' h'' : Host)
      → Kept fc storage key h h'
      → Kept fc storage key h' h''
      → Kept fc storage key h h''
  Kept-trans h h' h'' a b = record {
    content = b.content ∙ a.content;
    current = b.current ∙ a.current;
    legacy = ground (arith, a.legacy, b.legacy);
    same_denied = b.same_denied ∙ a.same_denied;
    same_now = b.same_now ∙ a.same_now;
  }

  -- A path that is neither the file of the entry nor its current sidecar.
  pub record IsOther (p : FilePath) : Type 0 where
    pub not_content : (p == path fc storage key) ≡ false
    pub not_current : (p == meta_path fc storage key) ≡ false

  pub remove_as-Kept :
      (op : Op) (p : FilePath) (h : Host) → IsOther p → Kept fc storage key h (remove_as op p h).1
  remove_as-Kept op p h o = record {
    content = fs-remove_as p _ o.not_content h op;
    current = fs-remove_as p _ o.not_current h op;
    legacy = read_file-remove_as op p _ h;
    same_denied = denied-remove_as p h op;
    same_now = now-remove_as p h op;
  }

  pub clear_immutable-Kept :
      (p : FilePath) (h : Host) → IsOther p → Kept fc storage key h (clear_immutable p h)
  clear_immutable-Kept p h o = record {
    content = fs-clear_immutable p _ o.not_content h;
    current = fs-clear_immutable p _ o.not_current h;
    legacy = inl (read_file-clear_immutable p _ h);
    same_denied = denied-clear_immutable p h;
    same_now = now-clear_immutable p h;
  }

  -- The three paths that evicting `p` may remove.
  pub record IsOthers (p : FilePath) : Type 0 where
    pub itself : IsOther p
    pub sidecar : IsOther (sidecar_of fc p)
    pub legacy_sidecar : IsOther (append_text p (codes ".meta"))

  module _ (e : IsEntry storage key) (p : FilePath) (b : IsBelow fc p) where
    open b use {first, rest}

    below-ne-current : (p == meta_path fc storage key) ≡ false
    below-ne-current = beq_of_ne λ (h : p ≡ meta_path fc storage key). cc (
      b.not_meta,
      (eq_iff first (codes ".meta")).1
          (head-eq (append_cancel_left fc.base_dir _ _ (sym b.located ∙ h ∙ meta_path-eq fc e))),
    )

    sidecar-ne-content : (sidecar_of fc p == path fc storage key) ≡ false
    sidecar-ne-content = beq_of_ne λ (h : sidecar_of fc p ≡ path fc storage key). cc (
      e.storage_not_meta,
      (eq_iff storage (codes ".meta")).1 (
          sym (
            head-eq (
              append_cancel_left fc.base_dir _ _ (sym (sidecar_of-eq fc p b) ∙ h ∙ path-eq fc e)))),
    )

    sidecar-ne-current :
        (p == path fc storage key) ≡ false → (sidecar_of fc p == meta_path fc storage key) ≡ false
    sidecar-ne-current ne = beq_of_ne λ h.
        let k = append_text-injective first storage rest (split slash key) (codes ".json") (
          tail-eq (
            append_cancel_left fc.base_dir _ _ (sym (sidecar_of-eq fc p b) ∙ h ∙ meta_path-eq fc e))
          ∙ sym (append_text-split storage key (codes ".json"))) in
        let same = b.located ∙ ap (λ x. fc.base_dir ++ x) k ∙ sym (path-eq fc e) in
        cc (ne, (eq_iff p (path fc storage key)).1 same)

    legacy-ne-content :
        path_has_suffix (path fc storage key) (codes ".meta") ≡ false
        → (append_text p (codes ".meta") == path fc storage key) ≡ false
    legacy-ne-content s = beq_of_ne λ (h : append_text p (codes ".meta") ≡ path fc storage key).
        let ends = path_has_suffix-below fc.base_dir first rest (codes ".meta") in
        cc (s, ends, h, b.located)

    legacy-ne-current : (append_text p (codes ".meta") == meta_path fc storage key) ≡ false
    legacy-ne-current = beq_of_ne λ h.
        let k =
          append_cancel_left fc.base_dir _ _ (sym (legacy-eq fc p b) ∙ h ∙ meta_path-eq fc e) in
        cc (
          b.not_meta,
          (eq_iff first (codes ".meta")).1
              (append_text-head first rest (codes ".meta") (codes ".meta") storage _ k),
        )

    pub below-IsOthers :
        path_has_suffix (path fc storage key) (codes ".meta") ≡ false
        → (p == path fc storage key) ≡ false
        → IsOthers p
    below-IsOthers s ne = record {
      itself = record { not_content = ne; not_current = below-ne-current };
      sidecar = record { not_content = sidecar-ne-content; not_current = sidecar-ne-current ne };
      legacy_sidecar = record {
        not_content = legacy-ne-content s;
        not_current = legacy-ne-current;
      };
    }

-- An entry whose only copy is the local one stays such.
pub only_copy-Kept :
    ⦃json : MetaJson⦄ (fc : FileCache) (storage key : Text) (h h' : Host)
    → Kept fc storage key h h'
    → only_copy (get_meta fc storage key h) ≡ true
    → only_copy (get_meta fc storage key h') ≡ true
unfolding only_copy get_meta
only_copy-Kept fc storage key h h' k o =
    ground (arith, read_file-fs h h' (meta_path fc storage key) k.current k.same_denied, k.legacy)
