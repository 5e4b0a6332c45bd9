-- ===== src/Cache/Below.antt =====
-- Files below the cache directory and the paths that evicting them touches.
use mathlib.Core.List.{append_assoc}
use proxs.Prelude.{
  ◌≡◌, refl, sym, ap, ◌∙◌, false, List, [], ◌∷◌, ◌++◌, arith, ◌==◌, nat_eq, list_eq, All, Text,
  codes, add_byte, split,
}
use proxs.FilePath.{FilePath, slash, join, rel, join_slash, append_text, IsName}
use proxs.FilePath.Laws.{
  push_names-All, rel-append, split-cons, join_slash-split, split-append, append_text-All,
  append_text-append, split-whole,
}
use proxs.Cache.Entry.{FileCache, path}
use proxs.Cache.Paths.{IsEntry, meta-IsName, path-eq}
use proxs.Cache.Eviction.{rel_text, sidecar_of}

-- A path below the cache directory that needs no cleaning, outside the metadata tree.
pub record IsBelow (fc : FileCache) (p : FilePath) : Type 0 where
  pub first : Text
  pub rest : List Text
  pub located : p ≡ fc.base_dir ++ first ∷ rest
  pub names : All IsName (first ∷ rest)
  pub whole : split slash (join_slash (first ∷ rest)) ≡ first ∷ rest
  pub not_meta : (first == codes ".meta") ≡ false

join_slash-at :
    (c x : Text) (xs q : List Text) → q ≡ x ∷ xs → join_slash (c ∷ q) ≡ c ++ slash ∷ join_slash q
unfolding join_slash
join_slash-at c x xs q e = rw e

join_slash-cons : (c k : Text) → join_slash (c ∷ split slash k) ≡ c ++ slash ∷ k
join_slash-cons c k =
    let (x, xs, q) = split-cons slash k in
    join_slash-at c x xs (split slash k) q ∙ rw (join_slash-split k)

module _ (fc : FileCache) {storage key : Text} (e : IsEntry storage key) where
  pub entry-IsBelow : IsBelow fc (path fc storage key)
  entry-IsBelow = record {
    first = storage;
    rest = split slash key;
    located = path-eq fc e;
    names = (e.storage_name, e.key_names);
    whole = rw (join_slash-cons storage key) (split-whole storage key e.storage_whole);
    not_meta = e.storage_not_meta;
  }

module _ (fc : FileCache) (p : FilePath) (b : IsBelow fc p) where
  open b use {first, rest}

  pub rel-below : rel fc.base_dir p ≡ first ∷ rest
  rel-below = rw b.located (rel-append fc.base_dir (first ∷ rest))

  pub rel_text-below : rel_text fc.base_dir p ≡ join_slash (first ∷ rest)
  unfolding rel_text
  rel_text-below = rw (rel-below, rel_text)

  pub sidecar_of-eq :
      sidecar_of fc p ≡ fc.base_dir ++ codes ".meta" ∷ append_text (first ∷ rest) (codes ".json")
  unfolding sidecar_of join split add_byte
  sidecar_of-eq =
      rw (rel_text-below, push_names-All fc.base_dir (codes ".meta" ∷ []) (meta-IsName, tt))
        (rw (split-append (join_slash (first ∷ rest)) (codes ".json") refl, b.whole)
          (push_names-All (fc.base_dir ++ codes ".meta" ∷ []) _
              (append_text-All (first ∷ rest) (codes ".json") (omega arith) b.names)
            ∙ append_assoc fc.base_dir (codes ".meta" ∷ []) _))

  pub legacy-eq :
      append_text p (codes ".meta") ≡ fc.base_dir ++ append_text (first ∷ rest) (codes ".meta")
  legacy-eq = rw b.located (append_text-append fc.base_dir first rest (codes ".meta"))

rel_text-at :
    (base p : FilePath) (c : Text) (cs : List Text)
    → rel base p ≡ c ∷ cs
    → rel_text base p ≡ join_slash (c ∷ cs)
unfolding rel_text
rel_text-at base p c cs e = rw (e, rel_text)

-- The key of an entry is its path relative to the storage's directory.
pub rel_text-storage :
    (fc : FileCache) (storage key : Text)
    → IsEntry storage key
    → rel_text (join fc.base_dir (storage ∷ [])) (path fc storage key) ≡ key
unfolding join
rel_text-storage fc storage key e =
    let (c, cs, q) = split-cons slash key in
    let dir = push_names-All fc.base_dir (storage ∷ []) (e.storage_name, tt) in
    let inner =
      rw (append_assoc fc.base_dir (storage ∷ []) (split slash key)) at
        (rel-append (fc.base_dir ++ storage ∷ []) (split slash key)) in
    rw (e.storage_whole, dir, path-eq fc e)
      (rel_text-at _ _ c cs (inner ∙ q) ∙ ap join_slash (sym q) ∙ join_slash-split key)
