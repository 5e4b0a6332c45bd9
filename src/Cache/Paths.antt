-- ===== src/Cache/Paths.antt =====
-- Where the cache keeps an entry and its sidecars (path, metaPath of internal/cache/cache.go).

use mathlib.Core.List.{append_assoc, append_cancel_left}
use proxs.Prelude.{
  sym, eq_iff, ◌≡◌, refl, sym, ◌∙◌, false, [], ◌∷◌, ◌++◌, arith, ◌==◌, eq_iff, nat_eq, list_beq,
  list_eq, All, Text, codes, add_byte, split, beq_of_ne,
}
use proxs.FilePath.{slash, IsName, join, append_text}
use proxs.FilePath.Laws.{
  join-clean, split-append, append_text-All, append_text-append, append_text-ne, split-cons,
  push_names-All, head-eq, tail-eq,
}
use proxs.Cache.Entry.{FileCache, path, meta_path, legacy_path}

-- A storage and a key whose paths need no cleaning, as PVE names them.
pub record IsEntry (storage key : Text) : Type 0 where
  pub storage_whole : split slash storage ≡ storage ∷ []
  pub storage_name : IsName storage
  pub storage_not_meta : (storage == codes ".meta") ≡ false
  pub key_names : All IsName (split slash key)

pub meta-IsName : IsName (codes ".meta")
unfolding list_beq
meta-IsName = record { nonempty = refl; not_dot = refl; not_dots = refl }

module _ (fc : FileCache) {storage key : Text} (e : IsEntry storage key) where
  pub path-eq : path fc storage key ≡ fc.base_dir ++ storage ∷ split slash key
  unfolding path
  path-eq =
      join-clean fc.base_dir storage key (rw e.storage_whole (e.storage_name, tt)) e.key_names
      ∙ rw e.storage_whole (append_assoc fc.base_dir (storage ∷ []) (split slash key))

  json_names : All IsName (split slash (key ++ codes ".json"))
  unfolding split add_byte
  json_names =
      rw (split-append key (codes ".json") refl)
        (append_text-All (split slash key) (codes ".json") (omega arith) e.key_names)

  pub meta_path-eq :
      meta_path fc storage key
      ≡ fc.base_dir ++ codes ".meta" ∷ storage ∷ append_text (split slash key) (codes ".json")
  unfolding meta_path join split add_byte
  meta_path-eq =
      rw
        (
          push_names-All fc.base_dir (codes ".meta" ∷ []) (meta-IsName, tt),
          e.storage_whole,
          push_names-All (fc.base_dir ++ codes ".meta" ∷ []) (storage ∷ []) (e.storage_name, tt),
          push_names-All _ _ json_names,
        )
        (rw (split-append key (codes ".json") refl) (simp append_assoc))

  cons-names :
      fc.base_dir ++ append_text (storage ∷ split slash key) (codes ".meta")
      ≡ fc.base_dir ++ storage ∷ append_text (split slash key) (codes ".meta")
  unfolding append_text
  cons-names = let (p, ps, q) = split-cons slash key in rw q

  pub legacy_path-eq :
      legacy_path fc storage key
      ≡ fc.base_dir ++ storage ∷ append_text (split slash key) (codes ".meta")
  unfolding legacy_path
  legacy_path-eq =
      rw path-eq
        (append_text-append fc.base_dir storage (split slash key) (codes ".meta") ∙ cons-names)

  -- The file and its two sidecars are three different files.
  pub path-ne-meta_path : (meta_path fc storage key == path fc storage key) ≡ false
  path-ne-meta_path = beq_of_ne λ h.
      let k = append_cancel_left fc.base_dir _ _ (sym meta_path-eq ∙ h ∙ path-eq) in
      cc (e.storage_not_meta, (eq_iff storage (codes ".meta")).1 (sym (head-eq k)))

  pub legacy-ne-meta_path : (meta_path fc storage key == legacy_path fc storage key) ≡ false
  legacy-ne-meta_path = beq_of_ne λ h.
      let k = append_cancel_left fc.base_dir _ _ (sym meta_path-eq ∙ h ∙ legacy_path-eq) in
      cc (e.storage_not_meta, (eq_iff storage (codes ".meta")).1 (sym (head-eq k)))

  pub path-ne-legacy : (legacy_path fc storage key == path fc storage key) ≡ false
  path-ne-legacy = beq_of_ne λ h.
      let k = tail-eq (append_cancel_left fc.base_dir _ _ (sym legacy_path-eq ∙ h ∙ path-eq)) in
      let (p, ps, q) = split-cons slash key in
      append_text-ne p ps (codes ".meta") (omega arith) (rw q at k)
