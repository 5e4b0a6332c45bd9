-- ===== src/Api/Watcher/Keys.antt =====
-- cacheRelKey of internal/api/watcher.go and the paths of the cache.
use proxs.Prelude.{◌≡◌, refl, ◌∙◌, some, List, ◌∷◌, nat_eq, list_eq, Text, split}
use proxs.FilePath.{FilePath, slash, join_slash}
use proxs.FilePath.Laws.{rel-append, split-cons, join_slash-split}
use proxs.Cache.Entry.{FileCache, path}
use proxs.Cache.Paths.{IsEntry, path-eq}
use proxs.Api.Watcher.{storage_and_key, cache_rel_key}

storage_and_key-split :
    (storage x : Text) (xs parts : List Text)
    → parts ≡ x ∷ xs
    → storage_and_key (storage ∷ parts) ≡ some (storage, join_slash parts)
storage_and_key-split storage x xs parts e = rw e refl

-- The watcher gets back the storage and the key that a cache path was made of, as long as the cache
-- works in the directory that the configuration names, which a reload that changes it ends.
pub cache_rel_key-path :
    (fc : FileCache) (storage key : Text) {cache_dir : FilePath}
    → IsEntry storage key
    → cache_dir ≡ fc.base_dir
    → cache_rel_key cache_dir (path fc storage key) ≡ some (storage, key)
unfolding cache_rel_key
cache_rel_key-path fc storage key e same =
    let (x, xs, q) = split-cons slash key in
    rw (same, path-eq fc e, rel-append fc.base_dir (storage ∷ split slash key))
      (storage_and_key-split storage x xs (split slash key) q ∙ rw (join_slash-split key) refl)
