-- ===== src/Api/Resync/Examples.antt =====
-- The theorems about the resync at the sample machine.

use proxs.FilePath.{path_has_suffix, base_name, rel, join, push_names, push_name, join_slash}
use proxs.Prelude.{
  has_suffix, has_prefix, list_beq, split, add_byte, any, List, [], ◌∷◌, some, ◌≡◌, refl, false,
  nat_eq, list_eq, codes,
}
use proxs.S3client.Memory.{memory, memory-IsLawful}
use proxs.Api.Sample.{marked_host, new_bucket, old_info}
use proxs.Cache.Sample.{plain_json, small_cache}
use proxs.Cache.Eviction.{Visit, rel_text}
use proxs.Api.Resync.Walk.{handle_resync, handle_resync-others}

-- The tree has one file, under the other key.
abbrev one_file : List Visit
one_file = (codes "c" ∷ codes "s" ∷ codes "t" ∷ codes "a" ∷ [], some old_info) ∷ []

handle_resync-others_example :
    memory-IsLawful.content
      (handle_resync small_cache (codes "s") false (λ p. false) one_file marked_host new_bucket).2
      (codes "u")
    ≡ memory-IsLawful.content new_bucket (codes "u")
unfolding any path_has_suffix has_suffix base_name list_beq rel_text rel join push_names split
    add_byte push_name join_slash has_prefix
handle_resync-others_example =
    handle_resync-others small_cache (codes "s") false (λ p. false) memory-IsLawful (codes "u")
      one_file marked_host new_bucket refl
