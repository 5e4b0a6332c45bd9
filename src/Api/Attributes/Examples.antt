-- ===== src/Api/Attributes/Examples.antt =====
-- The theorem about attributes at a bucket in memory.
use proxs.Prelude.{◌≡◌, refl, some, [], ◌∷◌, nat_eq, list_beq, list_eq, codes, lookup, insert}
use proxs.S3client.{tag_map, get_object_tagging, put_object_tagging}
use proxs.S3client.Memory.{Bucket, memory_put_tagging, memory, memory-IsLawful}
use proxs.Cache.Sample.{plain_json, iso_key}
use proxs.Api.Sample.{iso_object, full_bucket}
use proxs.Api.Attributes.{change_tag, tags_or_none, handle_get_attr, handle_set_attr}
use proxs.Api.Attributes.RoundTrip.{changed_value, handle_get_attr-handle_set_attr}

-- An object with a note and an owner.
abbrev tagged : Bucket
tagged = record full_bucket {
  objects =
      λ k. some (record iso_object { tags = (codes "n", codes "x") ∷ (codes "o", codes "y") ∷ [] });
}

handle_get_attr-handle_set_attr_example :
    lookup (codes "o") ((codes "n", codes "z") ∷ (codes "o", codes "y") ∷ [])
    ≡ changed_value
        (codes "n")
        (codes "z")
        (codes "o")
        (lookup (codes "o") (tags_or_none (handle_get_attr iso_key tagged)))
unfolding handle_set_attr handle_get_attr change_tag insert tag_map put_object_tagging
    get_object_tagging memory_put_tagging list_beq
handle_get_attr-handle_set_attr_example =
    handle_get_attr-handle_set_attr memory-IsLawful iso_key (codes "n") (codes "z") (codes "o")
      ((codes "n", codes "z") ∷ (codes "o", codes "y") ∷ []) tagged refl refl
