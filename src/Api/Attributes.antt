-- ===== src/Api/Attributes.antt =====
-- handleGetAttr and handleSetAttr of internal/api/api.go, for a storage that has a client: attributes
-- of a volume are tags of its object.
pub mod RoundTrip
mod Examples
use proxs.Prelude.{
  Bool, Option, none, some, List, if◌then◌else◌, ◌==◌, nat_eq, list_eq, Text, insert, erase, [],
}
use proxs.S3client.Library.{Sdk}
use proxs.S3client.{get_object_tagging, put_object_tagging}

-- The change to the tags; an empty value deletes.
unfoldable pub change_tag : Text → Text → List (Text × Text) → List (Text × Text)
unfolding erase insert
change_tag attr value tags = if value == [] then erase attr tags else insert attr value tags

-- The tags that a failed read stands for.
abbrev pub tags_or_none : Option (List (Text × Text)) → List (Text × Text)
tags_or_none none = []
tags_or_none (some tags) = tags

module _ ⦃sdk : Sdk⦄ where
  -- `handleGetAttr`: the tags, or an internal error.
  unfoldable pub handle_get_attr : Text → sdk.State → Option (List (Text × Text))
  handle_get_attr key s = get_object_tagging key s

  -- `handleSetAttr`, and whether it answers ok.
  unfoldable pub handle_set_attr : Text → Text → Text → sdk.State → Bool × sdk.State
  unfolding change_tag
  handle_set_attr key attr value s =
      put_object_tagging key (change_tag attr value (tags_or_none (get_object_tagging key s))) s
