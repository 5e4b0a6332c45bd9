-- ===== src/S3client.antt =====
-- internal/s3client/client.go: the calls of Client over the AWS library.
pub mod Library
pub mod Laws
pub mod Settings
pub mod Memory
mod Examples
use proxs.Prelude.{
  ℕ, Bool, true, false, ◌||◌, Option, none, some, List, ◌∷◌, ◌++◌, map, if◌then◌else◌, ◌==◌, nat_eq,
  list_eq, Text, codes, insert, [],
}
use proxs.S3client.Library.{SdkError, Answer, ListedObject, Sdk, refused, answered}

abbrev is_404 : Option ℕ → Bool
is_404 none = false
is_404 (some status) = status == 404

abbrev names_missing : Option Text → Bool
names_missing none = false
names_missing (some code) = code == codes "NotFound" || code == codes "NoSuchKey"

-- `isNotFound`.
unfoldable pub is_not_found : SdkError → Bool
is_not_found e =
    if e.not_found_type
    then true
    else if e.no_such_key_type
    then true
    else if is_404 e.response_status
    then true
    else names_missing e.api_code

-- `aws.ToString`, `aws.ToInt64` and `aws.ToTime`: the zero value for nil.
abbrev pub to_text : Option Text → Text
to_text none = []
to_text (some s) = s

abbrev pub to_number : Option ℕ → ℕ
to_number none = 0
to_number (some n) = n

-- `ObjectInfo`.
pub record ObjectInfo : Type 0 where
  pub key : Text
  pub size : ℕ
  pub etag : Text
  pub last_modified : ℕ

-- The answers of `HeadObject`: an object, ErrNotFound, or another error.
pub data Head : Type 0 where
  found : ObjectInfo → Head
  missing : Head
  unknown : Head

abbrev pub listed : ListedObject → ObjectInfo
listed o = record {
  key = to_text o.listed_key;
  size = to_number o.listed_size;
  etag = to_text o.listed_tag;
  last_modified = to_number o.listed_modified;
}

-- The map that `GetObjectTagging` makes: a later tag of a key replaces an earlier one.
unfoldable pub tag_map : List (Option Text × Option Text) → List (Text × Text) → List (Text × Text)
unfolding insert
tag_map [] tags = tags
tag_map ((k, v) ∷ rest) tags = tag_map rest (insert (to_text k) (to_text v) tags)

module _ ⦃sdk : Sdk⦄ where
  -- `HeadObject`.
  unfoldable pub head_object : Text → sdk.State → Head
  unfolding is_not_found
  head_object key s = elim (sdk.head key s) [
    | refused e ↦ if is_not_found e then missing else unknown
    | answered out ↦ found (record {
      key = key;
      size = to_number out.content_length;
      etag = to_text out.e_tag;
      last_modified = to_number out.modified;
    })
  ]

  -- The loop of `ListObjects`, with the objects so far.
  unfoldable pub collect :
      List (Answer (List ListedObject)) → List ObjectInfo → Option (List ObjectInfo)
  collect [] objects = some objects
  collect (refused e ∷ pages) objects = none
  collect (answered page ∷ pages) objects = collect pages (objects ++ map listed page)

  -- `ListObjects`.
  unfoldable pub list_objects : Text → sdk.State → Option (List ObjectInfo)
  unfolding collect
  list_objects prefix s = collect (sdk.pages prefix s) []

  -- `DownloadToFile`: the bytes that it writes, or an error.
  unfoldable pub download_object : Text → sdk.State → Option Text
  download_object key s = elim (sdk.download key s) [ refused e ↦ none | answered body ↦ some body ]

  -- `PutObject`: the ETag, or an error.
  unfoldable pub put_object : Text → Text → sdk.State → Option Text × sdk.State
  put_object key body s =
      let (answer, s') = sdk.upload key body s in
      (elim answer [ refused e ↦ none | answered tag ↦ some (to_text tag) ], s')

  -- `DeleteObject`, and whether it succeeded.
  unfoldable pub delete_object : Text → sdk.State → Bool × sdk.State
  delete_object key s =
      let (answer, s') = sdk.delete key s in
      (elim answer [ refused e ↦ false | answered _ ↦ true ], s')

  -- `CopyObject`: the ETag of the copy, or an error.
  unfoldable pub copy_object : Text → Text → sdk.State → Option Text × sdk.State
  copy_object src dst s =
      let (answer, s') = sdk.copy (sdk.bucket ++ b'/' ∷ src) dst s in
      (
        elim answer [
          | refused e ↦ none
          | answered result ↦ some (elim result [ none ↦ [] | some tag ↦ to_text tag ])
        ],
        s',
      )

  -- `GetObjectTagging`.
  unfoldable pub get_object_tagging : Text → sdk.State → Option (List (Text × Text))
  unfolding tag_map
  get_object_tagging key s = elim (sdk.tagging key s) [
    | refused e ↦ none
    | answered tags ↦ some (tag_map tags [])
  ]

  -- `PutObjectTagging`, and whether it succeeded. The order of the tags is that of a Go map.
  unfoldable pub put_object_tagging : Text → List (Text × Text) → sdk.State → Bool × sdk.State
  put_object_tagging key tags s =
      let (answer, s') = sdk.put_tagging key tags s in
      (elim answer [ refused e ↦ false | answered _ ↦ true ], s')

  -- `HeadBucket`, and whether it succeeded.
  unfoldable pub head_bucket : sdk.State → Bool
  head_bucket s = elim (sdk.head_bucket s) [ refused e ↦ false | answered _ ↦ true ]
