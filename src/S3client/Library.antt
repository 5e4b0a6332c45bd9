-- ===== src/S3client/Library.antt =====
-- The AWS library that internal/s3client/client.go calls, for the bucket of one client: its answers
-- and its errors as the client reads them, and what S3 documents of a bucket.
use mathlib.Core.List.{Memᴰ}
use proxs.Prelude.{
  ◌↔◌, ◌⊎◌, ℕ, ◌≡◌, ◌≢◌, Bool, true, false, ◌&&◌, ◌||◌, Option, none, some, List, [], ◌∷◌, ◌++◌,
  map, leb, ◌==◌, nat_eq, list_eq, Text,
}

-- What `errors.As` and the accessors find in an error of the library.
pub record SdkError : Type 0 where
  pub not_found_type : Bool
  pub no_such_key_type : Bool
  pub response_status : Option ℕ
  pub api_code : Option Text

pub data Answer {ℓ} (A : Type ℓ) : Type ℓ where
  refused : SdkError → Answer A
  answered : A → Answer A

-- Pointers of the library may be nil.
pub record HeadOutput : Type 0 where
  pub content_length : Option ℕ
  pub e_tag : Option Text
  pub modified : Option ℕ

pub record ListedObject : Type 0 where
  pub listed_key : Option Text
  pub listed_size : Option ℕ
  pub listed_tag : Option Text
  pub listed_modified : Option ℕ

-- The calls, on an unknown state of the bucket. `pages` are the answers of NextPage one after the
-- other; a copy names its source as "bucket/key"; its answer may lack the result.
pub record Sdk : Type 1 where
  pub State : Type 0
  pub bucket : Text
  pub head : Text → State → Answer HeadOutput
  pub pages : Text → State → List (Answer (List ListedObject))
  pub download : Text → State → Answer Text
  pub upload : Text → Text → State → Answer (Option Text) × State
  pub delete : Text → State → Answer (Unit {0}) × State
  pub copy : Text → Text → State → Answer (Option (Option Text)) × State
  pub tagging : Text → State → Answer (List (Option Text × Option Text))
  pub put_tagging : Text → List (Text × Text) → State → Answer (Unit {0}) × State
  pub head_bucket : State → Answer (Unit {0})

-- A byte that stands for itself in a URL.
abbrev pub is_unreserved : ℕ → Bool
is_unreserved c =
    leb b'0' c && leb c b'9'
    || (leb b'A' c && leb c b'Z'
        || (leb b'a' c && leb c b'z'
            || (c == b'-' || (c == b'.' || (c == b'_' || (c == b'~' || c == b'/'))))))

-- A key that reads the same when S3 decodes it as part of a URL, which it does with the source of a
-- copy.
unfoldable pub is_plain : Text → Bool
is_plain [] = true
is_plain (c ∷ s) = is_unreserved c && is_plain s

-- The bytes under each key, and how the calls that change them act on them. A call that was refused
-- may have happened all the same, but an object is never half written.
pub record IsLawful (sdk : Sdk) : Type 0 where
  pub content : sdk.State → Text → Option Text
  pub upload_stores :
      (key body : Text) (s : sdk.State) (tag : Option Text)
      → (sdk.upload key body s).0 ≡ answered tag
      → content (sdk.upload key body s).1 key ≡ some body
  pub upload_whole :
      (key body : Text) (s : sdk.State)
      → (content (sdk.upload key body s).1 key ≡ some body)
        ⊎ (content (sdk.upload key body s).1 key ≡ content s key)
  pub upload_keeps :
      (key body other : Text) (s : sdk.State)
      → (key == other) ≡ false
      → content (sdk.upload key body s).1 other ≡ content s other
  pub delete_drops :
      (key : Text) (s : sdk.State)
      → (sdk.delete key s).0 ≡ answered tt
      → content (sdk.delete key s).1 key ≡ none
  pub delete_keeps :
      (key other : Text) (s : sdk.State)
      → (key == other) ≡ false
      → content (sdk.delete key s).1 other ≡ content s other
  pub copy_stores :
      (src dst : Text) (s : sdk.State) (result : Option (Option Text))
      → is_plain src ≡ true
      → (sdk.copy (sdk.bucket ++ b'/' ∷ src) dst s).0 ≡ answered result
      → (content (sdk.copy (sdk.bucket ++ b'/' ∷ src) dst s).1 dst ≡ content s src)
        × (content s src ≢ none)
  pub copy_keeps :
      (source dst other : Text) (s : sdk.State)
      → (dst == other) ≡ false
      → content (sdk.copy source dst s).1 other ≡ content s other
  pub download_reads :
      (key body : Text) (s : sdk.State)
      → sdk.download key s ≡ answered body
      → content s key ≡ some body
  -- The tags of an object are a set: they are read in any order.
  pub tagging_reads :
      (key : Text) (tags : List (Text × Text)) (s : sdk.State)
      (read : List (Option Text × Option Text))
      → (sdk.put_tagging key tags s).0 ≡ answered tt
      → sdk.tagging key (sdk.put_tagging key tags s).1 ≡ answered read
      → (t : Option Text × Option Text)
      → Memᴰ t read ↔ Memᴰ t (map (λ (t : Text × Text). (some t.0, some t.1)) tags)
