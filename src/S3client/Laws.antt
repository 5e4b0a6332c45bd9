-- ===== src/S3client/Laws.antt =====
-- What the client's calls do to a lawful bucket, in the words of the client's answers.
use proxs.Prelude.{
  ◌≡◌, refl, ◌≢◌, ◌⊎◌, inl, inr, true, false, none, some, ◌∷◌, ◌++◌, arith, ◌==◌, nat_eq, list_eq,
  Text,
}
use proxs.S3client.Library.{SdkError, Answer, Sdk, is_plain, IsLawful, refused, answered}
use proxs.S3client.{download_object, put_object, delete_object, copy_object}

pub answer_cases {ℓ} :
    {A : Type ℓ} (r : Answer A) → ((e : SdkError) × (r ≡ refused e)) ⊎ ((a : A) × (r ≡ answered a))
answer_cases (refused e) = inl (e, refl)
answer_cases (answered a) = inr (a, refl)

module _ ⦃sdk : Sdk⦄ (laws : IsLawful sdk) where
  pub put_object-stores :
      (key body etag : Text) (s : sdk.State)
      → (put_object key body s).0 ≡ some etag
      → laws.content (put_object key body s).1 key ≡ some body
  unfolding put_object
  put_object-stores key body etag s e = elim (answer_cases (sdk.upload key body s).0) [
    | inl (err, r) ↦ ground arith
    | inr (tag, r) ↦ laws.upload_stores key body s tag r
  ]

  -- Answered or refused, an upload puts the whole body under its key, or nothing.
  pub put_object-whole :
      (key body : Text) (s : sdk.State)
      → (laws.content (put_object key body s).1 key ≡ some body)
        ⊎ (laws.content (put_object key body s).1 key ≡ laws.content s key)
  unfolding put_object
  put_object-whole key body s = laws.upload_whole key body s

  pub put_object-keeps :
      (key body other : Text) (s : sdk.State)
      → (key == other) ≡ false
      → laws.content (put_object key body s).1 other ≡ laws.content s other
  unfolding put_object
  put_object-keeps key body other s n = laws.upload_keeps key body other s n

  pub delete_object-drops :
      (key : Text) (s : sdk.State)
      → (delete_object key s).0 ≡ true
      → laws.content (delete_object key s).1 key ≡ none
  unfolding delete_object
  delete_object-drops key s e = elim (answer_cases (sdk.delete key s).0) [
    | inl (err, r) ↦ ground arith
    | inr (u, r) ↦ laws.delete_drops key s r
  ]

  pub delete_object-keeps :
      (key other : Text) (s : sdk.State)
      → (key == other) ≡ false
      → laws.content (delete_object key s).1 other ≡ laws.content s other
  unfolding delete_object
  delete_object-keeps key other s n = laws.delete_keeps key other s n

  -- A copy that is answered, of a key that needs no encoding, has the bytes of its source.
  pub copy_object-stores :
      (src dst etag : Text) (s : sdk.State)
      → is_plain src ≡ true
      → (copy_object src dst s).0 ≡ some etag
      → (laws.content (copy_object src dst s).1 dst ≡ laws.content s src)
        × (laws.content s src ≢ none)
  unfolding copy_object
  copy_object-stores src dst etag s p e =
      elim (answer_cases (sdk.copy (sdk.bucket ++ b'/' ∷ src) dst s).0) [
        | inl (err, r) ↦ ground arith
        | inr (result, r) ↦ laws.copy_stores src dst s result p r
      ]

  pub copy_object-keeps :
      (src dst other : Text) (s : sdk.State)
      → (dst == other) ≡ false
      → laws.content (copy_object src dst s).1 other ≡ laws.content s other
  unfolding copy_object
  copy_object-keeps src dst other s n = laws.copy_keeps _ dst other s n

  pub download_object-reads :
      (key body : Text) (s : sdk.State)
      → download_object key s ≡ some body
      → laws.content s key ≡ some body
  unfolding download_object
  download_object-reads key body s e = elim (answer_cases (sdk.download key s)) [
    | inl (err, r) ↦ ground arith
    | inr (read, r) ↦ ground (arith, laws.download_reads key read s)
  ]
