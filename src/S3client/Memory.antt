-- ===== src/S3client/Memory.antt =====
-- A bucket in memory, whose calls may fail: an instance of what S3 documents.
use mathlib.Core.List.{Memᴰ}
use proxs.Prelude.{
  subst, sym, ℕ, ◌≡◌, ◌≢◌, Bool, true, false, Option, none, some, List, [], ◌∷◌, ◌++◌, map, arith,
  if◌then◌else◌, ◌==◌, eq_refl, nat_eq, list_eq, length, drop, Text, codes, Bool, Option, Text, ℕ,
  Bool, Option, Text, ℕ, Bool, Option, Text, ℕ, Bool, Option, Text, ℕ, Bool, Option, Text, ℕ, Bool,
  Option, Text, ℕ, Bool, Option, Text, ℕ, Bool, Option, Text, ℕ,
}
use proxs.S3client.Library.{SdkError, Answer, Sdk, IsLawful, refused, answered}

pub data Call : Type 0 where
  head_op get_op put_op delete_op copy_op tag_op : Call

pub record Object : Type 0 where
  pub body : Text
  pub etag : Text
  pub last_modified : ℕ
  pub tags : List (Text × Text)

-- `unreachable` says which calls fail, `lands` which of these happen all the same.
pub record Bucket : Type 0 where
  pub objects : Text → Option Object
  pub unreachable : Call → Bool
  pub lands : Call → Bool
  pub clock : ℕ

abbrev pub set_object : Bucket → Text → Option Object → Bucket
set_object b key o = record b { objects = λ k. if key == k then o else b.objects k }

abbrev pub server_error : SdkError
server_error = record {
  not_found_type = false;
  no_such_key_type = false;
  response_status = some 503;
  api_code = none;
}

abbrev pub no_object : SdkError
no_object = record server_error { not_found_type = true; response_status = some 404 }

abbrev pub body_of : Option Object → Option Text
body_of none = none
body_of (some o) = some o.body

abbrev pub read_object {ℓ} : {A : Type ℓ} → Call → (Object → A) → Text → Bucket → Answer A
read_object op f key b =
    if b.unreachable op
    then refused server_error
    else elim (b.objects key) [ none ↦ refused no_object | some o ↦ answered (f o) ]

-- A change that is answered, fails, or fails after it happened.
abbrev pub changed {ℓ} : {A : Type ℓ} → Call → Bucket → Bucket → A → Answer A × Bucket
changed op b b' a =
    if b.unreachable op
    then (refused server_error, if b.lands op then b' else b)
    else (answered a, b')

abbrev pub new_object : Bucket → Text → Object
new_object b body = record { body = body; etag = codes "e"; last_modified = b.clock; tags = [] }

unfoldable pub memory_upload : Text → Text → Bucket → Answer (Option Text) × Bucket
memory_upload key body b =
    changed put_op b (set_object b key (some (new_object b body))) (some (codes "e"))

unfoldable pub memory_delete : Text → Bucket → Answer (Unit {0}) × Bucket
memory_delete key b = changed delete_op b (set_object b key none) tt

-- The name of the bucket is "b", so the source of a copy begins with "b/".
unfoldable pub memory_copy : Text → Text → Bucket → Answer (Option (Option Text)) × Bucket
memory_copy source dst b = elim (b.objects (drop 2 source)) [
  | none ↦ (refused no_object, b)
  | some o ↦
      changed copy_op b (set_object b dst (some (new_object b o.body))) (some (some (codes "e")))
]

unfoldable pub memory_put_tagging : Text → List (Text × Text) → Bucket → Answer (Unit {0}) × Bucket
memory_put_tagging key tags b = elim (b.objects key) [
  | none ↦ (refused no_object, b)
  | some o ↦ changed tag_op b (set_object b key (some (record o { tags = tags }))) tt
]

instance abbrev pub memory : Sdk
memory = record {
  State = Bucket;
  bucket = codes "b";
  head = read_object head_op λ o. record {
    content_length = some (length o.body);
    e_tag = some o.etag;
    modified = some o.last_modified;
  };
  pages = λ prefix b. [];
  download = read_object get_op λ o. o.body;
  upload = memory_upload;
  delete = memory_delete;
  copy = memory_copy;
  tagging = read_object tag_op λ o. map (λ (t : Text × Text). (some t.0, some t.1)) o.tags;
  put_tagging = memory_put_tagging;
  head_bucket = λ b. if b.unreachable head_op then refused server_error else answered tt;
}

memory_copy-stores :
    (src dst : Text) (b : Bucket) (result : Option (Option Text))
    → (memory_copy (codes "b" ++ b'/' ∷ src) dst b).0 ≡ answered result
    → (body_of ((memory_copy (codes "b" ++ b'/' ∷ src) dst b).1.objects dst)
        ≡ body_of (b.objects src))
      × (body_of (b.objects src) ≢ none)
unfolding memory_copy
memory_copy-stores src dst b result e = ground (arith, eq_refl dst)

pub memory-IsLawful : IsLawful memory
unfolding memory_upload memory_delete memory_copy memory_put_tagging
memory-IsLawful = record {
  content = λ b k. body_of (b.objects k);
  upload_stores = λ key body b tag e. ground (arith, eq_refl key);
  upload_whole = λ key body b. ground (arith, eq_refl key);
  upload_keeps = λ key body other b n. ground arith;
  delete_drops = λ key b e. ground (arith, eq_refl key);
  delete_keeps = λ key other b n. ground arith;
  copy_stores = λ src dst b result p e. memory_copy-stores src dst b result e;
  copy_keeps = λ source dst other b n. ground arith;
  download_reads = λ key body b e. ground arith;
  tagging_reads = λ key tags b read e r t.
      let same : read ≡ map (λ (t : Text × Text). (some t.0, some t.1)) tags =
        ground (arith, eq_refl key) in
      (subst (Memᴰ t) same, subst (Memᴰ t) (sym same));
}
