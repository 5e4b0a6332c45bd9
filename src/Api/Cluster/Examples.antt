-- ===== src/Api/Cluster/Examples.antt =====
-- The theorem about two nodes at the sample machine and one without files.
use proxs.Prelude.{
  subst, sym, ap, ◌≡◌, refl, false, some, [], ◌∷◌, nat_eq, list_beq, list_eq, codes,
}
use proxs.Host.{file}
use proxs.S3client.{found, ObjectInfo, head_object, put_object, download_object}
use proxs.S3client.Memory.{memory, memory-IsLawful, memory_upload}
use proxs.Api.Sample.{new_bucket, pending_mark, marked_host, bare}
use proxs.Cache.Sample.{plain_json, small_cache, iso_key, iso_entry, iso_file}
use proxs.Cache.Entry.{path, mark_pending}
use proxs.Api.Upload.Success.{due-upload_once}
use proxs.Api.Upload.Examples.{marked-IsWritable, marked_due}
use proxs.Api.Download.{handle_download, served}
use proxs.Api.Download.Fetched.{fetched_file}
use proxs.Api.Download.Examples.{bare_clear, bare-IsWritable}
use proxs.Api.Cluster.{uploaded, handle_download-upload_once}

abbrev new_info : ObjectInfo
new_info = record { key = iso_key; size = 2; etag = codes "e"; last_modified = 100 }

bucket_after :
    uploaded small_cache (codes "s") iso_key marked_host new_bucket
    ≡ (put_object iso_key (7 ∷ 8 ∷ []) new_bucket).1
unfolding put_object memory_upload
bucket_after =
    ap (λ x. x.2)
      (due-upload_once small_cache (codes "s") iso_key marked_host (iso_file false) pending_mark
        (codes "e") new_bucket marked_due refl)

handle_download-upload_once_example :
    let b' = uploaded small_cache (codes "s") iso_key marked_host new_bucket in
    let (response, requested, g') =
      handle_download small_cache (codes "s") iso_key (head_object iso_key b') b' bare in
    (response ≡ served (path small_cache (codes "s") iso_key))
    × (g'.fs (path small_cache (codes "s") iso_key)
        ≡ some (file (fetched_file small_cache (codes "s") iso_key bare (7 ∷ 8 ∷ []))))
    × ((mark_pending small_cache (codes "s") iso_key g').0 ≡ false)
unfolding put_object memory_upload head_object download_object list_beq
handle_download-upload_once_example =
    handle_download-upload_once memory-IsLawful small_cache small_cache (codes "s") iso_key
      marked_host bare new_bucket (iso_file false) pending_mark (codes "e") (7 ∷ 8 ∷ []) new_info
      iso_entry refl marked-IsWritable marked_due refl bare_clear bare-IsWritable
      (subst (λ b'. head_object iso_key b' ≡ found new_info) (sym bucket_after) refl)
      (subst (λ b'. download_object iso_key b' ≡ some (7 ∷ 8 ∷ [])) (sym bucket_after) refl)
