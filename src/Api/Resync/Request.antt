-- ===== src/Api/Resync/Request.antt =====
-- handleResync (internal/api/resync.go) as a request, with the storage and the force as the query has
-- them.
use proxs.Prelude.{
  ℕ, Bool, Option, none, some, List, [], if◌then◌else◌, ◌==◌, nat_eq, list_eq, Text, codes,
}
use proxs.FilePath.{FilePath}
use proxs.Host.{Host}
use proxs.S3client.Library.{Sdk}
use proxs.Cache.Meta.{MetaJson}
use proxs.Cache.Entry.{FileCache}
use proxs.Cache.Eviction.{Visit}
use proxs.Api.Server.{Server, get_client}
use proxs.Api.Resync.Walk.{Summary, handle_resync}

-- The response; a report has no summary if the storage has no directory.
pub data Response : Type 0 where
  bad_request not_found : Response
  report : Option Summary → Response

-- The status of a response.
abbrev pub status_code : Response → ℕ
status_code bad_request = 400
status_code not_found = 404
status_code (report sum) = 200

-- `bucket` is that of the client of the storage, if it has one.
unfoldable pub resync_request {ℓ} :
    {Client : Type ℓ}
    → ⦃json : MetaJson⦄ → ⦃sdk : Sdk⦄ → FileCache
    → (FilePath → Bool)
    → Server Client
    → Text
    → Text
    → List Visit
    → Host
    → sdk.State
    → Response × Host × sdk.State
unfolding get_client handle_resync
resync_request fc in_use s storage force visits h b =
    if storage == [] then (bad_request, h, b) else elim (get_client storage s) [
      | none ↦ (not_found, h, b)
      | some _ ↦
          let (sum, h', b') = handle_resync fc storage (force == codes "1") in_use visits h b in
          (report sum, h', b')
    ]
