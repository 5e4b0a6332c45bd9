-- ===== src/Api/Changes/Deleted.antt =====
-- What becomes of a volume that was deleted: handleDelete followed by a later handleDownload
-- (internal/api/api.go).

use proxs.Prelude.{◌≡◌, ◌≢◌, false, none, nat_eq, list_eq, Text}
use proxs.Host.{Host, stat}
use proxs.S3client.Library.{Sdk}
use proxs.S3client.{missing}
use proxs.Cache.Meta.{MetaJson}
use proxs.Cache.Entry.{FileCache, path, get_meta}
use proxs.Api.Download.{handle_download, not_found}

module _ ⦃json : MetaJson⦄ ⦃sdk : Sdk⦄ (fc : FileCache) (storage key : Text) where
  -- A later download finds nothing and requests no upload.
  abbrev pub IsDenied : Host → sdk.State → Type 0
  IsDenied h b =
      ((handle_download fc storage key missing b h).0 ≡ not_found)
      × ((handle_download fc storage key missing b h).1 ≡ false)

  -- A file that could not be removed and that no metadata describes.
  abbrev pub IsLeftover : Host → Host → Type 0
  IsLeftover h h' =
      (stat h' (path fc storage key) ≡ stat h (path fc storage key))
      × (stat h' (path fc storage key) ≢ none)
      × (get_meta fc storage key h' ≡ none)
