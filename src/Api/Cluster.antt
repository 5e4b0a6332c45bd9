-- ===== src/Api/Cluster.antt =====
-- Two nodes of a cluster over one bucket: uploadOnce on one (internal/api/watcher.go), and
-- handleDownload on the other (internal/api/api.go).
mod Examples
use mathlib.Core.Option.{some_inj}
use proxs.Prelude.{◌≡◌, sym, ◌∙◌, false, some, ◌==◌, nat_eq, list_eq, Text, codes}
use proxs.Host.{File, Host, file}
use proxs.Host.Laws.{IsWritable}
use proxs.S3client.Library.{Sdk, IsLawful}
use proxs.S3client.{ObjectInfo, head_object, put_object, download_object, found}
use proxs.S3client.Laws.{download_object-reads}
use proxs.Cache.Meta.{FileMeta, MetaJson}
use proxs.Cache.Paths.{IsEntry}
use proxs.Cache.Entry.{FileCache, path, meta_path, mark_pending}
use proxs.Api.Upload.{upload_once}
use proxs.Api.Upload.Success.{IsDue, upload_once-success}
use proxs.Api.Download.{handle_download, served}
use proxs.Api.Download.Fetched.{IsClear, fetched_file, handle_download-fetches}

-- The bucket after an upload of an entry.
abbrev pub uploaded :
    ⦃json : MetaJson⦄ ⦃sdk : Sdk⦄ → FileCache → Text → Text → Host → sdk.State → sdk.State
uploaded fc storage key h b = (upload_once fc storage key h b).2

module _ ⦃json : MetaJson⦄ ⦃sdk : Sdk⦄ (laws : IsLawful sdk) (here there : FileCache)
    (storage key : Text) where
  -- What PVE wrote on one node and the daemon there uploaded is what the daemon of another node,
  -- which has no copy, serves: once S3 has accepted the upload, a download on the other node that
  -- S3 answers, and that nothing on that node is in the way of, puts the same bytes in the cache
  -- there, and they are not uploaded again.
  pub handle_download-upload_once :
      (h g : Host) (b : sdk.State) (f : File) (m : FileMeta) (etag body : Text) (head : ObjectInfo)
      → IsEntry storage key
      → (storage == codes ".downloads") ≡ false
      → IsWritable h (meta_path here storage key)
      → IsDue here storage key h f m etag
      → (put_object key f.content b).0 ≡ some etag
      → IsClear there storage key g
      → IsWritable g (meta_path there storage key)
      → head_object key (uploaded here storage key h b) ≡ found head
      → download_object key (uploaded here storage key h b) ≡ some body
      → let (response, requested, g') =
          handle_download there storage key
            (head_object key (uploaded here storage key h b))
            (uploaded here storage key h b)
            g in
        (response ≡ served (path there storage key))
        × (g'.fs (path there storage key)
            ≡ some (file (fetched_file there storage key g f.content)))
        × ((mark_pending there storage key g').0 ≡ false)
  handle_download-upload_once h g b f m etag body head e ns w d put clear w' found_it read =
      let sent = upload_once-success here storage key h f m etag laws b e w d put in
      let same : body ≡ f.content =
        some_inj.0 (
          sym (download_object-reads laws key body (uploaded here storage key h b) read)
          ∙ sent.1) in
      let got =
        handle_download-fetches there storage key g head (uploaded here storage key h b) body e ns
          clear w' read in
      rw (found_it, sym same) (got.0, got.1, got.4)
