-- ===== src/Api/Durable.antt =====
-- The life of one cache entry between two writes of PVE: everything that the daemon does on its own
-- to the file, its metadata and its object, in any order (internal/api/watcher.go,
-- internal/api/api.go, internal/api/resync.go, internal/cache/cache.go).
pub mod Removals
pub mod Records
pub mod Downloads
pub mod Marks
pub mod Held
pub mod Invariant
pub mod Lossless
mod Examples
use proxs.Prelude.{ℕ, ◌≡◌, Bool, true, Option, none, some, List, nat_eq, list_eq, All, Text}
use proxs.Host.{dir, Host, Node, FileInfo, read_file, file}
use proxs.Host.Laws.{IsWritable}
use proxs.S3client.Library.{Sdk, IsLawful}
use proxs.S3client.{Head, put_object}
use proxs.Cache.Meta.{FileMeta, MetaJson}
use proxs.Cache.Entry.{FileCache, path, meta_path, mark_pending}
use proxs.Cache.Eviction.{Visit, evict_by_age}
use proxs.Cache.SizeLimit.{Scan, scan, evict_scanned}
use proxs.Cache.AgeSafety.{IsVisit}
use proxs.Cache.SizeSafety.{IsCacheVisit}
use proxs.Api.Upload.{Begun, over, transfer, begin_upload, finish_upload}
use proxs.Api.Download.Parts.{
  Action, Pull, no_pull, judged, asked, fetched, placed, size_of, next_pull, action_of, act, save,
  store_meta,
}
use proxs.S3client.{ObjectInfo, download_object}
use proxs.Prelude.{if◌then◌else◌}
use proxs.Api.Resync.{Count, resync_file}

-- Where an upload attempt is: none runs, the file is open and its content goes to S3, or S3 answered.
pub data Flight : Type 0 where
  idle : Flight
  opened : FileInfo → ℕ → Text → Flight
  answered : FileInfo → ℕ → Option Text → Flight

-- The host, the bucket, the upload attempt, the download, and the files that a scan of the eviction
-- by size found.
pub record System ⦃sdk : Sdk⦄ : Type 0 where
  pub host : Host
  pub bucket : sdk.State
  pub flight : Flight
  pub pull : Pull
  pub scanned : Option Scan

-- The attempt once the open file was read, or could not be.
abbrev pub after_open : FileInfo → ℕ → Option Text → Flight
after_open info started none = answered info started none
after_open info started (some body) = opened info started body

-- The content of the cached file, if there is one.
abbrev pub Fits : Text → Option Node → Type 0
Fits c none = Unit
Fits c (some (file f)) = f.content ≡ c
Fits c (some dir) = ⊥

abbrev pub Holds : Text → Option Node → Type 0
Holds c none = ⊥
Holds c (some (file f)) = f.content ≡ c
Holds c (some dir) = ⊥

module _ ⦃json : MetaJson⦄ ⦃sdk : Sdk⦄ (laws : IsLawful sdk) (fc : FileCache)
    (storage key : Text) where
  -- After the first part of an attempt, with the open file read.
  abbrev pub begun : System → Begun → System
  begun s (over retry_wanted h) = record s { host = h }
  begun s (transfer info started h) = record s {
    host = h;
    flight = after_open info started (read_file h (path fc storage key));
  }

  abbrev pub sent : System → FileInfo → ℕ → Option Text × sdk.State → System
  sent s info started (answer, b) = record s { bucket = b; flight = answered info started answer }

  abbrev pub resynced : System → Count × Host × sdk.State → System
  resynced s (count, h, b) = record s { host = h; bucket = b }

  abbrev pub moved : System → ObjectInfo → Option Text → Bool × Host → System
  moved s o answer (ok, h) = record s {
    host = h;
    pull = if ok then placed o (size_of answer) else no_pull;
  }

  -- What the daemon does on its own. A HEAD answer may be an old one.
  pub data Step (s : System) : System → Type 0 where
    -- Time goes by, calls begin or stop to fail, other files and objects change.
    passes :
        (h : Host) (b : sdk.State)
        → h.fs (path fc storage key) ≡ s.host.fs (path fc storage key)
        → h.fs (meta_path fc storage key) ≡ s.host.fs (meta_path fc storage key)
        → laws.content b key ≡ laws.content s.bucket key
        → Step s (record s { host = h; bucket = b })
    -- The watcher or the scan of a restart.
    marks : Step s (record s { host = (mark_pending fc storage key s.host).1 })
    -- The three parts of an upload attempt.
    begins :
        (canceled : Bool) (head : Head)
        → s.flight ≡ idle
        → Step s (begun s (begin_upload fc storage key canceled head s.host))
    sends :
        (info : FileInfo) (started : ℕ) (body : Text)
        → s.flight ≡ opened info started body
        → Step s (sent s info started (put_object key body s.bucket))
    finishes :
        (info : FileInfo) (started : ℕ) (answer : Option Text) (canceled : Bool)
        → s.flight ≡ answered info started answer
        → Step s (record s {
          host = (finish_upload fc storage key info started canceled answer s.host).1;
          flight = idle;
        })
    -- The parts of a download: the look at the cache, what is done about the cached file, the
    -- transfer, the move into the cache, and the metadata.
    checks :
        (head : Head)
        → s.pull ≡ no_pull
        → Step s (record s { pull = judged (action_of fc storage key head s.host) head })
    acts :
        (action : Action) (head : Head)
        → s.pull ≡ judged action head
        → Step s (record s {
          host = act fc storage key action head s.host;
          pull = next_pull action head;
        })
    transfers :
        (o : ObjectInfo)
        → s.pull ≡ asked o
        → Step s (record s { pull = fetched o (download_object key s.bucket) })
    moves :
        (o : ObjectInfo) (answer : Option Text)
        → s.pull ≡ fetched o answer
        → Step s (moved s o answer (save fc storage key answer s.host))
    stores :
        (o : ObjectInfo) (size : ℕ)
        → s.pull ≡ placed o size
        → Step s (record s { host = store_meta fc storage key o size s.host; pull = no_pull })
    ages :
        (max_age : ℕ) (visits : List Visit)
        → All (IsVisit fc storage) visits
        → Step s (record s { host = (evict_by_age fc storage max_age visits s.host).1 })
    scans :
        (visits : List Visit)
        → All (IsCacheVisit fc) visits
        → Step s (record s { scanned = some (scan fc visits s.host) })
    evicts :
        (files : Scan)
        → s.scanned ≡ some files
        → Step s (record s { host = (evict_scanned fc files s.host).1; scanned = none })
    resyncs :
        (force in_use : Bool) (info : FileInfo)
        → Step s (resynced s (resync_file fc storage key force in_use info s.host s.bucket))

  -- Runs in which the metadata of the entry can be read and written before each step.
  pub data Reach (s : System) : System → Type 0 where
    here : Reach s s
    next :
        {t u : System}
        → Reach s t
        → IsWritable t.host (meta_path fc storage key)
        → Step t u
        → Reach s u

  -- The sidecar at its current place marks the entry pending.
  abbrev pub IsMark : Option Node → Type 0
  IsMark none = ⊥
  IsMark (some dir) = ⊥
  IsMark (some (file f)) =
      (m : FileMeta) × (json.unmarshal f.content ≡ some m) × (m.pending_upload ≡ true)

  -- A file with this content, marked pending.
  pub record IsMarked (c : Text) (h : Host) : Type 0 where
    pub held : Holds c (h.fs (path fc storage key))
    pub mark : IsMark (h.fs (meta_path fc storage key))

  abbrev pub IsSent : Text → sdk.State → Type 0
  IsSent c b = laws.content b key ≡ some c
