-- ===== src/Lib.antt =====
-- The proxs3 daemon, which serves the objects of S3 buckets to Proxmox VE (PVE) from a cache on
-- disk.
--
-- The program and its model. PVE asks the daemon over a socket; the handlers of
-- internal/api/api.go answer from the cache of internal/cache/cache.go and from S3 through
-- internal/s3client/client.go. PVE also writes into the cache directory on its own: the watcher
-- of internal/api/watcher.go marks such files pending, so that nothing purges them, and uploads
-- them in the background. A resync (internal/api/resync.go) does the same on demand;
-- internal/config/config.go reads the storages.
--
-- Prelude    numbers, Boolean tests, lists, and Go's strings as lists of bytes
-- FilePath   package path/filepath on absolute clean paths, as lists of components
-- Host       the calls of package os: files with content, time, inode and immutable flag, the
--            clock, and which calls fail (`denied`) or leave a half written file (`torn`)
-- S3client   internal/s3client/client.go. The calls of Client over the AWS library, which is a
--            parameter: Library has its calls and answers (`Sdk`) and what S3 documents of them
--            (`IsLawful`), Memory an instance that keeps the law. Settings: New
-- Cache      internal/cache/cache.go. Meta: FileMeta and Covers. Entry: the operations on one
--            entry, path, meta_path, get_meta, write_meta, mark_pending (MarkPending),
--            mark_synced (MarkSynced), is_stale, invalidate, remove_entry (Remove). Placement:
--            store and link_entry (Link). Eviction: EvictByAge. SizeLimit: evictIfNeeded. Usage:
--            SizeMB. The other modules of the tree are the lemmas and theorems: Recorded,
--            Pending, Synced, Removal, RemoveEntry, Below, Kept, AgeSafety, SizeSafety,
--            SizeOrder.
-- Config     ParseStorageCfg, LoadCredential and DiscoverStorages of internal/config/config.go;
--            Daemon: DaemonConfig and LoadDaemonConfig
-- Daemon     the goroutine of main in cmd/proxs3d/main.go that handles signals; Main: main and
--            runResync; Command: a resync from the command line with the daemon that answers it
-- Names      contentToPrefix and detectFormat of internal/api/api.go
-- Api        Upload: reconcileLocal and uploadOnce of internal/api/watcher.go. Registry:
--            uploadNewFile, scheduleRetryLocked, blockUploads of internal/api/watcher.go as steps
--            on the maps of one path; Registry.Running: the goroutine of an upload as a whole.
--            Watcher: cacheRelKey, markPendingUpload, scanPendingUploads of
--            internal/api/watcher.go; in Probe addWatchDirs and fileInUse on what the system
--            shows; Watcher.Loop: the event loop of watchCacheDirs. Download: handleDownload of
--            internal/api/api.go, in Parts the same handler cut where it holds no lock. Changes:
--            handleDelete, handleCopy, handleRename, handleUpload
--            of internal/api/api.go. Listing: handleList and mergeLocalFiles of
--            internal/api/api.go. Attributes: handleGetAttr and handleSetAttr of
--            internal/api/api.go. Resync: one file of handleResync of internal/api/resync.go, in
--            Walk its walk and summary, in Request the answer. Server: New, initClients, Reload,
--            getClient, checkAllHealth of internal/api/api.go, in Status handleStatus, handlePath
--            and handleConfig, in Expiry evictByAge. Progress: the counters of
--            internal/api/progress.go. Cluster: an upload on one node and a download on another.
--            Durable: the life of one entry, as a step relation whose steps are what the daemon
--            does on its own in any order: the watcher's mark, the three parts of an upload
--            attempt, the five parts of a download, an eviction by age, the scan and the removals
--            of an eviction by size, the work of a resync on the file.
--
-- State. An operation under a lock is a function from a host to a host, or from a host and a
-- bucket to both. An upload attempt is two functions, cut at the transfer, and the bookkeeping of
-- uploads is a step relation, whose steps are what goroutines do under uploadsMu. Durable puts
-- the host, the bucket, the upload attempt and the download that run, and the files that an
-- eviction has scanned into one state; work on other entries is one step of it; a write of PVE and a request that changes the
-- entry are not.
--
-- Bounds. Times are natural numbers of nanoseconds, 0 being the zero time, and sizes and counters
-- natural numbers: they stay far below 2^63, but for the sums of checkAllHealth and handleStatus,
-- which wrap at 2^64. White space and letter case are those of ASCII. A walk of a directory is
-- the list of its visits, of any length, so that no loop needs fuel: every loop is a recursion
-- over a list or over a number of attempts. The loop of an upload runs over the attempts that it
-- is given, and its answer is none while it would go on.
--
-- The directory of the cache is read from two places: FileCache has its own, while the watcher and
-- the handlers read it from the configuration, and a reload changes only the latter. The functions
-- of the watcher take the configured directory as an argument; the other handlers are modelled
-- while the two agree, which they do until a reload changes the setting.
--
-- Parameters. The JSON coding of metadata, with the law that decoding undoes encoding; the
-- parsers of numbers and of credentials; the AWS library; `os.ReadDir` where volumes are listed
-- or directories watched; what /proc shows; the call of the daemon by a resync on the command
-- line; the clients of the server, where only their answers matter. A storage is one path
-- component that is not .meta, a key is a clean relative path (`IsEntry`).
--
-- Not modelled: what only answers, logs or loops on a ticker, the HTTP transport, the lines of
-- the log, the PID file, the requests for an unknown storage or without a parameter where a
-- handler only refuses them, the events of inotify, writes through one of two hard links being
-- seen under the other, and the Perl and JavaScript parts.
pub mod Prelude
pub mod FilePath
pub mod Host
pub mod Cache
pub mod S3client
pub mod Api
pub mod Config
pub mod Names
pub mod Daemon
