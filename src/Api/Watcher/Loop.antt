-- ===== src/Api/Watcher/Loop.antt =====
-- The loop of watchCacheDirs, with requestUpload (internal/api/watcher.go): the map `pending` of
-- paths and the times they were seen at, and what each case of the select does to it. One round is
-- one step; the uploads that it starts are goroutines of their own.
pub mod Rounds
pub mod Tracking
pub mod Marking
use proxs.Prelude.{
  ℕ, ◌-◌, Bool, true, false, ◌||◌, Option, none, some, List, ◌∷◌, ◌++◌, ltb, if◌then◌else◌, nat_eq,
  list_eq, length, codes, lookup, insert, [],
}
use proxs.FilePath.{FilePath, path_has_suffix}
use proxs.Host.{Host, stat}
use proxs.Cache.Meta.{MetaJson}
use proxs.Cache.Entry.{FileCache}
use proxs.Api.Watcher.{mark_pending_upload}

abbrev pub Pending : Type 0
Pending = List (FilePath × ℕ)

-- The capacity of `uploadRequests`.
abbrev pub queue_capacity : ℕ
queue_capacity = 1024

-- `requestUpload`, without blocking: a request that finds the queue full is dropped.
unfoldable pub request_upload : FilePath → List FilePath → List FilePath
request_upload p queue = if ltb (length queue) queue_capacity then queue ++ p ∷ [] else queue

-- Three seconds.
abbrev pub stable_time : ℕ
stable_time = 3000000000

-- A request that is taken from the queue.
unfoldable pub take_request : FilePath → ℕ → Pending → Pending
take_request p now pending = elim (lookup p pending) [
  | none ↦ insert p now pending
  | some _ ↦ pending
]

-- What a tick does with a path: leave it, look again later, forget it, or upload it.
pub data Verdict : Type 0 where
  wait reset forget start : Verdict

-- The tests that a tick makes outside the cache: `uploadBlocked` and `fileInUse`.
pub record Busy : Type 0 where
  pub blocked : FilePath → Bool
  pub in_use : FilePath → Bool

unfoldable pub judge : Busy → Host → FilePath → ℕ → Verdict
judge busy h p seen = if ltb (h.now - seen) stable_time then wait else elim (stat h p) [
  | none ↦ forget
  | some info ↦
      if info.is_dir
      then forget
      else if path_has_suffix p (codes ".tmp")
      then wait
      else if busy.blocked p || busy.in_use p
      then reset
      else start
]

-- What a tick leaves of one entry in the map.
abbrev pub left_of : Host → Verdict → ℕ → Option ℕ
left_of h wait seen = some seen
left_of h reset seen = some h.now
left_of h forget seen = none
left_of h start seen = none

-- The tick, over the entries in whatever order: the paths whose uploads it starts, and the map.
unfoldable pub tick : Busy → Host → Pending → List FilePath × Pending
unfolding judge
tick busy h [] = ([], [])
tick busy h ((p, seen) ∷ rest) =
    let (started, kept) = tick busy h rest in
    elim (judge busy h p seen) [
      | wait ↦ (started, (p, seen) ∷ kept)
      | reset ↦ (started, (p, h.now) ∷ kept)
      | forget ↦ (started, kept)
      | start ↦ (p ∷ started, kept)
    ]

-- What the select receives; errors of the watcher are only logged.
pub data Round : Type 0 where
  event : Bool → FilePath → Round
  request : FilePath → Round
  tick_of : Busy → Round

-- The directory is that of the configuration.
module _ ⦃json : MetaJson⦄ (fc : FileCache) (cache_dir : FilePath) where
  -- An event of fsnotify: the file was created or written, or something else happened to it.
  unfoldable pub take_event : Bool → FilePath → Pending × Host → Pending × Host
  take_event false p (pending, h) = (pending, h)
  take_event true p (pending, h) = elim (lookup p pending) [
    | some _ ↦ (insert p h.now pending, h)
    | none ↦
        let (marked, h') = mark_pending_upload fc cache_dir p h in
        if marked then (insert p h.now pending, h') else (pending, h')
  ]

  -- One case of the select, with the host as it is then.
  unfoldable pub round : Round → Host → Pending → List FilePath × Pending
  unfolding take_event take_request tick
  round (event relevant p) h pending = ([], (take_event relevant p (pending, h)).0)
  round (request p) h pending = ([], take_request p h.now pending)
  round (tick_of busy) h pending = tick busy h pending

  -- The loop: the uploads that it starts, and the map. The host of each round is what the daemon, PVE
  -- and others made of it until then.
  unfoldable pub run : List (Round × Host) → Pending → List FilePath × Pending
  unfolding round
  run [] pending = ([], pending)
  run ((r, h) ∷ rounds) pending =
      let (now_started, pending') = round r h pending in
      let (started, end) = run rounds pending' in (now_started ++ started, end)
