-- ===== src/Api/Registry.antt =====
-- The bookkeeping of background uploads in internal/api (uploadNewFile, scheduleRetryLocked,
-- blockUploads): the maps uploads, blocked, retries and retryTimers at one local path. Every
-- function is what one goroutine does while it holds uploadsMu.
pub mod Backoff
pub mod Exclusion
pub mod Lock
pub mod Running
pub mod Ending
mod Examples
use proxs.Prelude.{
  ℕ, zero, suc, ◌+◌, ◌-◌, ◌*◌, Bool, true, false, not, ◌&&◌, Option, none, some, ltb, if◌then◌else◌,
  nat_eq, list_eq,
}

-- `uploadState`. Its channel `done` is closed when the map `uploads` drops it.
pub record UploadState : Type 0 where
  pub rerun : Bool
  pub canceled : Bool

pub record Registry : Type 0 where
  pub upload : Option UploadState
  pub blocked : ℕ
  pub retries : ℕ
  pub timer : Option ℕ

abbrev pub empty : Registry
empty = record { upload = none; blocked = 0; retries = 0; timer = none }

-- Thirty minutes.
abbrev pub max_delay : ℕ
max_delay = 1800000000000

-- The loop of `scheduleRetryLocked`, over the attempts left.
unfoldable pub double_delay : ℕ → ℕ → ℕ
double_delay zero delay = delay
double_delay (suc attempts) delay =
    let longer = double_delay attempts (delay * 2) in if ltb delay max_delay then longer else delay

unfoldable pub retry_delay : ℕ → ℕ → ℕ
unfolding double_delay
retry_delay retry_base attempt =
    let delay = double_delay attempt retry_base in if ltb max_delay delay then max_delay else delay

-- `scheduleRetryLocked`: one timer, which a further failure resets.
unfoldable pub schedule_retry : ℕ → Registry → Registry
schedule_retry retry_base r = record r {
  retries = r.retries + 1;
  timer = some (retry_delay retry_base r.retries);
}

-- What `uploadNewFile` does with a trigger: hand it back to the watcher, ask the upload that runs
-- for a rerun, or start one.
pub data Started : Type 0 where
  handed_back joined running : Started

unfoldable pub start_upload : Registry → Started × Registry
start_upload r = if ltb 0 r.blocked then (handed_back, r) else elim r.upload [
  | some st ↦ (joined, record r { upload = some (record st { rerun = true }) })
  | none ↦ (running, record r { upload = some (record { rerun = false; canceled = false }) })
]

unfoldable pub forget_retry : Registry → Registry
forget_retry r = record r { retries = 0; timer = none }

-- After an attempt of `uploadOnce`, whether the loop goes on. Without an upload there is no loop.
unfoldable pub end_attempt : ℕ → Bool → Registry → Bool × Registry
unfolding schedule_retry forget_retry
end_attempt retry_base retry_wanted r = elim r.upload [
  | none ↦ (false, r)
  | some st ↦
      if st.rerun && not st.canceled
      then (true, record r { upload = some (record st { rerun = false }) })
      else if retry_wanted && not st.canceled
      then (false, schedule_retry retry_base (record r { upload = none }))
      else (false, forget_retry (record r { upload = none }))
]

-- `blockUploads`, up to the wait, with whether there is something to wait for.
unfoldable pub block : Registry → Bool × Registry
block r = elim r.upload [
  | none ↦ (false, record r { blocked = r.blocked + 1 })
  | some st ↦ (
    true,
    record r { blocked = r.blocked + 1; upload = some (record { rerun = false; canceled = true }) },
  )
]

-- The function that it returns.
unfoldable pub unblock : Registry → Registry
unblock r = record r { blocked = r.blocked - 1 }

-- `uploadBlocked`.
unfoldable pub upload_blocked : Registry → Bool
upload_blocked r = ltb 0 r.blocked

-- The timer's function, before it requests the upload again.
unfoldable pub timer_fires : Registry → Registry
timer_fires r = record r { timer = none }
