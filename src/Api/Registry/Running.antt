-- ===== src/Api/Registry/Running.antt =====
-- The goroutine of an upload (uploadNewFile of internal/api/watcher.go) at one path, with what the
-- other goroutines do to the path while an attempt runs.
use proxs.Prelude.{
  ℕ, Bool, Option, none, some, List, [], ◌∷◌, if◌then◌else◌, nat_eq, list_eq, codes,
}
use proxs.FilePath.{FilePath, path_has_suffix}
use proxs.Api.Registry.{
  Registry, Started, start_upload, end_attempt, block, unblock, handed_back, joined, running,
}

-- What comes during an attempt: another trigger, or a handler that blocks the path or lets it go.
pub data Arrival : Type 0 where
  triggered blocking releasing : Arrival

unfoldable pub arrive : Arrival → Registry → Registry
unfolding start_upload block unblock
arrive triggered r = (start_upload r).1
arrive blocking r = (block r).1
arrive releasing r = unblock r

unfoldable pub arrive_all : List Arrival → Registry → Registry
unfolding arrive
arrive_all [] r = r
arrive_all (a ∷ rest) r = arrive_all rest (arrive a r)

-- An attempt of `uploadOnce`: what comes meanwhile, in its order, and whether it wants a retry.
pub record Attempt : Type 0 where
  pub arrivals : List Arrival
  pub retry_wanted : Bool

-- The loop over the attempts, as long as they are given. It is none if the loop goes on after them.
unfoldable pub upload_loop : ℕ → List Attempt → Registry → Option Registry
unfolding end_attempt arrive_all
upload_loop retry_base [] r = none
upload_loop retry_base (a ∷ rest) r =
    let (again, r') = end_attempt retry_base a.retry_wanted (arrive_all a.arrivals r) in
    let later = upload_loop retry_base rest r' in if again then later else some r'

-- `uploadNewFile`, with the answer to the trigger where it is not for a sidecar. The caller asks
-- again for an upload that is handed back.
unfoldable pub upload_new_file :
    ℕ → FilePath → List Attempt → Registry → Option (Option Started × Registry)
unfolding start_upload upload_loop
upload_new_file retry_base local_path attempts r =
    if path_has_suffix local_path (codes ".meta")
    then some (none, r)
    else let (answer, r') = start_upload r in
      let ended = upload_loop retry_base attempts r' in
      elim answer [
        | running ↦ elim ended [ none ↦ none | some e ↦ some (some running, e) ]
        | handed_back ↦ some (some handed_back, r')
        | joined ↦ some (some joined, r')
      ]
