-- ===== src/Api/Registry/Examples.antt =====
-- The theorems about the bookkeeping of uploads at small states.

use proxs.Prelude.{
  Option, List, [], ◌∷◌, any, codes, ◌*◌, ◌^◌, ◌≡◌, refl, true, false, none, some, arith, nat_eq,
  list_eq,
}
use proxs.Cache.Sample.{plain_json}
use proxs.Api.Registry.{
  Started, Registry, empty, max_delay, retry_delay, start_upload, end_attempt, block, handed_back,
  joined,
}
use proxs.Api.Registry.Backoff.{retry_delay-eq}
use proxs.Api.Registry.Exclusion.{
  System, idle_system, Reach, working_alone, wait_ends, trigger_reruns, trigger, enter, here, next,
}
use proxs.Api.Registry.Lock.{events_of, LockReach, open_lock, view, Reach-LockReach}
use proxs.Api.Registry.Running.{Attempt, triggered, blocking, upload_new_file}
use proxs.Api.Registry.Ending.{upload_new_file-ends}
use Prim.Native.Nat.{min}

retry_delay-eq_example : retry_delay 60 3 ≡ min (60 * 2 ^ 3) max_delay
retry_delay-eq_example = retry_delay-eq 60 3

-- A handler works, and a second one came.
abbrev busy : System
busy = record { registry = record empty { blocked = 1 }; waiting = 0; working = 1 }

busy_reached : Reach idle_system busy
unfolding block
busy_reached = next here (enter idle_system)

working_alone_example :
    (busy.registry.upload ≡ none) × (start_upload busy.registry ≡ (handed_back, busy.registry))
working_alone_example = working_alone busy busy_reached (omega arith)

-- An upload runs, and a handler waits for it.
abbrev uploading : System
uploading = record {
  registry = record empty { upload = some (record { rerun = false; canceled = false }) };
  waiting = 0;
  working = 0;
}

abbrev pausing : System
pausing = record {
  registry = record empty {
    upload = some (record { rerun = false; canceled = true });
    blocked = 1;
  };
  waiting = 1;
  working = 0;
}

pausing_reached : Reach idle_system pausing
unfolding start_upload block
pausing_reached = next (next here (trigger idle_system)) (enter uploading)

wait_ends_example :
    let (again, r') = end_attempt 60 true pausing.registry in
    (again ≡ false)
    × (r'.upload ≡ none)
    × (r'.timer ≡ none)
    × (r'.blocked ≡ pausing.registry.blocked)
wait_ends_example =
    wait_ends pausing 60 true (record { rerun = false; canceled = true }) pausing_reached
      (omega arith) refl

trigger_reruns_example :
    let (answer, r') = start_upload uploading.registry in
    (answer ≡ joined)
    × ((end_attempt 60 false r').0 ≡ true)
    × ((end_attempt 60 false r').1.upload ≡ some (record { rerun = false; canceled = false }))
trigger_reruns_example =
    trigger_reruns uploading.registry (record { rerun = false; canceled = false }) 60 false refl
      refl refl

Reach-LockReach_example : LockReach open_lock (events_of pausing_reached) (view pausing)
Reach-LockReach_example = Reach-LockReach pausing pausing_reached

-- Triggered again during the first attempt, and met by a handler during the second.
abbrev two_attempts : List Attempt
two_attempts =
    record { arrivals = triggered ∷ []; retry_wanted = false }
    ∷ record { arrivals = triggered ∷ blocking ∷ []; retry_wanted = true }
    ∷ []

upload_new_file-ends_example :
    (answer : Option Started) × (r' : Registry) × (upload_new_file 60
        (codes "a" ∷ [])
        two_attempts
        empty
      ≡ some (answer, r'))
    × (r'.upload ≡ none)
unfolding any
upload_new_file-ends_example = upload_new_file-ends 60 (codes "a" ∷ []) two_attempts empty refl refl
