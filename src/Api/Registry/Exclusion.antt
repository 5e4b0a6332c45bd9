-- ===== src/Api/Registry/Exclusion.antt =====
-- blockUploads and the uploads of a path (internal/api): the goroutines as steps over the registry of
-- the path.
use proxs.Prelude.{
  refl, ℕ, ◌+◌, ◌-◌, ◌<◌, ◌≡◌, Bool, true, false, Option, none, some, arith, nat_eq, list_eq,
}
use proxs.Api.Registry.{
  UploadState, Registry, empty, start_upload, end_attempt, block, unblock, timer_fires, handed_back,
  joined,
}

-- The handlers at the path: those that wait for an upload to end, and those that work.
pub record System : Type 0 where
  pub registry : Registry
  pub waiting : ℕ
  pub working : ℕ

abbrev pub idle_system : System
idle_system = record { registry = empty; waiting = 0; working = 0 }

abbrev pub entered : System → Bool × Registry → System
entered s (true, r) = record s { registry = r; waiting = s.waiting + 1 }
entered s (false, r) = record s { registry = r; working = s.working + 1 }

-- One step of one goroutine. A handler that waits goes on when `done` was closed, which the upload
-- does when it leaves the map.
pub data Step : System → System → Type 0 where
  trigger : (s : System) → Step s (record s { registry = (start_upload s.registry).1 })
  attempt :
      (s : System) (retry_base : ℕ) (retry_wanted : Bool)
      → Step s (record s { registry = (end_attempt retry_base retry_wanted s.registry).1 })
  enter : (s : System) → Step s (entered s (block s.registry))
  resume :
      (s : System)
      → 0 < s.waiting
      → s.registry.upload ≡ none
      → Step s (record s { waiting = s.waiting - 1; working = s.working + 1 })
  leave :
      (s : System)
      → 0 < s.working
      → Step s (record s { registry = unblock s.registry; working = s.working - 1 })
  fire : (s : System) → Step s (record s { registry = timer_fires s.registry })

pub data Reach (s : System) : System → Type 0 where
  here : Reach s s
  next : {t u : System} → Reach s t → Step t u → Reach s u

abbrev pub Canceled : Option UploadState → Type 0
Canceled none = Unit
Canceled (some st) = (st.canceled ≡ true) × (st.rerun ≡ false)

pub record Inv (s : System) : Type 0 where
  pub counted : s.registry.blocked ≡ s.waiting + s.working
  pub excluded : 0 < s.working → s.registry.upload ≡ none
  pub canceled : 0 < s.registry.blocked → Canceled s.registry.upload

start_upload-Inv : (s : System) → Inv s → Inv (record s { registry = (start_upload s.registry).1 })
unfolding start_upload
start_upload-Inv s v = ground arith

end_attempt-Inv :
    (s : System) (retry_base : ℕ) (retry_wanted : Bool)
    → Inv s
    → Inv (record s { registry = (end_attempt retry_base retry_wanted s.registry).1 })
unfolding end_attempt
end_attempt-Inv s retry_base retry_wanted v = ground arith

block-Inv : (s : System) → Inv s → Inv (entered s (block s.registry))
unfolding block
block-Inv s v = ground arith

Step-Inv : {s t : System} → Step s t → Inv s → Inv t
unfolding unblock timer_fires
Step-Inv (trigger s) v = start_upload-Inv s v
Step-Inv (attempt s retry_base retry_wanted) v = end_attempt-Inv s retry_base retry_wanted v
Step-Inv (enter s) v = block-Inv s v
Step-Inv (resume s w n) v = ground arith
Step-Inv (leave s w) v = ground arith
Step-Inv (fire s) v = record { counted = v.counted; excluded = v.excluded; canceled = v.canceled }

pub Reach-Inv : {s t : System} → Inv s → Reach s t → Inv t
Reach-Inv v here = v
Reach-Inv v (next r st) = Step-Inv st (Reach-Inv v r)

pub idle-Inv : Inv idle_system
idle-Inv = record { counted = refl; excluded = λ w. refl; canceled = λ b. tt }

-- Whatever goroutines ran before, while a delete or rename works on the path no upload of it is in
-- flight, and a trigger of one is handed back and changes nothing.
pub working_alone :
    (s : System)
    → Reach idle_system s
    → 0 < s.working
    → (s.registry.upload ≡ none) × (start_upload s.registry ≡ (handed_back, s.registry))
unfolding start_upload
working_alone s r w = ground (arith, Reach-Inv idle-Inv r)

-- A handler that waits is let go on by the end of the attempt that runs, however it ended and even
-- if another trigger came: the upload loop stops there and leaves the map, with no retry scheduled.
pub wait_ends :
    (s : System) (retry_base : ℕ) (retry_wanted : Bool) (st : UploadState)
    → Reach idle_system s
    → 0 < s.waiting
    → s.registry.upload ≡ some st
    → let (again, r') = end_attempt retry_base retry_wanted s.registry in
      (again ≡ false) × (r'.upload ≡ none) × (r'.timer ≡ none) × (r'.blocked ≡ s.registry.blocked)
unfolding end_attempt
wait_ends s retry_base retry_wanted st r w u =
    ground (arith, Reach-Inv idle-Inv r, (Reach-Inv idle-Inv r).canceled)

-- A trigger that finds an upload running that is not canceled, of a path that nobody blocks, is not
-- lost: if nothing comes in between, the attempt that runs is followed by another, whether or not
-- it failed.
pub trigger_reruns :
    (r : Registry) (st : UploadState) (retry_base : ℕ) (retry_wanted : Bool)
    → r.blocked ≡ 0
    → r.upload ≡ some st
    → st.canceled ≡ false
    → let (answer, r') = start_upload r in
      (answer ≡ joined)
      × ((end_attempt retry_base retry_wanted r').0 ≡ true)
      × ((end_attempt retry_base retry_wanted r').1.upload
          ≡ some (record { rerun = false; canceled = false }))
unfolding start_upload end_attempt
trigger_reruns r st retry_base retry_wanted b u c = ground arith
