-- ===== src/Api/Registry/Lock.antt =====
-- The bookkeeping of uploads seen as a lock on the path (uploadNewFile and blockUploads of
-- internal/api): one background upload or any number of handlers, where handlers that come during an
-- upload wait.
use proxs.Prelude.{
  List, [], ◌∷◌, ◌++◌, if◌then◌else◌, ℕ, ◌+◌, ◌-◌, ◌<◌, ◌≡◌, refl, inl, inr, Bool, true, false,
  Option, none, some, arith, ltb, Bool-cases, Option-cases, ◌&&◌, not, subst, nat_eq, list_eq,
  subst,
}
use proxs.Api.Registry.{
  Started, running, joined, handed_back, UploadState, start_upload, end_attempt, block, unblock,
  timer_fires, schedule_retry, forget_retry,
}
use proxs.Api.Registry.Exclusion.{
  System, Inv, idle_system, entered, Step, trigger, attempt, enter, resume, leave, fire, Reach,
  here, next, Reach-Inv, idle-Inv,
}

-- The lock, which knows nothing of triggers, retries and timers.
pub record Lock : Type 0 where
  pub uploading : Bool
  pub waiting : ℕ
  pub working : ℕ

abbrev pub open_lock : Lock
open_lock = record { uploading = false; waiting = 0; working = 0 }

-- What can be seen of the goroutines: uploads begin and end, handlers come and wait or come and
-- work, go on after a wait, and leave.
pub data Event : Type 0 where
  upload_begins upload_ends handler_waits handler_works handler_goes_on handler_leaves : Event

pub data LockStep : Event → Lock → Lock → Type 0 where
  begin_upload :
      (l : Lock)
      → l.uploading ≡ false
      → l.waiting ≡ 0
      → l.working ≡ 0
      → LockStep upload_begins l (record l { uploading = true })
  end_upload :
      (l : Lock) → l.uploading ≡ true → LockStep upload_ends l (record l { uploading = false })
  queue_up :
      (l : Lock)
      → l.uploading ≡ true
      → LockStep handler_waits l (record l { waiting = l.waiting + 1 })
  walk_in :
      (l : Lock)
      → l.uploading ≡ false
      → LockStep handler_works l (record l { working = l.working + 1 })
  let_in :
      (l : Lock)
      → l.uploading ≡ false
      → 0 < l.waiting
      → LockStep handler_goes_on l (record l { waiting = l.waiting - 1; working = l.working + 1 })
  go : (l : Lock) → 0 < l.working → LockStep handler_leaves l (record l { working = l.working - 1 })

-- The runs of the lock with their events, the last one last.
pub data LockReach (k : Lock) : List Event → Lock → Type 0 where
  start : LockReach k [] k
  more :
      {l m : Lock} {events : List Event} {event : Event}
      → LockReach k events l
      → LockStep event l m
      → LockReach k (events ++ event ∷ []) m

abbrev is_uploading : Option UploadState → Bool
is_uploading none = false
is_uploading (some st) = true

-- The lock that a system stands for.
abbrev pub view : System → Lock
view s = record {
  uploading = is_uploading s.registry.upload;
  waiting = s.waiting;
  working = s.working;
}

abbrev started_event : Started → Option Event
started_event running = some upload_begins
started_event joined = none
started_event handed_back = none

abbrev ended_event : Option UploadState → Bool → Option Event
ended_event none goes_on = none
ended_event (some st) goes_on = if goes_on then none else some upload_ends

-- The event of a step, by what the operation answers.
abbrev pub event_of : {s t : System} → Step s t → Option Event
event_of (trigger s) = started_event (start_upload s.registry).0
event_of (attempt s retry_base retry_wanted) =
    ended_event s.registry.upload (end_attempt retry_base retry_wanted s.registry).0
event_of (enter s) = some (if (block s.registry).0 then handler_waits else handler_works)
event_of (resume s w n) = some handler_goes_on
event_of (leave s w) = some handler_leaves
event_of (fire s) = none

abbrev pub followed_by : List Event → Option Event → List Event
followed_by events none = events
followed_by events (some event) = events ++ event ∷ []

-- The events of a run.
abbrev pub events_of : {s t : System} → Reach s t → List Event
events_of here = []
events_of (next r st) = followed_by (events_of r) (event_of st)

-- A step of the system is a step of the lock with its event, or one that the lock does not see.
abbrev Simulated : Option Event → Lock → Lock → Type 0
Simulated none l m = l ≡ m
Simulated (some event) l m = LockStep event l m

trigger-Simulated :
    (s : System)
    → Inv s
    → Simulated
        (started_event (start_upload s.registry).0)
        (view s)
        (view (record s { registry = (start_upload s.registry).1 }))
unfolding start_upload
trigger-Simulated s v = elim (Bool-cases (ltb 0 s.registry.blocked)) [
  | inl b ↦ rw b refl
  | inr b ↦ elim (Option-cases s.registry.upload) [
    | inr (st, u) ↦ rw (b, u) refl
    | inl u ↦
        rw (b, u) (begin_upload _ refl (ground (arith, v.counted)) (ground (arith, v.counted)))
  ]
]

attempt-Simulated :
    (s : System) (retry_base : ℕ) (retry_wanted : Bool)
    → Simulated
        (ended_event s.registry.upload (end_attempt retry_base retry_wanted s.registry).0)
        (view s)
        (view (record s { registry = (end_attempt retry_base retry_wanted s.registry).1 }))
unfolding end_attempt schedule_retry forget_retry
attempt-Simulated s retry_base retry_wanted = elim (Option-cases s.registry.upload) [
  | inl u ↦ rw u refl
  | inr (st, u) ↦ elim (Bool-cases (st.rerun && not st.canceled)) [
    | inl again ↦ rw (u, again) refl
    | inr over ↦ elim (Bool-cases (retry_wanted && not st.canceled)) [
      | inl retried ↦ rw (u, over, retried) (end_upload _ refl)
      | inr done ↦ rw (u, over, done) (end_upload _ refl)
    ]
  ]
]

enter-Simulated :
    (s : System)
    → LockStep
        (if (block s.registry).0 then handler_waits else handler_works)
        (view s)
        (view (entered s (block s.registry)))
unfolding block
enter-Simulated s = elim (Option-cases s.registry.upload) [
  | inl u ↦ rw u (walk_in _ refl)
  | inr (st, u) ↦ rw u (queue_up _ refl)
]

Step-Simulated :
    {s t : System} → Inv s → (st : Step s t) → Simulated (event_of st) (view s) (view t)
unfolding unblock timer_fires
Step-Simulated v (trigger s) = trigger-Simulated s v
Step-Simulated v (attempt s retry_base retry_wanted) = attempt-Simulated s retry_base retry_wanted
Step-Simulated v (enter s) = enter-Simulated s
Step-Simulated v (resume s w n) = let_in (view s) (rw n refl) w
Step-Simulated v (leave s w) = go (view s) w
Step-Simulated v (fire s) = refl

and_then :
    {k l m : Lock} {events : List Event} (event : Option Event)
    → LockReach k events l
    → Simulated event l m
    → LockReach k (followed_by events event) m
and_then none r e = subst (LockReach _ _) e r
and_then (some event) r st = more r st

-- Whatever goroutines run on a path, with retries, reruns and timers, the uploads that begin and end
-- and the handlers that wait, work and leave, in their order, are a run of the lock, which ends as
-- they do: an upload begins only when no handler waits or works and no other runs, and a handler
-- works only when no upload runs.
pub Reach-LockReach :
    (s : System) (r : Reach idle_system s) → LockReach open_lock (events_of r) (view s)
Reach-LockReach _ here = start
Reach-LockReach _ (next {t} r st) =
    and_then (event_of st) (Reach-LockReach t r) (Step-Simulated (Reach-Inv idle-Inv r) st)
