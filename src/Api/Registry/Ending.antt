-- ===== src/Api/Registry/Ending.antt =====
-- The end of the loop of uploadNewFile (internal/api/watcher.go).
use proxs.Prelude.{
  ℕ, ◌≡◌, refl, ap, inl, inr, Bool, true, false, not, ◌&&◌, ◌||◌, Option, none, some, List, [], ◌∷◌,
  arith, ltb, Bool-cases, nat_eq, list_eq, any, codes,
}
use proxs.FilePath.{FilePath, path_has_suffix}
use proxs.Api.Registry.{
  UploadState, Registry, schedule_retry, Started, start_upload, forget_retry, end_attempt, block,
  unblock, handed_back, running,
}
use proxs.Api.Registry.Running.{
  Arrival, triggered, blocking, releasing, arrive, arrive_all, Attempt, upload_loop,
  upload_new_file,
}

abbrev pub is_trigger : Arrival → Bool
is_trigger triggered = true
is_trigger blocking = false
is_trigger releasing = false

abbrev pub is_blocking : Arrival → Bool
is_blocking triggered = false
is_blocking blocking = true
is_blocking releasing = false

-- An attempt that nobody triggered again, or during which a handler came.
abbrev pub is_last : Attempt → Bool
is_last a = any is_blocking a.arrivals || not (any is_trigger a.arrivals)

-- What is left of the state of an upload when others worked on it.
record After (blocked triggers : Bool) (st : UploadState) (r : Registry) : Type 0 where
  found : UploadState
  in_map : r.upload ≡ some found
  canceled_eq : found.canceled ≡ (blocked || st.canceled)
  quiet : triggers ≡ false → st.rerun ≡ false → found.rerun ≡ false

arrive-After :
    (a : Arrival) (r : Registry) (st : UploadState)
    → r.upload ≡ some st
    → After (is_blocking a) (is_trigger a) st (arrive a r)
unfolding arrive start_upload block unblock
arrive-After triggered r st u = elim (Bool-cases (ltb 0 r.blocked)) [
  | inl b ↦ record {
    found = st;
    in_map = rw (arrive, b) u;
    canceled_eq = refl;
    quiet = ground arith;
  }
  | inr b ↦ record {
    found = record st { rerun = true };
    in_map = rw (arrive, b, u) refl;
    canceled_eq = refl;
    quiet = ground arith;
  }
]
arrive-After blocking r st u = record {
  found = record { rerun = false; canceled = true };
  in_map = rw (arrive, u) refl;
  canceled_eq = refl;
  quiet = λ _ _. refl;
}
arrive-After releasing r st u = record {
  found = st;
  in_map = u;
  canceled_eq = refl;
  quiet = λ _ q. q;
}

arrive_all-After :
    (arrivals : List Arrival) (r : Registry) (st : UploadState)
    → r.upload ≡ some st
    → After (any is_blocking arrivals) (any is_trigger arrivals) st (arrive_all arrivals r)
unfolding arrive_all any
arrive_all-After [] r st u = record { found = st; in_map = u; canceled_eq = refl; quiet = λ _ q. q }
arrive_all-After (a ∷ rest) r st u =
    let one = arrive-After a r st u in
    let others = arrive_all-After rest (arrive a r) one.found one.in_map in
    record {
      found = others.found;
      in_map = others.in_map;
      canceled_eq = ground (arith, others.canceled_eq, one.canceled_eq);
      quiet = ground (arith, others.quiet, one.quiet);
    }

-- The end of an attempt: the loop goes on with a state that is not to be rerun, or is over.
end_attempt-cases :
    (retry_base : ℕ) (retry_wanted : Bool) (r : Registry) (st : UploadState)
    → r.upload ≡ some st
    → ((end_attempt retry_base retry_wanted r).0 ≡ (st.rerun && not st.canceled))
      × ((st.rerun && not st.canceled) ≡ true
          → (end_attempt retry_base retry_wanted r).1.upload ≡ some (record st { rerun = false }))
      × ((st.rerun && not st.canceled) ≡ false
          → (end_attempt retry_base retry_wanted r).1.upload ≡ none)
unfolding end_attempt schedule_retry forget_retry
end_attempt-cases retry_base retry_wanted r st u = ground arith

upload_loop-ends :
    (retry_base : ℕ) (attempts : List Attempt) (r : Registry) (st : UploadState)
    → r.upload ≡ some st
    → st.rerun ≡ false
    → any is_last attempts ≡ true
    → (r' : Registry) × (upload_loop retry_base attempts r ≡ some r') × (r'.upload ≡ none)
unfolding upload_loop any
upload_loop-ends retry_base [] r st u q l = ground arith
upload_loop-ends retry_base (a ∷ rest) r st u q l =
    let met = arrive_all-After a.arrivals r st u in
    let found = met.found in
    let over =
      end_attempt-cases retry_base a.retry_wanted (arrive_all a.arrivals r) found met.in_map in
    elim (Bool-cases (found.rerun && not found.canceled)) [
      | inl again ↦
          let (r', e, n) =
            upload_loop-ends retry_base rest
              (end_attempt retry_base a.retry_wanted (arrive_all a.arrivals r)).1
              (record found { rerun = false }) (over.1 again) refl
              (ground (arith, l, q, again, met.canceled_eq, met.quiet)) in
          (r', rw (over.0, again) e, n)
      | inr done ↦ (
        (end_attempt retry_base a.retry_wanted (arrive_all a.arrivals r)).1,
        rw (over.0, done) refl,
        over.2 done,
      )
    ]

start_upload-blocked : (r : Registry) → ltb 0 r.blocked ≡ true → start_upload r ≡ (handed_back, r)
unfolding start_upload
start_upload-blocked r b = rw (start_upload, b) refl

start_upload-alone :
    (r : Registry)
    → r.upload ≡ none
    → ltb 0 r.blocked ≡ false
    → start_upload r
      ≡ (running, record r { upload = some (record { rerun = false; canceled = false }) })
unfolding start_upload
start_upload-alone r n b = rw (start_upload, b, n) refl

-- The goroutine of a trigger that finds no upload of the path comes to its end, and leaves the map
-- without an upload, if one of its attempts is not triggered again or meets a handler. It goes on
-- only while every attempt is triggered again and no handler comes.
pub upload_new_file-ends :
    (retry_base : ℕ) (local_path : FilePath) (attempts : List Attempt) (r : Registry)
    → r.upload ≡ none
    → any is_last attempts ≡ true
    → (answer : Option Started) × (r' : Registry) × (upload_new_file retry_base local_path attempts
          r
        ≡ some (answer, r'))
      × (r'.upload ≡ none)
unfolding upload_new_file
upload_new_file-ends retry_base local_path attempts r n l =
    elim (Bool-cases (path_has_suffix local_path (codes ".meta"))) [
      | inl sidecar ↦ (none, r, rw sidecar refl, n)
      | inr content ↦ elim (Bool-cases (ltb 0 r.blocked)) [
        | inl b ↦ (
          some handed_back,
          r,
          rw (content, start_upload-blocked r b)
              (ap (λ x. some (some handed_back, x.1)) (start_upload-blocked r b)),
          n,
        )
        | inr b ↦
            let (r', e, done) =
              upload_loop-ends retry_base attempts (start_upload r).1
                (record { rerun = false; canceled = false })
                (ap (λ x. x.1.upload) (start_upload-alone r n b)) refl l in
            (some running, r', rw (content, start_upload-alone r n b, e) refl, done)
      ]
    ]
