-- ===== src/Api/Watcher/Loop/Tracking.antt =====
-- Pending paths over the rounds of watchCacheDirs (internal/api/watcher.go).
use proxs.Prelude.{
  ℕ, ◌≡◌, refl, ◌≢◌, ◌⊎◌, inl, inr, true, false, ◌||◌, none, some, List, [], ◌∷◌, ◌++◌, arith,
  Option-cases, nat_eq, list_eq, lookup, IsMap, lookup-insert, insert-IsMap,
}
use proxs.FilePath.{FilePath}
use proxs.Host.{Host, FileInfo, stat}
use proxs.Cache.Meta.{MetaJson}
use proxs.Cache.Entry.{FileCache}
use proxs.Api.Watcher.Loop.{
  Pending, take_request, Verdict, Busy, judge, tick, Round, take_event, round, run, wait, reset,
  forget, start, event, request, tick_of,
}
use proxs.Api.Watcher.Loop.Rounds.{is_started, tick-judged}

-- There is no regular file at a path.
abbrev pub IsGone : Host → FilePath → Type 0
IsGone h p = (info : FileInfo) → stat h p ≡ some info → info.is_dir ≡ true

-- Some round found no regular file at a path.
abbrev pub WasGone : FilePath → List (Round × Host) → Type 0
WasGone p [] = ⊥
WasGone p ((r, h) ∷ rounds) = IsGone h p ⊎ WasGone p rounds

is_started-append :
    (p : FilePath) (xs ys : List FilePath)
    → is_started p (xs ++ ys) ≡ (is_started p xs || is_started p ys)
is_started-append p [] ys = refl
is_started-append p (x ∷ xs) ys = ground (arith, is_started-append p xs ys)

forgotten-IsGone :
    (busy : Busy) (h : Host) (p : FilePath) (seen : ℕ) → judge busy h p seen ≡ forget → IsGone h p
unfolding judge
forgotten-IsGone busy h p seen j = λ info s. ground arith

tick-keeps :
    (busy : Busy) (h : Host) (pending : Pending) (p : FilePath)
    → IsMap pending
    → lookup p pending ≢ none
    → (lookup p (tick busy h pending).1 ≢ none)
      ⊎ ((is_started p (tick busy h pending).0 ≡ true) ⊎ IsGone h p)
tick-keeps busy h pending p m l = elim (Option-cases (lookup p pending)) [
  | inl n ↦ absurd (l n)
  | inr (seen, e) ↦ verdict seen e (judge busy h p seen) refl
]
  where
    verdict :
        (seen : ℕ)
        → lookup p pending ≡ some seen
        → (v : Verdict) → judge busy h p seen ≡ v
        → (lookup p (tick busy h pending).1 ≢ none)
          ⊎ ((is_started p (tick busy h pending).0 ≡ true) ⊎ IsGone h p)
    verdict seen e wait j = inl (ground (arith, tick-judged busy h pending p m))
    verdict seen e reset j = inl (ground (arith, tick-judged busy h pending p m))
    verdict seen e forget j = inr (inr (forgotten-IsGone busy h p seen j))
    verdict seen e start j = inr (inl (ground (arith, tick-judged busy h pending p m)))

tick-IsMap :
    (busy : Busy) (h : Host) (pending : Pending) → IsMap pending → IsMap (tick busy h pending).1
unfolding tick
tick-IsMap busy h [] m = tt
tick-IsMap busy h ((q, seen) ∷ rest) m =
    ground (arith, tick-IsMap busy h rest m.1, tick-judged busy h rest q m.1)

module _ ⦃json : MetaJson⦄ (fc : FileCache) (cache_dir : FilePath) where
  round-IsMap :
      (r : Round) (h : Host) (pending : Pending)
      → IsMap pending
      → IsMap (round fc cache_dir r h pending).1
  unfolding round take_event take_request
  round-IsMap (event true p) h pending m = ground (arith, insert-IsMap p h.now pending m)
  round-IsMap (event false p) h pending m = m
  round-IsMap (request p) h pending m = ground (arith, insert-IsMap p h.now pending m)
  round-IsMap (tick_of busy) h pending m = tick-IsMap busy h pending m

  round-keeps :
      (r : Round) (h : Host) (pending : Pending) (p : FilePath)
      → IsMap pending
      → lookup p pending ≢ none
      → (lookup p (round fc cache_dir r h pending).1 ≢ none)
        ⊎ ((is_started p (round fc cache_dir r h pending).0 ≡ true) ⊎ IsGone h p)
  unfolding round take_event take_request
  round-keeps (event true q) h pending p m l = inl (ground (arith, lookup-insert q h.now p pending))
  round-keeps (event false q) h pending p m l = inl l
  round-keeps (request q) h pending p m l = inl (ground (arith, lookup-insert q h.now p pending))
  round-keeps (tick_of busy) h pending p m l = tick-keeps busy h pending p m l

  -- Over any rounds, a path that is pending is pending at the end, or its upload was started, or
  -- some round found no regular file there: no write that the watcher has seen is forgotten.
  pub run-keeps :
      (rounds : List (Round × Host)) (pending : Pending) (p : FilePath)
      → IsMap pending
      → lookup p pending ≢ none
      → (lookup p (run fc cache_dir rounds pending).1 ≢ none)
        ⊎ ((is_started p (run fc cache_dir rounds pending).0 ≡ true) ⊎ WasGone p rounds)
  unfolding run
  run-keeps [] pending p m l = inl l
  run-keeps ((r, h) ∷ rounds) pending p m l = elim (round-keeps r h pending p m l) [
    | inr (inr g) ↦ inr (inr (inl g))
    | inr (inl s) ↦ inr (
        inl (
          ground (
            arith,
            is_started-append p (round fc cache_dir r h pending).0
                (run fc cache_dir rounds (round fc cache_dir r h pending).1).0,
          )))
    | inl k ↦
        later (run-keeps rounds (round fc cache_dir r h pending).1 p (round-IsMap r h pending m) k)
  ]
    where
      later :
          (lookup p (run fc cache_dir rounds (round fc cache_dir r h pending).1).1 ≢ none)
            ⊎ ((is_started p (run fc cache_dir rounds (round fc cache_dir r h pending).1).0 ≡ true)
                ⊎ WasGone p rounds)
          → (lookup p (run fc cache_dir ((r, h) ∷ rounds) pending).1 ≢ none)
            ⊎ ((is_started p (run fc cache_dir ((r, h) ∷ rounds) pending).0 ≡ true)
                ⊎ WasGone p ((r, h) ∷ rounds))
      later (inl k) = inl k
      later (inr (inl s)) = inr (
          inl (
            ground (
              arith,
              is_started-append p (round fc cache_dir r h pending).0
                  (run fc cache_dir rounds (round fc cache_dir r h pending).1).0,
            )))
      later (inr (inr g)) = inr (inr (inr g))
