-- ===== src/Api/Watcher/Loop/Rounds.antt =====
-- The ticks of watchCacheDirs (internal/api/watcher.go): what becomes of each path.
use proxs.Prelude.{
  ℕ, ◌-◌, ◌≤◌, ◌≡◌, refl, ◌↔◌, inl, inr, Bool, true, false, ◌||◌, Option, none, some, List, [], ◌∷◌,
  arith, Option-cases, ◌==◌, eq_iff, nat_eq, list_eq, codes, lookup, IsMap,
}
use proxs.FilePath.{FilePath, path_has_suffix}
use proxs.Host.{Host, FileInfo, stat}
use proxs.Api.Watcher.Loop.{Pending, stable_time, Verdict, Busy, judge, left_of, tick, start}

-- Whether a path is among those whose uploads were started.
abbrev pub is_started : FilePath → List FilePath → Bool
is_started p [] = false
is_started p (q ∷ started) = q == p || is_started p started

module _ (busy : Busy) (h : Host) where
  -- The tick on a single path that may be pending.
  abbrev pub judged : FilePath → Option ℕ → Option ℕ
  judged p none = none
  judged p (some seen) = left_of h (judge busy h p seen) seen

  abbrev pub is_start : Verdict → Bool
  is_start start = true
  is_start _ = false

  abbrev pub judged_start : FilePath → Option ℕ → Bool
  judged_start p none = false
  judged_start p (some seen) = is_start (judge busy h p seen)

  pub tick-judged :
      (pending : Pending) (p : FilePath)
      → IsMap pending
      → (lookup p (tick busy h pending).1 ≡ judged p (lookup p pending))
        × (is_started p (tick busy h pending).0 ≡ judged_start p (lookup p pending))
  unfolding tick
  tick-judged [] p m = (refl, refl)
  tick-judged ((q, seen) ∷ rest) p m = ground (arith, tick-judged rest p m.1, eq_iff q p)

  -- A path that was seen at `seen`, has not changed for three seconds, is a regular file, no
  -- temporary one, and neither blocked nor in use.
  pub record IsReady (p : FilePath) (seen : ℕ) : Type 0 where
    pub stable : stable_time ≤ h.now - seen
    pub info : FileInfo
    pub there : stat h p ≡ some info
    pub regular : info.is_dir ≡ false
    pub complete : path_has_suffix p (codes ".tmp") ≡ false
    pub unblocked : busy.blocked p ≡ false
    pub closed : busy.in_use p ≡ false

  judge-IsReady : (p : FilePath) (seen : ℕ) → judge busy h p seen ≡ start → IsReady p seen
  unfolding judge
  judge-IsReady p seen j = elim (Option-cases (stat h p)) [
    | inl s ↦ ground arith
    | inr (info, s) ↦ record {
      stable = ground arith;
      info = info;
      there = s;
      regular = ground arith;
      complete = ground arith;
      unblocked = ground arith;
      closed = ground arith;
    }
  ]

  IsReady-judge : (p : FilePath) (seen : ℕ) → IsReady p seen → judge busy h p seen ≡ start
  unfolding judge
  IsReady-judge p seen r =
      ground (arith, r.stable, r.there, r.regular, r.complete, r.unblocked, r.closed)

  -- A tick starts the upload of a path exactly if the path is pending and ready.
  pub tick-IsReady :
      (pending : Pending) (p : FilePath)
      → IsMap pending
      → (is_started p (tick busy h pending).0 ≡ true)
        ↔ ((seen : ℕ) × (lookup p pending ≡ some seen) × IsReady p seen)
  tick-IsReady pending p m = (
    λ s. elim (Option-cases (lookup p pending)) [
      | inl l ↦ ground (arith, tick-judged pending p m)
      | inr (seen, l) ↦ (seen, l, judge-IsReady p seen (ground (arith, tick-judged pending p m)))
    ],
    λ (seen, l, r). ground (arith, tick-judged pending p m, IsReady-judge p seen r),
  )
