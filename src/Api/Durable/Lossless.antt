-- ===== src/Api/Durable/Lossless.antt =====
-- The content of an entry over everything that the daemon does on its own.
use proxs.Api.Resync.{resync_file}
use proxs.Prelude.{
  refl, arith, ℕ, ◌≡◌, sym, ap, ◌∙◌, subst, ◌⊎◌, inl, inr, Bool, false, Option, none, some, ◌==◌,
  nat_eq, list_eq, Text, codes,
}
use proxs.Prelude.{List, All}
use mathlib.Core.Option.{some_inj}
use proxs.S3client.{Head, ObjectInfo, found, missing, unknown, download_object}
use proxs.Api.Download.Parts.{
  Action, Pull, no_pull, judged, asked, fetched, placed, serves, backfills, purges, refetches,
  fetches, next_pull, action_of, act, save, store_meta,
}
use proxs.Cache.Eviction.{Visit, evict_by_age}
use proxs.Cache.SizeLimit.{scan, evict_scanned}
use proxs.Cache.AgeSafety.{IsVisit}
use proxs.Cache.SizeSafety.{IsCacheVisit}
use proxs.Api.Durable.{sent, resynced, resync_file}
use proxs.FilePath.{path_has_suffix}
use proxs.Host.{Host, FileInfo, read_file}
use proxs.Host.Laws.{IsWritable}
use proxs.S3client.Library.{Sdk, IsLawful}
use proxs.S3client.{put_object}
use proxs.S3client.Laws.{put_object-stores, put_object-whole, download_object-reads}
use proxs.Cache.Meta.{MetaJson}
use proxs.Cache.Paths.{IsEntry}
use proxs.Cache.Entry.{FileCache, path, meta_path}
use proxs.Cache.SizeLimit.{Scan}
use proxs.Cache.AgeSafety.{evict_by_age-Kept}
use proxs.Cache.SizeSafety.{scan-All, evict_scanned-Kept}
use proxs.Api.Upload.{Begun, over, transfer, begin_upload, finish_upload}
use proxs.Api.Durable.{
  idle, opened, answered, System, Fits, Holds, begun, Step, passes, marks, begins, sends, finishes,
  checks, acts, transfers, moves, stores, moved, ages, scans, evicts, resyncs, Reach, here, next,
  IsMark, IsMarked, IsSent, finish_upload,
}
use proxs.Api.Durable.Removals.{evict_by_age-FitsAt, evict_scanned-FitsAt}
use proxs.Api.Durable.Records.{
  mark_pending-SameFile, begin_upload-SameFile, finish_upload-SameFile, resync_file-SameFile,
  host_of,
}
use proxs.Api.Durable.Downloads.{act-Fitting, save-Fitting, store_meta-Fitting}
use proxs.Api.Durable.Marks.{
  mark_pending-Marked, begin_upload-same, action_of-serves, resync_file-outcome,
}
use proxs.Api.Durable.Held.{
  Holds-Fits, Fits-read, put_object-Sent, Kept-Pends, resync_file-Sent, unsent_copy,
}
use proxs.Api.Durable.Invariant.{
  Holding, PullFits, PullFits-Sent, judged-PullFits, FlightFits, ScanFits, FlightFits-Sent,
  ScanFits-Sent, after_open-Fits, answered-Fits, host_step,
}

module _ ⦃json : MetaJson⦄ ⦃sdk : Sdk⦄ (laws : IsLawful sdk) (fc : FileCache) (storage key c : Text)
    (e : IsEntry storage key)
    (plain : path_has_suffix (path fc storage key) (codes ".meta") ≡ false)
    (cached : (storage == codes ".downloads") ≡ false) where
  abbrev Inv : System → Type 0
  Inv = Holding laws fc storage key c

  abbrev Sent : sdk.State → Type 0
  Sent = IsSent laws fc storage key c

  abbrev Pends : Host → Type 0
  Pends = IsMarked laws fc storage key c

  begun-Inv :
      (s : System) (r : Begun)
      → Inv s
      → Fits c ((host_of fc storage key e r).fs (path fc storage key))
      → (Pends s.host → Pends (host_of fc storage key e r))
      → Inv (begun laws fc storage key s r)
  begun-Inv s (over retry_wanted h) v f k = host_step laws fc storage key c s h v f (λ p. inr (k p))
  begun-Inv s (transfer info started h) v f k = record {
    fits = f;
    safe = elim v.safe [ inl p ↦ inl p | inr p ↦ inr (k p) ];
    flying =
        after_open-Fits laws fc storage key c s.bucket info started
          (read_file h (path fc storage key))
          (λ body r. Fits-read laws fc storage key c h body f r);
    pulling = v.pulling;
    planned = v.planned;
  }

  finished :
      (info : FileInfo) (started : ℕ) (answer : Option Text) (canceled : Bool) (s : System)
      → s.flight ≡ answered info started answer
      → Inv s
      → Pends s.host
      → Sent s.bucket ⊎ Pends (finish_upload fc storage key info started canceled answer s.host).1
  unfolding finish_upload
  finished info started none canceled s at v p = inr p
  finished info started (some etag) canceled s at v p =
      inl (subst (FlightFits laws fc storage key c s.bucket) at v.flying)

  passes-Inv :
      (s : System) (h : Host) (b : sdk.State)
      → h.fs (path fc storage key) ≡ s.host.fs (path fc storage key)
      → h.fs (meta_path fc storage key) ≡ s.host.fs (meta_path fc storage key)
      → laws.content b key ≡ laws.content s.bucket key
      → Inv s
      → Inv (record s { host = h; bucket = b })
  passes-Inv s h b content sidecar objects v = record {
    fits = subst (Fits c) (sym content) v.fits;
    safe = elim v.safe [
      | inl p ↦ inl (objects ∙ p)
      | inr p ↦ inr (record {
        held = subst (Holds c) (sym content) p.held;
        mark = subst (IsMark laws fc storage key) (sym sidecar) p.mark;
      })
    ];
    flying = FlightFits-Sent laws fc storage key c s.flight (λ p. objects ∙ p) v.flying;
    pulling = PullFits-Sent laws fc storage key c s.pull (λ p. objects ∙ p) v.pulling;
    planned = ScanFits-Sent laws fc storage key c s.scanned (λ p. objects ∙ p) v.planned;
  }

  sends-Inv :
      (s : System) (info : FileInfo) (started : ℕ) (body : Text)
      → s.flight ≡ opened info started body
      → Inv s
      → Inv (sent laws fc storage key s info started (put_object key body s.bucket))
  sends-Inv s info started body at v =
      let same : body ≡ c = subst (FlightFits laws fc storage key c s.bucket) at v.flying in
      record {
        fits = v.fits;
        safe = elim (put_object-whole laws key body s.bucket) [
          | inl new ↦ inl (new ∙ ap some same)
          | inr old ↦ elim v.safe [ inl p ↦ inl (old ∙ p) | inr p ↦ inr p ]
        ];
        flying =
            answered-Fits laws fc storage key c info started (put_object key body s.bucket).0
              (λ etag put. put_object-stores laws key body etag s.bucket put ∙ ap some same);
        pulling =
            PullFits-Sent laws fc storage key c s.pull
              (put_object-Sent laws fc storage key c body s.bucket same) v.pulling;
        planned =
            ScanFits-Sent laws fc storage key c s.scanned
              (put_object-Sent laws fc storage key c body s.bucket same) v.planned;
      }

  finishes-Inv :
      (s : System) (info : FileInfo) (started : ℕ) (answer : Option Text) (canceled : Bool)
      → s.flight ≡ answered info started answer
      → Inv s
      → Inv (record s {
        host = (finish_upload fc storage key info started canceled answer s.host).1;
        flight = idle;
      })
  finishes-Inv s info started answer canceled at v =
      let done =
        host_step laws fc storage key c s _ v
          (subst (Fits c)
            (sym (finish_upload-SameFile fc storage key e info started canceled answer s.host))
            v.fits)
          (finished info started answer canceled s at v) in
      record {
        fits = done.fits;
        safe = done.safe;
        flying = tt;
        pulling = done.pulling;
        planned = v.planned;
      }

  checks-Inv :
      (s : System) (head : Head)
      → IsWritable s.host (meta_path fc storage key)
      → Inv s
      → Inv (record s { pull = judged (action_of fc storage key head s.host) head })
  checks-Inv s head w v = record {
    fits = v.fits;
    safe = v.safe;
    flying = v.flying;
    pulling = elim v.safe [
      | inl p ↦ judged-PullFits laws fc storage key c (action_of fc storage key head s.host) head p
      | inr p ↦
          subst (λ a. PullFits laws fc storage key c s.bucket (judged a head))
            (sym (action_of-serves laws fc storage key c e s.host w p head)) tt
    ];
    planned = v.planned;
  }

  -- A step of a download of a content that S3 has.
  pull_step :
      (s : System) (h : Host) (p : Pull)
      → Inv s
      → Sent s.bucket
      → Fits c (h.fs (path fc storage key))
      → PullFits laws fc storage key c s.bucket p
      → Inv (record s { host = h; pull = p })
  pull_step s h p v q f k = record {
    fits = f;
    safe = inl q;
    flying = v.flying;
    pulling = k;
    planned = v.planned;
  }

  next_pull-PullFits :
      (b : sdk.State) (action : Action) (head : Head)
      → Sent b
      → PullFits laws fc storage key c b (next_pull action head)
  unfolding next_pull
  next_pull-PullFits b refetches (found o) p = p
  next_pull-PullFits b fetches (found o) p = p
  next_pull-PullFits b refetches missing p = tt
  next_pull-PullFits b refetches unknown p = tt
  next_pull-PullFits b fetches missing p = tt
  next_pull-PullFits b fetches unknown p = tt
  next_pull-PullFits b serves head p = tt
  next_pull-PullFits b backfills head p = tt
  next_pull-PullFits b purges head p = tt

  acts-Sent :
      (s : System) (action : Action) (head : Head)
      → Sent s.bucket
      → Inv s
      → Inv
          (record s { host = act fc storage key action head s.host; pull = next_pull action head })
  acts-Sent s action head p v =
      pull_step s _ _ v p (act-Fitting fc storage key c e cached action head s.host v.fits)
        (next_pull-PullFits s.bucket action head p)

  acts-Inv :
      (s : System) (action : Action) (head : Head)
      → s.pull ≡ judged action head
      → Inv s
      → Inv
          (record s { host = act fc storage key action head s.host; pull = next_pull action head })
  unfolding act next_pull
  acts-Inv s serves head at v = record {
    fits = v.fits;
    safe = v.safe;
    flying = v.flying;
    pulling = tt;
    planned = v.planned;
  }
  acts-Inv s backfills head at v =
      acts-Sent s backfills head (subst (PullFits laws fc storage key c s.bucket) at v.pulling) v
  acts-Inv s purges head at v =
      acts-Sent s purges head (subst (PullFits laws fc storage key c s.bucket) at v.pulling) v
  acts-Inv s refetches head at v =
      acts-Sent s refetches head (subst (PullFits laws fc storage key c s.bucket) at v.pulling) v
  acts-Inv s fetches head at v =
      acts-Sent s fetches head (subst (PullFits laws fc storage key c s.bucket) at v.pulling) v

  fetched-PullFits :
      (b : sdk.State) (o : ObjectInfo) (answer : Option Text)
      → download_object key b ≡ answer
      → Sent b
      → PullFits laws fc storage key c b (fetched o answer)
  fetched-PullFits b o none r p = p
  fetched-PullFits b o (some body) r p =
      (p, some_inj.0 (sym (download_object-reads laws key body b r) ∙ p))

  transfers-Inv :
      (s : System) (o : ObjectInfo)
      → s.pull ≡ asked o
      → Inv s
      → Inv (record s { pull = fetched o (download_object key s.bucket) })
  transfers-Inv s o at v =
      let p : Sent s.bucket = subst (PullFits laws fc storage key c s.bucket) at v.pulling in
      pull_step s s.host _ v p v.fits (fetched-PullFits s.bucket o _ refl p)

  moved-Inv :
      (s : System) (o : ObjectInfo) (answer : Option Text)
      → Sent s.bucket
      → (answer ≡ none) ⊎ (answer ≡ some c)
      → Inv s
      → Inv (moved laws fc storage key s o answer (save fc storage key answer s.host))
  moved-Inv s o answer p r v =
      pull_step s _ _ v p (save-Fitting fc storage key c e cached answer s.host r v.fits)
        (ground (arith, p))

  moves-Inv :
      (s : System) (o : ObjectInfo) (answer : Option Text)
      → s.pull ≡ fetched o answer
      → Inv s
      → Inv (moved laws fc storage key s o answer (save fc storage key answer s.host))
  moves-Inv s o none at v =
      moved-Inv s o none (subst (PullFits laws fc storage key c s.bucket) at v.pulling) (inl refl) v
  moves-Inv s o (some body) at v =
      let (p, same) : Sent s.bucket × (body ≡ c) =
        subst (PullFits laws fc storage key c s.bucket) at v.pulling in
      moved-Inv s o (some body) p (inr (ap some same)) v

  stores-Inv :
      (s : System) (o : ObjectInfo) (size : ℕ)
      → s.pull ≡ placed o size
      → Inv s
      → Inv (record s { host = store_meta fc storage key o size s.host; pull = no_pull })
  stores-Inv s o size at v =
      pull_step s _ _ v (subst (PullFits laws fc storage key c s.bucket) at v.pulling)
        (store_meta-Fitting fc storage key c e cached o size s.host v.fits) tt

  ages-Inv :
      (s : System) (max_age : ℕ) (visits : List Visit)
      → All (IsVisit fc storage) visits
      → IsWritable s.host (meta_path fc storage key)
      → Inv s
      → Inv (record s { host = (evict_by_age fc storage max_age visits s.host).1 })
  ages-Inv s max_age visits visited w v =
      host_step laws fc storage key c s _ v
        (evict_by_age-FitsAt c (path fc storage key) fc storage max_age visits s.host v.fits)
        (λ p. inr (
          Kept-Pends laws fc storage key c s.host _
            (evict_by_age-Kept fc storage key e plain max_age visits s.host visited
              (inl (unsent_copy laws fc storage key c s.host e w p)))
            p))

  scans-Inv :
      (s : System) (visits : List Visit)
      → All (IsCacheVisit fc) visits
      → IsWritable s.host (meta_path fc storage key)
      → Inv s
      → Inv (record s { scanned = some (scan fc visits s.host) })
  scans-Inv s visits visited w v = record {
    fits = v.fits;
    safe = v.safe;
    flying = v.flying;
    pulling = v.pulling;
    planned = elim v.safe [
      | inl p ↦ inl p
      | inr p ↦ inr (
          scan-All fc storage key e plain cached visits s.host visited
            (unsent_copy laws fc storage key c s.host e w p))
    ];
  }

  evicts-Inv :
      (s : System) (files : Scan)
      → s.scanned ≡ some files
      → Inv s
      → Inv (record s { host = (evict_scanned fc files s.host).1; scanned = none })
  evicts-Inv s files at v =
      let done =
        host_step laws fc storage key c s _ v
          (evict_scanned-FitsAt c (path fc storage key) fc files s.host v.fits)
          (λ p. elim (subst (ScanFits laws fc storage key c s.bucket) at v.planned) [
            | inl q ↦ inl q
            | inr o ↦ inr (
                Kept-Pends laws fc storage key c s.host _
                  (evict_scanned-Kept fc storage key files s.host o) p)
          ]) in
      record {
        fits = done.fits;
        safe = done.safe;
        flying = done.flying;
        pulling = done.pulling;
        planned = tt;
      }

  resyncs-Inv :
      (s : System) (force in_use : Bool) (info : FileInfo)
      → IsWritable s.host (meta_path fc storage key)
      → Inv s
      → Inv (
          resynced laws fc storage key s
            (resync_file fc storage key force in_use info s.host s.bucket))
  resyncs-Inv s force in_use info w v =
      let goes = resync_file-Sent laws fc storage key c force in_use info s.host s.bucket v.fits in
      record {
        fits =
            subst (Fits c)
              (sym (resync_file-SameFile fc storage key e force in_use info s.host s.bucket))
              v.fits;
        safe = elim v.safe [
          | inl p ↦ inl (goes p)
          | inr p ↦
              elim (resync_file-outcome laws fc storage key c e s.host w p force in_use info
                s.bucket) [ inl same ↦ inr (subst Pends (sym same) p) | inr sent ↦ inl sent ]
        ];
        flying = FlightFits-Sent laws fc storage key c s.flight goes v.flying;
        pulling = PullFits-Sent laws fc storage key c s.pull goes v.pulling;
        planned = ScanFits-Sent laws fc storage key c s.scanned goes v.planned;
      }

  Step-Inv :
      {s t : System}
      → IsWritable s.host (meta_path fc storage key)
      → Step laws fc storage key s t
      → Inv s
      → Inv t
  Step-Inv {s} w (passes h b content sidecar objects) v = passes-Inv s h b content sidecar objects v
  Step-Inv {s} w marks v =
      host_step laws fc storage key c s _ v
        (subst (Fits c) (sym (mark_pending-SameFile fc storage key e s.host)) v.fits)
        (λ p. inr (mark_pending-Marked laws fc storage key c e s.host w p))
  Step-Inv {s} w (begins canceled head free) v =
      begun-Inv s (begin_upload fc storage key canceled head s.host) v
        (subst (Fits c) (sym (begin_upload-SameFile fc storage key e canceled head s.host)) v.fits)
        (λ p.
          subst Pends (sym (begin_upload-same laws fc storage key c e s.host w p canceled head)) p)
  Step-Inv {s} w (sends info started body at) v = sends-Inv s info started body at v
  Step-Inv {s} w (finishes info started answer canceled at) v =
      finishes-Inv s info started answer canceled at v
  Step-Inv {s} w (checks head free) v = checks-Inv s head w v
  Step-Inv {s} w (acts action head at) v = acts-Inv s action head at v
  Step-Inv {s} w (transfers o at) v = transfers-Inv s o at v
  Step-Inv {s} w (moves o answer at) v = moves-Inv s o answer at v
  Step-Inv {s} w (stores o size at) v = stores-Inv s o size at v
  Step-Inv {s} w (ages max_age visits visited) v = ages-Inv s max_age visits visited w v
  Step-Inv {s} w (scans visits visited) v = scans-Inv s visits visited w v
  Step-Inv {s} w (evicts files at) v = evicts-Inv s files at v
  Step-Inv {s} w (resyncs force in_use info) v = resyncs-Inv s force in_use info w v

  Reach-Inv : {s t : System} → Inv s → Reach laws fc storage key s t → Inv t
  Reach-Inv v here = v
  Reach-Inv v (next r w st) = Step-Inv w st (Reach-Inv v r)

  -- A file that PVE wrote and the daemon marked pending is not lost until PVE writes again or a
  -- user deletes, renames or replaces it: whatever the daemon does on its own to the entry, in
  -- any order, with uploads that fail or overlap other work, HEAD answers of any age, evictions,
  -- downloads cut wherever they hold no lock, and resyncs, and while other entries change, S3 has
  -- the content in the end or the file is still there, with that content and marked; and no other
  -- content takes its place. At the start no older attempt, no download, no resync of the file and
  -- no eviction is under way; one attempt, one download and one eviction by size of the entry run
  -- at a time, and an eviction by age and the work of a resync on the file are one step each. The
  -- metadata of the entry can be read and written throughout, its name does not end in ".meta", it
  -- is not under .downloads, and nobody else changes the object.
  pub Reach-lossless :
      (s t : System)
      → s.flight ≡ idle
      → s.pull ≡ no_pull
      → s.scanned ≡ none
      → IsMarked laws fc storage key c s.host
      → Reach laws fc storage key s t
      → (IsSent laws fc storage key c t.bucket ⊎ IsMarked laws fc storage key c t.host)
        × Fits c (t.host.fs (path fc storage key))
  Reach-lossless s t free unpulled unscanned p r =
      let start : Inv s = record {
        fits = Holds-Fits laws fc storage key c (s.host.fs (path fc storage key)) p.held;
        safe = inr p;
        flying = subst (FlightFits laws fc storage key c s.bucket) (sym free) tt;
        pulling = subst (PullFits laws fc storage key c s.bucket) (sym unpulled) tt;
        planned = subst (ScanFits laws fc storage key c s.bucket) (sym unscanned) tt;
      } in
      let v = Reach-Inv start r in (v.safe, v.fits)
