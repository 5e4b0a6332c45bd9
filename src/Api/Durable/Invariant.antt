-- ===== src/Api/Durable/Invariant.antt =====
-- What stays true of an entry whose content must not be lost.

use proxs.Api.Download.Parts.{
  Action, Pull, no_pull, judged, asked, fetched, placed, serves, backfills, purges, refetches,
  fetches,
}
use proxs.S3client.{Head}
use proxs.Prelude.{ℕ, ◌≡◌, refl, ◌⊎◌, inl, inr, Option, none, some, nat_eq, list_eq, Text}
use proxs.Host.{Host, FileInfo}
use proxs.S3client.Library.{Sdk, IsLawful}
use proxs.Cache.Meta.{MetaJson}
use proxs.Cache.Entry.{FileCache, path}
use proxs.Cache.SizeLimit.{Scan}
use proxs.Cache.SizeSafety.{AllOthers}
use proxs.Api.Durable.{after_open, Flight, idle, opened, answered, System, Fits, IsMarked, IsSent}

module _ ⦃json : MetaJson⦄ ⦃sdk : Sdk⦄ (laws : IsLawful sdk) (fc : FileCache)
    (storage key c : Text) where
  abbrev Sent : sdk.State → Type 0
  Sent = IsSent laws fc storage key c

  abbrev Pends : Host → Type 0
  Pends = IsMarked laws fc storage key c

  abbrev pub FlightFits : sdk.State → Flight → Type 0
  FlightFits b idle = Unit
  FlightFits b (opened info started body) = body ≡ c
  FlightFits b (answered info started none) = Unit
  FlightFits b (answered info started (some etag)) = Sent b

  abbrev pub ScanFits : sdk.State → Option Scan → Type 0
  ScanFits b none = Unit
  ScanFits b (some files) = Sent b ⊎ AllOthers fc storage key files.files

  -- A download that goes beyond serving the file has S3 hold the content.
  abbrev pub PullFits : sdk.State → Pull → Type 0
  PullFits b no_pull = Unit
  PullFits b (judged serves head) = Unit
  PullFits b (judged backfills head) = Sent b
  PullFits b (judged purges head) = Sent b
  PullFits b (judged refetches head) = Sent b
  PullFits b (judged fetches head) = Sent b
  PullFits b (asked o) = Sent b
  PullFits b (fetched o none) = Sent b
  PullFits b (fetched o (some body)) = Sent b × (body ≡ c)
  PullFits b (placed o size) = Sent b

  pub PullFits-Sent :
      {b b' : sdk.State} (p : Pull) → (Sent b → Sent b') → PullFits b p → PullFits b' p
  PullFits-Sent no_pull k f = tt
  PullFits-Sent (judged serves head) k f = tt
  PullFits-Sent (judged backfills head) k f = k f
  PullFits-Sent (judged purges head) k f = k f
  PullFits-Sent (judged refetches head) k f = k f
  PullFits-Sent (judged fetches head) k f = k f
  PullFits-Sent (asked o) k f = k f
  PullFits-Sent (fetched o none) k f = k f
  PullFits-Sent (fetched o (some body)) k f = (k f.0, f.1)
  PullFits-Sent (placed o size) k f = k f

  pub judged-PullFits :
      {b : sdk.State} (a : Action) (head : Head) → Sent b → PullFits b (judged a head)
  judged-PullFits serves head p = tt
  judged-PullFits backfills head p = p
  judged-PullFits purges head p = p
  judged-PullFits refetches head p = p
  judged-PullFits fetches head p = p

  -- The content is nowhere replaced, and S3 has it or the file is marked.
  pub record Holding (s : System) : Type 0 where
    pub fits : Fits c (s.host.fs (path fc storage key))
    pub safe : Sent s.bucket ⊎ Pends s.host
    pub flying : FlightFits s.bucket s.flight
    pub pulling : PullFits s.bucket s.pull
    pub planned : ScanFits s.bucket s.scanned

  pub FlightFits-Sent :
      {b b' : sdk.State} (f : Flight) → (Sent b → Sent b') → FlightFits b f → FlightFits b' f
  FlightFits-Sent idle k f = tt
  FlightFits-Sent (opened info started body) k f = f
  FlightFits-Sent (answered info started none) k f = tt
  FlightFits-Sent (answered info started (some etag)) k f = k f

  pub ScanFits-Sent :
      {b b' : sdk.State} (o : Option Scan) → (Sent b → Sent b') → ScanFits b o → ScanFits b' o
  ScanFits-Sent none k o = tt
  ScanFits-Sent (some files) k (inl p) = inl (k p)
  ScanFits-Sent (some files) k (inr o) = inr o

  pub after_open-Fits :
      (b : sdk.State) (info : FileInfo) (started : ℕ) (r : Option Text)
      → ((body : Text) → r ≡ some body → body ≡ c)
      → FlightFits b (after_open info started r)
  after_open-Fits b info started none k = tt
  after_open-Fits b info started (some body) k = k body refl

  pub answered-Fits :
      {b : sdk.State} (info : FileInfo) (started : ℕ) (r : Option Text)
      → ((etag : Text) → r ≡ some etag → Sent b)
      → FlightFits b (answered info started r)
  answered-Fits info started none k = tt
  answered-Fits info started (some etag) k = k etag refl

  -- A step that changes the host alone.
  pub host_step :
      (s : System) (h : Host)
      → Holding s
      → Fits c (h.fs (path fc storage key))
      → (Pends s.host → Sent s.bucket ⊎ Pends h)
      → Holding (record s { host = h })
  host_step s h v f k = record {
    fits = f;
    safe = elim v.safe [ inl p ↦ inl p | inr p ↦ k p ];
    flying = v.flying;
    pulling = v.pulling;
    planned = v.planned;
  }
