-- ===== src/Daemon/Command.antt =====
-- A resync from the command line against the running daemon: runResync of cmd/proxs3d/main.go and
-- handleResync of internal/api/resync.go.
use proxs.Prelude.{
  ◌≡◌, refl, ◌≢◌, ◌⊎◌, inl, inr, Bool, true, false, none, some, List, [], Option-cases, ◌==◌,
  nat_eq, list_beq, list_eq, Text, codes,
}
use proxs.FilePath.{FilePath}
use proxs.Host.{Host}
use proxs.S3client.Library.{Sdk}
use proxs.Cache.Meta.{MetaJson}
use proxs.Cache.Entry.{FileCache}
use proxs.Cache.Eviction.{Visit}
use proxs.Api.Server.{Server, get_client}
use proxs.Api.Resync.Walk.{handle_resync}
use proxs.Api.Resync.Request.{not_found, report, Response, status_code, resync_request}
use proxs.Prelude.{◌==◌, list_eq, nat_eq, ◌≡◌, ◌≢◌, ◌⊎◌, some, Option-cases, inl, inr}
use proxs.Daemon.Main.{run_resync}

-- The parameter of the query that `runResync` sets.
abbrev pub force_query : Bool → Text
force_query true = codes "1"
force_query false = []

force_query-eq : (force : Bool) → (force_query force == codes "1") ≡ force
unfolding list_beq
force_query-eq true = refl
force_query-eq false = refl

module _ {ℓ} {Client : Type ℓ} ⦃json : MetaJson⦄ ⦃sdk : Sdk⦄ (fc : FileCache)
    (in_use : FilePath → Bool) (s : Server Client) (visits : List Visit) (h : Host)
    (b : sdk.State) where
  abbrev pub served : Text → Bool → Response × Host × sdk.State
  served storage force = resync_request fc in_use s storage (force_query force) visits h b

  -- The command with a daemon that answers, and a report that is copied to the end.
  abbrev pub command : FilePath → Text → Bool → Bool
  command = run_resync (λ socket storage force.
      some (record { status = status_code (served storage force).0; copied = true }))

  -- The walk of a resync with the force of the command.
  abbrev pub Resynced : Text → Bool → Type 0
  Resynced storage force =
      let (sum, h', b') = handle_resync fc storage force in_use visits h b in
      ((served storage force).1 ≡ h') × ((served storage force).2 ≡ b')

  served-unknown :
      (storage : Text) (force : Bool)
      → (storage == []) ≡ false
      → get_client storage s ≡ none
      → served storage force ≡ (not_found, h, b)
  unfolding resync_request
  served-unknown storage force n r = rw (resync_request, n, r) refl

  served-known :
      (storage : Text) (force : Bool) (c : Client)
      → (storage == []) ≡ false
      → get_client storage s ≡ some c
      → let (sum, h', b') = handle_resync fc storage force in_use visits h b in
        served storage force ≡ (report sum, h', b')
  unfolding resync_request
  served-known storage force c n r = rw (resync_request, n, r, force_query-eq force) refl

  -- A resync from the command line that the daemon answers: it is reported as done exactly if the
  -- storage has a client, and then the daemon has done the resync of that storage with the force
  -- that the command was given; else nothing has changed, neither the host nor S3.
  pub command-outcome :
      (socket : FilePath) (storage : Text) (force : Bool)
      → ((storage == []) ≡ false)
      → (command socket storage force ≡ true)
          × (get_client storage s ≢ none)
          × Resynced storage force
        ⊎ (command socket storage force ≡ false)
          × (get_client storage s ≡ none)
          × ((served storage force).1 ≡ h)
          × ((served storage force).2 ≡ b)
  unfolding run_resync
  command-outcome socket storage force n = elim (Option-cases (get_client storage s)) [
    | inl r ↦
        let e = served-unknown storage force n r in
        inr (rw (run_resync, e) refl, r, rw e refl, rw e refl)
    | inr (c, r) ↦
        let e = served-known storage force c n r in
        inl (rw (run_resync, e) refl, (λ k. cc (r, k)), (rw e refl, rw e refl))
  ]
