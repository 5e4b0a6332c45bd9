-- ===== src/Daemon/Main.antt =====
-- main and runResync of cmd/proxs3d/main.go: what a start of the program does. Reading the
-- configuration, the clients, the call of the daemon over its socket and how serving ends are given.
use mathlib.Core.List.{Memᴰ}
use proxs.Prelude.{
  ◌≢◌, ◌≡◌, ℕ, Bool, false, not, ◌&&◌, Option, none, some, List, [], if◌then◌else◌, ◌==◌, nat_eq,
  list_eq, Text,
}
use proxs.FilePath.{FilePath}
use proxs.Config.{ProxyConfig, StorageConfig}
use proxs.Config.Daemon.{DaemonConfig}
use proxs.Api.Server.{Server, new_server}
use proxs.Daemon.{terminate, Signal, handle_signals, IsServing, true}

pub record Flags : Type 0 where
  pub config_path : FilePath
  pub show_version : Bool
  pub resync_storage : Text
  pub force_latest : Bool

-- The answer of the daemon to a resync, and whether its body could be copied to the end.
pub record Reply : Type 0 where
  pub status : ℕ
  pub copied : Bool

-- `runResync`, whether it returns no error; the call is none if the daemon cannot be reached.
unfoldable pub run_resync : (FilePath → Text → Bool → Option Reply) → FilePath → Text → Bool → Bool
run_resync call socket_path storage force = elim (call socket_path storage force) [
  | none ↦ false
  | some reply ↦ reply.status == 200 && reply.copied
]

-- How `main` ends; `running` while no signal has stopped the server. The PID file is left out.
pub data Exit {ℓ} (Client : Type ℓ) : Type ℓ where
  version_shown resynced fatal serve_failed : Exit Client
  running stopped : Server Client → Exit Client

module _ {ℓ} {Client : Type ℓ} (load : FilePath → Option DaemonConfig)
    (call : FilePath → Text → Bool → Option Reply)
    (new_client : ProxyConfig → StorageConfig → Option Client) (can_make : FilePath → Bool) where
  -- `main` from the call of `Start` on: the signals that come, and whether `Start` ended for another
  -- reason than that the server was closed.
  unfoldable pub serve : List Signal → Bool → Server Client → Exit Client
  unfolding handle_signals
  serve signals broken s =
      let (closed, s') = handle_signals new_client can_make signals s in
      if broken then serve_failed else if closed then stopped s' else running s'

  -- `main`.
  unfoldable pub main : Flags → List Signal → Bool → Exit Client
  unfolding run_resync serve new_server
  main flags signals broken =
      if flags.show_version
      then version_shown
      else if not (flags.resync_storage == [])
      then elim (load flags.config_path) [
        | none ↦ fatal
        | some cfg ↦
            if run_resync call cfg.socket_path flags.resync_storage flags.force_latest
            then resynced
            else fatal
      ]
      else elim (load flags.config_path) [
        | none ↦ fatal
        | some cfg ↦ elim (new_server new_client can_make cfg) [
          | none ↦ fatal
          | some s ↦ serve signals broken s
        ]
      ]

  -- The daemon answered in full to the resync that was asked for.
  pub record Answered (flags : Flags) (cfg : DaemonConfig) : Type 0 where
    pub reply : Reply
    pub answer : call cfg.socket_path flags.resync_storage flags.force_latest ≡ some reply
    pub good : reply.status ≡ 200
    pub whole : reply.copied ≡ true

  -- What is true when `main` ends so, or runs on.
  pub data Ends (flags : Flags) (signals : List Signal) (broken : Bool) : Exit Client → Type ℓ where
    showed : flags.show_version ≡ true → Ends flags signals broken version_shown
    reported :
        (cfg : DaemonConfig)
        → load flags.config_path ≡ some cfg
        → Answered flags cfg
        → Ends flags signals broken resynced
    unread : load flags.config_path ≡ none → Ends flags signals broken fatal
    unanswered :
        (cfg : DaemonConfig)
        → load flags.config_path ≡ some cfg
        → flags.resync_storage ≢ []
        → ¬ Answered flags cfg
        → Ends flags signals broken fatal
    refused :
        (cfg : DaemonConfig)
        → load flags.config_path ≡ some cfg
        → flags.resync_storage ≡ []
        → new_server new_client can_make cfg ≡ none
        → Ends flags signals broken fatal
    broke : flags.resync_storage ≡ [] → broken ≡ true → Ends flags signals broken serve_failed
    serves :
        (s : Server Client)
        → flags.resync_storage ≡ []
        → ¬ Memᴰ terminate signals
        → IsServing new_client can_make s
        → Ends flags signals broken (running s)
    served :
        (s : Server Client)
        → flags.resync_storage ≡ []
        → Memᴰ terminate signals
        → IsServing new_client can_make s
        → Ends flags signals broken (stopped s)
