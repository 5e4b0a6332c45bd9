-- ===== src/Daemon.antt =====
-- The signals of the daemon (cmd/proxs3d/main.go): the goroutine of main that reloads and stops it.
pub mod Main
pub mod Command
mod Examples
use proxs.Prelude.{
  ◌≡◌, sym, inl, inr, Bool, true, false, Option, none, some, List, [], ◌∷◌, arith, nat_eq, list_eq,
}
use proxs.FilePath.{FilePath}
use proxs.Config.{ProxyConfig, StorageConfig}
use proxs.Config.Daemon.{DaemonConfig}
use proxs.Api.Server.{Server, new_cache, make_clients, init_clients, new_server, reload}
use proxs.Api.Server.Reloading.{reload-outcome}

-- A signal, with what LoadDaemonConfig answers to a SIGHUP.
pub data Signal : Type 0 where
  hangup : Option DaemonConfig → Signal
  terminate : Signal

module _ {ℓ} {Client : Type ℓ} (new_client : ProxyConfig → StorageConfig → Option Client)
    (can_make : FilePath → Bool) where
  -- The loop over the signals, with whether the daemon was stopped.
  unfoldable pub handle_signals : List Signal → Server Client → Bool × Server Client
  unfolding reload
  handle_signals [] s = (false, s)
  handle_signals (hangup none ∷ rest) s = handle_signals rest s
  handle_signals (hangup (some cfg) ∷ rest) s =
      handle_signals rest (reload new_client can_make cfg s).1
  handle_signals (terminate ∷ rest) s = (true, s)

  -- The clients of a server are those of its configuration.
  abbrev pub IsServing : Server Client → Type ℓ
  IsServing s = make_clients new_client s.cfg.proxy s.cfg.storages [] ≡ some s.clients

  new_server-IsServing :
      (cfg : DaemonConfig) (s : Server Client)
      → new_server new_client can_make cfg ≡ some s
      → IsServing s
  unfolding new_server init_clients new_cache
  new_server-IsServing cfg s e = ground arith

  reload-IsServing :
      (cfg : DaemonConfig) (s : Server Client)
      → IsServing s
      → IsServing (reload new_client can_make cfg s).1
  reload-IsServing cfg s v = elim (reload-outcome new_client can_make cfg s) [
    | inl (n, f, same) ↦ rw same v
    | inr (ok, cs, c, k) ↦ rw c (sym cs)
  ]

  handle_signals-IsServing :
      (signals : List Signal) (s : Server Client)
      → IsServing s
      → IsServing (handle_signals signals s).1
  unfolding handle_signals
  handle_signals-IsServing [] s v = v
  handle_signals-IsServing (hangup none ∷ rest) s v = handle_signals-IsServing rest s v
  handle_signals-IsServing (hangup (some cfg) ∷ rest) s v =
      handle_signals-IsServing rest _ (reload-IsServing cfg s v)
  handle_signals-IsServing (terminate ∷ rest) s v = v

  -- From the start of the daemon on, whatever signals come, whatever configurations are read then,
  -- and whichever reloads fail, the server works with a configuration and exactly its clients.
  pub handle_signals-new_server :
      (cfg : DaemonConfig) (s : Server Client) (signals : List Signal)
      → new_server new_client can_make cfg ≡ some s
      → IsServing (handle_signals signals s).1
  handle_signals-new_server cfg s signals e =
      handle_signals-IsServing signals s (new_server-IsServing cfg s e)
