-- ===== src/Stormd/Runtime.antt =====
-- The state of stormd and its start: the first part of src/stormd/service.rs, and `launch_daemon`
-- of src/stormd/daemons.rs.
use storm_node.Base.{String, List, [], ◌∷◌, if◌then◌else◌}
use storm_node.Base.Action.{Action, pure, ◌>>◌, conv}
use storm_node.Base.Maps.{HashMap}
use storm_node.Wire.{ContainerId, DaemonId, StormApp}
use storm_node.Rpc.Ids.{ServiceId, stormd}
use storm_node.Bus.{CtlMsg}
use storm_node.Config.{Config, StormConfig, to_shared}
use storm_node.Errors.{LauncherError, LaunchError, DaemonError}
use storm_node.Stormd.Daemons.{Daemon}
use storm_node.World.{
  Platform, Sys, Request, table_container_headers, table_containers, table_chunks,
}
use storm_node.World.Effects.{launch, store_call}

-- The connection to the store, kept open and not used after the start, is left out.
pub record Runtime : Type 0 where
  pub config : Config StormConfig
  pub registered_apps : List StormApp
  pub transferd_free : List DaemonId
  pub transferd_busy : List DaemonId
  pub container_apps : HashMap ContainerId StormApp
  pub container_transfers : HashMap ContainerId DaemonId
  pub ctl_queue : List CtlMsg

abbrev pub identity : ServiceId
identity = stormd

abbrev pub fresh : Config StormConfig → Runtime
fresh config = record {
  config = config;
  registered_apps = [];
  transferd_free = [];
  transferd_busy = [];
  container_apps = [];
  container_transfers = [];
  ctl_queue = [];
}

module _ (p : Platform) where
  unfoldable pub use_tables : List String → Action (Sys (Unit {0})) LaunchError (Unit {0})
  use_tables [] = pure tt
  use_tables (table ∷ tables) =
      conv LaunchError.store_connection (store_call p (Request.use_table table))
      >> use_tables tables

  -- `Runtime::init`
  unfoldable pub init : Config StormConfig → Action (Sys (Unit {0})) LaunchError Runtime
  init config = do
    conv LaunchError.store_connection (store_call p (Request.connect config.store_endpoint))
    use_tables (table_container_headers ∷ table_containers ∷ table_chunks ∷ [])
    pure (fresh config)

  unfoldable pub launch_daemon :
      Config StormConfig → Daemon → Action (Sys Runtime) LauncherError (Unit {0})
  launch_daemon config daemon =
      if config.ext.threaded
      then launch p (Request.thread_daemon daemon (to_shared config))
      else launch p (Request.exec_daemon daemon)

  unfoldable pub start_chat : Config StormConfig → Action (Sys Runtime) DaemonError (Unit {0})
  start_chat config =
      if config.ext.run_chat
      then conv DaemonError.daemon_launch (launch_daemon config Daemon.chatd)
      else pure tt

  unfoldable pub start_downpour : Config StormConfig → Action (Sys Runtime) DaemonError (Unit {0})
  start_downpour config =
      if config.ext.run_downpour
      then conv DaemonError.daemon_launch (launch_daemon config Daemon.downpourd)
      else pure tt

  unfoldable pub on_ready : Action (Sys Runtime) DaemonError (Unit {0})
  on_ready s = (do start_chat s.rt.config; start_downpour s.rt.config) s
