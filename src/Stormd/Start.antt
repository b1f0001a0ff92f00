-- ===== src/Stormd/Start.antt =====
-- The buses of stormd and its start: `run` of src/stormd/service.rs. A controller that is set up runs
-- for ever, so the start ends with what it works on.
use storm_node.Base.{none, some, [], ◌∷◌}
use storm_node.Base.Action.{Action, pure, ◌>>=◌, ◌>>◌, conv}
use storm_node.Rpc.Ids.{ServiceId}
use storm_node.Bus.{ServiceBus, SocketType, BusMap, with_addr}
use storm_node.Config.{Config, StormConfig}
use storm_node.Errors.{LaunchError}
use storm_node.Stormd.Runtime.{Runtime, init}
use storm_node.World.{Platform, Sys, Request}
use storm_node.World.Effects.{open_controller}

unfoldable pub buses : Config StormConfig → BusMap
buses config =
    (ServiceBus.storm, with_addr config.ext_endpoint SocketType.router_bind none)
    ∷ (ServiceBus.ctl, with_addr config.ctl_endpoint SocketType.router_bind none)
    ∷ (ServiceBus.msg, with_addr config.msg_endpoint SocketType.router_connect (some ServiceId.lnp))
    ∷ (ServiceBus.rpc, with_addr config.rpc_endpoint SocketType.router_bind none)
    ∷ []

unfoldable pub run : Platform → Config StormConfig → Action (Sys (Unit {0})) LaunchError Runtime
unfolding buses
run p config = do
  runtime ← init p config
  conv (λ _. LaunchError.bus_setup_failure) (open_controller p (Request.open_buses (buses config)))
  pure runtime
