-- ===== src/Transferd/Runtime.antt =====
-- The state of transferd and its start: `run`, `Runtime::init` and `on_ready` of
-- src/transferd/service.rs.
use storm_node.Base.{String, some, [], ◌∷◌}
use storm_node.Base.Action.{Action, pure, ◌>>=◌, ◌>>◌, conv}
use storm_node.Wire.{DaemonId}
use storm_node.Rpc.Ids.{ServiceId, stormd}
use storm_node.Bus.{ServiceBus, CtlMsg, SocketType, BusMap, with_addr}
use storm_node.Config.{Config}
use storm_node.Bus.Responder.{send_ctl}
use storm_node.Errors.{LaunchError, DaemonError}
use storm_node.Transferd.State.{StateTy, State}
use storm_node.World.{Platform, Sys, Request}
use storm_node.World.Effects.{store_call, open_controller}

-- The connection to the store is the platform's.
pub record Runtime : Type 0 where
  pub id : DaemonId
  pub state : State

abbrev pub identity : Runtime → ServiceId
identity rt = ServiceId.transfer rt.id

abbrev pub set_state : State → Runtime → Runtime
set_state state rt = record rt { state = state }

module _ (p : Platform) where
  -- `Runtime::init`; `id` is the random number that it draws.
  unfoldable pub init : String → DaemonId → Action (Sys (Unit {0})) LaunchError Runtime
  init store_endpoint id = do
    conv LaunchError.store_connection (store_call p (Request.connect store_endpoint))
    pure (record { id = id; state = StateTy.free })

  unfoldable pub on_ready : Action (Sys Runtime) DaemonError (Unit {0})
  on_ready s = conv DaemonError.esb (send_ctl p (identity s.rt) stormd CtlMsg.hello) s

unfoldable pub buses : Config (Unit {0}) → BusMap
buses config =
    (ServiceBus.rpc, with_addr config.rpc_endpoint SocketType.router_connect (some stormd))
    ∷ (ServiceBus.msg, with_addr config.msg_endpoint SocketType.router_connect (some ServiceId.lnp))
    ∷ (ServiceBus.ctl, with_addr config.ctl_endpoint SocketType.router_connect (some stormd))
    ∷ []

-- A controller that is set up runs for ever, so the start ends with what it works on.
unfoldable pub run :
    Platform → Config (Unit {0}) → DaemonId → Action (Sys (Unit {0})) LaunchError Runtime
unfolding buses
run p config id = do
  runtime ← init p config.store_endpoint id
  conv (λ _. LaunchError.bus_setup_failure) (open_controller p (Request.open_buses (buses config)))
  pure runtime
