-- ===== src/Downpourd.antt =====
-- The file transfer daemon: src/downpourd/service.rs. It has no state of its own.
use storm_node.Base.{some, ◌∷◌, none, [], if◌then◌else◌}
use storm_node.Base.Action.{Action, ◌>>◌, pure, throw, conv}
use storm_node.Wire.{ClientId}
use storm_node.Rpc.Failure.{EsbError}
use storm_node.Rpc.Ids.{ServiceId, stormd, downpourd, is_stormd}
use storm_node.Rpc.Messages.{RpcMsg}
use storm_node.Ext.{ExtMsg}
use storm_node.Bus.{ServiceBus, CtlMsg, BusMsg, SocketType, BusMap, with_addr}
use storm_node.Config.{Config}
use storm_node.Bus.Responder.{send_ctl, send_ext}
use storm_node.Errors.{LaunchError, DaemonError, wrong_esb_msg}
use storm_node.World.{Platform, Sys, Request}
use storm_node.World.Effects.{store_call, open_controller}

abbrev pub Handler : Type 0
Handler = Action (Sys (Unit {0})) DaemonError (Unit {0})

unfoldable pub buses : Config (Unit {0}) → BusMap
buses config =
    (ServiceBus.storm, with_addr config.ext_endpoint SocketType.router_connect (some stormd))
    ∷ (ServiceBus.rpc, with_addr config.rpc_endpoint SocketType.router_connect (some stormd))
    ∷ (ServiceBus.ctl, with_addr config.ctl_endpoint SocketType.router_connect (some stormd))
    ∷ []

module _ (p : Platform) where
  -- `Runtime::init`; the connection to the store is not used after it.
  unfoldable pub init : Config (Unit {0}) → Action (Sys (Unit {0})) LaunchError (Unit {0})
  init config =
      conv LaunchError.store_connection (store_call p (Request.connect config.store_endpoint))

  -- A controller that is set up runs for ever, so the start ends with what it works on.
  unfoldable pub run : Config (Unit {0}) → Action (Sys (Unit {0})) LaunchError (Unit {0})
  unfolding buses init
  run config = do
    init config
    conv (λ _. LaunchError.bus_setup_failure)
        (open_controller p (Request.open_buses (buses config)))

  unfoldable pub on_ready : Handler
  on_ready = conv DaemonError.esb (send_ctl p downpourd stormd CtlMsg.hello)

  unfoldable pub handle_storm : ExtMsg → Handler
  handle_storm (ExtMsg.container_announcement m) = conv DaemonError.esb (
      send_ext p downpourd none
        (ExtMsg.retrieve_container (record { remote_id = m.remote_id; content = m.content.id })))
  handle_storm (ExtMsg.retrieve_container m) =
      conv DaemonError.esb (send_ext p downpourd none (ExtMsg.send_container m))
  handle_storm (ExtMsg.container_retrieved _) = pure tt
  handle_storm wrong_msg =
      throw (wrong_esb_msg p.message_text ServiceBus.rpc (BusMsg.storm wrong_msg))

  unfoldable pub handle_rpc : ClientId → RpcMsg → Handler
  handle_rpc client_id wrong_msg =
      throw (wrong_esb_msg p.message_text ServiceBus.rpc (BusMsg.rpc wrong_msg))

  unfoldable pub handle_ctl : ServiceId → CtlMsg → Handler
  handle_ctl source wrong_msg =
      throw (wrong_esb_msg p.message_text ServiceBus.ctl (BusMsg.ctl wrong_msg))

  unfoldable pub handle : ServiceBus → BusMsg → ServiceId → Handler
  handle ServiceBus.storm (BusMsg.storm msg) source =
      if is_stormd source
      then handle_storm msg
      else throw (wrong_esb_msg p.message_text ServiceBus.storm (BusMsg.storm msg))
  handle ServiceBus.rpc (BusMsg.rpc msg) (ServiceId.client client_id) = handle_rpc client_id msg
  handle ServiceBus.ctl (BusMsg.ctl msg) source = handle_ctl source msg
  handle bus msg _ = throw (wrong_esb_msg p.message_text bus msg)

-- The controller has reported the error.
abbrev pub handle_err : EsbError → Handler
handle_err e = pure tt
