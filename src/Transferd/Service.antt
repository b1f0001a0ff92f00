-- ===== src/Transferd/Service.antt =====
-- The handler of transferd: `handle` and `handle_ctl` of src/transferd/service.rs.
use storm_node.Base.Action.{pure, throw}
use storm_node.Rpc.Failure.{EsbError}
use storm_node.Rpc.Ids.{ServiceId}
use storm_node.Bus.{ServiceBus, CtlMsg, BusMsg}
use storm_node.Errors.{wrong_esb_msg}
use storm_node.Transferd.Runtime.{identity}
use storm_node.Transferd.Automation.{
  Handler, handle_receive, handle_container, handle_chunk, handle_announce, handle_send_container,
  handle_send_chunks,
}
use storm_node.World.{Platform}

module _ (p : Platform) where
  unfoldable pub handle_ctl : ServiceId → ServiceId → CtlMsg → Handler (Unit {0})
  handle_ctl me source (CtlMsg.get_container m) =
      handle_receive p me m.client_id m.content.storm_app m.remote_id m.content.container_id
  handle_ctl me source (CtlMsg.process_container container) = handle_container p me container
  handle_ctl me source (CtlMsg.process_chunk chunk) = handle_chunk p me chunk
  handle_ctl me source (CtlMsg.announce_container m) =
      handle_announce p me m.client_id m.content.storm_app m.remote_id m.content.container_id
  handle_ctl me source (CtlMsg.send_container m) =
      handle_send_container p me m.client_id m.content.storm_app m.remote_id m.content.container_id
  handle_ctl me source (CtlMsg.send_chunks m) =
      handle_send_chunks p me m.content.storm_app m.remote_id m.content.container_id
        m.content.chunk_ids
  handle_ctl me source wrong_msg =
      throw (wrong_esb_msg p.message_text ServiceBus.ctl (BusMsg.ctl wrong_msg))

  unfoldable pub handle : ServiceBus → BusMsg → ServiceId → Handler (Unit {0})
  handle ServiceBus.ctl (BusMsg.ctl msg) source s = handle_ctl (identity s.rt) source msg s
  handle bus msg source s = throw (wrong_esb_msg p.message_text bus msg) s

-- The controller has reported the error.
abbrev pub handle_err : EsbError → Handler (Unit {0})
handle_err e = pure tt
