-- ===== src/Bus/Responder.antt =====
-- The trait by which the daemons send: src/bus/services.rs. `me` is the daemon's `identity()`.
use storm_node.Base.{String, Option, none, some}
use storm_node.Base.Action.{Result, ok, err, Action, pure, ◌>>=◌, ignore, attempt}
use storm_node.Wire.{NodeId, ClientId, BifrostApp, StormApp, Messages, LnMsg}
use storm_node.Rpc.Ids.{ServiceId, stormd}
use storm_node.Rpc.Failure.{RemoteCode, EsbError}
use storm_node.Rpc.Messages.{RpcMsg, RadioMsg}
use storm_node.Ext.{ExtMsg}
use storm_node.Bus.{ServiceBus, CtlMsg, BusMsg, Packet}
use storm_node.World.{Platform, Sys}
use storm_node.World.Effects.{send_to}

-- The address of an app, or stormd's.
abbrev pub app_address : Option StormApp → ServiceId
app_address none = stormd
app_address (some app) = ServiceId.storm_app app

abbrev pub success_reply : Option String → RpcMsg
success_reply none = RpcMsg.success none
success_reply (some report) = RpcMsg.progress report

-- The packets that the methods below send.
abbrev pub p2p_packet : Platform → ServiceId → NodeId → Messages → Packet
p2p_packet p me remote_id message = record {
  bus = ServiceBus.msg;
  source = me;
  dest = ServiceId.peer remote_id;
  request = BusMsg.bifrost (LnMsg.message BifrostApp.storm (p.serialize message));
}

abbrev pub rpc_packet : ServiceId → ClientId → RpcMsg → Packet
rpc_packet me client_id message = record {
  bus = ServiceBus.rpc;
  source = me;
  dest = ServiceId.client client_id;
  request = BusMsg.rpc message;
}

abbrev pub ctl_packet : ServiceId → ServiceId → CtlMsg → Packet
ctl_packet me service_id message = record {
  bus = ServiceBus.ctl;
  source = me;
  dest = service_id;
  request = BusMsg.ctl message;
}

abbrev pub ext_packet : ServiceId → Option StormApp → ExtMsg → Packet
ext_packet me app_id message = record {
  bus = ServiceBus.storm;
  source = me;
  dest = app_address app_id;
  request = BusMsg.storm message;
}

abbrev pub radio_packet : ServiceId → RadioMsg → Packet
radio_packet me message = record {
  bus = ServiceBus.chat;
  source = me;
  dest = stormd;
  request = BusMsg.chat message;
}

module _ (p : Platform) {R : Type 0} (me : ServiceId) where
  unfoldable pub send_p2p : NodeId → Messages → Action (Sys R) EsbError (Unit {0})
  unfolding send_to
  send_p2p remote_id message = send_to p (p2p_packet p me remote_id message)

  unfoldable pub send_rpc : ClientId → RpcMsg → Action (Sys R) EsbError (Unit {0})
  unfolding send_to
  send_rpc client_id message = send_to p (rpc_packet me client_id message)

  unfoldable pub send_ctl : ServiceId → CtlMsg → Action (Sys R) EsbError (Unit {0})
  unfolding send_to
  send_ctl service_id message = send_to p (ctl_packet me service_id message)

  unfoldable pub send_ext : Option StormApp → ExtMsg → Action (Sys R) EsbError (Unit {0})
  unfolding send_to
  send_ext app_id message = send_to p (ext_packet me app_id message)

  unfoldable pub send_radio : RadioMsg → Action (Sys R) EsbError (Unit {0})
  unfolding send_to
  send_radio message = send_to p (radio_packet me message)

  -- What the client is told, by the result of the send to the peer.
  unfoldable pub report_client :
      Option ClientId
      → Option String
      → Result EsbError (Unit {0})
      → Action (Sys R) EsbError (Unit {0})
  unfolding send_rpc
  report_client none client_message r = pure tt
  report_client (some client_id) client_message (ok _) =
      send_rpc client_id (success_reply client_message)
  report_client (some client_id) client_message (err e) =
      send_rpc client_id
        (RpcMsg.failure (record { code = RemoteCode.transport; info = p.esb_error_text e }))

  unfoldable pub send_p2p_reporting_client :
      {E : Type 0}
      → Option ClientId
      → Option String
      → NodeId
      → Messages
      → Action (Sys R) E (Unit {0})
  unfolding send_p2p report_client
  send_p2p_reporting_client client_id client_message remote_id message = do
    r ← attempt (send_p2p remote_id message)
    ignore (report_client client_id client_message r)
