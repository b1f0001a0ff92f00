-- ===== src/Node/FileRoute.antt =====
-- The way of an announced container: stormd at the receiver, downpourd there, stormd again, and a
-- transfer daemon, which asks the announcing peer for the container.
use storm_node.Base.{◌≡◌, none, some, List, [], ◌∷◌, arith, nat_eq, nat_beq_iff}
use storm_node.Base.Action.{Outcome, ok}
use storm_node.Base.Maps
use storm_node.Wire.{NodeId, DaemonId, Bytes, BifrostApp, StormApp, ContainerInfo, Messages, LnMsg}
use storm_node.Rpc.Ids.{ServiceId, stormd, downpourd}
use storm_node.Ext.{ExtMsg, storm_ext_msg}
use storm_node.Bus.{ServiceBus, CtlMsg, BusMsg, Packet}
use storm_node.Bus.Responder.{
  send_p2p, send_ext, send_ctl, send_p2p_reporting_client, report_client, p2p_packet, ext_packet,
  ctl_packet,
}
use storm_node.Errors.{DaemonError}
use storm_node.World.{Platform, Sys, Log}
use storm_node.Stormd.Runtime
use storm_node.Stormd.Scheduler.{
  submit, pick_or_start, pick_task, assign_front, after_pick, tell_client, task_container,
}
use storm_node.Stormd.Handlers
use storm_node.Transferd
use storm_node.Transferd.State.{StateTy, state_name, require_state}
use storm_node.Transferd.Automation.{require, handle_receive}
use storm_node.Downpourd
use storm_node.Node.ChatRoute.{LastSent, on_stormd}

abbrev pub on_downpourd :
    Platform → Packet → Sys (Unit {0}) → Outcome DaemonError (Unit {0}) × Sys (Unit {0})
on_downpourd p packet = Downpourd.handle p packet.bus packet.request packet.source

abbrev pub on_transferd :
    Platform
    → Packet
    → Sys Transferd.Runtime.Runtime
    → Outcome DaemonError (Unit {0}) × Sys Transferd.Runtime.Runtime
on_transferd p packet = Transferd.Service.handle p packet.bus packet.request packet.source

module _ (p : Platform) (remote : NodeId) (payload : Bytes) (container : ContainerInfo)
    (d : DaemonId) (fs : List DaemonId) where
  -- The packets on the way, from the peer's message to the request for the container.
  abbrev pub announced : Packet
  announced = record {
    bus = ServiceBus.msg;
    source = ServiceId.peer remote;
    dest = stormd;
    request = BusMsg.bifrost (LnMsg.message BifrostApp.storm payload);
  }

  abbrev pub told : Packet
  told =
      ext_packet stormd (some StormApp.file_transfer)
        (ExtMsg.container_announcement (record { remote_id = remote; content = container }))

  abbrev pub wanted : Packet
  wanted =
      ext_packet downpourd none
        (ExtMsg.retrieve_container (record { remote_id = remote; content = container.id }))

  abbrev pub assigned : Packet
  assigned = ctl_packet stormd (ServiceId.transfer d) (
      CtlMsg.get_container (record {
        remote_id = remote;
        client_id = none;
        content = record { storm_app = StormApp.file_transfer; container_id = container.id };
      }))

  abbrev pub pulled : Packet
  pulled =
      p2p_packet p (ServiceId.transfer d) remote
        (Messages.pull_container (record { app = StormApp.file_transfer; content = container.id }))

  -- A container that a peer announces to the file transfer app is requested from that peer by the
  -- first free transfer daemon, each daemon handling what the one before it sent, and stormd knows
  -- from then on which daemon gets the container. (The bus takes every packet, the payload is the
  -- encoding of the announcement, no task waits, and the transfer daemon is free.)
  pub announcement_answered :
      (s₁ s₂ : Sys Runtime.Runtime) (f : Sys (Unit {0})) (t : Sys Transferd.Runtime.Runtime)
      → ((log : Log) (packet : Packet) → p.transport log packet ≡ none)
      → p.unmarshall payload
        ≡ ok (
            Messages.announce_container
              (record { app = StormApp.file_transfer; content = container }))
      → s₂.rt.ctl_queue ≡ []
      → s₂.rt.transferd_free ≡ d ∷ fs
      → t.rt.state ≡ StateTy.free
      → t.rt.id ≡ d
      → LastSent (on_stormd p announced s₁).1.log told
        × LastSent (on_downpourd p told f).1.log wanted
        × LastSent (on_stormd p wanted s₂).1.log assigned
        × (Maps.get container.id.container_id (on_stormd p wanted s₂).1.rt.container_transfers
            ≡ some d)
        × LastSent (on_transferd p assigned t).1.log pulled
  unfolding Handlers.handle Handlers.handle_p2p Handlers.route_p2p Handlers.transfer_instr
      Handlers.route_ext Handlers.handle_app storm_ext_msg submit pick_or_start pick_task
      assign_front after_pick tell_client task_container send_ctl send_ext send_p2p Downpourd.handle
      Downpourd.handle_storm Transferd.Service.handle Transferd.Service.handle_ctl handle_receive
      require require_state state_name send_p2p_reporting_client report_client
  announcement_answered s₁ s₂ f t sends codec idle free at_rest name =
      let id = container.id.container_id in
      (
        ground (arith, codec, sends s₁.log told),
        ground (arith, sends f.log wanted),
        ground (arith, idle, free, sends s₂.log assigned),
        ground (
          arith,
          idle,
          free,
          sends s₂.log assigned,
          Maps.get-insert id id d s₂.rt.container_transfers,
          nat_beq_iff id id,
        ),
        ground (arith, at_rest, name, sends t.log pulled),
      )
