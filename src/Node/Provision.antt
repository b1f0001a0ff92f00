-- ===== src/Node/Provision.antt =====
-- The way of a container that a peer asks for: stormd at the provider, downpourd there, stormd again,
-- a transfer daemon, which takes the container from the store, and stormd at the peer that asked.
use storm_node.Base.{◌≡◌, none, some, List, [], ◌∷◌, arith, nat_eq}
use storm_node.Base.Action.{ok}
use storm_node.Base.Maps
use storm_node.Wire.{NodeId, DaemonId, StormApp, ContainerFullId, Container, Chunk, Messages}
use storm_node.Rpc.Ids.{ServiceId, stormd, downpourd}
use storm_node.Ext.{ExtMsg, storm_ext_msg}
use storm_node.Bus.{CtlMsg, Packet}
use storm_node.Bus.Responder.{
  send_p2p, send_ext, send_ctl, send_p2p_reporting_client, report_client, p2p_packet, ext_packet,
  ctl_packet,
}
use storm_node.World.{Platform, Sys, Log, Request, Event, table_containers}
use storm_node.World.Effects.{retrieve_chunk}
use storm_node.Stormd.Runtime
use storm_node.Stormd.Scheduler.{
  submit, pick_or_start, pick_task, assign_front, after_pick, tell_client, task_container,
}
use storm_node.Stormd.Handlers
use storm_node.Transferd
use storm_node.Transferd.State.{StateTy, state_name, require_state}
use storm_node.Transferd.Automation.{require, complete, handle_send_container}
use storm_node.Downpourd
use storm_node.Node.ChatRoute.{LastSent, on_stormd, from_peer}
use storm_node.Node.FileRoute.{on_downpourd, on_transferd}

-- The messages of the two nodes to each other.
abbrev pub pull_message : ContainerFullId → Messages
pull_message id = Messages.pull_container (record { app = StormApp.file_transfer; content = id })

abbrev pub push_message : Container → Messages
push_message container =
    Messages.push_container (record { app = StormApp.file_transfer; content = container })

-- Node `a` runs on `p` and asks by its transfer daemon `d`; node `b` runs on `q` and answers by `e`.
module _ (p q : Platform) (a b : NodeId) (d e : DaemonId) (id : ContainerFullId)
    (container : Container) where
  -- The packets on the way, from the request to the container.
  abbrev pub requested : Packet
  requested = p2p_packet p (ServiceId.transfer d) b (pull_message id)

  abbrev pub app_asked : Packet
  app_asked =
      ext_packet stormd (some StormApp.file_transfer)
        (ExtMsg.retrieve_container (record { remote_id = a; content = id }))

  abbrev pub agreed : Packet
  agreed =
      ext_packet downpourd none (ExtMsg.send_container (record { remote_id = a; content = id }))

  abbrev pub ordered : Packet
  ordered = ctl_packet stormd (ServiceId.transfer e) (
      CtlMsg.send_container (record {
        remote_id = a;
        client_id = none;
        content = record { storm_app = StormApp.file_transfer; container_id = id };
      }))

  abbrev pub delivered : Packet
  delivered = p2p_packet q (ServiceId.transfer e) a (push_message container)

  abbrev pub completed : Packet
  completed = ctl_packet (ServiceId.transfer e) stormd CtlMsg.processing_complete

  abbrev pub handed_over : Packet
  handed_over = ctl_packet stormd (ServiceId.transfer d) (CtlMsg.process_container container)

  -- A container that a transfer daemon of a node asks a peer for is taken from the peer's store by
  -- the peer's first free transfer daemon, which reports the end of its task, and reaches the very
  -- daemon that asked, each daemon on the way handling what the one before it sent. (The buses take
  -- every packet, each node reads the other's encoding of the message, no task waits at the peer, its
  -- transfer daemon is free, its store has the container, and the node that asked knows which of its
  -- daemons gets a container with that hash.)
  pub container_crosses :
      (gs : List DaemonId) (chunk : Chunk) (s₁ s₂ s₃ : Sys Runtime.Runtime) (f : Sys (Unit {0}))
      (t : Sys Transferd.Runtime.Runtime)
      → ((log : Log) (packet : Packet) → p.transport log packet ≡ none)
      → ((log : Log) (packet : Packet) → q.transport log packet ≡ none)
      → q.unmarshall (p.serialize (pull_message id)) ≡ ok (pull_message id)
      → p.unmarshall (q.serialize (push_message container)) ≡ ok (push_message container)
      → s₂.rt.ctl_queue ≡ []
      → s₂.rt.transferd_free ≡ e ∷ gs
      → t.rt.state ≡ StateTy.free
      → t.rt.id ≡ e
      → ((log : Log) → q.retrieved log table_containers id.container_id ≡ ok (some chunk))
      → q.deserialize_container chunk ≡ ok container
      → Maps.get (p.container_id container) s₃.rt.container_transfers ≡ some d
      → LastSent (on_stormd q (from_peer a requested) s₁).1.log app_asked
        × LastSent (on_downpourd q app_asked f).1.log agreed
        × LastSent (on_stormd q agreed s₂).1.log ordered
        × ((on_transferd q ordered t).1.log
            ≡ Event.done (Request.send completed)
              ∷ Event.done (Request.send delivered)
              ∷ Event.done (Request.retrieve table_containers id.container_id)
              ∷ t.log)
        × LastSent (on_stormd p (from_peer b delivered) s₃).1.log handed_over
  unfolding Handlers.handle Handlers.handle_p2p Handlers.route_p2p Handlers.transfer_instr
      Handlers.route_ext Handlers.route_instr Handlers.handle_app storm_ext_msg submit pick_or_start
      pick_task assign_front after_pick tell_client task_container send_ctl send_ext send_p2p
      Downpourd.handle Downpourd.handle_storm Transferd.Service.handle Transferd.Service.handle_ctl
      handle_send_container require require_state state_name retrieve_chunk complete
      send_p2p_reporting_client report_client
  container_crosses gs chunk s₁ s₂ s₃ f t sp sq there back idle free at_rest name stored decoded
        claimed =
      (
        ground (arith, there, sq s₁.log app_asked),
        ground (arith, sq f.log agreed),
        ground (arith, idle, free, sq s₂.log ordered),
        grind (arith, at_rest, name, stored, decoded, sq),
        ground (arith, back, claimed, sp s₃.log handed_over),
      )
