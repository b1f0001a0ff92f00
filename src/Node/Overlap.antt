-- ===== src/Node/Overlap.antt =====
-- A transfer daemon that gets a second task before the end of its first is known.
use storm_node.Base.{
  ◌≡◌, ◌∙◌, ap, suc, none, some, [], ◌∷◌, ◌++◌, arith, append_assoc, nat_eq, nat_beq_iff,
}
use storm_node.Base.Action.{ok}
use storm_node.Base.Sets
use storm_node.Base.Maps
use storm_node.Wire.{
  Bytes, NodeId, DaemonId, BifrostApp, StormApp, ContainerFullId, Container, Chunk, LnMsg, Messages,
  ChunkPull,
}
use storm_node.Rpc.Ids.{ServiceId, stormd}
use storm_node.Bus.{ServiceBus, CtlMsg, BusMsg, Packet}
use storm_node.Bus.Responder.{
  send_p2p, send_ctl, send_p2p_reporting_client, report_client, ctl_packet,
}
use storm_node.World.{Platform, Sys, Log, table_containers}
use storm_node.World.Effects.{retrieve_chunk}
use storm_node.Stormd.Runtime
use storm_node.Stormd.Handlers
use storm_node.Stormd.Pool.{IsPool}
use storm_node.Stormd.Pool.Twice.{free-finished, queue-finished, handle-breaks}
use storm_node.Transferd
use storm_node.Transferd.State.{StateTy, state_name, require_state}
use storm_node.Transferd.Automation.{require, complete, handle_send_container}
use storm_node.Transferd.Completion.{completions}
use storm_node.Transferd.Sending.{handle_send_chunks-completes}
use storm_node.Node.ChatRoute.{LastSent, on_stormd}
use storm_node.Node.FileRoute.{on_transferd}

module _ (p : Platform) (remote : NodeId) (payload : Bytes) (m : ChunkPull) (d : DaemonId)
    (app : StormApp) (id : ContainerFullId) where
  -- What daemon `d` is told to send, what the peer asks for, and what follows from it.
  abbrev pub ordered : Packet
  ordered = ctl_packet stormd (ServiceId.transfer d) (
      CtlMsg.send_container (record {
        remote_id = remote;
        client_id = none;
        content = record { storm_app = app; container_id = id };
      }))

  abbrev pub asking : Packet
  asking = record {
    bus = ServiceBus.msg;
    source = ServiceId.peer remote;
    dest = stormd;
    request = BusMsg.bifrost (LnMsg.message BifrostApp.storm payload);
  }

  abbrev pub passed_on : Packet
  passed_on = ctl_packet stormd (ServiceId.transfer d) (
      CtlMsg.send_chunks (record {
        remote_id = remote;
        content = record {
          storm_app = m.app;
          container_id = m.container_id;
          chunk_ids = m.chunk_ids;
        };
      }))

  abbrev pub ended : Packet
  ended = ctl_packet (ServiceId.transfer d) stormd CtlMsg.processing_complete

  -- The two tasks on the transfer daemon.
  twice_done :
      (t : Sys Transferd.Runtime.Runtime) (chunk : Chunk) (container : Container)
      → ((log : Log) (packet : Packet) → p.transport log packet ≡ none)
      → t.rt.state ≡ StateTy.free
      → t.rt.id ≡ d
      → ((log : Log) → p.retrieved log table_containers id.container_id ≡ ok (some chunk))
      → p.deserialize_container chunk ≡ ok container
      → let t₁ = (on_transferd p ordered t).1 in
        let t₂ = (on_transferd p passed_on t₁).1 in
        LastSent t₁.log ended × (completions t₂.log ≡ suc (suc (completions t.log)))
  unfolding Transferd.Service.handle Transferd.Service.handle_ctl handle_send_container require
      require_state state_name retrieve_chunk complete send_p2p_reporting_client report_client
      send_p2p send_ctl
  twice_done t chunk container sends at_rest name stored decoded =
      let t₁ = (on_transferd p ordered t).1 in
      let after : (t₁.rt.state ≡ StateTy.free)
          × (t₁.rt.id ≡ d)
          × (completions t₁.log ≡ suc (completions t.log)) =
        grind (arith, at_rest, name, stored, decoded, sends) in
      let second =
        handle_send_chunks-completes p (ServiceId.transfer t₁.rt.id) m.app remote m.container_id
          m.chunk_ids t₁ (λ log. sends log _) after.0 in
      (grind (arith, at_rest, name, stored, decoded, sends), second.2 ∙ ap suc after.2)

  -- A daemon that sends a container and is asked for chunks of it before stormd knows of the end of
  -- the first task gets the second one too, does both, and reports two ends; if no task waits, stormd
  -- then has it among the free daemons twice, so that the pool is no longer in order. (The bus takes
  -- every packet, the payload is the encoding of the request, stormd has the daemon down for the
  -- container, the daemon is free, and the store has the container that it is to send.)
  pub pull_breaks :
      (s : Sys Runtime.Runtime) (t : Sys Transferd.Runtime.Runtime) (chunk : Chunk)
      (container : Container)
      → ((log : Log) (packet : Packet) → p.transport log packet ≡ none)
      → p.unmarshall payload ≡ ok (Messages.pull_chunk m)
      → Maps.get m.container_id s.rt.container_transfers ≡ some d
      → s.rt.ctl_queue ≡ []
      → t.rt.state ≡ StateTy.free
      → t.rt.id ≡ d
      → ((log : Log) → p.retrieved log table_containers id.container_id ≡ ok (some chunk))
      → p.deserialize_container chunk ≡ ok container
      → let s₁ = (on_stormd p asking s).1 in
        let s₂ = (on_stormd p ended s₁).1 in
        let s₃ = (on_stormd p ended s₂).1 in
        let t₁ = (on_transferd p ordered t).1 in
        let t₂ = (on_transferd p passed_on t₁).1 in
        LastSent s₁.log passed_on
        × LastSent t₁.log ended
        × (completions t₂.log ≡ suc (suc (completions t.log)))
        × (s₃.rt.transferd_free ≡ s.rt.transferd_free ++ d ∷ d ∷ [])
        × ¬ IsPool s₃.rt
  unfolding Handlers.handle Handlers.handle_p2p Handlers.route_p2p Handlers.transfer_instr
      Handlers.route_instr Handlers.handle_ctl send_ctl
  pull_breaks s t chunk container sends codec claimed idle at_rest name stored decoded =
      let s₁ = (on_stormd p asking s).1 in
      let s₂ = (on_stormd p ended s₁).1 in
      let daemon = twice_done t chunk container sends at_rest name stored decoded in
      let quiet : s₁.rt ≡ s.rt = ground (arith, codec, claimed) in
      let idle₁ : s₁.rt.ctl_queue ≡ [] = ap (λ rt. rt.ctl_queue) quiet ∙ idle in
      let freed : s₂.rt.transferd_free ≡ s.rt.transferd_free ++ d ∷ [] =
        free-finished p d s₁ idle₁ ∙ ap (λ rt. rt.transferd_free ++ d ∷ []) quiet in
      let broken = handle-breaks p d s₂ (queue-finished p d s₁ idle₁) (
        rw freed
          (ground (arith, Sets.contains-append d s.rt.transferd_free (d ∷ []), nat_beq_iff d d))) in
      (
        ground (arith, codec, claimed, sends s.log (passed_on)),
        daemon.0,
        daemon.1,
        broken.0
            ∙ ap (λ xs. xs ++ d ∷ []) freed
            ∙ append_assoc s.rt.transferd_free (d ∷ []) (d ∷ []),
        broken.1,
      )
