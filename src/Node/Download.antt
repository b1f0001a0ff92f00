-- ===== src/Node/Download.antt =====
-- The end of a download: stormd hands the chunks that a peer sends to the transfer daemon that has
-- the container, and hears from it when it has them all.
use storm_node.Base.{
  ◌≡◌, refl, ◌∙◌, ap, suc, ℕ, true, false, some, none, List, [], ◌∷◌, map, arith, nat_eq,
  nat_beq_iff, is_empty,
}
use storm_node.Base.Action.{ok}
use storm_node.Base.Sets
use storm_node.Base.Sets.{Within}
use storm_node.Base.Maps
use storm_node.Wire.{
  NodeId, DaemonId, ContainerId, ChunkId, Chunk, Bytes, BifrostApp, StormApp, Messages, LnMsg,
}
use storm_node.Rpc.Ids.{ServiceId, stormd}
use storm_node.Ext.{ExtMsg}
use storm_node.Bus.{ServiceBus, CtlMsg, BusMsg, Packet}
use storm_node.Bus.Responder.{send_ctl, send_ext, ctl_packet, ext_packet, send_rpc}
use storm_node.World.{Platform, Sys, Log, Request, Event}
use storm_node.World.Effects.{store_call}
use storm_node.Stormd.Runtime
use storm_node.Stormd.Scheduler.{pick_task, assign_front}
use storm_node.Stormd.Handlers
use storm_node.Stormd.Pool.{IsPool, is_free, is_busy}
use storm_node.Transferd
use storm_node.Transferd.State.{StateTy, ReceiveState, Info, require_state, state_name, state_info}
use storm_node.Transferd.Automation.{
  require, info, tell_client, store, chunk_arrived, complete, handle_chunk,
}
use storm_node.Transferd.Completion.{completions}
use storm_node.Transferd.Download.{deliver, deliver_completes}
use storm_node.Node.ChatRoute.{LastSent, on_stormd}
use storm_node.Node.FileRoute.{on_transferd}

-- A peer's message with a chunk, what stormd makes of it, and the messages at the end.
abbrev pub chunk_pushed : NodeId → Bytes → Packet
chunk_pushed remote payload = record {
  bus = ServiceBus.msg;
  source = ServiceId.peer remote;
  dest = stormd;
  request = BusMsg.bifrost (LnMsg.message BifrostApp.storm payload);
}

abbrev pub chunk_forwarded : DaemonId → Chunk → Packet
chunk_forwarded d chunk = ctl_packet stormd (ServiceId.transfer d) (CtlMsg.process_chunk chunk)

abbrev pub end_reported : DaemonId → Packet
end_reported d = ctl_packet (ServiceId.transfer d) stormd CtlMsg.processing_complete

abbrev pub end_notified : StormApp → ContainerId → Packet
end_notified app container_id =
    ext_packet stormd (some app) (ExtMsg.container_retrieved container_id)

abbrev pub forwards : DaemonId → List Chunk → Log → Log
forwards d [] log = log
forwards d (chunk ∷ chunks) log =
    forwards d chunks (Event.done (Request.send (chunk_forwarded d chunk)) ∷ log)

module _ (p : Platform) where
  -- stormd handles one of the peer's messages after the other.
  unfoldable pub relay : NodeId → List Bytes → Sys Runtime.Runtime → Sys Runtime.Runtime
  relay remote [] s = s
  relay remote (payload ∷ payloads) s =
      relay remote payloads (on_stormd p (chunk_pushed remote payload) s).1

  -- transferd handles one packet after the other.
  unfoldable pub receive :
      List Packet → Sys Transferd.Runtime.Runtime → Sys Transferd.Runtime.Runtime
  receive [] t = t
  receive (packet ∷ packets) t = receive packets (on_transferd p packet t).1

module _ (p : Platform) (remote : NodeId) (app : StormApp) (container_id : ContainerId)
    (d : DaemonId) (encoded : Chunk → Bytes) where
  id-handle_chunk :
      (chunk : Chunk) (t : Sys Transferd.Runtime.Runtime)
      → (handle_chunk p (ServiceId.transfer d) chunk t).1.rt.id ≡ t.rt.id
  unfolding handle_chunk require require_state state_name info state_info tell_client complete store
      chunk_arrived send_rpc send_ctl store_call
  id-handle_chunk chunk t = ground arith

  on_transferd-handle_chunk :
      (chunk : Chunk) (t : Sys Transferd.Runtime.Runtime)
      → t.rt.id ≡ d
      → on_transferd p (chunk_forwarded d chunk) t ≡ handle_chunk p (ServiceId.transfer d) chunk t
  unfolding Transferd.Service.handle Transferd.Service.handle_ctl
  on_transferd-handle_chunk chunk t name =
      ap (λ i. handle_chunk p (ServiceId.transfer i) chunk t) name

  receive-deliver :
      (chunks : List Chunk) (t : Sys Transferd.Runtime.Runtime)
      → t.rt.id ≡ d
      → receive p (map (chunk_forwarded d) chunks) t ≡ deliver p (ServiceId.transfer d) chunks t
  unfolding receive deliver
  receive-deliver [] t name = refl
  receive-deliver (chunk ∷ chunks) t name =
      let t' = (handle_chunk p (ServiceId.transfer d) chunk t).1 in
      ap (λ r. receive p (map (chunk_forwarded d) chunks) r.1)
        (on_transferd-handle_chunk chunk t name)
      ∙ receive-deliver chunks t' (id-handle_chunk chunk t ∙ name)

  module _ (sends : (log : Log) (packet : Packet) → p.transport log packet ≡ none)
      (codec : (chunk : Chunk)
        → p.unmarshall (encoded chunk)
          ≡ ok (
              Messages.push_chunk (record {
                app = app;
                container_id = container_id;
                chunk_id = p.chunk_id chunk;
                chunk = chunk;
              }))) where
    relay-forwards :
        (chunks : List Chunk) (s : Sys Runtime.Runtime)
        → Maps.get container_id s.rt.container_transfers ≡ some d
        → relay p remote (map encoded chunks) s ≡ record s { log = forwards d chunks s.log }
    unfolding relay Handlers.handle Handlers.handle_p2p Handlers.route_p2p Handlers.transfer_instr
        Handlers.route_instr send_ctl
    relay-forwards [] s claimed = refl
    relay-forwards (chunk ∷ chunks) s claimed =
        let log : Log = Event.done (Request.send (chunk_forwarded d chunk)) ∷ s.log in
        ground (
          arith,
          claimed,
          codec chunk,
          sends s.log (chunk_forwarded d chunk),
          relay-forwards chunks (record s { log = log }) claimed,
        )

    end_reported-ends :
        (s : Sys Runtime.Runtime)
        → IsPool s.rt
        → Maps.get container_id s.rt.container_transfers ≡ some d
        → Maps.get container_id s.rt.container_apps ≡ some app
        → s.rt.ctl_queue ≡ []
        → let s' = (on_stormd p (end_reported d) s).1 in
          LastSent s'.log (end_notified app container_id)
          × (Maps.get container_id s'.rt.container_transfers ≡ none)
          × (is_free d s'.rt ≡ true)
          × (is_busy d s'.rt ≡ false)
    unfolding Handlers.handle Handlers.handle_ctl Handlers.handle_finished Handlers.end_transfer
        Handlers.notify_app pick_task assign_front send_ext
    end_reported-ends s pool claimed wants idle =
        let transfers = s.rt.container_transfers in
        let found = Maps.find_key-get container_id d transfers pool.single claimed in
        let tests = nat_beq_iff d d in
        (
          ground (arith, found, wants, idle, sends s.log (end_notified app container_id)),
          ground (
            arith,
            found,
            wants,
            idle,
            sends s.log (end_notified app container_id),
            Maps.get-remove container_id container_id transfers,
            nat_beq_iff container_id container_id,
          ),
          ground (
            arith,
            found,
            wants,
            idle,
            sends s.log (end_notified app container_id),
            tests,
            Sets.contains-append d s.rt.transferd_free (d ∷ []),
          ),
          ground (
            arith,
            found,
            wants,
            idle,
            sends s.log (end_notified app container_id),
            tests,
            Sets.contains-remove d d s.rt.transferd_busy,
          ),
        )

    -- If stormd knows which transfer daemon gets a container for an app, that daemon awaits chunks of
    -- it, and a peer sends them all, in whatever order and with whatever others in between: stormd
    -- hands on just these chunks, to that daemon and in that order, and changes nothing else; the
    -- daemon, getting what stormd sent, is free at the end and has reported the end once; and on that
    -- report stormd tells the app that the container is there, forgets the transfer and counts the
    -- daemon as free. (The bus takes every packet, the store fails nowhere, the payloads encode the
    -- messages, the pool is in order and no task waits.)
    pub download_ends :
        (stores : (log : Log) (r : Request) → p.store_reply log r ≡ none) (chunks : List Chunk)
        (i : Info) (total : ℕ) (pending : List ChunkId) (s : Sys Runtime.Runtime)
        (t : Sys Transferd.Runtime.Runtime)
        → IsPool s.rt
        → Maps.get container_id s.rt.container_transfers ≡ some d
        → Maps.get container_id s.rt.container_apps ≡ some app
        → s.rt.ctl_queue ≡ []
        → t.rt.id ≡ d
        → t.rt.state ≡ StateTy.receive (ReceiveState.receiving_chunks i total pending)
        → is_empty pending ≡ false
        → Within pending (map p.chunk_id chunks)
        → let s' = relay p remote (map encoded chunks) s in
          let t' = receive p (map (chunk_forwarded d) chunks) t in
          let s'' = (on_stormd p (end_reported d) s').1 in
          (s' ≡ record s { log = forwards d chunks s.log })
          × (t'.rt.state ≡ StateTy.free)
          × (completions t'.log ≡ suc (completions t.log))
          × LastSent s''.log (end_notified app container_id)
          × (Maps.get container_id s''.rt.container_transfers ≡ none)
          × (is_free d s''.rt ≡ true)
          × (is_busy d s''.rt ≡ false)
    download_ends stores chunks i total pending s t pool claimed wants idle name awaits some_left
          all =
        let relayed = relay-forwards chunks s claimed in
        let me = ServiceId.transfer d in
        let delivered =
          deliver_completes p me sends stores chunks i total pending t awaits some_left all in
        let ended =
          end_reported-ends (relay p remote (map encoded chunks) s) (rw relayed pool)
            (rw relayed claimed) (rw relayed wants) (rw relayed idle) in
        let received = receive-deliver chunks t name in
        (
          relayed,
          rw received delivered.0,
          rw received delivered.1,
          ended.0,
          ended.1,
          ended.2,
          ended.3,
        )
