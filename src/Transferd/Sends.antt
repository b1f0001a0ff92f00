-- ===== src/Transferd/Sends.antt =====
-- What transferd sends.
use storm_node.Base.{
  Bool, String, ◌≡◌, refl, true, ◌&&◌, ◌==◌, nat_beq_iff, Option, none, some, List, [], ◌∷◌, arith,
  nat_eq,
}
use storm_node.Base.Action.{◌>>=◌, attempt}
use storm_node.Wire.{
  DaemonId, NodeId, ClientId, ContainerFullId, ContainerId, ChunkId, Chunk, StormApp, Container,
  Messages,
}
use storm_node.Rpc.Ids.{ServiceId}
use storm_node.Bus.{ServiceBus, CtlMsg, BusMsg, Packet, opens}
use storm_node.Bus.Responder.{
  send_p2p, send_rpc, send_ctl, send_p2p_reporting_client, report_client,
}
use storm_node.Config.{Config}
use storm_node.Errors.{DaemonError}
use storm_node.World.{Platform, Sys, said, sends_in, table_chunks}
use storm_node.World.Effects.{store_call, filter_unknown, retrieve_chunk}
use storm_node.Bus.Protocol.{transferd_says}
use storm_node.Transferd.Runtime.{Runtime, buses, on_ready}
use storm_node.Transferd.Automation.{
  require, info, tell_client, complete, store, handle_receive, store_container, request_missing,
  handle_container, chunk_arrived, handle_chunk, handle_announce, handle_send_container,
  handle_send_chunks, push_chunk, push_chunks,
}
use storm_node.Transferd.Service.{handle_ctl, handle}

-- What transferd says goes over its own buses.
pub transferd_says-opens :
    (config : Config (Unit {0})) (d : DaemonId) (packet : Packet)
    → (opens (buses config) packet.bus && transferd_says d packet) ≡ transferd_says d packet
unfolding buses
transferd_says-opens config d packet = ground arith

module _ (p : Platform) (d : DaemonId) (kind : Packet → Bool) where
  abbrev me : ServiceId
  me = ServiceId.transfer d

  -- The daemon keeps its name, nothing was sent but what is its to say, and what it said stays said.
  abbrev Same : Sys Runtime → Sys Runtime → Type 0
  Same s s' =
      (s'.rt.id ≡ s.rt.id)
      × (sends_in (transferd_says d) s'.log ≡ sends_in (transferd_says d) s.log)
      × (said kind s.log ≡ true → said kind s'.log ≡ true)

  own_name : (d == d) ≡ true
  own_name = ground (arith, nat_beq_iff d d)

  tell_client-Same :
      (o : Option ClientId) (text : String) (s : Sys Runtime) → Same s (tell_client p me o text s).1
  unfolding tell_client send_rpc
  tell_client-Same o text s = ground (arith, own_name)

  store_container-Same : (c : Container) (s : Sys Runtime) → Same s (store_container p me c s).1
  unfolding store_container store store_call
  store_container-Same c s = ground (arith, own_name)

  handle_container-Same : (c : Container) (s : Sys Runtime) → Same s (handle_container p me c s).1
  unfolding handle_container require info request_missing filter_unknown send_p2p
  handle_container-Same c s = grind (arith, own_name, tell_client-Same, store_container-Same)

  handle_chunk-Same : (c : Chunk) (s : Sys Runtime) → Same s (handle_chunk p me c s).1
  unfolding handle_chunk require info tell_client complete store chunk_arrived send_rpc send_ctl
      store_call
  handle_chunk-Same c s = ground (arith, own_name)

  report_client-Same :
      (o : Option ClientId) (m : Option String) (remote : NodeId) (message : Messages)
      (s : Sys Runtime)
      → Same s
          (send_p2p_reporting_client p {R = Runtime} me {E = DaemonError} o m remote message s).1
  unfolding send_p2p_reporting_client report_client send_p2p send_rpc
  report_client-Same none m remote message s = ground (arith, own_name)
  report_client-Same (some client) m remote message s = ground (arith, own_name)

  handle_receive-Same :
      (o : Option ClientId) (app : StormApp) (remote : NodeId) (id : ContainerFullId)
      (s : Sys Runtime)
      → Same s (handle_receive p me o app remote id s).1
  unfolding handle_receive require
  handle_receive-Same o app remote id s = grind (arith, own_name, report_client-Same)

  handle_announce-Same :
      (o : Option ClientId) (app : StormApp) (remote : NodeId) (id : ContainerFullId)
      (s : Sys Runtime)
      → Same s (handle_announce p me o app remote id s).1
  unfolding handle_announce require complete send_ctl retrieve_chunk
  handle_announce-Same o app remote id s = grind (arith, own_name, report_client-Same)

  handle_send_container-Same :
      (o : Option ClientId) (app : StormApp) (remote : NodeId) (id : ContainerFullId)
      (s : Sys Runtime)
      → Same s (handle_send_container p me o app remote id s).1
  unfolding handle_send_container require complete send_ctl retrieve_chunk
  handle_send_container-Same o app remote id s = grind (arith, own_name, report_client-Same)

  one-Same :
      (app : StormApp) (remote : NodeId) (c : ContainerId) (a : ChunkId) (s : Sys Runtime)
      → Same s
          ((do
            found ← attempt (retrieve_chunk p table_chunks a)
            push_chunk p me app remote c a found)
            s).1
  unfolding push_chunk retrieve_chunk send_p2p
  one-Same app remote c a s = ground (arith, own_name)

  push_chunks-Same :
      (app : StormApp) (remote : NodeId) (c : ContainerId) (ids : List ChunkId) (s : Sys Runtime)
      → Same s (push_chunks p me app remote c ids s).1
  unfolding push_chunks
  push_chunks-Same app remote c [] s = (refl, refl, λ h. h)
  push_chunks-Same app remote c (a ∷ ids) s =
      grind (arith, own_name, one-Same app remote c a s, push_chunks-Same app remote c ids)

  handle_send_chunks-Same :
      (app : StormApp) (remote : NodeId) (c : ContainerId) (ids : List ChunkId) (s : Sys Runtime)
      → Same s (handle_send_chunks p me app remote c ids s).1
  unfolding handle_send_chunks require complete send_ctl
  handle_send_chunks-Same app remote c ids s =
      grind (arith, own_name, push_chunks-Same app remote c ids)

  handle_ctl-Same :
      (source : ServiceId) (msg : CtlMsg) (s : Sys Runtime)
      → Same s (handle_ctl p me source msg s).1
  unfolding handle_ctl
  handle_ctl-Same source (CtlMsg.get_container m) s = handle_receive-Same _ _ _ _ s
  handle_ctl-Same source (CtlMsg.process_container c) s = handle_container-Same c s
  handle_ctl-Same source (CtlMsg.process_chunk c) s = handle_chunk-Same c s
  handle_ctl-Same source (CtlMsg.announce_container m) s = handle_announce-Same _ _ _ _ s
  handle_ctl-Same source (CtlMsg.send_container m) s = handle_send_container-Same _ _ _ _ s
  handle_ctl-Same source (CtlMsg.send_chunks m) s = handle_send_chunks-Same _ _ _ _ s
  handle_ctl-Same source msg s = (refl, refl, λ h. h)

module _ (p : Platform) (kind : Packet → Bool) (s : Sys Runtime) where
  -- A message that transferd handles, and its start, make it send only what is its to say.
  pub transferd-handle-Same :
      (bus : ServiceBus) (msg : BusMsg) (source : ServiceId)
      → Same p s.rt.id kind s (handle p bus msg source s).1
  unfolding handle
  transferd-handle-Same ServiceBus.ctl (BusMsg.ctl msg) source =
      handle_ctl-Same p s.rt.id kind source msg s
  transferd-handle-Same bus msg source = (refl, refl, λ h. h)

  pub transferd-on_ready-Same : Same p s.rt.id kind s (on_ready p s).1
  unfolding on_ready send_ctl
  transferd-on_ready-Same = ground (arith, own_name p s.rt.id kind)
