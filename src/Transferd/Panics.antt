-- ===== src/Transferd/Panics.antt =====
-- The places where transferd could panic, `expect` and `unreachable!` of the workflows.
use storm_node.Base.{if◌then◌else◌, ◌≡◌, refl, false, List, [], ◌∷◌, arith, nat_eq}
use storm_node.Wire.{NodeId, ContainerId, ChunkId, Chunk, StormApp, Container}
use storm_node.Rpc.Ids.{ServiceId}
use storm_node.Bus.{ServiceBus, CtlMsg, BusMsg}
use storm_node.Bus.Responder.{
  send_p2p, send_rpc, send_ctl, send_p2p_reporting_client, report_client,
}
use storm_node.World.{Platform, Sys}
use storm_node.World.Effects.{store_call, retrieve_chunk, filter_unknown}
use storm_node.Errors.{wrong_esb_msg}
use storm_node.World.Serve.{Manner, manner, panics, panics-manner}
use storm_node.Bus.Protocol.{is_instruction}
use storm_node.Transferd.State.{state_name, state_info, require_state}
use storm_node.Transferd.Runtime.{Runtime, identity}
use storm_node.Transferd.Automation.{
  require, info, tell_client, complete, store, handle_receive, store_container, request_missing,
  handle_container, chunk_arrived, handle_chunk, handle_announce, handle_send_container, push_chunk,
  push_chunks, handle_send_chunks,
}
use storm_node.Transferd.Service.{handle_ctl, handle}

-- How transferd deals with the messages of the control bus, and with all messages.
abbrev ctl_manner : CtlMsg → Manner
ctl_manner msg = if is_instruction msg then Manner.taken else Manner.refused

abbrev pub transferd_manner : ServiceBus → BusMsg → Manner
transferd_manner ServiceBus.ctl (BusMsg.ctl msg) = ctl_manner msg
transferd_manner _ _ = Manner.refused

module _ (p : Platform) (me : ServiceId) where
  store_container-taken :
      (c : Container) (s : Sys Runtime) → manner (store_container p me c s).0 ≡ Manner.taken
  unfolding store_container store store_call
  store_container-taken c s = ground arith

  handle_container-taken :
      (c : Container) (s : Sys Runtime) → manner (handle_container p me c s).0 ≡ Manner.taken
  unfolding handle_container require require_state state_name info state_info tell_client
      request_missing filter_unknown send_rpc send_p2p
  handle_container-taken c s = grind (arith, store_container-taken c)

  handle_chunk-taken :
      (c : Chunk) (s : Sys Runtime) → manner (handle_chunk p me c s).0 ≡ Manner.taken
  unfolding handle_chunk require require_state state_name info state_info tell_client store
      chunk_arrived complete send_rpc send_ctl store_call
  handle_chunk-taken c s = ground arith

  push_chunks-taken :
      (app : StormApp) (remote : NodeId) (id : ContainerId) (ids : List ChunkId) (s : Sys Runtime)
      → manner (push_chunks p me app remote id ids s).0 ≡ Manner.taken
  unfolding push_chunks push_chunk retrieve_chunk send_p2p
  push_chunks-taken app remote id [] s = refl
  push_chunks-taken app remote id (chunk_id ∷ ids) s =
      grind (arith, push_chunks-taken app remote id ids)

  handle_ctl-manner :
      (source : ServiceId) (msg : CtlMsg) (s : Sys Runtime)
      → manner (handle_ctl p me source msg s).0 ≡ ctl_manner msg
  unfolding wrong_esb_msg handle_ctl handle_receive handle_announce handle_send_container
      handle_send_chunks require retrieve_chunk complete send_ctl send_p2p_reporting_client
      report_client send_p2p
  handle_ctl-manner source (CtlMsg.get_container m) s = ground arith
  handle_ctl-manner source (CtlMsg.announce_container m) s = ground arith
  handle_ctl-manner source (CtlMsg.send_container m) s = ground arith
  handle_ctl-manner source (CtlMsg.send_chunks m) s = grind (arith, push_chunks-taken)
  handle_ctl-manner source (CtlMsg.process_container c) s = handle_container-taken c s
  handle_ctl-manner source (CtlMsg.process_chunk c) s = handle_chunk-taken c s
  handle_ctl-manner source msg s = refl

-- transferd takes on the instructions that it gets over the control bus, whatever its state and the
-- answers of the platform are, and supports nothing else.
pub transferd-manner :
    (p : Platform) (bus : ServiceBus) (msg : BusMsg) (source : ServiceId) (s : Sys Runtime)
    → manner (handle p bus msg source s).0 ≡ transferd_manner bus msg
unfolding wrong_esb_msg handle
transferd-manner p ServiceBus.ctl (BusMsg.ctl msg) source s =
    handle_ctl-manner p (identity s.rt) source msg s
transferd-manner p bus msg source s = ground arith

-- No message makes transferd panic, whatever its state and the answers of the platform are: the
-- `expect` and the `unreachable!` of its workflows are not reached.
pub transferd-panics :
    (p : Platform) (bus : ServiceBus) (msg : BusMsg) (source : ServiceId) (s : Sys Runtime)
    → panics (handle p bus msg source s).0 ≡ false
transferd-panics p bus msg source s =
    ground (arith, panics-manner (handle p bus msg source s).0, transferd-manner p bus msg source s)
