-- ===== src/Transferd/Silence.antt =====
-- What stormd hears of a task that fails.
use storm_node.Base.{String, ◌≡◌, refl, Option, none, some, List, arith, nat_eq}
use storm_node.Base.Action.{value, error}
use storm_node.Wire.{
  NodeId, ClientId, ContainerFullId, ContainerId, ChunkId, Chunk, StormApp, Container, Messages,
}
use storm_node.Rpc.Ids.{ServiceId}
use storm_node.Bus.{CtlMsg}
use storm_node.Bus.Responder.{
  send_p2p, send_rpc, send_ctl, send_p2p_reporting_client, report_client,
}
use storm_node.Errors.{DaemonError}
use storm_node.World.{Platform, Sys}
use storm_node.World.Effects.{store_call, filter_unknown, retrieve_chunk}
use storm_node.Transferd.Runtime.{Runtime}
use storm_node.Transferd.Automation.{
  require, info, tell_client, complete, store, handle_receive, store_container, request_missing,
  handle_container, chunk_arrived, handle_chunk, handle_announce, handle_send_container,
  handle_send_chunks,
}
use storm_node.Transferd.Service.{handle_ctl}
use storm_node.Transferd.Completion.{reports}
use storm_node.Transferd.Sending.{push_chunks-Goes}

module _ (p : Platform) (me : ServiceId) where
  tell_client-reports :
      (o : Option ClientId) (text : String) (s : Sys Runtime)
      → reports (tell_client p me o text s).1.log ≡ reports s.log
  unfolding tell_client send_rpc
  tell_client-reports o text s = ground arith

  store_container-reports :
      (c : Container) (s : Sys Runtime) → reports (store_container p me c s).1.log ≡ reports s.log
  unfolding store_container store store_call
  store_container-reports c s = ground arith

  handle_container-reports :
      (c : Container) (s : Sys Runtime) → reports (handle_container p me c s).1.log ≡ reports s.log
  unfolding handle_container require info request_missing filter_unknown send_p2p
  handle_container-reports c s = grind (arith, tell_client-reports, store_container-reports)

  handle_chunk-Silent :
      (c : Chunk) (s : Sys Runtime) (e : DaemonError)
      → (handle_chunk p me c s).0 ≡ error e
      → reports (handle_chunk p me c s).1.log ≡ reports s.log
  unfolding handle_chunk require info tell_client complete store chunk_arrived send_rpc send_ctl
      store_call
  handle_chunk-Silent c s e h = ground arith

  pub report_client-reports :
      (o : Option ClientId) (m : Option String) (remote : NodeId) (message : Messages)
      (s : Sys Runtime)
      → let r =
          send_p2p_reporting_client p {R = Runtime} me {E = DaemonError} o m remote message s in
        (r.0 ≡ value tt) × (r.1.rt ≡ s.rt) × (reports r.1.log ≡ reports s.log)
  unfolding send_p2p_reporting_client report_client send_p2p send_rpc
  report_client-reports none m remote message s = ground arith
  report_client-reports (some client) m remote message s = ground arith

  handle_receive-reports :
      (o : Option ClientId) (app : StormApp) (remote : NodeId) (id : ContainerFullId)
      (s : Sys Runtime)
      → reports (handle_receive p me o app remote id s).1.log ≡ reports s.log
  unfolding handle_receive require
  handle_receive-reports o app remote id s = grind (arith, report_client-reports)

  handle_announce-Silent :
      (o : Option ClientId) (app : StormApp) (remote : NodeId) (id : ContainerFullId)
      (s : Sys Runtime) (e : DaemonError)
      → (handle_announce p me o app remote id s).0 ≡ error e
      → reports (handle_announce p me o app remote id s).1.log ≡ reports s.log
  unfolding handle_announce require complete send_ctl retrieve_chunk
  handle_announce-Silent o app remote id s e h = grind (arith, report_client-reports)

  handle_send_container-Silent :
      (o : Option ClientId) (app : StormApp) (remote : NodeId) (id : ContainerFullId)
      (s : Sys Runtime) (e : DaemonError)
      → (handle_send_container p me o app remote id s).0 ≡ error e
      → reports (handle_send_container p me o app remote id s).1.log ≡ reports s.log
  unfolding handle_send_container require complete send_ctl retrieve_chunk
  handle_send_container-Silent o app remote id s e h = grind (arith, report_client-reports)

  handle_send_chunks-Silent :
      (app : StormApp) (remote : NodeId) (c : ContainerId) (ids : List ChunkId) (s : Sys Runtime)
      (e : DaemonError)
      → (handle_send_chunks p me app remote c ids s).0 ≡ error e
      → reports (handle_send_chunks p me app remote c ids s).1.log ≡ reports s.log
  unfolding handle_send_chunks require complete send_ctl
  handle_send_chunks-Silent app remote c ids s e h =
      grind (arith, push_chunks-Goes p me app remote c ids s)

  -- An instruction that ends with an error is not reported to stormd, neither as complete nor as
  -- failed, whatever it is and wherever it fails.
  pub handle_ctl-Silent :
      (source : ServiceId) (msg : CtlMsg) (s : Sys Runtime) (e : DaemonError)
      → (handle_ctl p me source msg s).0 ≡ error e
      → reports (handle_ctl p me source msg s).1.log ≡ reports s.log
  unfolding handle_ctl
  handle_ctl-Silent source (CtlMsg.get_container m) s e h = handle_receive-reports _ _ _ _ s
  handle_ctl-Silent source (CtlMsg.process_container c) s e h = handle_container-reports c s
  handle_ctl-Silent source (CtlMsg.process_chunk c) s e h = handle_chunk-Silent c s e h
  handle_ctl-Silent source (CtlMsg.announce_container m) s e h =
      handle_announce-Silent _ _ _ _ s e h
  handle_ctl-Silent source (CtlMsg.send_container m) s e h =
      handle_send_container-Silent _ _ _ _ s e h
  handle_ctl-Silent source (CtlMsg.send_chunks m) s e h = handle_send_chunks-Silent _ _ _ _ s e h
  handle_ctl-Silent source msg s e h = refl
