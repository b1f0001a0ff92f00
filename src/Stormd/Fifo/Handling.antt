-- ===== src/Stormd/Fifo/Handling.antt =====
-- The queue, by each message that stormd handles.
use storm_node.Base.{
  ◌≡◌, refl, Bool, true, false, Option, none, some, [], arith, append-nil, nat_eq, inl, inr,
}
use storm_node.Base.Action.{Result, Result-cases}
use storm_node.Base.Maps
use storm_node.Wire.{NodeId, ClientId, DaemonId, BifrostApp, StormApp, Messages, LnMsg}
use storm_node.Rpc.Ids.{ServiceId}
use storm_node.Rpc.Messages.{RpcMsg}
use storm_node.Ext.{ExtMsg, storm_ext_msg, remote_id, p2p_message}
use storm_node.Bus.{ServiceBus, CtlMsg, BusMsg}
use storm_node.Bus.Responder.{send_ctl, send_ext, send_p2p}
use storm_node.World.{Platform, Sys}
use storm_node.Stormd.Runtime.{Runtime}
use storm_node.Stormd.Scheduler.{push_free, accept_daemon, pick_task}
use storm_node.Stormd.Frame.{queue-drop_transfer, end_transfer_lem}
use storm_node.Stormd.Handlers.{
  release, transfer_instr, submit_unclaimed, route_instr, route_ext, route_p2p, handle_p2p,
  handle_rpc, end_transfer, handle_finished, handle_hello, handle_ctl, forward_p2p, handle_app,
  handle_others, handle,
}
use storm_node.Stormd.Rule.{note_app}
use storm_node.Stormd.Tasks.{asked}
use storm_node.Stormd.Fifo.{
  peer_instr, ln_instr, direct, queued, peer_direct, peer_queued, sent_on, kept, all_given, Fifo,
  still, passed, Hands-Fifo, pick_task-Hands, submit-Fifo, given-end_transfer,
}

-- What `peer_instr` gives.
abbrev is_peer_instr : CtlMsg → Bool
is_peer_instr (CtlMsg.process_container _) = true
is_peer_instr (CtlMsg.send_chunks _) = true
is_peer_instr (CtlMsg.process_chunk _) = true
is_peer_instr _ = false

module _ (p : Platform) where
  hello-Fifo : (source : ServiceId) (s : Sys Runtime) → Fifo s (handle_hello p source s).1 [] []
  unfolding handle_hello accept_daemon
  hello-Fifo (ServiceId.transfer d) s =
      let s' = record s { rt = push_free d s.rt } in
      let (hs, g, w) = Hands-Fifo s s' (pick_task p s').1 refl refl (pick_task-Hands p s') in
      (hs, ground (arith, g), ground (arith, w))
  hello-Fifo _ s = still s s refl refl

  finished-Fifo :
      (source : ServiceId) (s : Sys Runtime) → Fifo s (handle_finished p source s).1 [] []
  unfolding handle_finished
  finished-Fifo (ServiceId.transfer d) s =
      let o = Maps.find_key d s.rt.container_transfers in
      let s₁ = (end_transfer p o s).1 in
      let s' = record s₁ { rt = release d s₁.rt } in
      let ended = end_transfer_lem p o s in
      let same : s'.rt.ctl_queue ≡ s.rt.ctl_queue =
        ground (arith, ended, queue-drop_transfer o s.rt) in
      let (hs, g, w) =
        Hands-Fifo s s' (pick_task p s').1 (given-end_transfer p o s) same (pick_task-Hands p s') in
      (hs, ground (arith, g, ended), ground (arith, w, ended))
  finished-Fifo _ s = still s s refl refl

  ctl-Fifo :
      (source : ServiceId) (msg : CtlMsg) (s : Sys Runtime)
      → Fifo s (handle_ctl p source msg s).1 [] []
  unfolding handle_ctl
  ctl-Fifo source CtlMsg.hello s = hello-Fifo source s
  ctl-Fifo source CtlMsg.processing_complete s = finished-Fifo source s
  ctl-Fifo source CtlMsg.processing_failed s = finished-Fifo source s
  ctl-Fifo source msg s = still s (handle_ctl p source msg s).1 refl refl

  instr-Fifo :
      (o : Option DaemonId) (instr : CtlMsg) (s : Sys Runtime)
      → is_peer_instr instr ≡ true
      → Fifo s (route_instr p o instr s).1 (sent_on o instr) (kept o instr)
  unfolding route_instr submit_unclaimed send_ctl
  instr-Fifo (some d) instr s h =
      passed s (route_instr p (some d) instr s).1 instr (ground arith) (ground arith)
  instr-Fifo none (CtlMsg.process_container c) s h = submit-Fifo p _ none s s refl refl
  instr-Fifo none (CtlMsg.send_chunks m) s h = submit-Fifo p _ none s s refl refl
  instr-Fifo none (CtlMsg.process_chunk c) s h = still s s refl refl
  instr-Fifo none _ s h = cc

  ext-Fifo :
      (remote : NodeId) (r : Result Messages (StormApp × ExtMsg)) (s : Sys Runtime)
      → Fifo s (route_ext p remote r s).1 [] []
  unfolding route_ext send_p2p send_ext
  ext-Fifo remote r s =
      still s (route_ext p remote r s).1 (ground (arith, append-nil (all_given s.log)))
        (ground arith)

  peer-Fifo :
      (remote : NodeId) (mesg : Messages) (s : Sys Runtime)
      → Fifo s
          (route_p2p p remote mesg (transfer_instr p remote mesg) s).1
          (peer_direct s.rt (peer_instr p remote mesg))
          (peer_queued s.rt (peer_instr p remote mesg))
  unfolding route_p2p transfer_instr
  peer-Fifo remote (Messages.push_container m) s = instr-Fifo _ _ s refl
  peer-Fifo remote (Messages.pull_chunk m) s = instr-Fifo _ _ s refl
  peer-Fifo remote (Messages.push_chunk m) s = instr-Fifo _ _ s refl
  peer-Fifo remote mesg s = ext-Fifo remote (storm_ext_msg mesg remote) s

  payload-Fifo :
      (remote : NodeId) (ln : LnMsg) (s : Sys Runtime)
      → Fifo s
          (handle_p2p p remote ln s).1
          (peer_direct s.rt (ln_instr p remote ln))
          (peer_queued s.rt (ln_instr p remote ln))
  unfolding handle_p2p
  payload-Fifo remote (LnMsg.message BifrostApp.storm payload) s =
      elim (Result-cases (p.unmarshall payload)) [
        | inl (mesg, e) ↦ rw e (peer-Fifo remote mesg s)
        | inr (x, e) ↦ rw e (still s s refl refl)
      ]
  payload-Fifo remote _ s = still s s refl refl

  rpc-Fifo :
      (client_id : ClientId) (rpc : RpcMsg) (s : Sys Runtime)
      → Fifo s
          (handle_rpc p client_id rpc s).1
          []
          (asked ServiceBus.rpc (BusMsg.rpc rpc) (ServiceId.client client_id))
  unfolding handle_rpc
  rpc-Fifo client_id (RpcMsg.send_container m) s = submit-Fifo p _ _ s s refl refl
  rpc-Fifo client_id (RpcMsg.get_container m) s = submit-Fifo p _ _ s s refl refl
  rpc-Fifo client_id _ s = still s s refl refl

  app-Fifo :
      (app : StormApp) (ext : ExtMsg) (s : Sys Runtime)
      → Fifo s
          (handle_app p app ext s).1
          []
          (asked ServiceBus.storm (BusMsg.storm ext) (ServiceId.storm_app app))
  unfolding handle_app forward_p2p send_p2p remote_id p2p_message
  app-Fifo app (ExtMsg.register_app a) s =
      still s (handle_app p app (ExtMsg.register_app a) s).1 (ground arith) (ground arith)
  app-Fifo app (ExtMsg.retrieve_container m) s =
      submit-Fifo p _ none s (record s { rt = note_app m.content.container_id app s.rt }) refl refl
  app-Fifo app (ExtMsg.send_container m) s = submit-Fifo p _ none s s refl refl
  app-Fifo app ext s =
      still s (handle_app p app ext s).1 (ground (arith, append-nil (all_given s.log)))
        (ground arith)

  others-Fifo :
      (source : ServiceId) (ext : ExtMsg) (s : Sys Runtime)
      → Fifo s (handle_others p source ext s).1 [] (asked ServiceBus.rpc (BusMsg.storm ext) source)
  unfolding handle_others
  others-Fifo source (ExtMsg.container_announcement m) s = submit-Fifo p _ none s s refl refl
  others-Fifo source _ s = still s s refl refl

  pub handle-Fifo :
      (bus : ServiceBus) (msg : BusMsg) (source : ServiceId) (s : Sys Runtime)
      → Fifo s
          (handle p bus msg source s).1
          (direct p s.rt bus msg source)
          (queued p s.rt bus msg source)
  unfolding handle
  handle-Fifo ServiceBus.msg (BusMsg.bifrost ln) (ServiceId.peer remote) s =
      payload-Fifo remote ln s
  handle-Fifo ServiceBus.ctl (BusMsg.ctl ctl) source s = ctl-Fifo source ctl s
  handle-Fifo ServiceBus.storm (BusMsg.storm ext) (ServiceId.storm_app app) s = app-Fifo app ext s
  handle-Fifo ServiceBus.rpc (BusMsg.rpc rpc) (ServiceId.client client_id) s =
      rpc-Fifo client_id rpc s
  handle-Fifo ServiceBus.rpc (BusMsg.storm ext) source s = others-Fifo source ext s
  handle-Fifo bus msg source s = still s s refl refl
