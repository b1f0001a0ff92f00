-- ===== src/Stormd/Panics.antt =====
-- Where stormd panics, and which messages it does not support.
use storm_node.Base.{
  if◌then◌else◌, ◌==◌, ◌≡◌, refl, Bool, true, false, Option, none, some, List, nat_eq, [], ◌∷◌,
  arith,
}
use storm_node.Wire.{
  BifrostApp, app_eq, NodeId, ContainerId, Messages, LnMsg, ClientId, DaemonId, StormApp,
}
use storm_node.Ext.{ExtMsg, remote_id, p2p_message}
use storm_node.Bus.{CtlMsg}
use storm_node.Bus.Responder.{send_p2p, send_rpc, send_ctl}
use storm_node.World.{Platform, Sys}
use storm_node.Errors.{wrong_esb_msg, wrong_esb_msg_source}
use storm_node.World.Serve.{Manner, manner, panics, panics-manner}
use storm_node.World.Effects.{launch}
use storm_node.Stormd.Runtime.{Runtime, launch_daemon}
use storm_node.Stormd.Scheduler.{
  push_free, accept_daemon, enqueue, assign_front, pick_task, tell_client, start_transferd,
  after_pick, pick_or_start, submit,
}
use storm_node.Stormd.Handlers.{
  release, end_transfer, submit_unclaimed, route_instr, route_ext, route_p2p, handle_p2p,
  handle_rpc, handle_app, forward_p2p, handle_others, handle_hello, handle_finished, handle_ctl,
  handle,
}
use storm_node.Stormd.Frame.{end_transfer_lem}
use storm_node.Base.Maps
use storm_node.Rpc.Ids.{ServiceId}
use storm_node.Rpc.Messages.{RpcMsg}
use storm_node.Bus.{ServiceBus, BusMsg}
use storm_node.Bus.Responder.{send_ext}

abbrev pub is_retrieved : ExtMsg → Bool
is_retrieved (ExtMsg.container_retrieved _) = true
is_retrieved _ = false

-- Whether a message is one that stormd panics on.
abbrev pub is_fatal : ServiceBus → BusMsg → ServiceId → Bool
is_fatal ServiceBus.storm (BusMsg.storm msg) (ServiceId.storm_app app) = is_retrieved msg
is_fatal _ _ _ = false

-- How stormd deals with the messages of apps and peers, and with all messages.
abbrev app_manner : StormApp → ExtMsg → Manner
app_manner app (ExtMsg.register_app a) = if app == a then Manner.taken else Manner.refused
app_manner app (ExtMsg.container_retrieved _) = Manner.panicked
app_manner app _ = Manner.taken

abbrev peer_manner : LnMsg → Manner
peer_manner (LnMsg.message BifrostApp.storm payload) = Manner.taken
peer_manner _ = Manner.refused

abbrev pub stormd_manner : ServiceBus → BusMsg → ServiceId → Manner
stormd_manner ServiceBus.msg (BusMsg.bifrost msg) (ServiceId.peer remote) = peer_manner msg
stormd_manner ServiceBus.ctl (BusMsg.ctl CtlMsg.hello) source = Manner.taken
stormd_manner ServiceBus.ctl (BusMsg.ctl CtlMsg.processing_complete) source = Manner.taken
stormd_manner ServiceBus.ctl (BusMsg.ctl CtlMsg.processing_failed) source = Manner.taken
stormd_manner ServiceBus.storm (BusMsg.storm msg) (ServiceId.storm_app app) = app_manner app msg
stormd_manner ServiceBus.rpc (BusMsg.rpc (RpcMsg.send_container m)) (ServiceId.client c) =
    Manner.taken
stormd_manner ServiceBus.rpc (BusMsg.rpc (RpcMsg.get_container m)) (ServiceId.client c) =
    Manner.taken
stormd_manner ServiceBus.rpc (BusMsg.storm (ExtMsg.container_announcement m)) source = Manner.taken
stormd_manner _ _ _ = Manner.refused

module _ (p : Platform) where
  panics-assign_front :
      (queue : List CtlMsg) (free : List DaemonId) (s : Sys Runtime)
      → panics (assign_front p queue free s).0 ≡ false
  unfolding assign_front send_ctl
  panics-assign_front [] free s = refl
  panics-assign_front (msg ∷ rest) [] s = refl
  panics-assign_front (msg ∷ rest) (d ∷ fs) s = ground arith

  panics-pick_task : (s : Sys Runtime) → panics (pick_task p s).0 ≡ false
  unfolding pick_task
  panics-pick_task s = panics-assign_front s.rt.ctl_queue s.rt.transferd_free s

  after_pick-taken :
      (client_id : Option ClientId) (picked : Bool) (s : Sys Runtime)
      → manner (after_pick p client_id picked s).0 ≡ Manner.taken
  unfolding after_pick tell_client start_transferd launch_daemon launch send_rpc
  after_pick-taken client_id picked s = ground arith

  submit-taken :
      (task : CtlMsg) (client_id : Option ClientId) (s : Sys Runtime)
      → manner (submit p task client_id s).0 ≡ Manner.taken
  unfolding submit pick_or_start
  submit-taken task client_id s =
      grind (arith, panics-pick_task (record s { rt = enqueue task s.rt }), after_pick-taken)

  pub handle_app-manner :
      (app : StormApp) (msg : ExtMsg) (s : Sys Runtime)
      → manner (handle_app p app msg s).0 ≡ app_manner app msg
  unfolding wrong_esb_msg wrong_esb_msg_source handle_app forward_p2p send_p2p remote_id p2p_message
  handle_app-manner app (ExtMsg.register_app a) s = ground arith
  handle_app-manner app (ExtMsg.retrieve_container m) s = submit-taken _ none _
  handle_app-manner app (ExtMsg.send_container m) s = submit-taken _ none s
  handle_app-manner app msg s = ground arith

  -- On a message of an app stormd panics exactly if the message is `ContainerRetrieved`, whatever
  -- its state and the answers of the platform are.
  pub handle_app-panics :
      (app : StormApp) (msg : ExtMsg) (s : Sys Runtime)
      → panics (handle_app p app msg s).0 ≡ is_retrieved msg
  handle_app-panics app msg s =
      ground (arith, panics-manner (handle_app p app msg s).0, handle_app-manner app msg s)

  hello-taken :
      (source : ServiceId) (s : Sys Runtime) → manner (handle_hello p source s).0 ≡ Manner.taken
  unfolding handle_hello accept_daemon
  hello-taken (ServiceId.transfer d) s =
      ground (arith, panics-pick_task (record s { rt = push_free d s.rt }))
  hello-taken source s = ground arith

  finished-taken :
      (source : ServiceId) (s : Sys Runtime) → manner (handle_finished p source s).0 ≡ Manner.taken
  unfolding handle_finished
  finished-taken (ServiceId.transfer d) s =
      let o = Maps.find_key d s.rt.container_transfers in
      let s' = (end_transfer p o s).1 in
      ground (arith, end_transfer_lem p o s, panics-pick_task (record s' { rt = release d s'.rt }))
  finished-taken source s = ground arith

  route_instr-taken :
      (o : Option DaemonId) (instr : CtlMsg) (s : Sys Runtime)
      → manner (route_instr p o instr s).0 ≡ Manner.taken
  unfolding route_instr submit_unclaimed send_ctl
  route_instr-taken (some d) instr s = ground arith
  route_instr-taken none (CtlMsg.process_container c) s = submit-taken _ none s
  route_instr-taken none (CtlMsg.send_chunks m) s = submit-taken _ none s
  route_instr-taken none instr s = ground arith

  route_p2p-taken :
      (remote : NodeId) (mesg : Messages) (o : Option (ContainerId × CtlMsg)) (s : Sys Runtime)
      → manner (route_p2p p remote mesg o s).0 ≡ Manner.taken
  unfolding route_p2p route_ext send_ext send_p2p
  route_p2p-taken remote mesg (some (c, instr)) s =
      route_instr-taken (Maps.get c s.rt.container_transfers) instr s
  route_p2p-taken remote mesg none s = ground arith

  handle_p2p-manner :
      (remote : NodeId) (msg : LnMsg) (s : Sys Runtime)
      → manner (handle_p2p p remote msg s).0 ≡ peer_manner msg
  unfolding wrong_esb_msg handle_p2p
  handle_p2p-manner remote (LnMsg.message BifrostApp.storm payload) s =
      grind (arith, route_p2p-taken)
  handle_p2p-manner remote msg s = ground arith

  -- How stormd deals with a message is seen from the message, its bus and its source alone,
  -- whatever its state and the answers of the platform are.
  pub handle-manner :
      (bus : ServiceBus) (msg : BusMsg) (source : ServiceId) (s : Sys Runtime)
      → manner (handle p bus msg source s).0 ≡ stormd_manner bus msg source
  unfolding wrong_esb_msg handle handle_ctl handle_rpc handle_others
  handle-manner ServiceBus.msg (BusMsg.bifrost msg) (ServiceId.peer remote) s =
      handle_p2p-manner remote msg s
  handle-manner ServiceBus.ctl (BusMsg.ctl msg) source s =
      ground (arith, hello-taken source s, finished-taken source s)
  handle-manner ServiceBus.storm (BusMsg.storm msg) (ServiceId.storm_app app) s =
      handle_app-manner app msg s
  handle-manner ServiceBus.rpc (BusMsg.rpc (RpcMsg.send_container m)) (ServiceId.client c) s =
      submit-taken _ (some c) s
  handle-manner ServiceBus.rpc (BusMsg.rpc (RpcMsg.get_container m)) (ServiceId.client c) s =
      submit-taken _ (some c) s
  handle-manner ServiceBus.rpc (BusMsg.storm (ExtMsg.container_announcement m)) source s =
      submit-taken _ none s
  handle-manner bus msg source s = ground arith

  -- stormd panics exactly on the message `ContainerRetrieved` of an app, whatever its state and the
  -- answers of the platform are.
  pub handle-panics :
      (bus : ServiceBus) (msg : BusMsg) (source : ServiceId) (s : Sys Runtime)
      → panics (handle p bus msg source s).0 ≡ is_fatal bus msg source
  handle-panics bus msg source s =
      ground (arith, panics-manner (handle p bus msg source s).0, handle-manner bus msg source s)
