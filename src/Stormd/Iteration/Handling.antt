-- ===== src/Stormd/Iteration/Handling.antt =====
-- The handlers of stormd on two states with the same entries.
use storm_node.Base.{refl, subst, Option, none, some, ◌==◌, nat_eq}
use storm_node.Base.Action.{Result, ok, err, Action, pure, ◌>>◌, conv}
use storm_node.Base.Action.Agree.{
  Alike, Agree-pure, Agree-throw, Agree-call, Agree-bind, Agree-conv, Agree-ignore, Agree-if,
  Agree-read,
}
use storm_node.Base.Maps
use storm_node.Base.Maps.Keys.{find_key-same}
use storm_node.Base.Sets.{Distinct}
use storm_node.Wire.{
  NodeId, ClientId, ContainerId, DaemonId, BifrostApp, StormApp, Messages, LnMsg, app_eq,
}
use storm_node.Rpc.Ids.{ServiceId}
use storm_node.Rpc.Messages.{RpcMsg}
use storm_node.Errors.{DaemonError}
use storm_node.Ext.{ExtMsg, storm_ext_msg, remote_id, p2p_message}
use storm_node.Bus.{ServiceBus, CtlMsg, BusMsg}
use storm_node.World.{Platform, Sys}
use storm_node.World.Effects.{update}
use storm_node.Stormd.Runtime.{Runtime, identity}
use storm_node.Stormd.Scheduler.{accept_daemon, pick_task}
use storm_node.Stormd.Handlers.{
  release, submit_unclaimed, route_instr, route_ext, transfer_instr, route_p2p, handle_p2p,
  handle_rpc, notify_app, end_transfer, handle_finished, handle_hello, handle_ctl, forward_p2p,
  handle_app, handle_others, handle,
}
use storm_node.Stormd.Iteration.Steps.{
  Quiet, update-Quiet, send_ctl-Quiet, send_ext-Quiet, send_p2p-Quiet, pick_task-Quiet,
  submit-Quiet,
}
use storm_node.Stormd.Iteration.{
  Like, push_free-Preserves, register-Preserves, note_app-Preserves, release-Preserves,
  drop_transfer-Preserves,
}

module _ (p : Platform) where
  submit_unclaimed-Quiet : (instr : CtlMsg) → Quiet (submit_unclaimed p instr)
  unfolding submit_unclaimed
  submit_unclaimed-Quiet (CtlMsg.process_container c) = submit-Quiet p _ none
  submit_unclaimed-Quiet (CtlMsg.send_chunks m) = submit-Quiet p _ none
  submit_unclaimed-Quiet _ = Agree-pure Like tt

  route_instr-Quiet : (o : Option DaemonId) (instr : CtlMsg) → Quiet (route_instr p o instr)
  unfolding route_instr
  route_instr-Quiet (some d) instr =
      Agree-conv Like DaemonError.esb _ (send_ctl-Quiet p identity (ServiceId.transfer d) instr)
  route_instr-Quiet none instr = submit_unclaimed-Quiet instr

  route_ext-Quiet :
      (remote : NodeId) (r : Result Messages (StormApp × ExtMsg)) → Quiet (route_ext p remote r)
  unfolding route_ext
  route_ext-Quiet remote (ok (app, msg)) =
      Agree-conv Like DaemonError.esb _ (send_ext-Quiet p identity (some app) msg)
  route_ext-Quiet remote (err Messages.list_apps) =
      Agree-read Like (λ s. s.rt.registered_apps) _ (λ s s' h. h.0.apps)
        λ apps.
          Agree-conv Like DaemonError.esb _
            (send_p2p-Quiet p identity remote (Messages.active_apps apps))
  route_ext-Quiet remote (err _) = Agree-pure Like tt

  route_p2p-Quiet :
      (remote : NodeId) (mesg : Messages) (o : Option (ContainerId × CtlMsg))
      → Quiet (route_p2p p remote mesg o)
  unfolding route_p2p
  route_p2p-Quiet remote mesg (some (c, instr)) =
      Agree-read Like (λ s. Maps.get c s.rt.container_transfers) _ (λ s s' h. h.0.transfers c)
        λ o. route_instr-Quiet o instr
  route_p2p-Quiet remote mesg none = route_ext-Quiet remote (storm_ext_msg mesg remote)

  handle_p2p-Quiet : (remote : NodeId) (ln : LnMsg) → Quiet (handle_p2p p remote ln)
  unfolding handle_p2p
  handle_p2p-Quiet remote (LnMsg.message BifrostApp.storm payload) =
      Agree-bind Like _ _ (Agree-conv Like DaemonError.storm_encoding _ (λ s s' h. (refl, h)))
        λ mesg. route_p2p-Quiet remote mesg (transfer_instr p remote mesg)
  handle_p2p-Quiet remote _ = Agree-throw Like _

  handle_rpc-Quiet : (client_id : ClientId) (rpc : RpcMsg) → Quiet (handle_rpc p client_id rpc)
  unfolding handle_rpc
  handle_rpc-Quiet client_id (RpcMsg.send_container m) = submit-Quiet p _ (some client_id)
  handle_rpc-Quiet client_id (RpcMsg.get_container m) = submit-Quiet p _ (some client_id)
  handle_rpc-Quiet client_id _ = Agree-throw Like _

  notify_app-Quiet : (o : Option StormApp) (c : ContainerId) → Quiet (notify_app p o c)
  unfolding notify_app
  notify_app-Quiet none c = Agree-pure Like tt
  notify_app-Quiet (some app) c =
      Agree-ignore Like _ (send_ext-Quiet p identity (some app) (ExtMsg.container_retrieved c))

  end_transfer-Quiet : (o : Option ContainerId) → Quiet (end_transfer p o)
  unfolding end_transfer
  end_transfer-Quiet none = Agree-pure Like tt
  end_transfer-Quiet (some c) =
      Agree-bind Like _ _ (update-Quiet _ (drop_transfer-Preserves (some c))) λ _.
        Agree-read Like (λ s. Maps.get c s.rt.container_apps) (λ o. notify_app p o c)
          (λ s s' h. h.0.told c) λ o. notify_app-Quiet o c

  hello-Quiet : (source : ServiceId) → Quiet (handle_hello p source)
  unfolding handle_hello accept_daemon
  hello-Quiet (ServiceId.transfer d) =
      Agree-bind Like _ _
        (Agree-conv Like DaemonError.esb _ (update-Quiet _ (push_free-Preserves d)))
        λ _.
          Agree-bind Like _ _ (Agree-conv Like DaemonError.esb _ (pick_task-Quiet p))
            λ _. Agree-pure Like tt
  hello-Quiet _ = Agree-pure Like tt

  -- What follows once the finished transfer is found.
  abbrev finish : DaemonId → Option ContainerId → Action (Sys Runtime) DaemonError (Unit {0})
  finish d o = do end_transfer p o; update (release d); conv DaemonError.esb (pick_task p); pure tt

  ending-Quiet : (d : DaemonId) (o : Option ContainerId) → Quiet (finish d o)
  ending-Quiet d o = Agree-bind Like _ _ (end_transfer-Quiet o) λ _.
      Agree-bind Like _ _ (update-Quiet _ (release-Preserves d)) λ _.
        Agree-bind Like _ _ (Agree-conv Like DaemonError.esb _ (pick_task-Quiet p))
          λ _. Agree-pure Like tt

  forward_p2p-Quiet : (app : StormApp) (msg : ExtMsg) → Quiet (forward_p2p p app msg)
  unfolding forward_p2p
  forward_p2p-Quiet app msg = Agree-bind Like _ _ (Agree-call Like (remote_id msg)) λ remote.
      Agree-bind Like _ _ (Agree-call Like (p2p_message msg app))
        λ mesg. Agree-conv Like DaemonError.esb _ (send_p2p-Quiet p identity remote mesg)

  handle_app-Quiet : (app : StormApp) (msg : ExtMsg) → Quiet (handle_app p app msg)
  unfolding handle_app
  handle_app-Quiet app (ExtMsg.register_app a) =
      Agree-if Like (app == a) _ _ (update-Quiet _ (register-Preserves a)) (Agree-throw Like _)
  handle_app-Quiet app (ExtMsg.retrieve_container m) =
      Agree-bind Like _ _ (update-Quiet _ (note_app-Preserves m.content.container_id app)) λ _.
        submit-Quiet p
          (CtlMsg.get_container (record {
            remote_id = m.remote_id;
            client_id = none;
            content = record { storm_app = app; container_id = m.content };
          }))
          none
  handle_app-Quiet app (ExtMsg.send_container m) = submit-Quiet p _ none
  handle_app-Quiet app msg = forward_p2p-Quiet app msg

  handle_others-Quiet : (source : ServiceId) (msg : ExtMsg) → Quiet (handle_others p source msg)
  unfolding handle_others
  handle_others-Quiet source (ExtMsg.container_announcement m) = submit-Quiet p _ none
  handle_others-Quiet source _ = Agree-throw Like _

  -- No daemon has two transfers.
  abbrev pub IsSingle : Sys Runtime → Type 0
  IsSingle s = Distinct (Maps.values s.rt.container_transfers)

  finished-Alike :
      (source : ServiceId) (s s' : Sys Runtime)
      → IsSingle s
      → IsSingle s'
      → Like s s'
      → Alike Like (handle_finished p source s) (handle_finished p source s')
  unfolding handle_finished
  finished-Alike (ServiceId.transfer d) s s' one one' h =
      let o = Maps.find_key d s.rt.container_transfers in
      let o' = Maps.find_key d s'.rt.container_transfers in
      let same =
        find_key-same d s.rt.container_transfers s'.rt.container_transfers h.0.keys_left
          h.0.keys_right one one' h.0.transfers in
      subst (λ x. Alike Like (handle_finished p (ServiceId.transfer d) s) (finish d x s')) same
        (ending-Quiet d o s s' h)
  finished-Alike source s s' one one' h = (refl, h)

  -- Two states of stormd that hold the same entries in their maps and in the set of busy daemons, in
  -- whatever order these are iterated, are handled alike: a message ends in the same way, the same
  -- calls are made, and the states hold the same entries again, if no daemon has two transfers.
  pub handle-Alike :
      (bus : ServiceBus) (msg : BusMsg) (source : ServiceId) (s s' : Sys Runtime)
      → IsSingle s
      → IsSingle s'
      → Like s s'
      → Alike Like (handle p bus msg source s) (handle p bus msg source s')
  unfolding handle handle_ctl
  handle-Alike ServiceBus.msg (BusMsg.bifrost ln) (ServiceId.peer remote) s s' one one' h =
      handle_p2p-Quiet remote ln s s' h
  handle-Alike ServiceBus.ctl (BusMsg.ctl CtlMsg.hello) source s s' one one' h =
      hello-Quiet source s s' h
  handle-Alike ServiceBus.ctl (BusMsg.ctl CtlMsg.processing_complete) source s s' one one' h =
      finished-Alike source s s' one one' h
  handle-Alike ServiceBus.ctl (BusMsg.ctl CtlMsg.processing_failed) source s s' one one' h =
      finished-Alike source s s' one one' h
  handle-Alike ServiceBus.storm (BusMsg.storm ext) (ServiceId.storm_app app) s s' one one' h =
      handle_app-Quiet app ext s s' h
  handle-Alike ServiceBus.rpc (BusMsg.rpc rpc) (ServiceId.client client_id) s s' one one' h =
      handle_rpc-Quiet client_id rpc s s' h
  handle-Alike ServiceBus.rpc (BusMsg.storm ext) source s s' one one' h =
      handle_others-Quiet source ext s s' h
  handle-Alike bus msg source s s' one one' h = (refl, h)
