-- ===== src/Stormd/Iteration/Steps.antt =====
-- The steps of the handlers of stormd on two states with the same entries.
use storm_node.Base.{
  refl, String, Bool, true, false, Option, none, some, List, [], ◌∷◌, arith, nat_eq,
}
use storm_node.Base.Action.{Action}
use storm_node.Base.Action.Agree.{
  Agree, Agree-pure, Agree-bind, Agree-conv, Agree-ignore, Agree-if, Agree-read,
}
use storm_node.Wire.{NodeId, ClientId, DaemonId, StormApp, Messages, app_eq}
use storm_node.Rpc.Ids.{ServiceId}
use storm_node.Rpc.Messages.{RpcMsg}
use storm_node.Errors.{DaemonError}
use storm_node.Config.{Config, StormConfig, to_shared}
use storm_node.Ext.{ExtMsg}
use storm_node.Bus.{CtlMsg}
use storm_node.Bus.Responder.{send_p2p, send_rpc, send_ctl, send_ext}
use storm_node.World.{Platform, Sys, Request}
use storm_node.World.Effects.{launch, update}
use storm_node.Stormd.Daemons.{Daemon}
use storm_node.Stormd.Runtime.{Runtime, identity, launch_daemon}
use storm_node.Stormd.Scheduler.{
  assign_front, pick_task, tell_client, start_transferd, after_pick, pick_or_start, submit,
  task_container,
}
use storm_node.Stormd.Iteration.{
  Like, Preserves, enqueue-Preserves, queue-Preserves, note_transfer-Preserves, make_busy-Preserves,
}

abbrev pub Quiet : {E A : Type 0} → Action (Sys Runtime) E A → Type 0
Quiet m = Agree Like m

pub update-Quiet : {E : Type 0} (f : Runtime → Runtime) → Preserves f → Quiet {E = E} (update f)
update-Quiet f keeps s s' h = (refl, (keeps s.rt s'.rt h.0, h.1))

module _ (p : Platform) where
  pub send_ctl-Quiet :
      (me to : ServiceId) (msg : CtlMsg) → Quiet (send_ctl p {R = Runtime} me to msg)
  unfolding send_ctl
  send_ctl-Quiet me to msg s s' h = ground (arith, h)

  pub send_rpc-Quiet :
      (me : ServiceId) (to : ClientId) (msg : RpcMsg) → Quiet (send_rpc p {R = Runtime} me to msg)
  unfolding send_rpc
  send_rpc-Quiet me to msg s s' h = ground (arith, h)

  pub send_ext-Quiet :
      (me : ServiceId) (to : Option StormApp) (msg : ExtMsg)
      → Quiet (send_ext p {R = Runtime} me to msg)
  unfolding send_ext
  send_ext-Quiet me to msg s s' h = ground (arith, h)

  pub send_p2p-Quiet :
      (me : ServiceId) (to : NodeId) (msg : Messages) → Quiet (send_p2p p {R = Runtime} me to msg)
  unfolding send_p2p
  send_p2p-Quiet me to msg s s' h = ground (arith, h)

  pub launch-Quiet : (r : Request) → Quiet (launch p {R = Runtime} r)
  unfolding launch
  launch-Quiet r s s' h = ground (arith, h)

  pub assign_front-Quiet :
      (queue : List CtlMsg) (free : List DaemonId) → Quiet (assign_front p queue free)
  unfolding assign_front
  assign_front-Quiet [] free = Agree-pure Like true
  assign_front-Quiet (msg ∷ rest) [] = Agree-pure Like false
  assign_front-Quiet (msg ∷ rest) (d ∷ free) =
      Agree-bind Like _ _ (update-Quiet _ (queue-Preserves rest)) λ _.
        Agree-bind Like _ _ (send_ctl-Quiet identity (ServiceId.transfer d) msg) λ _.
          Agree-bind Like _ _ (update-Quiet _ (note_transfer-Preserves (task_container msg) d)) λ _.
            Agree-bind Like _ _ (update-Quiet _ (make_busy-Preserves d)) λ _. Agree-pure Like true

  pub pick_task-Quiet : Quiet (pick_task p)
  unfolding pick_task
  pick_task-Quiet =
      Agree-read Like (λ s. s.rt.ctl_queue) (λ queue s. assign_front p queue s.rt.transferd_free s)
        (λ s s' h. h.0.queue)
        λ queue.
          Agree-read Like (λ s. s.rt.transferd_free) _ (λ s s' h. h.0.free)
            (assign_front-Quiet queue)

  pub tell_client-Quiet :
      (client_id : Option ClientId) (text : String) → Quiet (tell_client p client_id text)
  unfolding tell_client
  tell_client-Quiet none text = Agree-pure Like tt
  tell_client-Quiet (some client_id) text =
      Agree-ignore Like _ (send_rpc-Quiet identity client_id (RpcMsg.progress text))

  pub launch_daemon-Quiet :
      (config : Config StormConfig) (daemon : Daemon) → Quiet (launch_daemon p config daemon)
  unfolding launch_daemon
  launch_daemon-Quiet config daemon =
      Agree-if Like config.ext.threaded _ _
        (launch-Quiet (Request.thread_daemon daemon (to_shared config)))
        (launch-Quiet (Request.exec_daemon daemon))

  pub start_transferd-Quiet : (client_id : Option ClientId) → Quiet (start_transferd p client_id)
  unfolding start_transferd
  start_transferd-Quiet client_id =
      Agree-read Like (λ s. s.rt.config) _ (λ s s' h. h.0.config)
        λ config.
          Agree-bind Like _ _
            (Agree-conv Like DaemonError.daemon_launch _
              (launch_daemon-Quiet config Daemon.transferd))
            (λ _. tell_client-Quiet client_id "A new transfer service instance is started")

  pub after_pick-Quiet :
      (client_id : Option ClientId) (picked : Bool) → Quiet (after_pick p client_id picked)
  unfolding after_pick
  after_pick-Quiet client_id true = tell_client-Quiet client_id _
  after_pick-Quiet client_id false = start_transferd-Quiet client_id

  pub submit-Quiet : (task : CtlMsg) (client_id : Option ClientId) → Quiet (submit p task client_id)
  unfolding submit pick_or_start
  submit-Quiet task client_id = Agree-bind Like _ _ (update-Quiet _ (enqueue-Preserves task)) λ _.
      Agree-bind Like _ _ (Agree-conv Like DaemonError.esb _ pick_task-Quiet)
        (after_pick-Quiet client_id)
