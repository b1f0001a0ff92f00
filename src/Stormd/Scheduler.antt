-- ===== src/Stormd/Scheduler.antt =====
-- The queue of transfer tasks and the pool of transfer daemons: `accept_daemon`, `pick_task` and
-- `pick_or_start` of src/stormd/service.rs.
use storm_node.Base.{
  String, Bool, true, false, Option, none, some, List, [], ◌∷◌, ◌++◌, if◌then◌else◌, nat_eq,
}
use storm_node.Base.Action.{Action, pure, gets, ◌>>=◌, ◌>>◌, conv, ignore}
use storm_node.Base.Sets
use storm_node.Base.Maps
use storm_node.Wire.{ContainerId, ClientId, DaemonId}
use storm_node.Rpc.Ids.{ServiceId, is_stormd}
use storm_node.Rpc.Failure.{EsbError}
use storm_node.Rpc.Messages.{RpcMsg}
use storm_node.Bus.{CtlMsg}
use storm_node.Bus.Responder.{send_rpc, send_ctl}
use storm_node.Errors.{DaemonError}
use storm_node.Stormd.Daemons.{Daemon}
use storm_node.Stormd.Runtime.{Runtime, identity, launch_daemon}
use storm_node.World.{Platform, Sys}
use storm_node.World.Effects.{update}

-- `pop_front`
abbrev pub tail {ℓ} : {A : Type ℓ} → List A → List A
tail [] = []
tail (x ∷ xs) = xs

-- `ctl_queue.push_back(msg)`
abbrev pub enqueue : CtlMsg → Runtime → Runtime
enqueue msg rt = record rt { ctl_queue = rt.ctl_queue ++ msg ∷ [] }

-- `transferd_free.push_back(daemon_id)`
abbrev pub push_free : DaemonId → Runtime → Runtime
push_free daemon_id rt = record rt { transferd_free = rt.transferd_free ++ daemon_id ∷ [] }

-- The container that a task transfers, for the tasks whose daemon is to get the chunks.
unfoldable pub task_container : CtlMsg → Option ContainerId
task_container (CtlMsg.get_container m) = some m.content.container_id.container_id
task_container (CtlMsg.send_container m) = some m.content.container_id.container_id
task_container _ = none

abbrev pub note_transfer : Option ContainerId → DaemonId → Runtime → Runtime
note_transfer none daemon_id rt = rt
note_transfer (some container_id) daemon_id rt = record rt {
  container_transfers = Maps.insert container_id daemon_id rt.container_transfers;
}

abbrev pub make_busy : DaemonId → Runtime → Runtime
make_busy daemon_id rt = record rt {
  transferd_free = tail rt.transferd_free;
  transferd_busy = Sets.insert daemon_id rt.transferd_busy;
}

-- A second stormd is reported to the log of messages only, and so is any other source.
abbrev pub accept_source : ServiceId → Runtime → Runtime
accept_source (ServiceId.transfer daemon_id) rt = push_free daemon_id rt
accept_source source rt = rt

module _ (p : Platform) where
  unfoldable pub accept_daemon : ServiceId → Action (Sys Runtime) EsbError (Unit {0})
  accept_daemon source = if is_stormd source then pure tt else update (accept_source source)

  -- The arguments are the queue and the free daemons before the task is taken off.
  unfoldable pub assign_front : List CtlMsg → List DaemonId → Action (Sys Runtime) EsbError Bool
  assign_front [] free = pure true
  assign_front (msg ∷ rest) [] = pure false
  assign_front (msg ∷ rest) (daemon_id ∷ free) = do
    update (λ rt. record rt { ctl_queue = rest })
    send_ctl p identity (ServiceId.transfer daemon_id) msg
    update (note_transfer (task_container msg) daemon_id)
    update (make_busy daemon_id)
    pure true

  -- Whether there was nothing to do or a daemon to do it.
  unfoldable pub pick_task : Action (Sys Runtime) EsbError Bool
  pick_task s = assign_front s.rt.ctl_queue s.rt.transferd_free s

  unfoldable pub tell_client :
      Option ClientId → String → Action (Sys Runtime) DaemonError (Unit {0})
  tell_client none text = pure tt
  tell_client (some client_id) text = ignore (send_rpc p identity client_id (RpcMsg.progress text))

  unfoldable pub start_transferd : Option ClientId → Action (Sys Runtime) DaemonError (Unit {0})
  start_transferd client_id = do
    config ← gets (λ s. s.rt.config)
    conv DaemonError.daemon_launch (launch_daemon p config Daemon.transferd)
    tell_client client_id "A new transfer service instance is started"

  unfoldable pub after_pick : Option ClientId → Bool → Action (Sys Runtime) DaemonError (Unit {0})
  after_pick client_id picked =
      if picked
      then tell_client client_id "Container send request is forwarded to transfer service"
      else start_transferd client_id

  unfoldable pub pick_or_start : Option ClientId → Action (Sys Runtime) DaemonError (Unit {0})
  pick_or_start client_id = do
    picked ← conv DaemonError.esb (pick_task)
    after_pick client_id picked

  -- A task that a message brings, queued and then handed out.
  unfoldable pub submit : CtlMsg → Option ClientId → Action (Sys Runtime) DaemonError (Unit {0})
  submit msg client_id = do update (enqueue msg); pick_or_start client_id
