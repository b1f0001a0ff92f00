-- ===== src/Stormd/Arrival.antt =====
-- A transfer daemon that comes while tasks wait.
use storm_node.Base.{
  append_one-ne-nil, ◌++◌, ◌≢◌, false, if◌then◌else◌, ◌≡◌, refl, true, none, some, List, [], ◌∷◌,
  arith, nat_eq, nat_beq_iff,
}
use storm_node.Base.Sets
use storm_node.Base.Action.{value}
use storm_node.Wire.{ClientId, DaemonId}
use storm_node.Config.{Config, StormConfig, to_shared}
use storm_node.Rpc.Messages.{AddressedMsg, AppContainer, RpcMsg}
use storm_node.Stormd.Daemons.{Daemon}
use storm_node.World.Effects.{launch}
use storm_node.Rpc.Ids.{ServiceId, stormd}
use storm_node.Bus.{ServiceBus, CtlMsg, BusMsg, Packet}
use storm_node.Bus.Responder.{send_ctl, send_rpc, ctl_packet, rpc_packet}
use storm_node.World.{Platform, Sys, Request, Event, Log}
use storm_node.Stormd.Runtime.{Runtime, launch_daemon}
use storm_node.Stormd.Scheduler.{
  accept_daemon, assign_front, pick_task, task_container, enqueue, submit, pick_or_start,
  after_pick, start_transferd, tell_client,
}
use storm_node.Stormd.Handlers.{handle_hello, handle_ctl, handle_rpc, handle}
use storm_node.Stormd.Pool.{is_busy}

module _ (p : Platform) where
  assign_front-none :
      (queue : List CtlMsg) (s : Sys Runtime)
      → queue ≢ []
      → assign_front p queue [] s ≡ (value false, s)
  unfolding assign_front
  assign_front-none [] s h = absurd (h refl)
  assign_front-none (msg ∷ rest) s h = refl

  -- If tasks wait and no transfer daemon is free, the first task goes to the daemon that says hello,
  -- which counts as busy from then on, and the rest of the queue goes on waiting. (The bus takes the
  -- task.)
  pub handle-hello :
      (d : DaemonId) (task : CtlMsg) (rest : List CtlMsg) (s : Sys Runtime)
      → ((log : Log) (packet : Packet) → p.transport log packet ≡ none)
      → s.rt.ctl_queue ≡ task ∷ rest
      → s.rt.transferd_free ≡ []
      → let s' = (handle p ServiceBus.ctl (BusMsg.ctl CtlMsg.hello) (ServiceId.transfer d) s).1 in
        (s'.log ≡ Event.done (Request.send (ctl_packet stormd (ServiceId.transfer d) task)) ∷ s.log)
        × (is_busy d s'.rt ≡ true)
        × (s'.rt.transferd_free ≡ [])
        × (s'.rt.ctl_queue ≡ rest)
  unfolding handle handle_ctl handle_hello accept_daemon pick_task assign_front task_container
      send_ctl
  handle-hello d task rest s sends waits none_free =
      let sent = sends s.log (ctl_packet stormd (ServiceId.transfer d) task) in
      (
        ground (arith, sent, waits, none_free),
        ground (
          arith,
          sent,
          waits,
          none_free,
          Sets.contains-insert d d s.rt.transferd_busy,
          nat_beq_iff d d,
        ),
        ground (arith, sent, waits, none_free),
        ground (arith, sent, waits, none_free),
      )

-- How a transfer daemon is launched.
abbrev pub launch_request : Config StormConfig → Request
launch_request config =
    if config.ext.threaded
    then Request.thread_daemon Daemon.transferd (to_shared config)
    else Request.exec_daemon Daemon.transferd

module _ (p : Platform) where
  -- If no transfer daemon is free, a client's request for a container goes to the end of the queue
  -- and a daemon is started, of which the client is told. (The bus takes the message and the launch
  -- succeeds.)
  pub handle-start_transferd :
      (client_id : ClientId) (m : AddressedMsg AppContainer) (s : Sys Runtime)
      → ((log : Log) (packet : Packet) → p.transport log packet ≡ none)
      → ((log : Log) (r : Request) → p.launcher log r ≡ none)
      → s.rt.transferd_free ≡ []
      → let s' =
          (handle p ServiceBus.rpc
            (BusMsg.rpc (RpcMsg.get_container m))
            (ServiceId.client client_id)
            s).1 in
        (s'.log
          ≡ Event.done (
              Request.send (
                rpc_packet stormd client_id
                  (RpcMsg.progress "A new transfer service instance is started")))
            ∷ Event.done (launch_request s.rt.config)
            ∷ s.log)
        × (s'.rt.ctl_queue
            ≡ s.rt.ctl_queue
              ++ CtlMsg.get_container (record {
                remote_id = m.remote_id;
                client_id = some client_id;
                content = m.content;
              })
                ∷ [])
        × (s'.rt.transferd_free ≡ [])
  unfolding handle handle_rpc submit pick_or_start pick_task after_pick start_transferd tell_client
      launch_daemon launch send_rpc
  handle-start_transferd client_id m s sends launches none_free =
      let task =
        CtlMsg.get_container
          (record { remote_id = m.remote_id; client_id = some client_id; content = m.content }) in
      let idle =
        assign_front-none p (s.rt.ctl_queue ++ task ∷ []) (record s { rt = enqueue task s.rt }) in
      grind (arith, idle, none_free, sends, launches, append_one-ne-nil s.rt.ctl_queue task)
