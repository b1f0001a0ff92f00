-- ===== src/Node/Stranded.antt =====
-- A container that nobody asked for: what stormd does with it, and what the transfer daemon does
-- that is given it.
use storm_node.Base.{◌≡◌, refl, true, none, List, [], ◌∷◌, arith, nat_eq, nat_beq_iff}
use storm_node.Base.Action.{ok, error}
use storm_node.Base.Sets
use storm_node.Base.Maps
use storm_node.Wire.{NodeId, DaemonId, Bytes, BifrostApp, Container, AppMsg, Messages, LnMsg}
use storm_node.Rpc.Ids.{ServiceId, stormd}
use storm_node.Bus.{ServiceBus, CtlMsg, BusMsg, Packet}
use storm_node.Bus.Responder.{send_ctl, ctl_packet}
use storm_node.Errors.{DaemonError}
use storm_node.World.{Platform, Sys, Log}
use storm_node.Stormd.Runtime
use storm_node.Stormd.Scheduler.{
  submit, pick_or_start, pick_task, assign_front, after_pick, tell_client, task_container,
}
use storm_node.Stormd.Handlers
use storm_node.Stormd.Pool.{is_busy}
use storm_node.Transferd.State.{StateTy, ReceiveStateName, AutomationError, state_name}
use storm_node.Transferd.Refusal.{handle_ctl-refuses}
use storm_node.Transferd
use storm_node.Node.ChatRoute.{LastSent}

module _ (p : Platform) (remote : NodeId) (payload : Bytes) (m : AppMsg Container) (d : DaemonId)
    (fs : List DaemonId) where
  -- If a peer pushes a container for which no transfer is known, and no task waits, stormd gives it
  -- to the first free daemon and counts that daemon as busy; the daemon, being free, refuses the
  -- task, and its refusal changes nothing and sends nothing, so that stormd does not learn of it.
  -- (The bus takes every packet, and the payload is the encoding of the message.)
  pub unsolicited_container_strands :
      (s : Sys Runtime.Runtime) (t : Sys Transferd.Runtime.Runtime)
      → ((log : Log) (packet : Packet) → p.transport log packet ≡ none)
      → p.unmarshall payload ≡ ok (Messages.push_container m)
      → Maps.get (p.container_id m.content) s.rt.container_transfers ≡ none
      → s.rt.ctl_queue ≡ []
      → s.rt.transferd_free ≡ d ∷ fs
      → t.rt.state ≡ StateTy.free
      → let task = CtlMsg.process_container m.content in
        let s' =
          (Handlers.handle p ServiceBus.msg
            (BusMsg.bifrost (LnMsg.message BifrostApp.storm payload))
            (ServiceId.peer remote)
            s).1 in
        LastSent s'.log (ctl_packet stormd (ServiceId.transfer d) task)
        × (s'.rt.transferd_free ≡ fs)
        × (is_busy d s'.rt ≡ true)
        × (Transferd.Service.handle p ServiceBus.ctl (BusMsg.ctl task) stormd t ≡ (
          error (
              DaemonError.transfer_automation
                (AutomationError.invalid_state StateTy.free StateTy.free)),
          t,
        ))
  unfolding Handlers.handle Handlers.handle_p2p Handlers.route_p2p Handlers.transfer_instr
      Handlers.route_instr Handlers.submit_unclaimed submit pick_or_start pick_task assign_front
      after_pick tell_client task_container send_ctl Transferd.Service.handle state_name
  unsolicited_container_strands s t sends codec unknown idle free at_rest =
      let task = CtlMsg.process_container m.content in
      let sent = sends s.log (ctl_packet stormd (ServiceId.transfer d) task) in
      let refused =
        handle_ctl-refuses p (Transferd.Runtime.identity t.rt) stormd task
          (StateTy.receive ReceiveStateName.awaiting_container) t refl (rw at_rest refl) in
      (
        ground (arith, sent),
        ground (arith, sent),
        ground (arith, sent, Sets.contains-insert d d s.rt.transferd_busy, nat_beq_iff d d),
        ground (arith, refused),
      )
