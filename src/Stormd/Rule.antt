-- ===== src/Stormd/Rule.antt =====
-- One rule for what holds of every message that stormd handles: a relation between the state before
-- and the result, which is to be shown for the few things that a handler can do.
use storm_node.Base.{
  true, false, arith, ◌≡◌, refl, subst, Option, none, some, [], nat_eq, Bool-cases, Option-cases,
  inl, inr,
}
use storm_node.Base.Action.{Outcome, value, Result-cases}
use storm_node.Base.Sets
use storm_node.Base.Maps
use storm_node.Wire.{
  NodeId, ClientId, DaemonId, ContainerId, BifrostApp, StormApp, app_eq, app_beq, app_beq_iff,
  Messages, LnMsg,
}
use storm_node.Rpc.Ids.{ServiceId}
use storm_node.Rpc.Messages.{RpcMsg}
use storm_node.Ext.{ExtMsg, storm_ext_msg}
use storm_node.Bus.{ServiceBus, CtlMsg, BusMsg}
use storm_node.Bus.Protocol.{is_instruction}
use storm_node.Errors.{DaemonError}
use storm_node.World.{Platform, Sys}
use storm_node.Stormd.Runtime.{Runtime}
use storm_node.Stormd.Tasks.{is_task, asked, Asks, IsQuiet}
use storm_node.Stormd.Scheduler.{submit}
use storm_node.Stormd.Frame.{route_ext-IsQuiet, route_claimed-IsQuiet, forward_p2p-IsQuiet}
use storm_node.Stormd.Handlers.{
  transfer_instr, submit_unclaimed, route_instr, route_p2p, handle_p2p, handle_rpc, handle_app,
  handle_others, handle_hello, handle_finished, handle_ctl, handle,
}

abbrev pub Ending : Type 0
Ending = Outcome DaemonError (Unit {0}) × Sys Runtime

-- An app is entered, with itself as the source.
abbrev pub register : StormApp → Runtime → Runtime
register app rt = record rt { registered_apps = Sets.insert app rt.registered_apps }

-- An app is to hear of a container.
abbrev pub note_app : ContainerId → StormApp → Runtime → Runtime
note_app container_id app rt = record rt {
  container_apps = Maps.insert container_id app rt.container_apps;
}

-- What a peer can have sent to the transfer daemons is an instruction, but not a task.
abbrev IsInstr : Option (ContainerId × CtlMsg) → Type 0
IsInstr none = Unit
IsInstr (some (container_id, instr)) = (is_task instr ≡ false) × (is_instruction instr ≡ true)

module _ (p : Platform) (Q : ServiceBus → BusMsg → ServiceId → Sys Runtime → Ending → Type 0)
    (same : (bus : ServiceBus) (msg : BusMsg) (source : ServiceId) (s : Sys Runtime) (r : Ending)
      → asked bus msg source ≡ []
      → IsQuiet s r.1
      → Q bus msg source s r)
    (submits : (bus : ServiceBus) (msg : BusMsg) (source : ServiceId) (task : CtlMsg)
        (client_id : Option ClientId) (s : Sys Runtime)
      → Asks bus msg source task
      → Q bus msg source s (submit p task client_id s))
    (registers : (app : StormApp) (s : Sys Runtime)
      → Q ServiceBus.storm
          (BusMsg.storm (ExtMsg.register_app app))
          (ServiceId.storm_app app)
          s
          (value tt, record s { rt = register app s.rt }))
    (retrieves : (msg : BusMsg) (source : ServiceId) (task : CtlMsg) (c : ContainerId)
        (app : StormApp) (s : Sys Runtime)
      → Asks ServiceBus.storm msg source task
      → Q ServiceBus.storm msg source s
          (submit p task none (record s { rt = note_app c app s.rt })))
    (hellos : (d : DaemonId) (s : Sys Runtime)
      → Q ServiceBus.ctl
          (BusMsg.ctl CtlMsg.hello)
          (ServiceId.transfer d)
          s
          (handle_hello p (ServiceId.transfer d) s))
    (completes : (d : DaemonId) (s : Sys Runtime)
      → Q ServiceBus.ctl
          (BusMsg.ctl CtlMsg.processing_complete)
          (ServiceId.transfer d)
          s
          (handle_finished p (ServiceId.transfer d) s))
    (fails : (d : DaemonId) (s : Sys Runtime)
      → Q ServiceBus.ctl
          (BusMsg.ctl CtlMsg.processing_failed)
          (ServiceId.transfer d)
          s
          (handle_finished p (ServiceId.transfer d) s)) where
  unclaimed_rule :
      (ln : LnMsg) (remote : NodeId) (instr : CtlMsg) (s : Sys Runtime)
      → (is_task instr ≡ false) × (is_instruction instr ≡ true)
      → Q ServiceBus.msg (BusMsg.bifrost ln) (ServiceId.peer remote) s (submit_unclaimed p instr s)
  unfolding submit_unclaimed
  unclaimed_rule ln remote (CtlMsg.process_container c) s h = submits _ _ _ _ none s (refl, refl)
  unclaimed_rule ln remote (CtlMsg.send_chunks m) s h = submits _ _ _ _ none s (refl, refl)
  unclaimed_rule ln remote _ s h = same _ _ _ s _ refl (refl, refl, refl, λ d m. m)

  route_rule :
      (ln : LnMsg) (remote : NodeId) (c : ContainerId) (instr : CtlMsg) (s : Sys Runtime)
      → (is_task instr ≡ false) × (is_instruction instr ≡ true)
      → Q ServiceBus.msg
          (BusMsg.bifrost ln)
          (ServiceId.peer remote)
          s
          (route_instr p (Maps.get c s.rt.container_transfers) instr s)
  route_rule ln remote c instr s h = elim (Option-cases (Maps.get c s.rt.container_transfers)) [
    | inl e ↦ rw e (unfold route_instr in unclaimed_rule ln remote instr s h)
    | inr (d, e) ↦ rw e (same _ _ _ s _ refl (route_claimed-IsQuiet p c d instr s e h.0 h.1))
  ]

  p2p_rule :
      (ln : LnMsg) (remote : NodeId) (mesg : Messages) (o : Option (ContainerId × CtlMsg))
      (s : Sys Runtime)
      → IsInstr o
      → Q ServiceBus.msg (BusMsg.bifrost ln) (ServiceId.peer remote) s (route_p2p p remote mesg o s)
  unfolding route_p2p
  p2p_rule ln remote mesg (some (c, instr)) s h = route_rule ln remote c instr s h
  p2p_rule ln remote mesg none s h =
      same _ _ _ s _ refl (route_ext-IsQuiet p remote (storm_ext_msg mesg remote) s)

  transfer_instr-IsInstr :
      (remote : NodeId) (mesg : Messages) → IsInstr (transfer_instr p remote mesg)
  unfolding transfer_instr
  transfer_instr-IsInstr remote mesg = ground arith

  payload_rule :
      (remote : NodeId) (ln : LnMsg) (s : Sys Runtime)
      → Q ServiceBus.msg (BusMsg.bifrost ln) (ServiceId.peer remote) s (handle_p2p p remote ln s)
  unfolding handle_p2p
  payload_rule remote (LnMsg.message BifrostApp.storm payload) s =
      elim (Result-cases (p.unmarshall payload)) [
        | inl (mesg, e) ↦ rw e (
            p2p_rule _ remote mesg (transfer_instr p remote mesg) s
              (transfer_instr-IsInstr remote mesg))
        | inr (x, e) ↦ rw e (same _ _ _ s _ refl (refl, refl, refl, λ d m. m))
      ]
  payload_rule remote _ s = same _ _ _ s _ refl (refl, refl, refl, λ d m. m)

  rpc_rule :
      (client_id : ClientId) (rpc : RpcMsg) (s : Sys Runtime)
      → Q ServiceBus.rpc
          (BusMsg.rpc rpc)
          (ServiceId.client client_id)
          s
          (handle_rpc p client_id rpc s)
  unfolding handle_rpc
  rpc_rule client_id (RpcMsg.send_container m) s = submits _ _ _ _ _ s (refl, refl)
  rpc_rule client_id (RpcMsg.get_container m) s = submits _ _ _ _ _ s (refl, refl)
  rpc_rule client_id _ s = same _ _ _ s _ refl (refl, refl, refl, λ d m. m)

  app_rule :
      (app : StormApp) (ext : ExtMsg) (s : Sys Runtime)
      → Q ServiceBus.storm (BusMsg.storm ext) (ServiceId.storm_app app) s (handle_app p app ext s)
  unfolding handle_app
  app_rule app (ExtMsg.register_app a) s = elim (Bool-cases (app_beq app a)) [
    | inl e ↦ rw e (
        subst
          (λ x.
            Q ServiceBus.storm (BusMsg.storm (ExtMsg.register_app x)) (ServiceId.storm_app app) s
              (value tt, record s { rt = register x s.rt }))
          ((app_beq_iff app a).0 e) (registers app s))
    | inr e ↦ rw e (same _ _ _ s _ refl (refl, refl, refl, λ d m. m))
  ]
  app_rule app (ExtMsg.retrieve_container m) s =
      retrieves _ _ _ m.content.container_id app s (refl, refl)
  app_rule app (ExtMsg.send_container m) s = submits _ _ _ _ none s (refl, refl)
  app_rule app ext s = same _ _ _ s _ refl (forward_p2p-IsQuiet p app ext s)

  others_rule :
      (source : ServiceId) (ext : ExtMsg) (s : Sys Runtime)
      → Q ServiceBus.rpc (BusMsg.storm ext) source s (handle_others p source ext s)
  unfolding handle_others
  others_rule source (ExtMsg.container_announcement m) s = submits _ _ _ _ none s (refl, refl)
  others_rule source _ s = same _ _ _ s _ refl (refl, refl, refl, λ d m. m)

  hello_rule :
      (source : ServiceId) (s : Sys Runtime)
      → Q ServiceBus.ctl (BusMsg.ctl CtlMsg.hello) source s (handle_hello p source s)
  hello_rule (ServiceId.transfer d) s = hellos d s
  hello_rule source s = same _ _ _ s _ refl (unfold handle_hello in (refl, refl, refl, λ d m. m))

  complete_rule :
      (source : ServiceId) (s : Sys Runtime)
      → Q ServiceBus.ctl
          (BusMsg.ctl CtlMsg.processing_complete)
          source
          s
          (handle_finished p source s)
  complete_rule (ServiceId.transfer d) s = completes d s
  complete_rule source s =
      same _ _ _ s _ refl (unfold handle_finished in (refl, refl, refl, λ d m. m))

  failed_rule :
      (source : ServiceId) (s : Sys Runtime)
      → Q ServiceBus.ctl (BusMsg.ctl CtlMsg.processing_failed) source s (handle_finished p source s)
  failed_rule (ServiceId.transfer d) s = fails d s
  failed_rule source s =
      same _ _ _ s _ refl (unfold handle_finished in (refl, refl, refl, λ d m. m))

  ctl_rule :
      (source : ServiceId) (ctl : CtlMsg) (s : Sys Runtime)
      → Q ServiceBus.ctl (BusMsg.ctl ctl) source s (handle_ctl p source ctl s)
  unfolding handle_ctl
  ctl_rule source CtlMsg.hello s = hello_rule source s
  ctl_rule source CtlMsg.processing_complete s = complete_rule source s
  ctl_rule source CtlMsg.processing_failed s = failed_rule source s
  ctl_rule source ctl s = same _ _ _ s _ refl (refl, refl, refl, λ d m. m)

  pub handle_rule :
      (bus : ServiceBus) (msg : BusMsg) (source : ServiceId) (s : Sys Runtime)
      → Q bus msg source s (handle p bus msg source s)
  unfolding handle
  handle_rule ServiceBus.msg (BusMsg.bifrost ln) (ServiceId.peer remote) s =
      payload_rule remote ln s
  handle_rule ServiceBus.ctl (BusMsg.ctl ctl) source s = ctl_rule source ctl s
  handle_rule ServiceBus.storm (BusMsg.storm ext) (ServiceId.storm_app app) s = app_rule app ext s
  handle_rule ServiceBus.rpc (BusMsg.rpc rpc) (ServiceId.client client_id) s =
      rpc_rule client_id rpc s
  handle_rule ServiceBus.rpc (BusMsg.storm ext) source s = others_rule source ext s
  handle_rule bus msg source s = same _ _ _ s _ refl (refl, refl, refl, λ d m. m)
