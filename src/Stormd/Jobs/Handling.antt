-- ===== src/Stormd/Jobs/Handling.antt =====
-- The jobs, by each message that stormd handles.
use storm_node.Base.{
  ◌+◌, ◌≡◌, refl, Bool, true, false, Option, none, some, List, [], ◌∷◌, arith, nat_eq, inl, inr,
}
use storm_node.Base.Action.{Result, ok, err, Result-cases}
use storm_node.Wire.{NodeId, ClientId, DaemonId, BifrostApp, StormApp, Messages, LnMsg, Chunk}
use storm_node.Rpc.Ids.{ServiceId}
use storm_node.Rpc.Messages.{RpcMsg}
use storm_node.Ext.{ExtMsg, storm_ext_msg, remote_id, p2p_message}
use storm_node.Bus.{ServiceBus, CtlMsg, BusMsg}
use storm_node.Bus.Responder.{send_ctl, send_ext, send_p2p}
use storm_node.World.{Platform, Sys}
use storm_node.Stormd.Runtime.{Runtime}
use storm_node.Stormd.Handlers.{
  transfer_instr, submit_unclaimed, route_instr, route_ext, route_p2p, handle_p2p, handle_rpc,
  handle_ctl, forward_p2p, handle_app, handle_others, handle,
}
use storm_node.Stormd.Rule.{note_app}
use storm_node.Stormd.Tasks.{asked}
use storm_node.Stormd.Jobs.{is_job, peer_jobs, jobs, amount, total, total-submit, total-ctl}

-- The jobs that peers bring.
abbrev is_peer_job : CtlMsg → Bool
is_peer_job (CtlMsg.process_container _) = true
is_peer_job (CtlMsg.send_chunks _) = true
is_peer_job _ = false

module _ (about : CtlMsg → Bool) (p : Platform) where
  -- By one message the jobs of a kind become as many more as it brings.
  abbrev pub Adds : Sys Runtime → Sys Runtime → List CtlMsg → Type 0
  Adds s s' msgs = total about s' ≡ total about s + amount about msgs

  instr-Adds :
      (o : Option DaemonId) (instr : CtlMsg) (s : Sys Runtime)
      → is_job instr ≡ true
      → is_peer_job instr ≡ true
      → Adds s (route_instr p o instr s).1 (instr ∷ [])
  unfolding route_instr submit_unclaimed send_ctl
  instr-Adds (some d) instr s j h = ground (arith, j)
  instr-Adds none (CtlMsg.process_container c) s j h = total-submit about p _ none s
  instr-Adds none (CtlMsg.send_chunks m) s j h = total-submit about p _ none s
  instr-Adds none _ s j h = cc

  chunk-Adds :
      (o : Option DaemonId) (c : Chunk) (s : Sys Runtime)
      → Adds s (route_instr p o (CtlMsg.process_chunk c) s).1 []
  unfolding route_instr submit_unclaimed send_ctl
  chunk-Adds (some d) c s = ground arith
  chunk-Adds none c s = ground arith

  ext-Adds :
      (remote : NodeId) (r : Result Messages (StormApp × ExtMsg)) (s : Sys Runtime)
      → Adds s (route_ext p remote r s).1 []
  unfolding route_ext send_p2p send_ext
  ext-Adds remote (ok (app, msg)) s = ground arith
  ext-Adds remote (err Messages.list_apps) s = ground arith
  ext-Adds remote (err _) s = ground arith

  peer-Adds :
      (remote : NodeId) (mesg : Messages) (s : Sys Runtime)
      → Adds s (route_p2p p remote mesg (transfer_instr p remote mesg) s).1 (peer_jobs remote mesg)
  unfolding route_p2p transfer_instr
  peer-Adds remote (Messages.push_container m) s = instr-Adds _ _ s refl refl
  peer-Adds remote (Messages.pull_chunk m) s = instr-Adds _ _ s refl refl
  peer-Adds remote (Messages.push_chunk m) s = chunk-Adds _ _ s
  peer-Adds remote mesg s = ext-Adds remote (storm_ext_msg mesg remote) s

  payload-Adds :
      (remote : NodeId) (ln : LnMsg) (s : Sys Runtime)
      → Adds s
          (handle_p2p p remote ln s).1
          (jobs p ServiceBus.msg (BusMsg.bifrost ln) (ServiceId.peer remote))
  unfolding handle_p2p
  payload-Adds remote (LnMsg.message BifrostApp.storm payload) s =
      elim (Result-cases (p.unmarshall payload)) [
        | inl (mesg, e) ↦ rw e (peer-Adds remote mesg s)
        | inr (x, e) ↦ rw e (omega arith)
      ]
  payload-Adds remote _ s = ground arith

  rpc-Adds :
      (client_id : ClientId) (rpc : RpcMsg) (s : Sys Runtime)
      → Adds s
          (handle_rpc p client_id rpc s).1
          (asked ServiceBus.rpc (BusMsg.rpc rpc) (ServiceId.client client_id))
  unfolding handle_rpc
  rpc-Adds client_id (RpcMsg.send_container m) s = total-submit about p _ _ s
  rpc-Adds client_id (RpcMsg.get_container m) s = total-submit about p _ _ s
  rpc-Adds client_id _ s = ground arith

  app-Adds :
      (app : StormApp) (ext : ExtMsg) (s : Sys Runtime)
      → Adds s
          (handle_app p app ext s).1
          (asked ServiceBus.storm (BusMsg.storm ext) (ServiceId.storm_app app))
  unfolding handle_app forward_p2p send_p2p remote_id p2p_message
  app-Adds app (ExtMsg.register_app a) s = ground arith
  app-Adds app (ExtMsg.retrieve_container m) s =
      total-submit about p _ none (record s { rt = note_app m.content.container_id app s.rt })
  app-Adds app (ExtMsg.send_container m) s = total-submit about p _ none s
  app-Adds app ext s = ground arith

  others-Adds :
      (source : ServiceId) (ext : ExtMsg) (s : Sys Runtime)
      → Adds s (handle_others p source ext s).1 (asked ServiceBus.rpc (BusMsg.storm ext) source)
  unfolding handle_others
  others-Adds source (ExtMsg.container_announcement m) s = total-submit about p _ none s
  others-Adds source _ s = ground arith

  still : (s s' : Sys Runtime) → total about s' ≡ total about s → Adds s s' []
  still s s' e = omega arith

  -- By each message, whatever the platform answers, the jobs of any kind that were sent to transfer
  -- daemons or wait become as many more as the message brings.
  pub handle-Adds :
      (bus : ServiceBus) (msg : BusMsg) (source : ServiceId) (s : Sys Runtime)
      → Adds s (handle p bus msg source s).1 (jobs p bus msg source)
  unfolding handle
  handle-Adds ServiceBus.msg (BusMsg.bifrost ln) (ServiceId.peer remote) s =
      payload-Adds remote ln s
  handle-Adds ServiceBus.ctl (BusMsg.ctl ctl) source s =
      still s (handle_ctl p source ctl s).1 (total-ctl about p source ctl s)
  handle-Adds ServiceBus.storm (BusMsg.storm ext) (ServiceId.storm_app app) s = app-Adds app ext s
  handle-Adds ServiceBus.rpc (BusMsg.rpc rpc) (ServiceId.client client_id) s =
      rpc-Adds client_id rpc s
  handle-Adds ServiceBus.rpc (BusMsg.storm ext) source s = others-Adds source ext s
  handle-Adds bus msg source s = still s s refl
