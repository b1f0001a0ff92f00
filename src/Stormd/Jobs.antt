-- ===== src/Stormd/Jobs.antt =====
-- What peers, clients and apps give the transfer daemons to do, counted: no job is lost or doubled.
pub mod Handling
use storm_node.Base.{
  ℕ, suc, ◌+◌, ◌≡◌, refl, Bool, true, false, ◌&&◌, Option, none, some, List, [], ◌∷◌, ◌++◌,
  if◌then◌else◌, arith, nat_eq, inl, inr,
}
use storm_node.Base.Action.{Result, ok, err, Result-cases}
use storm_node.Base.Maps
use storm_node.Wire.{
  NodeId, ClientId, DaemonId, ContainerId, BifrostApp, StormApp, Messages, LnMsg, Chunk,
}
use storm_node.Rpc.Ids.{ServiceId}
use storm_node.Rpc.Messages.{RpcMsg}
use storm_node.Ext.{ExtMsg, storm_ext_msg, remote_id, p2p_message}
use storm_node.Bus.{ServiceBus, CtlMsg, BusMsg}
use storm_node.Bus.Responder.{send_ctl, send_ext, send_p2p, send_rpc}
use storm_node.Errors.{PresentationError}
use storm_node.World.{Platform, Sys, Request, Event, Log}
use storm_node.World.Effects.{launch}
use storm_node.Stormd.Runtime.{Runtime, launch_daemon}
use storm_node.Stormd.Scheduler.{
  enqueue, push_free, accept_daemon, assign_front, pick_task, tell_client, start_transferd,
  after_pick, pick_or_start, submit, task_container,
}
use storm_node.Stormd.Frame.{queue-drop_transfer, rt-after_pick, end_transfer_lem}
use storm_node.Stormd.Handlers.{
  release, transfer_instr, submit_unclaimed, route_instr, route_ext, route_p2p, handle_p2p,
  handle_rpc, notify_app, end_transfer, handle_finished, handle_hello, handle_ctl, forward_p2p,
  handle_app, handle_others, handle,
}
use storm_node.Stormd.Rule.{note_app}
use storm_node.Stormd.Tasks.{asked, given}

-- What is done for its own sake: not a chunk, which is dropped unless a daemon waits for it.
abbrev pub is_job : CtlMsg → Bool
is_job (CtlMsg.process_chunk _) = false
is_job _ = true

-- The job that a peer's message brings.
abbrev pub peer_jobs : NodeId → Messages → List CtlMsg
peer_jobs remote (Messages.push_container m) = CtlMsg.process_container m.content ∷ []
peer_jobs remote (Messages.pull_chunk m) =
    CtlMsg.send_chunks (record {
      remote_id = remote;
      content = record {
        storm_app = m.app;
        container_id = m.container_id;
        chunk_ids = m.chunk_ids;
      };
    })
    ∷ []
peer_jobs remote _ = []

abbrev pub payload_jobs : NodeId → Result PresentationError Messages → List CtlMsg
payload_jobs remote (ok mesg) = peer_jobs remote mesg
payload_jobs remote (err _) = []

module _ (p : Platform) where
  abbrev from_peer : NodeId → LnMsg → List CtlMsg
  from_peer remote (LnMsg.message BifrostApp.storm payload) =
      payload_jobs remote (p.unmarshall payload)
  from_peer remote _ = []

  -- The jobs that a message brings, from a peer, a client or an app.
  abbrev pub jobs : ServiceBus → BusMsg → ServiceId → List CtlMsg
  jobs ServiceBus.msg (BusMsg.bifrost ln) (ServiceId.peer remote) = from_peer remote ln
  jobs bus msg source = asked bus msg source

module _ (about : CtlMsg → Bool) where
  -- How many jobs of a kind there are in a list.
  abbrev pub amount : List CtlMsg → ℕ
  amount [] = 0
  amount (msg ∷ msgs) = if is_job msg && about msg then suc (amount msgs) else amount msgs

  abbrev pub event_amount : Event → ℕ
  event_amount (Event.done (Request.send packet)) =
      amount (given packet.bus packet.dest packet.request)
  event_amount (Event.failed (Request.send packet)) =
      amount (given packet.bus packet.dest packet.request)
  event_amount _ = 0

  -- How many a log shows as sent to transfer daemons, or tried to be sent.
  abbrev pub sent_amount : Log → ℕ
  sent_amount [] = 0
  sent_amount (e ∷ log) = event_amount e + sent_amount log

  -- And those that wait.
  abbrev pub total : Sys Runtime → ℕ
  total s = sent_amount s.log + amount s.rt.ctl_queue

  pub amount-append : (xs ys : List CtlMsg) → amount (xs ++ ys) ≡ amount xs + amount ys
  amount-append [] ys = omega arith
  amount-append (x ∷ xs) ys = ground (arith, amount-append xs ys)

  module _ (p : Platform) where
    total-assign_front :
        (queue : List CtlMsg) (free : List DaemonId) (s : Sys Runtime)
        → s.rt.ctl_queue ≡ queue
        → total (assign_front p queue free s).1 ≡ total s
    unfolding assign_front send_ctl task_container
    total-assign_front [] free s e = refl
    total-assign_front (msg ∷ rest) [] s e = refl
    total-assign_front (msg ∷ rest) (d ∷ fs) s e = ground (arith, e)

    total-pick_task : (s : Sys Runtime) → total (pick_task p s).1 ≡ total s
    unfolding pick_task
    total-pick_task s = total-assign_front s.rt.ctl_queue s.rt.transferd_free s refl

    sent-after_pick :
        (client_id : Option ClientId) (picked : Bool) (s : Sys Runtime)
        → sent_amount (after_pick p client_id picked s).1.log ≡ sent_amount s.log
    unfolding after_pick tell_client start_transferd launch_daemon launch send_rpc
    sent-after_pick client_id picked s = grind arith

    pub total-submit :
        (job : CtlMsg) (client_id : Option ClientId) (s : Sys Runtime)
        → total (submit p job client_id s).1 ≡ total s + amount (job ∷ [])
    unfolding submit pick_or_start
    total-submit job client_id s = grind (
      arith,
      total-pick_task (record s { rt = enqueue job s.rt }),
      rt-after_pick,
      sent-after_pick,
      amount-append s.rt.ctl_queue (job ∷ []),
    )

    sent-end_transfer :
        (o : Option ContainerId) (s : Sys Runtime)
        → sent_amount (end_transfer p o s).1.log ≡ sent_amount s.log
    unfolding end_transfer notify_app send_ext
    sent-end_transfer none s = refl
    sent-end_transfer (some c) s = ground arith

    total-hello :
        (source : ServiceId) (s : Sys Runtime) → total (handle_hello p source s).1 ≡ total s
    unfolding handle_hello accept_daemon
    total-hello (ServiceId.transfer d) s =
        ground (arith, total-pick_task (record s { rt = push_free d s.rt }))
    total-hello _ s = refl

    total-finished :
        (source : ServiceId) (s : Sys Runtime) → total (handle_finished p source s).1 ≡ total s
    unfolding handle_finished
    total-finished (ServiceId.transfer d) s =
        let o = Maps.find_key d s.rt.container_transfers in
        let s' = (end_transfer p o s).1 in
        ground (
          arith,
          end_transfer_lem p o s,
          sent-end_transfer o s,
          queue-drop_transfer o s.rt,
          total-pick_task (record s' { rt = release d s'.rt }),
        )
    total-finished _ s = refl

    pub total-ctl :
        (source : ServiceId) (msg : CtlMsg) (s : Sys Runtime)
        → total (handle_ctl p source msg s).1 ≡ total s
    unfolding handle_ctl
    total-ctl source CtlMsg.hello s = total-hello source s
    total-ctl source CtlMsg.processing_complete s = total-finished source s
    total-ctl source CtlMsg.processing_failed s = total-finished source s
    total-ctl source _ s = refl
