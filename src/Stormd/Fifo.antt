-- ===== src/Stormd/Fifo.antt =====
-- The queue of stormd as what it is for: first in, first out.
pub mod Handling
pub mod Runs
use storm_node.Base.{
  ℕ, suc, ◌+◌, ◌≡◌, refl, sym, ap, ◌∙◌, Bool, true, false, ◌&&◌, Option, none, some, List, [], ◌∷◌,
  ◌++◌, if◌then◌else◌, arith, append-nil, append_assoc, nat_eq, inl, inr,
}
use storm_node.Base.Action.{Result, ok, err, Result-cases}
use storm_node.Base.Maps
use storm_node.Wire.{
  NodeId, ClientId, DaemonId, ContainerId, BifrostApp, StormApp, Messages, LnMsg, Chunk,
}
use storm_node.Rpc.Ids.{ServiceId}
use storm_node.Rpc.Messages.{RpcMsg}
use storm_node.Ext.{ExtMsg, storm_ext_msg, remote_id, p2p_message}
use storm_node.Bus.{ServiceBus, CtlMsg, BusMsg}
use storm_node.Bus.Responder.{send_ctl, send_ext, send_p2p, send_rpc}
use storm_node.Errors.{PresentationError}
use storm_node.World.{Platform, Sys, Request, Event, Log}
use storm_node.World.Effects.{launch}
use storm_node.Stormd.Runtime.{Runtime, launch_daemon}
use storm_node.Stormd.Scheduler.{
  enqueue, push_free, accept_daemon, assign_front, pick_task, tell_client, start_transferd,
  after_pick, pick_or_start, submit, task_container,
}
use storm_node.Stormd.Frame.{queue-drop_transfer, rt-after_pick, end_transfer_lem}
use storm_node.Stormd.Handlers.{
  release, transfer_instr, submit_unclaimed, route_instr, route_ext, route_p2p, handle_p2p,
  handle_rpc, notify_app, end_transfer, handle_finished, handle_hello, handle_ctl, forward_p2p,
  handle_app, handle_others, handle,
}
use storm_node.Stormd.Rule.{note_app}
use storm_node.Stormd.Tasks.{asked, given}

-- What peers tell the daemon of a transfer, and the container that it is about.
abbrev pub peer_instr : Platform → NodeId → Messages → Option (ContainerId × CtlMsg)
peer_instr p remote (Messages.push_container m) =
    some (p.container_id m.content, CtlMsg.process_container m.content)
peer_instr p remote (Messages.pull_chunk m) = some (
  m.container_id,
  CtlMsg.send_chunks (record {
    remote_id = remote;
    content = record { storm_app = m.app; container_id = m.container_id; chunk_ids = m.chunk_ids };
  }),
)
peer_instr p remote (Messages.push_chunk m) = some (m.container_id, CtlMsg.process_chunk m.chunk)
peer_instr p remote _ = none

abbrev pub payload_instr :
    Platform → NodeId → Result PresentationError Messages → Option (ContainerId × CtlMsg)
payload_instr p remote (ok mesg) = peer_instr p remote mesg
payload_instr p remote (err _) = none

abbrev pub ln_instr : Platform → NodeId → LnMsg → Option (ContainerId × CtlMsg)
ln_instr p remote (LnMsg.message BifrostApp.storm payload) =
    payload_instr p remote (p.unmarshall payload)
ln_instr p remote _ = none

-- It goes to the daemon that has the transfer, if there is one.
abbrev pub sent_on : Option DaemonId → CtlMsg → List CtlMsg
sent_on (some d) instr = instr ∷ []
sent_on none instr = []

-- Otherwise it waits in the queue, but a chunk is dropped.
abbrev pub kept : Option DaemonId → CtlMsg → List CtlMsg
kept none (CtlMsg.process_chunk c) = []
kept none instr = instr ∷ []
kept (some d) instr = []

abbrev pub peer_direct : Runtime → Option (ContainerId × CtlMsg) → List CtlMsg
peer_direct rt none = []
peer_direct rt (some (c, instr)) = sent_on (Maps.get c rt.container_transfers) instr

abbrev pub peer_queued : Runtime → Option (ContainerId × CtlMsg) → List CtlMsg
peer_queued rt none = []
peer_queued rt (some (c, instr)) = kept (Maps.get c rt.container_transfers) instr

-- What a message brings for the daemon of a running transfer, past the queue, and what it brings for
-- the queue.
abbrev pub direct : Platform → Runtime → ServiceBus → BusMsg → ServiceId → List CtlMsg
direct p rt ServiceBus.msg (BusMsg.bifrost ln) (ServiceId.peer remote) =
    peer_direct rt (ln_instr p remote ln)
direct p rt bus msg source = []

abbrev pub queued : Platform → Runtime → ServiceBus → BusMsg → ServiceId → List CtlMsg
queued p rt ServiceBus.msg (BusMsg.bifrost ln) (ServiceId.peer remote) =
    peer_queued rt (ln_instr p remote ln)
queued p rt bus msg source = asked bus msg source

-- What a log shows as sent to transfer daemons, or tried to be sent, oldest first.
abbrev pub event_given : Event → List CtlMsg
event_given (Event.done (Request.send packet)) = given packet.bus packet.dest packet.request
event_given (Event.failed (Request.send packet)) = given packet.bus packet.dest packet.request
event_given _ = []

abbrev pub all_given : Log → List CtlMsg
all_given [] = []
all_given (e ∷ log) = all_given log ++ event_given e

-- Some of the front of the queue was sent.
abbrev pub Hands : Sys Runtime → Sys Runtime → Type 0
Hands s t =
    (hs : List CtlMsg) × (all_given t.log ≡ all_given s.log ++ hs)
    × (s.rt.ctl_queue ≡ hs ++ t.rt.ctl_queue)

-- Something was sent past the queue or entered at its end, and then some of its front sent.
abbrev pub Fifo : Sys Runtime → Sys Runtime → List CtlMsg → List CtlMsg → Type 0
Fifo s t ds qs =
    (hs : List CtlMsg) × (all_given t.log ≡ all_given s.log ++ (ds ++ hs))
    × (s.rt.ctl_queue ++ qs ≡ hs ++ t.rt.ctl_queue)

pub still :
    (s t : Sys Runtime)
    → all_given t.log ≡ all_given s.log
    → t.rt.ctl_queue ≡ s.rt.ctl_queue
    → Fifo s t [] []
still s t e q = ([], e ∙ sym (append-nil (all_given s.log)), append-nil s.rt.ctl_queue ∙ sym q)

pub passed :
    (s t : Sys Runtime) (msg : CtlMsg)
    → all_given t.log ≡ all_given s.log ++ msg ∷ []
    → t.rt.ctl_queue ≡ s.rt.ctl_queue
    → Fifo s t (msg ∷ []) []
passed s t msg e q = ([], e, append-nil s.rt.ctl_queue ∙ sym q)

pub Hands-Fifo :
    (s s' t : Sys Runtime)
    → all_given s'.log ≡ all_given s.log
    → s'.rt.ctl_queue ≡ s.rt.ctl_queue
    → Hands s' t
    → Fifo s t [] []
Hands-Fifo s s' t e q (hs, g, w) =
    (hs, g ∙ ap (λ xs. xs ++ hs) e, append-nil s.rt.ctl_queue ∙ sym q ∙ w)

module _ (p : Platform) where
  assign_front-Hands :
      (queue : List CtlMsg) (free : List DaemonId) (s : Sys Runtime)
      → s.rt.ctl_queue ≡ queue
      → Hands s (assign_front p queue free s).1
  unfolding assign_front send_ctl task_container
  assign_front-Hands [] free s e = ([], ground (arith, append-nil (all_given s.log)), refl)
  assign_front-Hands (msg ∷ rest) [] s e = ([], ground (arith, append-nil (all_given s.log)), refl)
  assign_front-Hands (msg ∷ rest) (d ∷ fs) s e = (msg ∷ [], ground (arith, e), ground (arith, e))

  pub pick_task-Hands : (s : Sys Runtime) → Hands s (pick_task p s).1
  unfolding pick_task
  pick_task-Hands s = assign_front-Hands s.rt.ctl_queue s.rt.transferd_free s refl

  given-after_pick :
      (client_id : Option ClientId) (picked : Bool) (s : Sys Runtime)
      → all_given (after_pick p client_id picked s).1.log ≡ all_given s.log
  unfolding after_pick tell_client start_transferd launch_daemon launch send_rpc
  given-after_pick client_id picked s = grind (arith, append-nil)

  submit-pick_task :
      (job : CtlMsg) (client_id : Option ClientId) (s : Sys Runtime)
      → let t = (pick_task p (record s { rt = enqueue job s.rt })).1 in
        (all_given (submit p job client_id s).1.log ≡ all_given t.log)
        × ((submit p job client_id s).1.rt.ctl_queue ≡ t.rt.ctl_queue)
  unfolding submit pick_or_start
  submit-pick_task job client_id s = grind (arith, given-after_pick, rt-after_pick)

  pub submit-Fifo :
      (job : CtlMsg) (client_id : Option ClientId) (s s' : Sys Runtime)
      → all_given s'.log ≡ all_given s.log
      → s'.rt.ctl_queue ≡ s.rt.ctl_queue
      → Fifo s (submit p job client_id s').1 [] (job ∷ [])
  submit-Fifo job client_id s s' e q =
      let (hs, g, w) = pick_task-Hands (record s' { rt = enqueue job s'.rt }) in
      let (sent, left) = submit-pick_task job client_id s' in
      (
        hs,
        sent ∙ g ∙ ap (λ xs. xs ++ hs) e,
        ap (λ xs. xs ++ job ∷ []) (sym q) ∙ w ∙ ap (λ xs. hs ++ xs) (sym left),
      )

  pub given-end_transfer :
      (o : Option ContainerId) (s : Sys Runtime)
      → all_given (end_transfer p o s).1.log ≡ all_given s.log
  unfolding end_transfer notify_app send_ext
  given-end_transfer none s = refl
  given-end_transfer (some c) s = ground (arith, append-nil (all_given s.log))
