-- ===== src/Stormd/Posts.antt =====
-- Where the chat messages come from that stormd hands to chatd.
use storm_node.Base.{
  ◌≡◌, refl, inl, inr, Bool, true, false, ◌||◌, ◌&&◌, Option, none, some, List, [], ◌∷◌, arith,
  nat_eq,
}
use storm_node.Base.Action.{Result, ok, err, Result-cases}
use storm_node.Base.Maps
use storm_node.Wire.{
  NodeId, ClientId, ContainerId, DaemonId, BifrostApp, StormApp, Mesg, Messages, LnMsg,
}
use storm_node.Rpc.Ids.{ServiceId}
use storm_node.Rpc.Messages.{RpcMsg}
use storm_node.Ext.{ExtMsg, storm_ext_msg, remote_id, p2p_message}
use storm_node.Bus.{ServiceBus, CtlMsg, BusMsg, Packet}
use storm_node.Bus.Protocol.{is_app}
use storm_node.Bus.Responder.{send_p2p, send_ctl, send_rpc, send_ext}
use storm_node.World.{Platform, Sys, said}
use storm_node.World.Effects.{launch}
use storm_node.Stormd.Runtime.{Runtime, launch_daemon, start_chat, start_downpour, on_ready}
use storm_node.Stormd.Scheduler.{
  enqueue, push_free, accept_daemon, assign_front, pick_task, pick_or_start, submit, after_pick,
  start_transferd, tell_client,
}
use storm_node.Stormd.Handlers.{
  release, submit_unclaimed, route_instr, route_ext, transfer_instr, route_p2p, handle_p2p,
  handle_rpc, notify_app, end_transfer, handle_finished, handle_hello, handle_ctl, forward_p2p,
  handle_app, handle_others, handle,
}

-- A message of a peer, its id and its content, for chatd, of a given kind.
abbrev pub posts : (NodeId → Mesg → Bool) → Packet → Bool
posts kind packet = elim packet.request [
  | BusMsg.storm (ExtMsg.post m) ↦ is_app StormApp.chat packet.dest && kind m.remote_id m.content
  | _ ↦ false
]

abbrev posted_mesg : (NodeId → Mesg → Bool) → NodeId → Messages → Bool
posted_mesg kind remote (Messages.post m) =
    is_app StormApp.chat (ServiceId.storm_app m.app) && kind remote m.content
posted_mesg kind remote _ = false

abbrev posted_in : {E : Type 0} → (NodeId → Mesg → Bool) → NodeId → Result E Messages → Bool
posted_in kind remote (ok mesg) = posted_mesg kind remote mesg
posted_in kind remote (err e) = false

-- Whether a packet brings such a message from a peer.
abbrev pub brings : Platform → (NodeId → Mesg → Bool) → ServiceBus → BusMsg → ServiceId → Bool
brings p kind ServiceBus.msg (BusMsg.bifrost (LnMsg.message BifrostApp.storm payload))
      (ServiceId.peer remote) =
    posted_in kind remote (p.unmarshall payload)
brings p kind _ _ _ = false

module _ (p : Platform) (kind : NodeId → Mesg → Bool) where
  abbrev posted : Sys Runtime → Bool
  posted s = said (posts kind) s.log

  posted-assign_front :
      (queue : List CtlMsg) (free : List DaemonId) (s : Sys Runtime)
      → posted (assign_front p queue free s).1 ≡ posted s
  unfolding assign_front send_ctl
  posted-assign_front [] free s = refl
  posted-assign_front (msg ∷ rest) [] s = refl
  posted-assign_front (msg ∷ rest) (d ∷ free) s = ground arith

  posted-pick_task : (s : Sys Runtime) → posted (pick_task p s).1 ≡ posted s
  unfolding pick_task
  posted-pick_task s = posted-assign_front s.rt.ctl_queue s.rt.transferd_free s

  posted-after_pick :
      (client_id : Option ClientId) (picked : Bool) (s : Sys Runtime)
      → posted (after_pick p client_id picked s).1 ≡ posted s
  unfolding after_pick tell_client start_transferd launch_daemon launch send_rpc
  posted-after_pick client_id picked s = ground arith

  posted-end_transfer :
      (o : Option ContainerId) (s : Sys Runtime) → posted (end_transfer p o s).1 ≡ posted s
  unfolding end_transfer notify_app send_ext
  posted-end_transfer none s = refl
  posted-end_transfer (some c) s = ground arith

  posted-submit :
      (task : CtlMsg) (client_id : Option ClientId) (s : Sys Runtime)
      → posted (submit p task client_id s).1 ≡ posted s
  unfolding submit pick_or_start
  posted-submit task client_id s =
      grind (arith, posted-pick_task (record s { rt = enqueue task s.rt }), posted-after_pick)

  posted-hello :
      (source : ServiceId) (s : Sys Runtime) → posted (handle_hello p source s).1 ≡ posted s
  unfolding handle_hello accept_daemon
  posted-hello (ServiceId.transfer d) s =
      ground (arith, posted-pick_task (record s { rt = push_free d s.rt }))
  posted-hello source s = refl

  posted-finished :
      (source : ServiceId) (s : Sys Runtime) → posted (handle_finished p source s).1 ≡ posted s
  unfolding handle_finished
  posted-finished (ServiceId.transfer d) s =
      let o = Maps.find_key d s.rt.container_transfers in
      let s' = (end_transfer p o s).1 in
      ground (arith, posted-end_transfer o s, posted-pick_task (record s' { rt = release d s'.rt }))
  posted-finished source s = refl

  posted-forward_p2p :
      (app : StormApp) (msg : ExtMsg) (s : Sys Runtime)
      → posted (forward_p2p p app msg s).1 ≡ posted s
  unfolding forward_p2p send_p2p remote_id p2p_message
  posted-forward_p2p app msg s = ground arith

  posted-route_instr :
      (o : Option DaemonId) (instr : CtlMsg) (s : Sys Runtime)
      → posted (route_instr p o instr s).1 ≡ posted s
  unfolding route_instr submit_unclaimed send_ctl
  posted-route_instr (some d) instr s = ground arith
  posted-route_instr none (CtlMsg.process_container c) s = posted-submit _ none s
  posted-route_instr none (CtlMsg.send_chunks m) s = posted-submit _ none s
  posted-route_instr none _ s = refl

  -- What was posted after a step had been so before, or came with the message.
  abbrev From : Bool → Sys Runtime → Sys Runtime → Type 0
  From came s s' = posted s' ≡ true → (posted s || came) ≡ true

  From-same : (came : Bool) (s s' : Sys Runtime) → posted s' ≡ posted s → From came s s'
  From-same came s s' e h = ground (arith, e, h)

  route_ext-From :
      (remote : NodeId) (mesg : Messages) (s : Sys Runtime)
      → From (posted_mesg kind remote mesg) s (route_ext p remote (storm_ext_msg mesg remote) s).1
  unfolding route_ext storm_ext_msg send_p2p send_ext
  route_ext-From remote mesg s h = ground (arith, h)

  route_p2p-From :
      (remote : NodeId) (mesg : Messages) (o : Option (ContainerId × CtlMsg)) (s : Sys Runtime)
      → From (posted_mesg kind remote mesg) s (route_p2p p remote mesg o s).1
  unfolding route_p2p
  route_p2p-From remote mesg (some (c, instr)) s =
      let o = Maps.get c s.rt.container_transfers in
      From-same _ s (route_instr p o instr s).1 (posted-route_instr o instr s)
  route_p2p-From remote mesg none s = route_ext-From remote mesg s

  p2p-From :
      (remote : NodeId) (ln : LnMsg) (s : Sys Runtime)
      → From
          (brings p kind ServiceBus.msg (BusMsg.bifrost ln) (ServiceId.peer remote))
          s
          (handle_p2p p remote ln s).1
  unfolding handle_p2p
  p2p-From remote (LnMsg.message BifrostApp.storm payload) s =
      elim (Result-cases (p.unmarshall payload)) [
        | inl (mesg, e) ↦ rw e (route_p2p-From remote mesg (transfer_instr p remote mesg) s)
        | inr (x, e) ↦ rw e (From-same false s s refl)
      ]
  p2p-From remote _ s = From-same false s s refl

  app-From :
      (app : StormApp) (msg : ExtMsg) (s : Sys Runtime)
      → posted (handle_app p app msg s).1 ≡ posted s
  unfolding handle_app
  app-From app (ExtMsg.register_app a) s = ground arith
  app-From app (ExtMsg.retrieve_container m) s = posted-submit _ none (record s { rt = _ })
  app-From app (ExtMsg.send_container m) s = posted-submit _ none s
  app-From app msg s = posted-forward_p2p app msg s

  rpc-From :
      (client_id : ClientId) (msg : RpcMsg) (s : Sys Runtime)
      → posted (handle_rpc p client_id msg s).1 ≡ posted s
  unfolding handle_rpc
  rpc-From client_id (RpcMsg.send_container m) s = posted-submit _ _ s
  rpc-From client_id (RpcMsg.get_container m) s = posted-submit _ _ s
  rpc-From client_id msg s = refl

  others-From :
      (source : ServiceId) (msg : ExtMsg) (s : Sys Runtime)
      → posted (handle_others p source msg s).1 ≡ posted s
  unfolding handle_others
  others-From source (ExtMsg.container_announcement m) s = posted-submit _ none s
  others-From source msg s = refl

  ctl-From :
      (source : ServiceId) (msg : CtlMsg) (s : Sys Runtime)
      → posted (handle_ctl p source msg s).1 ≡ posted s
  unfolding handle_ctl
  ctl-From source CtlMsg.hello s = posted-hello source s
  ctl-From source CtlMsg.processing_complete s = posted-finished source s
  ctl-From source CtlMsg.processing_failed s = posted-finished source s
  ctl-From source msg s = refl

  -- A chat message that stormd hands to chatd comes from the message that it handles, sent by the very
  -- peer that it names.
  pub handle-From :
      (bus : ServiceBus) (msg : BusMsg) (source : ServiceId) (s : Sys Runtime)
      → From (brings p kind bus msg source) s (handle p bus msg source s).1
  unfolding handle
  handle-From ServiceBus.msg (BusMsg.bifrost ln) (ServiceId.peer remote) s = p2p-From remote ln s
  handle-From ServiceBus.ctl (BusMsg.ctl msg) source s =
      From-same _ s (handle_ctl p source msg s).1 (ctl-From source msg s)
  handle-From ServiceBus.storm (BusMsg.storm msg) (ServiceId.storm_app app) s =
      From-same _ s (handle_app p app msg s).1 (app-From app msg s)
  handle-From ServiceBus.rpc (BusMsg.rpc msg) (ServiceId.client c) s =
      From-same _ s (handle_rpc p c msg s).1 (rpc-From c msg s)
  handle-From ServiceBus.rpc (BusMsg.storm msg) source s =
      From-same _ s (handle_others p source msg s).1 (others-From source msg s)
  handle-From bus msg source s = From-same _ s s refl

  pub on_ready-posted : (s : Sys Runtime) → posted (on_ready p s).1 ≡ posted s
  unfolding on_ready start_chat start_downpour launch_daemon launch
  on_ready-posted s = ground arith
