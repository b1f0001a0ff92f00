-- ===== src/Stormd/Sends.antt =====
-- What stormd sends, and what waits in its queue.
use storm_node.Base.{
  ◌≡◌, refl, Bool, true, ◌&&◌, Option, none, some, List, [], ◌∷◌, ◌++◌, arith, nat_eq,
}
use storm_node.Base.Maps
use storm_node.Wire.{ClientId, ContainerId, DaemonId}
use storm_node.Rpc.Ids.{ServiceId}
use storm_node.Bus.{ServiceBus, CtlMsg, BusMsg, Packet, opens}
use storm_node.Bus.Protocol.{is_instruction, all_instructions, stormd_says}
use storm_node.Bus.Responder.{send_ctl, send_rpc, send_ext}
use storm_node.Config.{Config, StormConfig}
use storm_node.World.{Platform, Sys, sends_in}
use storm_node.World.Effects.{launch}
use storm_node.Stormd.Runtime.{Runtime, launch_daemon, start_chat, start_downpour, on_ready}
use storm_node.Stormd.Start.{buses}
use storm_node.Stormd.Frame.{end_transfer_lem, queue-drop_transfer, rt-after_pick}
use storm_node.Stormd.Scheduler.{
  push_free, enqueue, accept_daemon, assign_front, pick_task, pick_or_start, submit, after_pick,
  start_transferd, tell_client,
}
use storm_node.Stormd.Handlers.{
  release, end_transfer, notify_app, handle_hello, handle_finished, handle,
}
use storm_node.Stormd.Rule.{Ending, note_app, handle_rule}

-- Only instructions wait.
abbrev pub IsReady : Sys Runtime → Type 0
IsReady s = all_instructions s.rt.ctl_queue ≡ true

-- Nothing was sent but what is stormd's to say.
abbrev Same : Sys Runtime → Sys Runtime → Type 0
Same s s' = sends_in stormd_says s'.log ≡ sends_in stormd_says s.log

abbrev Stays : Sys Runtime → Sys Runtime → Type 0
Stays s s' = IsReady s' × Same s s'

all_instructions-append :
    (xs ys : List CtlMsg)
    → all_instructions (xs ++ ys) ≡ (all_instructions xs && all_instructions ys)
all_instructions-append [] ys = refl
all_instructions-append (x ∷ xs) ys = ground (arith, all_instructions-append xs ys)

-- What stormd says goes over its own buses.
pub says-opens :
    (config : Config StormConfig) (packet : Packet)
    → (opens (buses config) packet.bus && stormd_says packet) ≡ stormd_says packet
unfolding buses
says-opens config packet = ground arith

module _ (p : Platform) where
  assign_front-Stays :
      (queue : List CtlMsg) (free : List DaemonId) (s : Sys Runtime)
      → s.rt.ctl_queue ≡ queue
      → IsReady s
      → Stays s (assign_front p queue free s).1
  unfolding assign_front send_ctl
  assign_front-Stays [] free s e h = (h, refl)
  assign_front-Stays (msg ∷ rest) [] s e h = (h, refl)
  assign_front-Stays (msg ∷ rest) (d ∷ fs) s e h = ground (arith, e, h)

  pick_task-Stays : (s : Sys Runtime) → IsReady s → Stays s (pick_task p s).1
  unfolding pick_task
  pick_task-Stays s h = assign_front-Stays s.rt.ctl_queue s.rt.transferd_free s refl h

  after_pick-Same :
      (client_id : Option ClientId) (picked : Bool) (s : Sys Runtime)
      → Same s (after_pick p client_id picked s).1
  unfolding after_pick tell_client start_transferd launch_daemon launch send_rpc
  after_pick-Same client_id picked s = ground arith

  end_transfer-Same : (o : Option ContainerId) (s : Sys Runtime) → Same s (end_transfer p o s).1
  unfolding end_transfer notify_app send_ext
  end_transfer-Same none s = refl
  end_transfer-Same (some c) s = ground arith

  submit-Stays :
      (task : CtlMsg) (client_id : Option ClientId) (s : Sys Runtime)
      → is_instruction task ≡ true
      → IsReady s
      → Stays s (submit p task client_id s).1
  unfolding submit pick_or_start
  submit-Stays task client_id s i h = grind (
    arith,
    pick_task-Stays (record s { rt = enqueue task s.rt }),
    all_instructions-append s.rt.ctl_queue (task ∷ []),
    after_pick-Same,
    rt-after_pick p,
  )

  hello-Stays :
      (d : DaemonId) (s : Sys Runtime)
      → IsReady s
      → Stays s (handle_hello p (ServiceId.transfer d) s).1
  unfolding handle_hello accept_daemon
  hello-Stays d s h = ground (arith, pick_task-Stays (record s { rt = push_free d s.rt }) h)

  finished-Stays :
      (d : DaemonId) (s : Sys Runtime)
      → IsReady s
      → Stays s (handle_finished p (ServiceId.transfer d) s).1
  unfolding handle_finished
  finished-Stays d s h =
      let o = Maps.find_key d s.rt.container_transfers in
      let s' = (end_transfer p o s).1 in
      ground (
        arith,
        h,
        end_transfer_lem p o s,
        queue-drop_transfer o s.rt,
        end_transfer-Same o s,
        pick_task-Stays (record s' { rt = release d s'.rt }),
      )

  abbrev Keeps : ServiceBus → BusMsg → ServiceId → Sys Runtime → Ending → Type 0
  Keeps bus msg source s r = IsReady s → Stays s r.1

  -- A message that stormd handles leaves only instructions in its queue, if only they were there.
  pub handle-Stays :
      (bus : ServiceBus) (msg : BusMsg) (source : ServiceId) (s : Sys Runtime)
      → IsReady s
      → Stays s (handle p bus msg source s).1
  handle-Stays =
      handle_rule p Keeps (λ bus msg source s r a q h. (rw q.0 h, q.2))
        (λ bus msg source task client_id s a h. submit-Stays task client_id s a.1 h)
        (λ app s h. (h, refl))
        (λ msg source task c app s a h.
          submit-Stays task none (record s { rt = note_app c app s.rt }) a.1 h)
        hello-Stays finished-Stays finished-Stays

  pub on_ready-Stays : (s : Sys Runtime) → IsReady s → Stays s (on_ready p s).1
  unfolding on_ready start_chat start_downpour launch_daemon launch
  on_ready-Stays s h = (ground (arith, h), ground arith)
