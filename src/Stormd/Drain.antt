-- ===== src/Stormd/Drain.antt =====
-- How the queue of stormd empties, by what its transfer daemons say.
use storm_node.Base.{
  ℕ, zero, suc, ◌≡◌, ◌≢◌, refl, sym, Option, none, some, List, [], ◌∷◌, ◌++◌, map, take, drop,
  length, append-nil, append_assoc, append_one-ne-nil, arith, nat_eq,
}
use storm_node.Base.Maps
use storm_node.Wire.{DaemonId, ContainerId}
use storm_node.Rpc.Ids.{ServiceId}
use storm_node.Rpc.Failure.{EsbError}
use storm_node.Errors.{DaemonError}
use storm_node.Bus.{ServiceBus, CtlMsg, BusMsg, Packet}
use storm_node.Bus.Responder.{send_ctl, send_ext}
use storm_node.World.{Platform, Sys, Request, Event, Log}
use storm_node.World.Serve.{Message, serve}
use storm_node.Stormd.Runtime.{Runtime}
use storm_node.Stormd.Frame.{queue-drop_transfer, end_transfer_lem}
use storm_node.Stormd.Scheduler.{push_free, accept_daemon, assign_front, pick_task, task_container}
use storm_node.Stormd.Handlers.{
  release, end_transfer, notify_app, handle_hello, handle_finished, handle_ctl, handle,
}
use storm_node.Stormd.Tasks.{given}
use storm_node.Stormd.Served.{serve_all, next}

-- What a transfer daemon says of itself.
pub data Word : Type 0 where
  hello complete failed : Word

abbrev pub word_msg : Word → CtlMsg
word_msg Word.hello = CtlMsg.hello
word_msg Word.complete = CtlMsg.processing_complete
word_msg Word.failed = CtlMsg.processing_failed

abbrev pub said : Word × DaemonId → Message
said (word, d) = (ServiceBus.ctl, BusMsg.ctl (word_msg word), ServiceId.transfer d)

-- The instructions that a log shows as sent to transfer daemons, oldest first.
abbrev pub instructed : Event → List CtlMsg
instructed (Event.done (Request.send packet)) = given packet.bus packet.dest packet.request
instructed _ = []

abbrev pub instructions : Log → List CtlMsg
instructions [] = []
instructions (e ∷ log) = instructions log ++ instructed e

-- A number of instructions were taken off the queue and sent, in order.
abbrev pub Takes : List CtlMsg → List CtlMsg → Log → Sys Runtime → Type 0
Takes taken left log s' =
    (s'.rt.ctl_queue ≡ left) × (instructions s'.log ≡ instructions log ++ taken)

module _ (p : Platform)
    (sends : (log : Log) (packet : Packet) → p.transport log packet ≡ none) where
  assign_front-Takes :
      (queue : List CtlMsg) (free : List DaemonId) (s : Sys Runtime)
      → s.rt.ctl_queue ≡ queue
      → free ≢ []
      → Takes (take 1 queue) (drop 1 queue) s.log (assign_front p queue free s).1
  unfolding assign_front send_ctl task_container
  assign_front-Takes [] free s e ne = (e, sym (append-nil (instructions s.log)))
  assign_front-Takes (msg ∷ rest) [] s e ne = absurd (ne refl)
  assign_front-Takes (msg ∷ rest) (d ∷ fs) s e ne = grind (arith, sends)

  pick_task-Takes :
      (s : Sys Runtime)
      → s.rt.transferd_free ≢ []
      → Takes (take 1 s.rt.ctl_queue) (drop 1 s.rt.ctl_queue) s.log (pick_task p s).1
  unfolding pick_task
  pick_task-Takes s ne = assign_front-Takes s.rt.ctl_queue s.rt.transferd_free s refl ne

  hello-Takes :
      (d : DaemonId) (s : Sys Runtime)
      → Takes
          (take 1 s.rt.ctl_queue)
          (drop 1 s.rt.ctl_queue)
          s.log
          (handle_hello p (ServiceId.transfer d) s).1
  unfolding handle_hello accept_daemon
  hello-Takes d s =
      let ne = append_one-ne-nil s.rt.transferd_free d in
      ground (arith, pick_task-Takes (record s { rt = push_free d s.rt }) ne)

  quiet-end_transfer :
      (o : Option ContainerId) (s : Sys Runtime)
      → instructions (end_transfer p o s).1.log ≡ instructions s.log
  unfolding end_transfer notify_app send_ext
  quiet-end_transfer none s = refl
  quiet-end_transfer (some c) s = ground (arith, append-nil (instructions s.log))

  finished-Takes :
      (d : DaemonId) (s : Sys Runtime)
      → Takes
          (take 1 s.rt.ctl_queue)
          (drop 1 s.rt.ctl_queue)
          s.log
          (handle_finished p (ServiceId.transfer d) s).1
  unfolding handle_finished
  finished-Takes d s =
      let o = Maps.find_key d s.rt.container_transfers in
      let s' = (end_transfer p o s).1 in
      let ne = append_one-ne-nil s'.rt.transferd_free d in
      ground (
        arith,
        end_transfer_lem p o s,
        quiet-end_transfer o s,
        queue-drop_transfer o s.rt,
        pick_task-Takes (record s' { rt = release d s'.rt }) ne,
      )

  handle-Takes :
      (word : Word) (d : DaemonId) (s : Sys Runtime)
      → Takes
          (take 1 s.rt.ctl_queue)
          (drop 1 s.rt.ctl_queue)
          s.log
          (handle p ServiceBus.ctl (BusMsg.ctl (word_msg word)) (ServiceId.transfer d) s).1
  unfolding handle handle_ctl
  handle-Takes Word.hello d s = hello-Takes d s
  handle-Takes Word.complete d s = finished-Takes d s
  handle-Takes Word.failed d s = finished-Takes d s

  more-Takes :
      (n : ℕ) (queue : List CtlMsg) (log log' : Log) (s : Sys Runtime)
      → instructions log' ≡ instructions log ++ take 1 queue
      → Takes (take n (drop 1 queue)) (drop n (drop 1 queue)) log' s
      → Takes (take (suc n) queue) (drop (suc n) queue) log s
  more-Takes zero [] log log' s e h = ground (arith, e, h, append-nil (instructions log))
  more-Takes (suc n) [] log log' s e h = ground (arith, e, h, append-nil (instructions log))
  more-Takes n (msg ∷ queue) log log' s e h =
      ground (arith, e, h, append_assoc (instructions log) (msg ∷ []) (take n queue))

  -- If the bus takes every packet, each word of a transfer daemon of itself (its hello, or the end of
  -- a task) takes one task off the queue and sends it to a transfer daemon, first come, first served: the
  -- instructions sent are then those from before and as many of the queue's front as words were
  -- spoken, in order, and the rest of the queue waits. So a task is sent after as many words as
  -- there were tasks before it, and one.
  pub serve-drains :
      (raise : DaemonError → EsbError) (words : List (Word × DaemonId)) (s : Sys Runtime)
      → let n = length words in
        let s' = serve_all p raise (map said words) s in
        (s'.rt.ctl_queue ≡ drop n s.rt.ctl_queue)
        × (instructions s'.log ≡ instructions s.log ++ take n s.rt.ctl_queue)
  unfolding serve
  serve-drains raise [] s = (refl, sym (append-nil (instructions s.log)))
  serve-drains raise ((word, d) ∷ words) s =
      let msg = BusMsg.ctl (word_msg word) in
      let s₁ = (handle p ServiceBus.ctl msg (ServiceId.transfer d) s).1 in
      let one = handle-Takes word d s in
      let more = serve-drains raise words s₁ in
      let served = next p raise ServiceBus.ctl msg (ServiceId.transfer d) (map said words) s refl in
      more-Takes (length words) s.rt.ctl_queue s.log s₁.log
        (serve_all p raise (map said ((word, d) ∷ words)) s) one.1
        (rw served (ground (arith, one, more)))
