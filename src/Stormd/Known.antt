-- ===== src/Stormd/Known.antt =====
-- The transfer daemons that stormd knows.
use storm_node.Base.{
  ◌≡◌, refl, Bool, true, false, ◌||◌, ◌==◌, Option, none, some, List, [], ◌∷◌, arith, nat_eq,
}
use storm_node.Base.Sets
use storm_node.Base.Maps
use storm_node.Wire.{ClientId, ContainerId, DaemonId}
use storm_node.Rpc.Ids.{ServiceId}
use storm_node.Bus.{ServiceBus, CtlMsg, BusMsg}
use storm_node.Bus.Responder.{send_ctl}
use storm_node.World.{Platform, Sys}
use storm_node.Stormd.Runtime.{Runtime}
use storm_node.Stormd.Pool.{is_free, is_busy}
use storm_node.Stormd.Frame.{end_transfer_lem, rt-after_pick}
use storm_node.Stormd.Scheduler.{
  push_free, enqueue, accept_daemon, assign_front, pick_task, pick_or_start, submit, task_container,
}
use storm_node.Stormd.Handlers.{
  drop_transfer, release, end_transfer, handle_hello, handle_finished, handle_ctl, handle,
}
use storm_node.Stormd.Rule.{Ending, register, note_app, handle_rule}

-- Whether a daemon is free or busy.
abbrev pub is_known : DaemonId → Runtime → Bool
is_known d rt = is_free d rt || is_busy d rt

-- Whether a message is a transfer daemon's word about itself.
abbrev pub is_word_of : DaemonId → ServiceBus → BusMsg → ServiceId → Bool
is_word_of d ServiceBus.ctl (BusMsg.ctl CtlMsg.hello) (ServiceId.transfer e) = d == e
is_word_of d ServiceBus.ctl (BusMsg.ctl CtlMsg.processing_complete) (ServiceId.transfer e) = d == e
is_word_of d ServiceBus.ctl (BusMsg.ctl CtlMsg.processing_failed) (ServiceId.transfer e) = d == e
is_word_of d _ _ _ = false

module _ (p : Platform) where
  known-assign_front :
      (queue : List CtlMsg) (free : List DaemonId) (s : Sys Runtime) (d : DaemonId)
      → s.rt.transferd_free ≡ free
      → is_known d (assign_front p queue free s).1.rt ≡ is_known d s.rt
  unfolding assign_front send_ctl task_container
  known-assign_front [] free s d h = refl
  known-assign_front (msg ∷ rest) [] s d h = refl
  known-assign_front (msg ∷ rest) (x ∷ fs) s d h =
      ground (arith, h, Sets.contains-insert d x s.rt.transferd_busy)

  known-pick_task :
      (s : Sys Runtime) (d : DaemonId) → is_known d (pick_task p s).1.rt ≡ is_known d s.rt
  unfolding pick_task
  known-pick_task s d = known-assign_front s.rt.ctl_queue s.rt.transferd_free s d refl

  known-submit :
      (task : CtlMsg) (client_id : Option ClientId) (s : Sys Runtime) (d : DaemonId)
      → is_known d (submit p task client_id s).1.rt ≡ is_known d s.rt
  unfolding submit pick_or_start
  known-submit task client_id s d =
      grind (arith, known-pick_task (record s { rt = enqueue task s.rt }) d, rt-after_pick)

  known-hello :
      (e : DaemonId) (s : Sys Runtime) (d : DaemonId)
      → is_known d (handle_hello p (ServiceId.transfer e) s).1.rt ≡ (is_known d s.rt || d == e)
  unfolding handle_hello accept_daemon
  known-hello e s d = ground (
    arith,
    known-pick_task (record s { rt = push_free e s.rt }) d,
    Sets.contains-append d s.rt.transferd_free (e ∷ []),
  )

  pub known-drop_transfer :
      (o : Option ContainerId) (rt : Runtime) (d : DaemonId)
      → is_known d (drop_transfer o rt) ≡ is_known d rt
  known-drop_transfer none rt d = refl
  known-drop_transfer (some c) rt d = refl

  pub known-release :
      (e : DaemonId) (rt : Runtime) (d : DaemonId)
      → is_known d (release e rt) ≡ (is_known d rt || d == e)
  known-release e rt d = ground (
    arith,
    Sets.contains-append d rt.transferd_free (e ∷ []),
    Sets.contains-remove d e rt.transferd_busy,
  )

  known-finished :
      (e : DaemonId) (s : Sys Runtime) (d : DaemonId)
      → is_known d (handle_finished p (ServiceId.transfer e) s).1.rt ≡ (is_known d s.rt || d == e)
  unfolding handle_finished
  known-finished e s d =
      let o = Maps.find_key e s.rt.container_transfers in
      let s' = (end_transfer p o s).1 in
      ground (
        arith,
        end_transfer_lem p o s,
        known-drop_transfer o s.rt d,
        known-release e s'.rt d,
        known-pick_task (record s' { rt = release e s'.rt }) d,
      )

  -- What the rule shows: no daemon is forgotten, and none appears without a word of its own.
  abbrev Keeps : ServiceBus → BusMsg → ServiceId → Sys Runtime → Ending → Type 0
  Keeps bus msg source s r =
      (d : DaemonId)
      → (is_known d s.rt ≡ true → is_known d r.1.rt ≡ true)
        × (is_known d r.1.rt ≡ true → (is_known d s.rt || is_word_of d bus msg source) ≡ true)

  same-known :
      (word : Bool) (d : DaemonId) (rt rt' : Runtime)
      → is_known d rt' ≡ is_known d rt
      → (is_known d rt ≡ true → is_known d rt' ≡ true)
        × (is_known d rt' ≡ true → (is_known d rt || word) ≡ true)
  same-known word d rt rt' e = ground (arith, e)

  more-known :
      (word : Bool) (d : DaemonId) (rt rt' : Runtime)
      → is_known d rt' ≡ (is_known d rt || word)
      → (is_known d rt ≡ true → is_known d rt' ≡ true)
        × (is_known d rt' ≡ true → (is_known d rt || word) ≡ true)
  more-known word d rt rt' e = ground (arith, e)

  handle-Keeps :
      (bus : ServiceBus) (msg : BusMsg) (source : ServiceId) (s : Sys Runtime)
      → Keeps bus msg source s (handle p bus msg source s)
  handle-Keeps =
      handle_rule p Keeps
        (λ bus msg source s r a q d.
          same-known (is_word_of d bus msg source) d s.rt r.1.rt (rw q.0 refl))
        (λ bus msg source task client_id s a d.
          same-known (is_word_of d bus msg source) d s.rt (submit p task client_id s).1.rt
            (known-submit task client_id s d))
        (λ app s d. same-known false d s.rt (register app s.rt) refl)
        (λ msg source task c app s a d.
          let s' : Sys Runtime = record s { rt = note_app c app s.rt } in
          same-known (is_word_of d ServiceBus.storm msg source) d s.rt (submit p task none s').1.rt
            (known-submit task none s' d))
        (λ e s d.
          more-known (d == e) d s.rt (handle_hello p (ServiceId.transfer e) s).1.rt
            (known-hello e s d))
        (λ e s d.
          more-known (d == e) d s.rt (handle_finished p (ServiceId.transfer e) s).1.rt
            (known-finished e s d))
        (λ e s d.
          more-known (d == e) d s.rt (handle_finished p (ServiceId.transfer e) s).1.rt
            (known-finished e s d))

  word-known :
      (d : DaemonId) (bus : ServiceBus) (msg : BusMsg) (source : ServiceId) (s : Sys Runtime)
      → is_word_of d bus msg source ≡ true
      → is_known d (handle p bus msg source s).1.rt ≡ true
  unfolding handle handle_ctl
  word-known d ServiceBus.ctl (BusMsg.ctl CtlMsg.hello) (ServiceId.transfer e) s w =
      ground (arith, w, known-hello e s d)
  word-known d ServiceBus.ctl (BusMsg.ctl CtlMsg.processing_complete) (ServiceId.transfer e) s w =
      ground (arith, w, known-finished e s d)
  word-known d ServiceBus.ctl (BusMsg.ctl CtlMsg.processing_failed) (ServiceId.transfer e) s w =
      ground (arith, w, known-finished e s d)
  word-known d bus msg source s w = cc

  -- After a message stormd knows, as free or busy, just the transfer daemons that it knew before, and
  -- the one whose word of itself the message is (its hello, or the end of a task), whatever the
  -- platform answers.
  pub handle-known :
      (bus : ServiceBus) (msg : BusMsg) (source : ServiceId) (s : Sys Runtime) (d : DaemonId)
      → is_known d (handle p bus msg source s).1.rt
        ≡ (is_known d s.rt || is_word_of d bus msg source)
  handle-known bus msg source s d =
      ground (arith, handle-Keeps bus msg source s d, word-known d bus msg source s)
