-- ===== src/Stormd/Met.antt =====
-- To which transfer daemons stormd sends: those that it knows.
use storm_node.Base.{
  ◌≡◌, refl, Bool, true, ◌||◌, ◌==◌, Option, none, some, List, [], ◌∷◌, arith, nat_eq,
}
use storm_node.Base.Sets
use storm_node.Base.Maps
use storm_node.Base.Maps.{HashMap}
use storm_node.Wire.{ClientId, ContainerId, DaemonId}
use storm_node.Rpc.Ids.{ServiceId}
use storm_node.Bus.{ServiceBus, CtlMsg, BusMsg}
use storm_node.Bus.Responder.{send_ctl, send_rpc, send_ext}
use storm_node.World.{Platform, Sys, said}
use storm_node.World.Effects.{launch}
use storm_node.Stormd.Runtime.{Runtime, launch_daemon, start_chat, start_downpour, on_ready}
use storm_node.Stormd.Tasks.{is_for, is_met}
use storm_node.Stormd.Known.{is_known, is_word_of, known-drop_transfer, known-release}
use storm_node.Stormd.Frame.{end_transfer_lem, rt-after_pick}
use storm_node.Stormd.Scheduler.{
  push_free, enqueue, accept_daemon, assign_front, pick_task, pick_or_start, submit, after_pick,
  start_transferd, tell_client, task_container, note_transfer,
}
use storm_node.Stormd.Handlers.{
  drop_transfer, release, end_transfer, notify_app, handle_hello, handle_finished, handle,
}
use storm_node.Stormd.Rule.{Ending, note_app, handle_rule}

abbrev Transfers : Type 0
Transfers = HashMap ContainerId DaemonId

values-remove :
    (c : ContainerId) (d : DaemonId) (m : Transfers)
    → Sets.contains d (Maps.values (Maps.remove c m)) ≡ true
    → Sets.contains d (Maps.values m) ≡ true
values-remove c d m h = ground (arith, h, Maps.contains-values-remove c d m)

values-note_transfer :
    (o : Option ContainerId) (e d : DaemonId) (rt : Runtime)
    → Sets.contains d (Maps.values (note_transfer o e rt).container_transfers) ≡ true
    → (Sets.contains d (Maps.values rt.container_transfers) || d == e) ≡ true
values-note_transfer none e d rt h = ground (arith, h)
values-note_transfer (some c) e d rt h = ground (arith, h, values-remove c d rt.container_transfers)

values-drop_transfer :
    (o : Option ContainerId) (d : DaemonId) (rt : Runtime)
    → Sets.contains d (Maps.values (drop_transfer o rt).container_transfers) ≡ true
    → Sets.contains d (Maps.values rt.container_transfers) ≡ true
values-drop_transfer none d rt h = h
values-drop_transfer (some c) d rt h = values-remove c d rt.container_transfers h

module _ (p : Platform) where
  -- A daemon that stormd has met then it had met before, or knew it.
  abbrev Meets : DaemonId → Sys Runtime → Sys Runtime → Type 0
  Meets d s s' = is_met d s' ≡ true → (is_met d s || is_known d s.rt) ≡ true

  assign_front-Meets :
      (queue : List CtlMsg) (free : List DaemonId) (s : Sys Runtime) (d : DaemonId)
      → s.rt.transferd_free ≡ free
      → Meets d s (assign_front p queue free s).1
  unfolding assign_front send_ctl
  assign_front-Meets [] free s d h m = ground (arith, m)
  assign_front-Meets (msg ∷ rest) [] s d h m = ground (arith, m)
  assign_front-Meets (msg ∷ rest) (x ∷ fs) s d h m =
      let noted =
        values-note_transfer (task_container msg) x d (record s.rt { ctl_queue = rest }) in
      ground (arith, h, m, noted)

  pick_task-Meets : (s : Sys Runtime) (d : DaemonId) → Meets d s (pick_task p s).1
  unfolding pick_task
  pick_task-Meets s d = assign_front-Meets s.rt.ctl_queue s.rt.transferd_free s d refl

  said-after_pick :
      (d : DaemonId) (client_id : Option ClientId) (picked : Bool) (s : Sys Runtime)
      → said (is_for d) (after_pick p client_id picked s).1.log ≡ said (is_for d) s.log
  unfolding after_pick tell_client start_transferd launch_daemon launch send_rpc
  said-after_pick d client_id picked s = ground arith

  said-end_transfer :
      (d : DaemonId) (o : Option ContainerId) (s : Sys Runtime)
      → said (is_for d) (end_transfer p o s).1.log ≡ said (is_for d) s.log
  unfolding end_transfer notify_app send_ext
  said-end_transfer d none s = refl
  said-end_transfer d (some c) s = ground arith

  submit-Meets :
      (task : CtlMsg) (client_id : Option ClientId) (s : Sys Runtime) (d : DaemonId)
      → Meets d s (submit p task client_id s).1
  unfolding submit pick_or_start
  submit-Meets task client_id s d = grind (
    arith,
    pick_task-Meets (record s { rt = enqueue task s.rt }) d,
    said-after_pick d,
    rt-after_pick p,
  )

  hello-Meets :
      (e : DaemonId) (s : Sys Runtime) (d : DaemonId)
      → is_met d (handle_hello p (ServiceId.transfer e) s).1 ≡ true
      → (is_met d s || is_known d s.rt || d == e) ≡ true
  unfolding handle_hello accept_daemon
  hello-Meets e s d m = ground (
    arith,
    m,
    pick_task-Meets (record s { rt = push_free e s.rt }) d,
    Sets.contains-append d s.rt.transferd_free (e ∷ []),
  )

  finished-Meets :
      (e : DaemonId) (s : Sys Runtime) (d : DaemonId)
      → is_met d (handle_finished p (ServiceId.transfer e) s).1 ≡ true
      → (is_met d s || is_known d s.rt || d == e) ≡ true
  unfolding handle_finished
  finished-Meets e s d m =
      let o = Maps.find_key e s.rt.container_transfers in
      let s' = (end_transfer p o s).1 in
      ground (
        arith,
        m,
        end_transfer_lem p o s,
        said-end_transfer d o s,
        values-drop_transfer o d s.rt,
        known-drop_transfer p o s.rt d,
        known-release p e s'.rt d,
        pick_task-Meets (record s' { rt = release e s'.rt }) d,
      )

  abbrev Keeps : ServiceBus → BusMsg → ServiceId → Sys Runtime → Ending → Type 0
  Keeps bus msg source s r =
      (d : DaemonId)
      → is_met d r.1 ≡ true
      → (is_met d s || is_known d s.rt || is_word_of d bus msg source) ≡ true

  -- A transfer daemon that has a transfer of stormd or was sent a packet after a message had so
  -- before, or stormd knew it, or the message is its word.
  pub handle-Meets :
      (bus : ServiceBus) (msg : BusMsg) (source : ServiceId) (s : Sys Runtime)
      → Keeps bus msg source s (handle p bus msg source s)
  handle-Meets =
      handle_rule p Keeps (λ bus msg source s r a q d m. ground (arith, q.3 d m))
        (λ bus msg source task client_id s a d m. ground (arith, submit-Meets task client_id s d m))
        (λ app s d m. ground (arith, m))
        (λ msg source task c app s a d m.
          ground (arith, submit-Meets task none (record s { rt = note_app c app s.rt }) d m))
        hello-Meets finished-Meets finished-Meets

  pub on_ready-Meets : (s : Sys Runtime) (d : DaemonId) → is_met d (on_ready p s).1 ≡ is_met d s
  unfolding on_ready start_chat start_downpour launch_daemon launch
  on_ready-Meets s d = ground arith
