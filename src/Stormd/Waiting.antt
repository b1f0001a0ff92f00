-- ===== src/Stormd/Waiting.antt =====
-- Tasks that wait in the queue of stormd, and daemons that are free at the same time.
use storm_node.Base.{
  ◌≡◌, refl, ◌⊎◌, inl, inr, Bool, Option, none, some, List, [], ◌∷◌, ◌++◌, arith, nat_eq,
}
use storm_node.Base.Action.{value}
use storm_node.Base.Maps
use storm_node.Wire.{ClientId, DaemonId, ContainerId}
use storm_node.Rpc.Ids.{ServiceId}
use storm_node.Bus.{ServiceBus, CtlMsg, BusMsg}
use storm_node.Bus.Responder.{send_ctl}
use storm_node.World.{Platform, Sys}
use storm_node.Stormd.Runtime.{Runtime}
use storm_node.Stormd.Scheduler.{
  tail, enqueue, push_free, accept_daemon, assign_front, pick_task, pick_or_start, submit,
  task_container,
}
use storm_node.Stormd.Rule.{Ending, handle_rule}
use storm_node.Stormd.Frame.{rt-after_pick, end_transfer_lem}
use storm_node.Stormd.Handlers.{
  drop_transfer, release, end_transfer, handle_hello, handle_finished, handle,
}

-- The queue is empty, or no daemon is free.
abbrev pub IsServed : Runtime → Type 0
IsServed rt = (rt.ctl_queue ≡ []) ⊎ (rt.transferd_free ≡ [])

-- One task or one daemon has come to a served state.
abbrev IsNearlyServed : List CtlMsg → List DaemonId → Type 0
IsNearlyServed queue free = (tail queue ≡ []) ⊎ (tail free ≡ [])

served_queue :
    (msg : CtlMsg) (rt : Runtime)
    → IsServed rt
    → IsNearlyServed (rt.ctl_queue ++ msg ∷ []) rt.transferd_free
served_queue msg rt (inl e) = rw e (inl refl)
served_queue msg rt (inr e) = rw e (inr refl)

served_free :
    (d : DaemonId) (rt : Runtime)
    → IsServed rt
    → IsNearlyServed rt.ctl_queue (rt.transferd_free ++ d ∷ [])
served_free d rt (inl e) = rw e (inl refl)
served_free d rt (inr e) = rw e (inr refl)

module _ (p : Platform) where
  assign_front-IsServed :
      (queue : List CtlMsg) (free : List DaemonId) (s : Sys Runtime) (b : Bool)
      → s.rt.ctl_queue ≡ queue
      → s.rt.transferd_free ≡ free
      → IsNearlyServed queue free
      → (assign_front p queue free s).0 ≡ value b
      → IsServed (assign_front p queue free s).1.rt
  unfolding assign_front send_ctl task_container
  assign_front-IsServed [] free s b e f n r = inl e
  assign_front-IsServed (msg ∷ rest) [] s b e f n r = inr f
  assign_front-IsServed (msg ∷ rest) (d ∷ fs) s b e f n r = ground arith

  pick_task-IsServed :
      (s : Sys Runtime) (b : Bool)
      → IsNearlyServed s.rt.ctl_queue s.rt.transferd_free
      → (pick_task p s).0 ≡ value b
      → IsServed (pick_task p s).1.rt
  unfolding pick_task
  pick_task-IsServed s b n r = assign_front-IsServed _ _ s b refl refl n r

  submit-IsServed :
      (task : CtlMsg) (client_id : Option ClientId) (s : Sys Runtime)
      → (submit p task client_id s).0 ≡ value tt
      → IsServed s.rt
      → IsServed (submit p task client_id s).1.rt
  unfolding submit pick_or_start
  submit-IsServed task client_id s r h =
      let s' = record s { rt = enqueue task s.rt } in
      grind (arith, λ (b : Bool). pick_task-IsServed s' b (served_queue task s.rt h), rt-after_pick)

  hello-IsServed :
      (d : DaemonId) (s : Sys Runtime)
      → (handle_hello p (ServiceId.transfer d) s).0 ≡ value tt
      → IsServed s.rt
      → IsServed (handle_hello p (ServiceId.transfer d) s).1.rt
  unfolding handle_hello accept_daemon
  hello-IsServed d s r h =
      let s' = record s { rt = push_free d s.rt } in
      grind (arith, λ (b : Bool). pick_task-IsServed s' b (served_free d s.rt h))

  drop_transfer-IsServed :
      (o : Option ContainerId) (rt : Runtime) → IsServed rt → IsServed (drop_transfer o rt)
  drop_transfer-IsServed none rt h = h
  drop_transfer-IsServed (some c) rt h = h

  finished-IsServed :
      (d : DaemonId) (s : Sys Runtime)
      → (handle_finished p (ServiceId.transfer d) s).0 ≡ value tt
      → IsServed s.rt
      → IsServed (handle_finished p (ServiceId.transfer d) s).1.rt
  unfolding handle_finished
  finished-IsServed d s r h =
      let o = Maps.find_key d s.rt.container_transfers in
      let s' = (end_transfer p o s).1 in
      let n =
        served_free d s'.rt (rw (end_transfer_lem p o s).1 (drop_transfer-IsServed o s.rt h)) in
      grind (
        arith,
        end_transfer_lem p o s,
        λ (b : Bool). pick_task-IsServed (record s' { rt = release d s'.rt }) b n,
      )

  abbrev Keeps : ServiceBus → BusMsg → ServiceId → Sys Runtime → Ending → Type 0
  Keeps bus msg source s r = r.0 ≡ value tt → IsServed s.rt → IsServed r.1.rt

  -- A message that is handled without an error leaves no task waiting while a daemon is free, if
  -- none was before.
  pub handle-IsServed :
      (bus : ServiceBus) (msg : BusMsg) (source : ServiceId) (s : Sys Runtime)
      → (handle p bus msg source s).0 ≡ value tt
      → IsServed s.rt
      → IsServed (handle p bus msg source s).1.rt
  handle-IsServed =
      handle_rule p Keeps (λ bus msg source s r a e v h. rw e.0 h)
        (λ bus msg source task client_id s a v h. submit-IsServed task client_id s v h)
        (λ app s v h. h) (λ msg source task c app s a v h. submit-IsServed task none _ v h)
        hello-IsServed finished-IsServed finished-IsServed
