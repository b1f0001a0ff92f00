-- ===== src/Stormd/Apps.antt =====
-- The apps that stormd knows.
use storm_node.Base.{
  ◌≡◌, refl, ◌⊎◌, inl, Bool, true, Option, none, some, List, [], ◌∷◌, arith, nat_eq,
}
use storm_node.Base.Sets
use storm_node.Base.Maps
use storm_node.Wire.{ClientId, DaemonId, ContainerId, StormApp, app_eq, app_beq_iff}
use storm_node.Rpc.Ids.{ServiceId}
use storm_node.Ext.{ExtMsg}
use storm_node.Bus.{ServiceBus, CtlMsg, BusMsg}
use storm_node.Bus.Responder.{send_ctl}
use storm_node.World.{Platform, Sys}
use storm_node.Stormd.Runtime.{Runtime}
use storm_node.Stormd.Scheduler.{
  enqueue, push_free, accept_daemon, assign_front, pick_task, pick_or_start, submit, task_container,
}
use storm_node.Stormd.Frame.{rt-after_pick, end_transfer_lem}
use storm_node.Stormd.Handlers.{
  drop_transfer, release, end_transfer, handle_hello, handle_finished, handle,
}
use storm_node.Stormd.Rule.{Ending, note_app, handle_rule}

abbrev pub is_registered : StormApp → Runtime → Bool
is_registered app rt = Sets.contains app rt.registered_apps

module _ (p : Platform) where
  apps-assign_front :
      (queue : List CtlMsg) (free : List DaemonId) (s : Sys Runtime)
      → (assign_front p queue free s).1.rt.registered_apps ≡ s.rt.registered_apps
  unfolding assign_front send_ctl task_container
  apps-assign_front [] free s = refl
  apps-assign_front (msg ∷ rest) [] s = refl
  apps-assign_front (msg ∷ rest) (d ∷ fs) s = ground arith

  apps-pick_task : (s : Sys Runtime) → (pick_task p s).1.rt.registered_apps ≡ s.rt.registered_apps
  unfolding pick_task
  apps-pick_task s = apps-assign_front s.rt.ctl_queue s.rt.transferd_free s

  apps-submit :
      (task : CtlMsg) (client_id : Option ClientId) (s : Sys Runtime)
      → (submit p task client_id s).1.rt.registered_apps ≡ s.rt.registered_apps
  unfolding submit pick_or_start
  apps-submit task client_id s =
      grind (arith, apps-pick_task (record s { rt = enqueue task s.rt }), rt-after_pick)

  apps-hello :
      (d : DaemonId) (s : Sys Runtime)
      → (handle_hello p (ServiceId.transfer d) s).1.rt.registered_apps ≡ s.rt.registered_apps
  unfolding handle_hello accept_daemon
  apps-hello d s = ground (arith, apps-pick_task (record s { rt = push_free d s.rt }))

  apps-drop_transfer :
      (o : Option ContainerId) (rt : Runtime)
      → (drop_transfer o rt).registered_apps ≡ rt.registered_apps
  apps-drop_transfer none rt = refl
  apps-drop_transfer (some c) rt = refl

  apps-finished :
      (d : DaemonId) (s : Sys Runtime)
      → (handle_finished p (ServiceId.transfer d) s).1.rt.registered_apps ≡ s.rt.registered_apps
  unfolding handle_finished
  apps-finished d s =
      let o = Maps.find_key d s.rt.container_transfers in
      let s' = (end_transfer p o s).1 in
      ground (
        arith,
        end_transfer_lem p o s,
        apps-drop_transfer o s.rt,
        apps-pick_task (record s' { rt = release d s'.rt }),
      )

  abbrev IsOwnWord : StormApp → BusMsg → ServiceId → Type 0
  IsOwnWord app msg source =
      (msg ≡ BusMsg.storm (ExtMsg.register_app app)) × (source ≡ ServiceId.storm_app app)

  abbrev Keeps : ServiceBus → BusMsg → ServiceId → Sys Runtime → Ending → Type 0
  Keeps bus msg source s r =
      (app : StormApp)
      → is_registered app r.1.rt ≡ true
      → (is_registered app s.rt ≡ true) ⊎ IsOwnWord app msg source

  registers :
      (app : StormApp) (s : Sys Runtime) (a : StormApp)
      → Sets.contains a (Sets.insert app s.rt.registered_apps) ≡ true
      → (is_registered a s.rt ≡ true)
        ⊎ IsOwnWord a (BusMsg.storm (ExtMsg.register_app app)) (ServiceId.storm_app app)
  registers app s a h =
      ground (arith, Sets.contains-insert a app s.rt.registered_apps, app_beq_iff a app)

  -- An app is known after a message only if it was known before, or the message is the app's own
  -- registration of itself.
  pub handle-registered :
      (bus : ServiceBus) (msg : BusMsg) (source : ServiceId) (s : Sys Runtime) (app : StormApp)
      → is_registered app (handle p bus msg source s).1.rt ≡ true
      → (is_registered app s.rt ≡ true)
        ⊎ ((msg ≡ BusMsg.storm (ExtMsg.register_app app)) × (source ≡ ServiceId.storm_app app))
  handle-registered =
      handle_rule p Keeps (λ bus msg source s r n e app h. inl (rw (← e.0) h))
        (λ bus msg source task client_id s n app h. inl (rw (← apps-submit task client_id s) h))
        registers
        (λ msg source task c a s n app h.
          inl (rw (← apps-submit task none (record s { rt = note_app c a s.rt })) h))
        (λ d s app h. inl (rw (← apps-hello d s) h)) (λ d s app h. inl (rw (← apps-finished d s) h))
        (λ d s app h. inl (rw (← apps-finished d s) h))
