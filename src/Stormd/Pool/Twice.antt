-- ===== src/Stormd/Pool/Twice.antt =====
-- A transfer daemon that reports the end of one task twice.
use storm_node.Base.{
  ◌≡◌, refl, true, Option, none, some, List, [], ◌∷◌, ◌++◌, arith, nat_eq, nat_beq_iff,
}
use storm_node.Base.Sets
use storm_node.Base.Sets.{Distinct}
use storm_node.Base.Maps
use storm_node.Wire.{DaemonId, ContainerId}
use storm_node.Rpc.Ids.{ServiceId}
use storm_node.Bus.{ServiceBus, CtlMsg, BusMsg}
use storm_node.World.{Platform, Sys}
use storm_node.Stormd.Runtime.{Runtime}
use storm_node.Stormd.Scheduler.{pick_task, assign_front}
use storm_node.Stormd.Handlers.{drop_transfer, handle_finished, handle_ctl, handle}
use storm_node.Stormd.Frame.{end_transfer_lem}
use storm_node.Stormd.Pool.{IsPool, is_free}

module _ (p : Platform) where
  free-drop_transfer :
      (o : Option ContainerId) (rt : Runtime)
      → ((drop_transfer o rt).transferd_free ≡ rt.transferd_free)
        × ((drop_transfer o rt).ctl_queue ≡ rt.ctl_queue)
  free-drop_transfer none rt = (refl, refl)
  free-drop_transfer (some c) rt = (refl, refl)

  pub free-finished :
      (d : DaemonId) (s : Sys Runtime)
      → s.rt.ctl_queue ≡ []
      → (handle_finished p (ServiceId.transfer d) s).1.rt.transferd_free
        ≡ s.rt.transferd_free ++ d ∷ []
  unfolding handle_finished pick_task assign_front
  free-finished d s e =
      let o = Maps.find_key d s.rt.container_transfers in
      ground (arith, end_transfer_lem p o s, free-drop_transfer o s.rt, e)

  pub queue-finished :
      (d : DaemonId) (s : Sys Runtime)
      → s.rt.ctl_queue ≡ []
      → (handle_finished p (ServiceId.transfer d) s).1.rt.ctl_queue ≡ []
  unfolding handle_finished pick_task assign_front
  queue-finished d s e =
      let o = Maps.find_key d s.rt.container_transfers in
      ground (arith, end_transfer_lem p o s, free-drop_transfer o s.rt, e)

  not-Distinct :
      (d : DaemonId) (xs : List DaemonId) → Sets.contains d xs ≡ true → ¬ Distinct (xs ++ d ∷ [])
  not-Distinct d [] h w = cc
  not-Distinct d (x ∷ xs) h w = ground (
    arith,
    not-Distinct d xs,
    Sets.contains-append x xs (d ∷ []),
    nat_beq_iff x d,
    nat_beq_iff d x,
  )

  -- A report of the end of a task by a daemon that is free already puts it into the queue of free
  -- daemons a second time, if no task waits, so that the pool is no longer in order.
  pub handle-breaks :
      (d : DaemonId) (s : Sys Runtime)
      → s.rt.ctl_queue ≡ []
      → is_free d s.rt ≡ true
      → let s' =
          (handle p ServiceBus.ctl
            (BusMsg.ctl CtlMsg.processing_complete)
            (ServiceId.transfer d)
            s).1 in
        (s'.rt.transferd_free ≡ s.rt.transferd_free ++ d ∷ []) × ¬ IsPool s'.rt
  unfolding handle handle_ctl
  handle-breaks d s e f = (
    free-finished d s e,
    λ pool. not-Distinct d s.rt.transferd_free f (rw (← free-finished d s e) pool.free_distinct),
  )
