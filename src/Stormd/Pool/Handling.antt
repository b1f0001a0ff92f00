-- ===== src/Stormd/Pool/Handling.antt =====
-- The pool of transfer daemons under the handlers of stormd, and the protocol that the daemons are to
-- keep to.
use storm_node.Base.{◌≡◌, refl, nat_eq, true, false, Option, none, List, [], ◌∷◌, arith}
use storm_node.Base.Maps
use storm_node.Wire.{ClientId, DaemonId}
use storm_node.Rpc.Ids.{ServiceId}
use storm_node.Bus.{ServiceBus, CtlMsg, BusMsg}
use storm_node.Bus.Responder.{send_ctl}
use storm_node.World.{Platform, Sys}
use storm_node.Stormd.Runtime.{Runtime}
use storm_node.Stormd.Scheduler.{
  push_free, task_container, accept_daemon, assign_front, pick_task, pick_or_start, submit,
}
use storm_node.Stormd.Rule.{Ending, handle_rule}
use storm_node.Stormd.Frame.{rt-after_pick, end_transfer_lem}
use storm_node.Stormd.Handlers.{release, end_transfer, handle_hello, handle_finished, handle}
use storm_node.Stormd.Pool.{
  IsPool, is_free, is_busy, push_free-IsPool, make_busy-IsPool, queue-IsPool, finish-IsPool,
}

-- What the transfer daemons are to send: a hello once, and the end of a task while they have one.
abbrev pub Follows : BusMsg → ServiceId → Runtime → Type 0
Follows (BusMsg.ctl CtlMsg.hello) (ServiceId.transfer d) rt =
    (is_free d rt ≡ false) × (is_busy d rt ≡ false)
Follows (BusMsg.ctl CtlMsg.processing_complete) (ServiceId.transfer d) rt = is_busy d rt ≡ true
Follows (BusMsg.ctl CtlMsg.processing_failed) (ServiceId.transfer d) rt = is_busy d rt ≡ true
Follows _ _ rt = Unit

-- Only three fields make the pool.
same-IsPool :
    (rt rt' : Runtime)
    → IsPool rt
    → rt'.transferd_free ≡ rt.transferd_free
    → rt'.transferd_busy ≡ rt.transferd_busy
    → rt'.container_transfers ≡ rt.container_transfers
    → IsPool rt'
same-IsPool rt rt' h f b t = record {
  free_distinct = rw f h.free_distinct;
  apart = rw (f, b) h.apart;
  owned = rw (t, b) h.owned;
  single = rw t h.single;
}

module _ (p : Platform) where
  assign_front-IsPool :
      (queue : List CtlMsg) (free : List DaemonId) (s : Sys Runtime)
      → s.rt.transferd_free ≡ free
      → IsPool s.rt
      → IsPool (assign_front p queue free s).1.rt
  unfolding assign_front send_ctl
  assign_front-IsPool [] free s e h = h
  assign_front-IsPool (msg ∷ rest) [] s e h = h
  assign_front-IsPool (msg ∷ rest) (d ∷ fs) s e h = ground (
    arith,
    queue-IsPool rest s.rt h,
    make_busy-IsPool (task_container msg) d fs (record s.rt { ctl_queue = rest }) e,
  )

  pub pick_task-IsPool : (s : Sys Runtime) → IsPool s.rt → IsPool (pick_task p s).1.rt
  unfolding pick_task
  pick_task-IsPool s h = assign_front-IsPool s.rt.ctl_queue s.rt.transferd_free s refl h

  pick_or_start-IsPool :
      (client_id : Option ClientId) (s : Sys Runtime)
      → IsPool s.rt
      → IsPool (pick_or_start p client_id s).1.rt
  unfolding pick_or_start
  pick_or_start-IsPool client_id s h = grind (arith, pick_task-IsPool s h, rt-after_pick p)

  submit-IsPool :
      (msg : CtlMsg) (client_id : Option ClientId) (s : Sys Runtime)
      → IsPool s.rt
      → IsPool (submit p msg client_id s).1.rt
  unfolding submit
  submit-IsPool msg client_id s h = pick_or_start-IsPool client_id _ (queue-IsPool _ s.rt h)

  handle_hello-IsPool :
      (d : DaemonId) (s : Sys Runtime)
      → is_free d s.rt ≡ false
      → is_busy d s.rt ≡ false
      → IsPool s.rt
      → IsPool (handle_hello p (ServiceId.transfer d) s).1.rt
  unfolding handle_hello accept_daemon
  handle_hello-IsPool d s nf nb h = ground (
    arith,
    pick_task-IsPool (record s { rt = push_free d s.rt }) (push_free-IsPool d s.rt nf nb h),
  )

  handle_finished-IsPool :
      (d : DaemonId) (s : Sys Runtime)
      → is_busy d s.rt ≡ true
      → IsPool s.rt
      → IsPool (handle_finished p (ServiceId.transfer d) s).1.rt
  unfolding handle_finished
  handle_finished-IsPool d s busy h =
      let o = Maps.find_key d s.rt.container_transfers in
      ground (
        arith,
        end_transfer_lem p o s,
        pick_task-IsPool
            (record (end_transfer p o s).1 { rt = release d (end_transfer p o s).1.rt })
            (rw (end_transfer_lem p o s).1 (finish-IsPool o d s.rt refl busy h)),
      )

  -- The relation that the rule for `handle` is used at.
  abbrev Keeps : ServiceBus → BusMsg → ServiceId → Sys Runtime → Ending → Type 0
  Keeps bus msg source s r = Follows msg source s.rt → IsPool s.rt → IsPool r.1.rt

  -- A handled message of any kind, from any source, keeps the pool, also where a call of the
  -- platform fails, if what transfer daemons send is in order: a hello comes from a daemon that is
  -- not yet known, and the end of a task from a busy one.
  pub handle-IsPool :
      (bus : ServiceBus) (msg : BusMsg) (source : ServiceId) (s : Sys Runtime)
      → Follows msg source s.rt
      → IsPool s.rt
      → IsPool (handle p bus msg source s).1.rt
  handle-IsPool =
      handle_rule p Keeps (λ bus msg source s r a e f h. rw e.0 h)
        (λ bus msg source task client_id s a f h. submit-IsPool task client_id s h)
        (λ app s f h. same-IsPool _ _ h refl refl refl)
        (λ msg source task c app s a f h.
          submit-IsPool task none _ (same-IsPool _ _ h refl refl refl))
        (λ d s f h. handle_hello-IsPool d s f.0 f.1 h) (λ d s f h. handle_finished-IsPool d s f h)
        (λ d s f h. handle_finished-IsPool d s f h)
