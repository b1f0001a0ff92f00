-- ===== src/Stormd/Iteration.antt =====
-- That the order in which stormd's maps and sets are iterated makes no difference: two states with the
-- same entries are handled alike.
pub mod Steps
pub mod Handling
pub mod Runs
use storm_node.Base.{
  ◌≡◌, refl, sym, ap, ◌∙◌, Bool, Bool-cases, inl, inr, true, false, Option, none, some, List, [],
  ◌∷◌, ◌++◌, arith, if◌then◌else◌, ◌==◌, nat_eq,
}
use storm_node.Base.Action.{
  Result, ok, err, value, Result-cases, Action, pure, throw, lift, call, ◌>>=◌, ◌>>◌, conv, ignore,
}
use storm_node.Base.Action.Agree.{
  Agree, Agree-pure, Agree-throw, Agree-call, Agree-bind, Agree-conv, Agree-ignore,
}
use storm_node.Base.Sets
use storm_node.Base.Sets.{Distinct}
use storm_node.Base.Maps
use storm_node.Base.Maps.Keys.{keys, Distinct-keys-remove, Distinct-keys-insert, find_key-same}
use storm_node.Wire.{NodeId, ClientId, ContainerId, DaemonId, StormApp, Messages, LnMsg, app_eq}
use storm_node.Rpc.Ids.{ServiceId}
use storm_node.Rpc.Failure.{EsbError}
use storm_node.Errors.{DaemonError}
use storm_node.Ext.{ExtMsg}
use storm_node.Bus.{Packet, ServiceBus, CtlMsg, BusMsg}
use storm_node.World.{Platform, Sys, Request}
use storm_node.World.Effects.{send_to, launch, update}
use storm_node.Stormd.Runtime.{Runtime}
use storm_node.Stormd.Scheduler.{tail, push_free, enqueue, note_transfer, make_busy}
use storm_node.Stormd.Handlers.{drop_transfer, release}

-- The maps and the set of busy daemons have the same entries, in any order; the queues are the same, and
-- so is the set of apps, which is sent as a list.
pub record IsLike (rt rt' : Runtime) : Type 0 where
  pub config : rt.config ≡ rt'.config
  pub apps : rt.registered_apps ≡ rt'.registered_apps
  pub free : rt.transferd_free ≡ rt'.transferd_free
  pub queue : rt.ctl_queue ≡ rt'.ctl_queue
  pub busy : (d : DaemonId) → Sets.contains d rt.transferd_busy ≡ Sets.contains d rt'.transferd_busy
  pub told : (c : ContainerId) → Maps.get c rt.container_apps ≡ Maps.get c rt'.container_apps
  pub transfers :
      (c : ContainerId) → Maps.get c rt.container_transfers ≡ Maps.get c rt'.container_transfers
  pub keys_left : Distinct (keys rt.container_transfers)
  pub keys_right : Distinct (keys rt'.container_transfers)

abbrev pub Like : Sys Runtime → Sys Runtime → Type 0
Like s s' = IsLike s.rt s'.rt × (s.log ≡ s'.log)

-- What the assignments of the handlers keep.
abbrev pub Preserves : (Runtime → Runtime) → Type 0
Preserves f = (rt rt' : Runtime) → IsLike rt rt' → IsLike (f rt) (f rt')

pub push_free-Preserves : (d : DaemonId) → Preserves (push_free d)
push_free-Preserves d rt rt' h = ground (arith, h)

pub enqueue-Preserves : (msg : CtlMsg) → Preserves (enqueue msg)
enqueue-Preserves msg rt rt' h = ground (arith, h)

pub queue-Preserves : (queue : List CtlMsg) → Preserves (λ rt. record rt { ctl_queue = queue })
queue-Preserves queue rt rt' h = ground (arith, h)

pub register-Preserves :
    (app : StormApp)
    → Preserves (λ rt. record rt { registered_apps = Sets.insert app rt.registered_apps })
register-Preserves app rt rt' h = ground (arith, h)

pub note_app-Preserves :
    (c : ContainerId) (app : StormApp)
    → Preserves (λ rt. record rt { container_apps = Maps.insert c app rt.container_apps })
note_app-Preserves c app rt rt' h = ground (
  arith,
  h,
  λ (j : ContainerId). Maps.get-insert c j app rt.container_apps,
  λ (j : ContainerId). Maps.get-insert c j app rt'.container_apps,
)

pub note_transfer-Preserves :
    (o : Option ContainerId) (d : DaemonId) → Preserves (note_transfer o d)
note_transfer-Preserves none d rt rt' h = h
note_transfer-Preserves (some c) d rt rt' h = ground (
  arith,
  h,
  λ (j : ContainerId). Maps.get-insert c j d rt.container_transfers,
  λ (j : ContainerId). Maps.get-insert c j d rt'.container_transfers,
  Distinct-keys-insert c d rt.container_transfers,
  Distinct-keys-insert c d rt'.container_transfers,
)

pub make_busy-Preserves : (d : DaemonId) → Preserves (make_busy d)
make_busy-Preserves d rt rt' h = ground (
  arith,
  h,
  λ (e : DaemonId). Sets.contains-insert e d rt.transferd_busy,
  λ (e : DaemonId). Sets.contains-insert e d rt'.transferd_busy,
)

pub release-Preserves : (d : DaemonId) → Preserves (release d)
release-Preserves d rt rt' h = ground (
  arith,
  h,
  λ (e : DaemonId). Sets.contains-remove e d rt.transferd_busy,
  λ (e : DaemonId). Sets.contains-remove e d rt'.transferd_busy,
)

pub drop_transfer-Preserves : (o : Option ContainerId) → Preserves (drop_transfer o)
drop_transfer-Preserves none rt rt' h = h
drop_transfer-Preserves (some c) rt rt' h = ground (
  arith,
  h,
  λ (j : ContainerId). Maps.get-remove c j rt.container_transfers,
  λ (j : ContainerId). Maps.get-remove c j rt'.container_transfers,
  Distinct-keys-remove c rt.container_transfers,
  Distinct-keys-remove c rt'.container_transfers,
)
