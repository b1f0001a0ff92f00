-- ===== src/Stormd/Pool.antt =====
-- The pool of transfer daemons: which are free, which are busy, and what they transfer.
pub mod Handling
pub mod Twice
use storm_node.Base.{
  ◌≡◌, ◌≢◌, Bool, true, false, Option, none, some, List, [], ◌∷◌, ◌++◌, arith, refl, sym, ap, subst,
  ◌∙◌, nat_eq, nat_beq_iff,
}
use storm_node.Base.Sets
use storm_node.Base.Sets.{Distinct, Apart, Within}
use storm_node.Base.Maps
use storm_node.Wire.{DaemonId, ContainerId}
use storm_node.Bus.{CtlMsg}
use storm_node.Stormd.Runtime.{Runtime}
use storm_node.Stormd.Scheduler.{tail, push_free, note_transfer, make_busy}
use storm_node.Stormd.Handlers.{release, drop_transfer}

-- No daemon is free twice or free and busy at once; every transfer belongs to a busy daemon, and
-- no daemon has two transfers.
pub record IsPool (rt : Runtime) : Type 0 where
  pub free_distinct : Distinct rt.transferd_free
  pub apart : Apart rt.transferd_free rt.transferd_busy
  pub owned : Within (Maps.values rt.container_transfers) rt.transferd_busy
  pub single : Distinct (Maps.values rt.container_transfers)

abbrev pub is_free : DaemonId → Runtime → Bool
is_free daemon_id rt = Sets.contains daemon_id rt.transferd_free

abbrev pub is_busy : DaemonId → Runtime → Bool
is_busy daemon_id rt = Sets.contains daemon_id rt.transferd_busy

-- A daemon that joins was not known.
pub push_free-IsPool :
    (d : DaemonId) (rt : Runtime)
    → is_free d rt ≡ false
    → is_busy d rt ≡ false
    → IsPool rt
    → IsPool (push_free d rt)
push_free-IsPool d rt nf nb h = record {
  free_distinct = Sets.Distinct-append_one d rt.transferd_free nf h.free_distinct;
  apart = Sets.Apart-append_one d rt.transferd_free rt.transferd_busy nb h.apart;
  owned = h.owned;
  single = h.single;
}

note-free :
    (c : Option ContainerId) (d : DaemonId) (rt : Runtime)
    → (note_transfer c d rt).transferd_free ≡ rt.transferd_free
note-free none d rt = refl
note-free (some c) d rt = refl

note-busy :
    (c : Option ContainerId) (d : DaemonId) (rt : Runtime)
    → (note_transfer c d rt).transferd_busy ≡ rt.transferd_busy
note-busy none d rt = refl
note-busy (some c) d rt = refl

-- What a free daemon's task adds to the transfers.
note-Distinct :
    (c : Option ContainerId) (d : DaemonId) (rt : Runtime)
    → is_busy d rt ≡ false
    → IsPool rt
    → Distinct (Maps.values (note_transfer c d rt).container_transfers)
note-Distinct none d rt nb h = h.single
note-Distinct (some c) d rt nb h = (
  Sets.Within-absent d _ rt.transferd_busy
      (Maps.Within-values-remove c rt.container_transfers rt.transferd_busy h.owned) nb,
  Maps.Distinct-values-remove c rt.container_transfers h.single,
)

note-Within :
    (c : Option ContainerId) (d : DaemonId) (rt : Runtime)
    → IsPool rt
    → Within
        (Maps.values (note_transfer c d rt).container_transfers)
        (Sets.insert d rt.transferd_busy)
note-Within none d rt h = Sets.Within-insert d _ rt.transferd_busy h.owned
note-Within (some c) d rt h = (
  ground (arith, Sets.contains-insert d d rt.transferd_busy, nat_beq_iff d d),
  Sets.Within-insert d _ rt.transferd_busy
      (Maps.Within-values-remove c rt.container_transfers rt.transferd_busy h.owned),
)

-- The pool after `note_transfer` and `make_busy`, on the lists themselves.
rest-Apart :
    (d : DaemonId) (fs bs : List DaemonId)
    → Distinct (d ∷ fs)
    → Apart (d ∷ fs) bs
    → Distinct fs × Apart fs (Sets.insert d bs)
rest-Apart d fs bs x a = (x.1, Sets.Apart-insert d fs bs x.0 a.1)

-- The first free daemon takes a task.
pub make_busy-IsPool :
    (c : Option ContainerId) (d : DaemonId) (fs : List DaemonId) (rt : Runtime)
    → rt.transferd_free ≡ d ∷ fs
    → IsPool rt
    → IsPool (make_busy d (note_transfer c d rt))
make_busy-IsPool c d fs rt e h =
    let x = subst Distinct e h.free_distinct in
    let a = subst (λ f. Apart f rt.transferd_busy) e h.apart in
    let (x', a') = rest-Apart d fs rt.transferd_busy x a in
    let frees = note-free c d rt ∙ e in
    let busy = note-busy c d rt in
    record {
      free_distinct = subst Distinct (sym (ap tail frees)) x';
      apart = rw (busy, frees) a';
      owned = rw busy (note-Within c d rt h);
      single = note-Distinct c d rt a.0 h;
    }

-- The queue is no part of the pool.
pub queue-IsPool :
    (q : List CtlMsg) (rt : Runtime) → IsPool rt → IsPool (record rt { ctl_queue = q })
queue-IsPool q rt h = record {
  free_distinct = h.free_distinct;
  apart = h.apart;
  owned = h.owned;
  single = h.single;
}

-- Once its transfer is dropped, a daemon has none.
drop_transfer-absent :
    (o : Option ContainerId) (d : DaemonId) (rt : Runtime)
    → Maps.find_key d rt.container_transfers ≡ o
    → Distinct (Maps.values rt.container_transfers)
    → Sets.contains d (Maps.values (drop_transfer o rt).container_transfers) ≡ false
drop_transfer-absent none d rt e x = Maps.contains_of_find_key-none d rt.container_transfers e
drop_transfer-absent (some c) d rt e x =
    Maps.contains-remove-find_key d c rt.container_transfers x e

pub drop_transfer-IsPool :
    (o : Option ContainerId) (rt : Runtime) → IsPool rt → IsPool (drop_transfer o rt)
drop_transfer-IsPool none rt h = h
drop_transfer-IsPool (some c) rt h = record {
  free_distinct = h.free_distinct;
  apart = h.apart;
  owned = Maps.Within-values-remove c rt.container_transfers rt.transferd_busy h.owned;
  single = Maps.Distinct-values-remove c rt.container_transfers h.single;
}

drop_transfer-busy :
    (o : Option ContainerId) (rt : Runtime)
    → (drop_transfer o rt).transferd_busy ≡ rt.transferd_busy
drop_transfer-busy none rt = refl
drop_transfer-busy (some c) rt = refl

-- A busy daemon without a transfer is released.
release-IsPool :
    (d : DaemonId) (rt : Runtime)
    → is_busy d rt ≡ true
    → Sets.contains d (Maps.values rt.container_transfers) ≡ false
    → IsPool rt
    → IsPool (release d rt)
release-IsPool d rt busy none_left h = record {
  free_distinct =
      Sets.Distinct-append_one d rt.transferd_free
        (Sets.Apart-absent d rt.transferd_free rt.transferd_busy h.apart busy) h.free_distinct;
  apart =
      Sets.Apart-append_one d rt.transferd_free (Sets.remove d rt.transferd_busy)
        (ground (arith, Sets.contains-remove d d rt.transferd_busy, nat_beq_iff d d))
        (Sets.Apart-remove d rt.transferd_free rt.transferd_busy h.apart);
  owned = Sets.Within-remove d _ rt.transferd_busy none_left h.owned;
  single = h.single;
}

-- A busy daemon gives its transfer up and is free again.
pub finish-IsPool :
    (o : Option ContainerId) (d : DaemonId) (rt : Runtime)
    → Maps.find_key d rt.container_transfers ≡ o
    → is_busy d rt ≡ true
    → IsPool rt
    → IsPool (release d (drop_transfer o rt))
finish-IsPool o d rt e busy h =
    release-IsPool d (drop_transfer o rt) (rw (drop_transfer-busy o rt) busy)
      (drop_transfer-absent o d rt e h.single) (drop_transfer-IsPool o rt h)
