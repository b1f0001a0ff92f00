-- ===== src/Stormd/Frame.antt =====
-- What the steps of stormd's handlers that only send leave as it was: its own fields.
use storm_node.Base.Maps
use storm_node.Base.{
  nat_beq_iff, append-nil, true, false, ◌≡◌, refl, Bool, Option, none, some, arith, nat_eq,
}
use storm_node.Base.Action.{Result, ok, err, value}
use storm_node.Wire.{NodeId, ClientId, ContainerId, DaemonId, StormApp, Messages}
use storm_node.Ext.{ExtMsg, remote_id, p2p_message}
use storm_node.Bus.{CtlMsg}
use storm_node.Bus.Protocol.{is_instruction}
use storm_node.Bus.Responder.{send_p2p, send_rpc, send_ctl, send_ext}
use storm_node.World.{Platform, Sys}
use storm_node.World.Effects.{launch}
use storm_node.Stormd.Runtime.{Runtime, launch_daemon}
use storm_node.Stormd.Tasks.{is_task, handed, IsQuiet}
use storm_node.Stormd.Scheduler.{tell_client, start_transferd, after_pick}
use storm_node.Stormd.Handlers.{
  drop_transfer, route_instr, route_ext, notify_app, end_transfer, forward_p2p,
}

pub queue-drop_transfer :
    (o : Option ContainerId) (rt : Runtime) → (drop_transfer o rt).ctl_queue ≡ rt.ctl_queue
queue-drop_transfer none rt = refl
queue-drop_transfer (some c) rt = refl

module _ (p : Platform) where
  pub rt-after_pick :
      (client_id : Option ClientId) (picked : Bool) (s : Sys Runtime)
      → (after_pick p client_id picked s).1.rt ≡ s.rt
  unfolding after_pick tell_client start_transferd launch_daemon launch send_rpc
  rt-after_pick client_id picked s = ground arith

  pub end_transfer_lem :
      (o : Option ContainerId) (s : Sys Runtime)
      → ((end_transfer p o s).0 ≡ value tt) × ((end_transfer p o s).1.rt ≡ drop_transfer o s.rt)
  unfolding end_transfer notify_app send_ext
  end_transfer_lem none s = (refl, refl)
  end_transfer_lem (some c) s = ground arith

  pub route_ext-IsQuiet :
      (remote : NodeId) (r : Result Messages (StormApp × ExtMsg)) (s : Sys Runtime)
      → IsQuiet s (route_ext p remote r s).1
  unfolding route_ext send_p2p send_ext
  route_ext-IsQuiet remote (ok (app, msg)) s = ground (arith, append-nil (handed s.log))
  route_ext-IsQuiet remote (err Messages.list_apps) s = ground (arith, append-nil (handed s.log))
  route_ext-IsQuiet remote (err _) s = (refl, refl, refl, λ d m. m)

  pub route_claimed-IsQuiet :
      (c : ContainerId) (d : DaemonId) (instr : CtlMsg) (s : Sys Runtime)
      → Maps.get c s.rt.container_transfers ≡ some d
      → is_task instr ≡ false
      → is_instruction instr ≡ true
      → IsQuiet s (route_instr p (some d) instr s).1
  unfolding route_instr send_ctl
  route_claimed-IsQuiet c d instr s g h i = (
    ground (arith, append-nil (handed s.log)),
    ground (arith, h, append-nil (handed s.log)),
    ground (arith, i),
    λ e m.
        ground (arith, m, nat_beq_iff e d, Maps.contains-values-get c d s.rt.container_transfers g),
  )

  pub forward_p2p-IsQuiet :
      (app : StormApp) (msg : ExtMsg) (s : Sys Runtime) → IsQuiet s (forward_p2p p app msg s).1
  unfolding forward_p2p send_p2p remote_id p2p_message
  forward_p2p-IsQuiet app msg s = ground (arith, append-nil (handed s.log))
