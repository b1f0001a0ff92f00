-- ===== src/Node/Panics.antt =====
-- The messages that a daemon does not support or panics on.
use storm_node.Base.{◌≡◌, false, arith, if◌then◌else◌}
use storm_node.Rpc.Ids.{ServiceId, is_stormd}
use storm_node.Rpc.Messages.{RpcMsg}
use storm_node.Ext.{ExtMsg}
use storm_node.Errors.{wrong_esb_msg}
use storm_node.Bus.{ServiceBus, BusMsg}
use storm_node.Bus.Responder.{send_ext, send_radio}
use storm_node.World.{Platform, Sys}
use storm_node.World.Serve.{Manner, manner, panics, panics-manner}
use storm_node.Stormd.Runtime
use storm_node.Stormd.Handlers
use storm_node.Stormd.Panics.{is_fatal, handle-panics, stormd_manner, handle-manner}
use storm_node.Transferd
use storm_node.Transferd.Panics.{transferd-panics, transferd_manner, transferd-manner}
use storm_node.Chatd
use storm_node.Downpourd

-- How chatd and downpourd deal with messages.
abbrev pub chatd_manner : ServiceBus → BusMsg → ServiceId → Manner
chatd_manner ServiceBus.storm (BusMsg.storm (ExtMsg.post m)) source =
    if is_stormd source then Manner.taken else Manner.refused
chatd_manner ServiceBus.rpc (BusMsg.rpc (RpcMsg.send_chat m)) (ServiceId.client c) = Manner.taken
chatd_manner _ _ _ = Manner.refused

abbrev pub downpourd_manner : ServiceBus → BusMsg → ServiceId → Manner
downpourd_manner ServiceBus.storm (BusMsg.storm (ExtMsg.container_announcement m)) source =
    if is_stormd source then Manner.taken else Manner.refused
downpourd_manner ServiceBus.storm (BusMsg.storm (ExtMsg.retrieve_container m)) source =
    if is_stormd source then Manner.taken else Manner.refused
downpourd_manner ServiceBus.storm (BusMsg.storm (ExtMsg.container_retrieved c)) source =
    if is_stormd source then Manner.taken else Manner.refused
downpourd_manner _ _ _ = Manner.refused

-- Whether a daemon takes a message on, answers that it is not supported or panics is seen from the
-- message, its bus and its source alone, by the four tables, whatever the state of the daemon and the
-- answers of the platform are; stormd panics on an app's `ContainerRetrieved`, and nothing else panics.
pub daemons-manner :
    (p : Platform) (bus : ServiceBus) (msg : BusMsg) (source : ServiceId) (s : Sys Runtime.Runtime)
    (t : Sys Transferd.Runtime.Runtime) (f : Sys (Unit {0}))
    → (manner (Handlers.handle p bus msg source s).0 ≡ stormd_manner bus msg source)
      × (manner (Transferd.Service.handle p bus msg source t).0 ≡ transferd_manner bus msg)
      × (manner (Chatd.handle p bus msg source f).0 ≡ chatd_manner bus msg source)
      × (manner (Downpourd.handle p bus msg source f).0 ≡ downpourd_manner bus msg source)
unfolding Chatd.handle Chatd.handle_storm Chatd.handle_rpc Chatd.handle_ctl Downpourd.handle
    Downpourd.handle_storm Downpourd.handle_rpc Downpourd.handle_ctl send_ext send_radio
    wrong_esb_msg
daemons-manner p bus msg source s t f = (
  handle-manner p bus msg source s,
  transferd-manner p bus msg source t,
  ground arith,
  ground arith,
)

-- On a message over any bus and from anyone, stormd panics exactly if it is `ContainerRetrieved` from
-- an app, and the other daemons never panic, whatever their states and the answers of the platform.
pub daemons-panics :
    (p : Platform) (bus : ServiceBus) (msg : BusMsg) (source : ServiceId) (s : Sys Runtime.Runtime)
    (t : Sys Transferd.Runtime.Runtime) (f : Sys (Unit {0}))
    → (panics (Handlers.handle p bus msg source s).0 ≡ is_fatal bus msg source)
      × (panics (Transferd.Service.handle p bus msg source t).0 ≡ false)
      × (panics (Chatd.handle p bus msg source f).0 ≡ false)
      × (panics (Downpourd.handle p bus msg source f).0 ≡ false)
daemons-panics p bus msg source s t f =
    let manners = daemons-manner p bus msg source s t f in
    (
      handle-panics p bus msg source s,
      transferd-panics p bus msg source t,
      ground (arith, panics-manner (Chatd.handle p bus msg source f).0, manners.2),
      ground (arith, panics-manner (Downpourd.handle p bus msg source f).0, manners.3),
    )
