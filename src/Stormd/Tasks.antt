-- ===== src/Stormd/Tasks.antt =====
-- The tasks that clients and apps give to the transfer daemons, and what stormd has handed out.
use storm_node.Base.{
  ◌≡◌, Bool, true, false, ◌||◌, nat_eq, none, some, List, [], ◌∷◌, ◌++◌, if◌then◌else◌,
}
use storm_node.Base.Sets
use storm_node.Base.Maps
use storm_node.Rpc.Ids.{ServiceId}
use storm_node.Rpc.Messages.{AddressedMsg, AppContainer, RpcMsg}
use storm_node.Wire.{ClientId, DaemonId, StormApp, ContainerFullId}
use storm_node.Ext.{ExtMsg}
use storm_node.Bus.{ServiceBus, AddressedClientMsg, CtlMsg, BusMsg, Packet}
use storm_node.World.{Sys, Request, Event, Log, said, sends_in}
use storm_node.Stormd.Runtime.{Runtime}
use storm_node.Bus.Protocol.{is_instruction, is_transfer, stormd_says}

-- Tasks that only pass through the queue of stormd; instructions for a running transfer do not.
abbrev pub is_task : CtlMsg → Bool
is_task (CtlMsg.get_container _) = true
is_task (CtlMsg.announce_container _) = true
is_task (CtlMsg.send_container _) = true
is_task _ = false

abbrev pub tasks : List CtlMsg → List CtlMsg
tasks [] = []
tasks (msg ∷ msgs) = if is_task msg then msg ∷ tasks msgs else tasks msgs

-- The instruction of a packet to a transfer daemon.
abbrev pub given : ServiceBus → ServiceId → BusMsg → List CtlMsg
given ServiceBus.ctl (ServiceId.transfer d) (BusMsg.ctl msg) = msg ∷ []
given _ _ _ = []

abbrev pub requested : Request → List CtlMsg
requested (Request.send packet) = tasks (given packet.bus packet.dest packet.request)
requested _ = []

abbrev pub event_tasks : Event → List CtlMsg
event_tasks (Event.done r) = requested r
event_tasks (Event.failed r) = requested r

-- The tasks that were handed out to transfer daemons, oldest first; one whose send failed is among them.
abbrev pub handed : Log → List CtlMsg
handed [] = []
handed (e ∷ log) = handed log ++ event_tasks e

-- Whether a packet is for a transfer daemon.
abbrev pub is_for : DaemonId → Packet → Bool
is_for d packet = is_transfer d packet.dest

-- Whether a transfer daemon has a transfer, or was sent a packet.
abbrev pub is_met : DaemonId → Sys Runtime → Bool
is_met d s = Sets.contains d (Maps.values s.rt.container_transfers) || said (is_for d) s.log

-- Nothing of stormd is changed, no task handed out, and nothing sent but what is its to say and to
-- daemons that it has met.
abbrev pub IsQuiet : Sys Runtime → Sys Runtime → Type 0
IsQuiet s s' =
    (s'.rt ≡ s.rt)
    × (handed s'.log ≡ handed s.log)
    × (sends_in stormd_says s'.log ≡ sends_in stormd_says s.log)
    × ((d : DaemonId) → is_met d s' ≡ true → is_met d s ≡ true)

-- The task that a client's request asks for.
abbrev pub asked_by_client : ClientId → RpcMsg → List CtlMsg
asked_by_client c (RpcMsg.send_container m) =
    CtlMsg.announce_container
      (record { remote_id = m.remote_id; client_id = some c; content = m.content })
    ∷ []
asked_by_client c (RpcMsg.get_container m) =
    CtlMsg.get_container
      (record { remote_id = m.remote_id; client_id = some c; content = m.content })
    ∷ []
asked_by_client c _ = []

-- The task that an app asks for, with itself as the app of the container.
abbrev app_container : StormApp → AddressedMsg ContainerFullId → AddressedClientMsg AppContainer
app_container app m = record {
  remote_id = m.remote_id;
  client_id = none;
  content = record { storm_app = app; container_id = m.content };
}

abbrev pub asked_by_app : StormApp → ExtMsg → List CtlMsg
asked_by_app app (ExtMsg.retrieve_container m) = CtlMsg.get_container (app_container app m) ∷ []
asked_by_app app (ExtMsg.send_container m) = CtlMsg.send_container (app_container app m) ∷ []
asked_by_app app _ = []

-- The task that an announcement on the client bus asks for.
abbrev pub asked_by_other : ExtMsg → List CtlMsg
asked_by_other (ExtMsg.container_announcement m) =
    CtlMsg.announce_container (
      app_container StormApp.file_transfer
        (record { remote_id = m.remote_id; content = m.content.id }))
    ∷ []
asked_by_other _ = []

-- The task that a message asks for.
abbrev pub asked : ServiceBus → BusMsg → ServiceId → List CtlMsg
asked ServiceBus.rpc (BusMsg.rpc msg) (ServiceId.client c) = asked_by_client c msg
asked ServiceBus.rpc (BusMsg.storm ext) source = asked_by_other ext
asked ServiceBus.storm (BusMsg.storm ext) (ServiceId.storm_app app) = asked_by_app app ext
asked _ _ _ = []

-- A message asks for a task, or is another reason for an instruction.
abbrev pub Asks : ServiceBus → BusMsg → ServiceId → CtlMsg → Type 0
Asks bus msg source task = (asked bus msg source ≡ tasks (task ∷ [])) × (is_instruction task ≡ true)
