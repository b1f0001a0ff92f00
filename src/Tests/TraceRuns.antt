-- ===== src/Tests/TraceRuns.antt =====
-- A node that gets a chat message of a peer, and one at which an app registers.
use storm_node.Base.{◌≡◌, refl, inl, inr, true, Bool, String, none, some, [], ◌∷◌, ◌==◌, nat_eq}
use storm_node.Wire.{NodeId, BifrostApp, StormApp, Mesg, Messages, LnMsg}
use storm_node.Rpc.Ids.{ServiceId, stormd}
use storm_node.Ext.{ExtMsg, storm_ext_msg}
use storm_node.Bus.{Packet, ServiceBus, BusMsg}
use storm_node.Bus.Responder.{ext_packet, send_ext, send_radio}
use storm_node.Stormd.Start
use storm_node.Stormd.Handlers
use storm_node.Chatd
use storm_node.Node.System.{
  Platforms, Node, Sent, by_storm, initial, is_outside, Reach, start, later, heard, storm_hears,
  chat_hears,
}
use storm_node.Node.Authentic.{any_brought, Reach-publishes}
use storm_node.Node.Registered.{any_registers, Reach-registered}
use storm_node.Tests.Samples.{config, reliable}

abbrev mesg : Mesg
mesg = record { parent_id = none; body = 104 ∷ 105 ∷ []; container_ids = [] }

abbrev p : Platforms
p = record {
  storm = reliable (Messages.post (record { app = StormApp.chat; content = mesg }));
  transfer = λ d. reliable Messages.list_apps;
  chat = reliable Messages.list_apps;
  downpour = reliable Messages.list_apps;
}

-- Peer 4 writes, stormd hands the message to chatd, and chatd publishes it.
abbrev written : Packet
written = record {
  bus = ServiceBus.msg;
  source = ServiceId.peer 4;
  dest = stormd;
  request = BusMsg.bifrost (LnMsg.message BifrostApp.storm []);
}

abbrev handed_on : Packet
handed_on =
    ext_packet stormd (some StormApp.chat) (ExtMsg.post (record { remote_id = 4; content = mesg }))

abbrev reached : Node
reached = record (initial config) {
  storm =
      (Handlers.handle p.storm written.bus written.request written.source (initial config).storm).1;
}

abbrev handed : Sent reached handed_on
unfolding Handlers.handle Handlers.handle_p2p Handlers.transfer_instr Handlers.route_p2p
    Handlers.route_ext storm_ext_msg send_ext
handed = by_storm (inl refl)

abbrev read : Node
read = record reached {
  chat = (Chatd.handle p.chat handed_on.bus handed_on.request handed_on.source reached.chat).1;
}

abbrev reads : Reach p config read
unfolding Start.buses Chatd.buses
reads =
    later (later start (storm_hears written (inr refl) refl refl))
      (chat_hears handed_on (inl handed) refl refl)

abbrev is_from_four : NodeId → String → Bool
is_from_four remote text = remote == 4

Reach-publishes_example : any_brought p config is_from_four (heard p config reads) ≡ true
unfolding Chatd.handle Chatd.handle_storm send_radio
Reach-publishes_example = Reach-publishes p config is_from_four read reads refl

abbrev app : StormApp
app = StormApp.other 5

abbrev registration : Packet
registration = record {
  bus = ServiceBus.storm;
  source = ServiceId.storm_app app;
  dest = stormd;
  request = BusMsg.storm (ExtMsg.register_app app);
}

abbrev known : Node
known = record (initial config) {
  storm =
      (Handlers.handle p.storm registration.bus registration.request registration.source
        (initial config).storm).1;
}

abbrev knows : Reach p config known
unfolding Start.buses
knows = later start (storm_hears registration (inr refl) refl refl)

Reach-registered_example :
    (is_outside (ServiceId.storm_app app) ≡ true)
    × (any_registers app (heard p config knows) ≡ true)
unfolding Handlers.handle Handlers.handle_app
Reach-registered_example = Reach-registered p config app known knows refl
