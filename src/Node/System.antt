-- ===== src/Node/System.antt =====
-- A node as one transition system: stormd, any number of transfer daemons, chatd and downpourd, each
-- on its own platform. A packet that was sent may come at any time, any number of times, or never;
-- others (peers, clients, other apps) may send a daemon anything under their own names.
use storm_node.Base.{
  ◌≡◌, ◌⊎◌, Bool, true, false, ◌==◌, List, [], ◌∷◌, ◌++◌, if◌then◌else◌, Has, nat_eq,
}
use storm_node.Wire.{DaemonId, BifrostApp, StormApp}
use storm_node.Rpc.Ids.{ServiceId, is_stormd}
use storm_node.Bus.{Packet, opens}
use storm_node.Bus.Protocol.{is_transfer, is_app}
use storm_node.Config.{Config, StormConfig, to_shared}
use storm_node.World.{Platform, Sys, Request, Event, Log}
use storm_node.Stormd.Runtime
use storm_node.Stormd.Handlers
use storm_node.Stormd.Start
use storm_node.Transferd
use storm_node.Transferd.State.{StateTy}
use storm_node.Chatd
use storm_node.Downpourd

-- What the daemons run on.
pub record Platforms : Type 0 where
  pub storm : Platform
  pub transfer : DaemonId → Platform
  pub chat : Platform
  pub downpour : Platform

pub record Node : Type 0 where
  pub storm : Sys Runtime.Runtime
  pub transfer : DaemonId → Sys Transferd.Runtime.Runtime
  pub chat : Sys (Unit {0})
  pub downpour : Sys (Unit {0})

-- The daemons as their `init` leaves them; a transfer daemon is there for every number, and says
-- nothing until it starts.
abbrev pub initial : Config StormConfig → Node
initial config = record {
  storm = record { rt = Runtime.fresh config; log = [] };
  transfer = λ d. record { rt = record { id = d; state = StateTy.free }; log = [] };
  chat = record { rt = tt; log = [] };
  downpour = record { rt = tt; log = [] };
}

abbrev pub update {ℓ} : {A : Type ℓ} → (DaemonId → A) → DaemonId → A → DaemonId → A
update f d a e = if d == e then a else f e

-- A name that no daemon of the node has.
abbrev pub is_outside : ServiceId → Bool
is_outside (ServiceId.msg_app BifrostApp.storm) = false
is_outside (ServiceId.storm_app StormApp.chat) = false
is_outside (ServiceId.storm_app StormApp.file_transfer) = false
is_outside (ServiceId.transfer d) = false
is_outside _ = true

abbrev Logged : Packet → Log → Type 0
Logged packet log = Has (Event.done (Request.send packet)) log

-- A daemon of the node has sent a packet.
pub data Sent (n : Node) (packet : Packet) : Type 0 where
  by_storm : Logged packet n.storm.log → Sent n packet
  by_transfer : (d : DaemonId) → Logged packet (n.transfer d).log → Sent n packet
  by_chat : Logged packet n.chat.log → Sent n packet
  by_downpour : Logged packet n.downpour.log → Sent n packet

-- A packet can come: a daemon sent it, or another does.
abbrev pub Comes : Node → Packet → Type 0
Comes n packet = Sent n packet ⊎ (is_outside packet.source ≡ true)

module _ (p : Platforms) (config : Config StormConfig) where
  pub data Step (n : Node) : Node → Type 0 where
    storm_starts : Step n (record n { storm = (Runtime.on_ready p.storm n.storm).1 })
    transfer_starts :
        (d : DaemonId)
        → Step n (record n {
          transfer =
              update n.transfer d (Transferd.Runtime.on_ready (p.transfer d) (n.transfer d)).1;
        })
    chat_starts : Step n (record n { chat = (Chatd.on_ready p.chat n.chat).1 })
    downpour_starts : Step n (record n { downpour = (Downpourd.on_ready p.downpour n.downpour).1 })
    storm_hears :
        (packet : Packet)
        → Comes n packet
        → is_stormd packet.dest ≡ true
        → opens (Start.buses config) packet.bus ≡ true
        → Step n (record n {
          storm = (Handlers.handle p.storm packet.bus packet.request packet.source n.storm).1;
        })
    transfer_hears :
        (d : DaemonId) (packet : Packet)
        → Comes n packet
        → is_transfer d packet.dest ≡ true
        → opens (Transferd.Runtime.buses (to_shared config)) packet.bus ≡ true
        → Step n (record n {
          transfer =
              update n.transfer d
                (Transferd.Service.handle
                  (p.transfer d)
                  packet.bus
                  packet.request
                  packet.source
                  (n.transfer d)).1;
        })
    chat_hears :
        (packet : Packet)
        → Comes n packet
        → is_app StormApp.chat packet.dest ≡ true
        → opens (Chatd.buses (to_shared config)) packet.bus ≡ true
        → Step n (record n {
          chat = (Chatd.handle p.chat packet.bus packet.request packet.source n.chat).1;
        })
    downpour_hears :
        (packet : Packet)
        → Comes n packet
        → is_app StormApp.file_transfer packet.dest ≡ true
        → opens (Downpourd.buses (to_shared config)) packet.bus ≡ true
        → Step n (record n {
          downpour =
              (Downpourd.handle p.downpour packet.bus packet.request packet.source n.downpour).1;
        })

  -- What the node can come to.
  pub data Reach : Node → Type 0 where
    start : Reach (initial config)
    later : {n m : Node} → Reach n → Step n m → Reach m

  -- The packets that stormd handles on the way to a state, newest first.
  abbrev pub step_heard : {n m : Node} → Step n m → List Packet
  step_heard (storm_hears packet comes dest bus) = packet ∷ []
  step_heard _ = []

  abbrev pub heard : {n : Node} → Reach n → List Packet
  heard start = []
  heard (later r step) = step_heard step ++ heard r
