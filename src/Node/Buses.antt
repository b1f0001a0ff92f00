-- ===== src/Node/Buses.antt =====
-- The buses of the daemons: what is sent over them, and how they meet.
use storm_node.Base.{◌≡◌, refl, Bool, true, false, ◌&&◌, Option, none, some, List, [], ◌∷◌, arith}
use storm_node.Rpc.Ids.{ServiceId, is_stormd}
use storm_node.Bus.{ServiceBus, SocketType, BusConfig, BusMap, BusMsg, Packet, opens, bus_beq}
use storm_node.Bus.Responder.{send_ctl, send_ext, send_radio}
use storm_node.Config.{Config, StormConfig, to_shared}
use storm_node.World.{Platform, Sys, Log, sends_in}
use storm_node.Stormd.Runtime
use storm_node.Stormd.Handlers
use storm_node.Stormd.Sends.{IsReady, says-opens, handle-Stays, on_ready-Stays}
use storm_node.Transferd.Sends.{
  transferd_says-opens, transferd-handle-Same, transferd-on_ready-Same,
}
use storm_node.Bus.Protocol.{stormd_says, transferd_says, chatd_says, downpourd_says}
use storm_node.World.Sends.{sends_in-same}
use storm_node.Rpc.Client.Start.{Bus, client_buses}
use storm_node.Stormd.Start
use storm_node.Transferd
use storm_node.Chatd
use storm_node.Downpourd

chatd_says-opens :
    (config : Config (Unit {0})) (packet : Packet)
    → (opens (Chatd.buses config) packet.bus && chatd_says packet) ≡ chatd_says packet
unfolding Chatd.buses
chatd_says-opens config packet = ground arith

downpourd_says-opens :
    (config : Config (Unit {0})) (packet : Packet)
    → (opens (Downpourd.buses config) packet.bus && downpourd_says packet) ≡ downpourd_says packet
unfolding Downpourd.buses
downpourd_says-opens config packet = ground arith

module _ (p : Platform) (s : Sys (Unit {0})) where
  pub chatd-handle-Same :
      (bus : ServiceBus) (msg : BusMsg) (source : ServiceId)
      → sends_in chatd_says (Chatd.handle p bus msg source s).1.log ≡ sends_in chatd_says s.log
  unfolding Chatd.handle Chatd.handle_storm Chatd.handle_rpc Chatd.handle_ctl send_ext send_radio
  chatd-handle-Same bus msg source = ground arith

  pub chatd-on_ready-Same :
      sends_in chatd_says (Chatd.on_ready p s).1.log ≡ sends_in chatd_says s.log
  unfolding Chatd.on_ready send_ctl
  chatd-on_ready-Same = ground arith

  pub downpourd-handle-Same :
      (bus : ServiceBus) (msg : BusMsg) (source : ServiceId)
      → sends_in downpourd_says (Downpourd.handle p bus msg source s).1.log
        ≡ sends_in downpourd_says s.log
  unfolding Downpourd.handle Downpourd.handle_storm Downpourd.handle_rpc Downpourd.handle_ctl
      send_ext
  downpourd-handle-Same bus msg source = ground arith

  pub downpourd-on_ready-Same :
      sends_in downpourd_says (Downpourd.on_ready p s).1.log ≡ sends_in downpourd_says s.log
  unfolding Downpourd.on_ready send_ctl
  downpourd-on_ready-Same = ground arith

-- Whether what is new in a log was sent over the given buses only, and is of the given kind.
abbrev pub KeepsTo : BusMap → (Packet → Bool) → Log → Log → Type 0
KeepsTo buses says old new =
    let own = λ (packet : Packet). opens buses packet.bus && says packet in
    sends_in own new ≡ sends_in own old

keeps :
    (buses : BusMap) (says : Packet → Bool) (old new : Log)
    → ((packet : Packet) → (opens buses packet.bus && says packet) ≡ says packet)
    → sends_in says new ≡ sends_in says old
    → KeepsTo buses says old new
keeps buses says old new own e =
    sends_in-same (λ packet. opens buses packet.bus && says packet) says old new own e

-- Each daemon, when it starts and on every message, whatever the platform answers, sends only over
-- the buses that its own `run` opens, only under its own name, and only messages of the type of the
-- bus and for the receivers that the protocol gives it; stormd, whose queue must hold nothing but
-- instructions for that, puts nothing else into it.
pub daemons-KeepsTo :
    (p : Platform) (config : Config StormConfig) (shared : Config (Unit {0})) (bus : ServiceBus)
    (msg : BusMsg) (source : ServiceId) (s : Sys Runtime.Runtime)
    (t : Sys Transferd.Runtime.Runtime) (f : Sys (Unit {0}))
    → IsReady s
    → let storm = KeepsTo (Start.buses config) stormd_says s.log in
      let transfer = KeepsTo (Transferd.Runtime.buses shared) (transferd_says t.rt.id) t.log in
      let chat = KeepsTo (Chatd.buses shared) chatd_says f.log in
      let downpour = KeepsTo (Downpourd.buses shared) downpourd_says f.log in
      IsReady (Handlers.handle p bus msg source s).1
      × storm (Runtime.on_ready p s).1.log
      × storm (Handlers.handle p bus msg source s).1.log
      × transfer (Transferd.Runtime.on_ready p t).1.log
      × transfer (Transferd.Service.handle p bus msg source t).1.log
      × chat (Chatd.on_ready p f).1.log
      × chat (Chatd.handle p bus msg source f).1.log
      × downpour (Downpourd.on_ready p f).1.log
      × downpour (Downpourd.handle p bus msg source f).1.log
daemons-KeepsTo p config shared bus msg source s t f ready =
    let stays = handle-Stays p bus msg source s ready in
    let storm = says-opens config in
    let transfer = transferd_says-opens shared t.rt.id in
    let chat = chatd_says-opens shared in
    let downpour = downpourd_says-opens shared in
    (
      stays.0,
      keeps _ _ s.log (Runtime.on_ready p s).1.log storm (on_ready-Stays p s ready).1,
      keeps _ _ s.log (Handlers.handle p bus msg source s).1.log storm stays.1,
      keeps _ _ t.log (Transferd.Runtime.on_ready p t).1.log transfer
          (transferd-on_ready-Same p (λ packet. true) t).1,
      keeps _ _ t.log (Transferd.Service.handle p bus msg source t).1.log transfer
          (transferd-handle-Same p (λ packet. true) t bus msg source).1,
      keeps _ _ f.log (Chatd.on_ready p f).1.log chat (chatd-on_ready-Same p f),
      keeps _ _ f.log (Chatd.handle p bus msg source f).1.log chat
          (chatd-handle-Same p f bus msg source),
      keeps _ _ f.log (Downpourd.on_ready p f).1.log downpour (downpourd-on_ready-Same p f),
      keeps _ _ f.log (Downpourd.handle p bus msg source f).1.log downpour
          (downpourd-handle-Same p f bus msg source),
    )

-- What a daemon connects to, among the buses of another.
abbrev pub binding : ServiceBus → BusMap → Option BusConfig
binding bus [] = none
binding bus ((b, config) ∷ buses) = elim (bus_beq bus b) [
  | true ↦ some config
  | false ↦ binding bus buses
]

abbrev pub IsBound : BusMap → ServiceBus → BusConfig → Type 0
IsBound server bus client = elim client.router_id [
  | none ↦ Unit
  | some router ↦ elim (is_stormd router) [
    | false ↦ Unit
    | true ↦
        (c : BusConfig) × (binding bus server ≡ some c)
        × (c.endpoint ≡ client.endpoint)
        × (c.socket_type ≡ SocketType.router_bind)
        × (client.socket_type ≡ SocketType.router_connect)
  ]
]

abbrev pub Meets : BusMap → BusMap → Type 0
Meets server [] = Unit
Meets server ((bus, client) ∷ buses) = IsBound server bus client × Meets server buses

-- Whether a subscription of a client is to what a daemon publishes.
abbrev pub Hears : BusMap → BusConfig → Type 0
Hears server client =
    (c : BusConfig) × (binding ServiceBus.chat server ≡ some c)
    × (c.endpoint ≡ client.endpoint)
    × (c.socket_type ≡ SocketType.publisher)
    × (client.socket_type ≡ SocketType.subscriber)

abbrev pub ClientMeets : BusMap → BusMap → List (Bus × BusConfig) → Type 0
ClientMeets storm chat [] = Unit
ClientMeets storm chat ((Bus.rpc, client) ∷ buses) =
    IsBound storm ServiceBus.rpc client × ClientMeets storm chat buses
ClientMeets storm chat ((Bus.chat, client) ∷ buses) =
    Hears chat client × ClientMeets storm chat buses

-- Every bus over which a daemon that runs as a thread connects to stormd is one that stormd binds, at
-- the same endpoint; a client that is given the same endpoints for requests and chat connects to
-- stormd and subscribes to what chatd publishes.
pub buses-Meets :
    (config : Config StormConfig)
    → let server = Start.buses config in
      let shared = to_shared config in
      Meets server (Transferd.Runtime.buses shared)
      × Meets server (Chatd.buses shared)
      × Meets server (Downpourd.buses shared)
      × ClientMeets server
          (Chatd.buses shared)
          (client_buses config.rpc_endpoint config.chat_endpoint)
unfolding client_buses Start.buses Transferd.Runtime.buses Chatd.buses Downpourd.buses to_shared
buses-Meets config = (
  ((_, refl, refl, refl, refl), (tt, ((_, refl, refl, refl, refl), tt))),
  (
    (_, refl, refl, refl, refl),
    ((_, refl, refl, refl, refl), ((_, refl, refl, refl, refl), (tt, tt))),
  ),
  ((_, refl, refl, refl, refl), ((_, refl, refl, refl, refl), ((_, refl, refl, refl, refl), tt))),
  ((_, refl, refl, refl, refl), ((_, refl, refl, refl, refl), tt)),
)
