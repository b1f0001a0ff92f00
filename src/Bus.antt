-- ===== src/Bus.antt =====
-- The buses between the daemons and the messages on them: src/bus/mod.rs, src/bus/ctl.rs and the
-- types of src/bus/services.rs.
pub mod Responder
pub mod Protocol
use storm_node.Base.{String, Bool, true, false, ◌||◌, Option, some, List, [], ◌∷◌}
use storm_node.Wire.{
  NodeId, ClientId, ContainerId, ChunkId, Chunk, StormApp, Container, AppMsg, LnMsg,
}
use storm_node.Rpc.Ids.{ServiceId}
use storm_node.Rpc.Messages.{AddressedMsg, AppContainer, RpcMsg, RadioMsg}
use storm_node.Ext.{ExtMsg}

pub data ServiceBus : Type 0 where
  storm rpc ctl msg chat : ServiceBus

pub record ChunkSend : Type 0 where
  pub storm_app : StormApp
  pub container_id : ContainerId
  pub chunk_ids : List ChunkId

pub record AddressedClientMsg (T : Type 0) : Type 0 where
  pub remote_id : NodeId
  pub client_id : Option ClientId
  pub content : T

abbrev pub addressed_client : {T : Type 0} → AppMsg T → NodeId → ClientId → AddressedClientMsg T
addressed_client app_msg remote_peer client_id = record {
  remote_id = remote_peer;
  client_id = some client_id;
  content = app_msg.content;
}

pub data CtlMsg : Type 0 where
  hello : CtlMsg
  get_container : AddressedClientMsg AppContainer → CtlMsg
  announce_container : AddressedClientMsg AppContainer → CtlMsg
  send_container : AddressedClientMsg AppContainer → CtlMsg
  process_container : Container → CtlMsg
  send_chunks : AddressedMsg ChunkSend → CtlMsg
  process_chunk : Chunk → CtlMsg
  processing_complete : CtlMsg
  processing_failed : CtlMsg

pub data BusMsg : Type 0 where
  bifrost : LnMsg → BusMsg
  rpc : RpcMsg → BusMsg
  storm : ExtMsg → BusMsg
  ctl : CtlMsg → BusMsg
  chat : RadioMsg → BusMsg

-- What `endpoints.send_to` is given.
pub record Packet : Type 0 where
  pub bus : ServiceBus
  pub source : ServiceId
  pub dest : ServiceId
  pub request : BusMsg

-- `ZmqSocketType` of the `internet2` crate.
pub data SocketType : Type 0 where
  router_bind router_connect publisher subscriber : SocketType

-- What `BusConfig::with_addr` and `BusConfig::with_subscription` of the `microservices` crate are
-- given.
pub record BusConfig : Type 0 where
  pub endpoint : String
  pub socket_type : SocketType
  pub router_id : Option ServiceId
  pub is_subscription : Bool

abbrev pub with_addr : String → SocketType → Option ServiceId → BusConfig
with_addr endpoint socket_type router_id = record {
  endpoint = endpoint;
  socket_type = socket_type;
  router_id = router_id;
  is_subscription = false;
}

abbrev pub with_subscription : String → SocketType → Option ServiceId → BusConfig
with_subscription endpoint socket_type router_id = record {
  endpoint = endpoint;
  socket_type = socket_type;
  router_id = router_id;
  is_subscription = true;
}

-- The derived `==` of `ServiceBus`.
abbrev pub bus_beq : ServiceBus → ServiceBus → Bool
bus_beq ServiceBus.storm ServiceBus.storm = true
bus_beq ServiceBus.rpc ServiceBus.rpc = true
bus_beq ServiceBus.ctl ServiceBus.ctl = true
bus_beq ServiceBus.msg ServiceBus.msg = true
bus_beq ServiceBus.chat ServiceBus.chat = true
bus_beq _ _ = false

abbrev pub BusMap : Type 0
BusMap = List (ServiceBus × BusConfig)

-- Whether a daemon that opened the buses can send over one.
abbrev pub opens : BusMap → ServiceBus → Bool
opens [] bus = false
opens ((b, config) ∷ buses) bus = bus_beq bus b || opens buses bus
