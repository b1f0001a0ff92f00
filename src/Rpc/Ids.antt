-- ===== src/Rpc/Ids.antt =====
-- Addresses of the daemons on the message buses: rpc/src/service_id.rs.
use storm_node.Base.{Bool, true, false, String, Option, none, some}
use storm_node.Base.Action.{Result, ok, err, Outcome, value, panic}
use storm_node.Wire.{Bytes, NodeId, ClientId, DaemonId, BifrostApp, StormApp}

pub data ServiceId : Type 0 where
  msg_app : BifrostApp → ServiceId
  channel_app : BifrostApp → ServiceId
  storm_app : StormApp → ServiceId
  client : ClientId → ServiceId
  lnp : ServiceId
  peer : NodeId → ServiceId
  transfer : DaemonId → ServiceId
  other : Bytes → ServiceId

abbrev pub stormd : ServiceId
stormd = ServiceId.msg_app BifrostApp.storm

abbrev pub chatd : ServiceId
chatd = ServiceId.storm_app StormApp.chat

abbrev pub downpourd : ServiceId
downpourd = ServiceId.storm_app StormApp.file_transfer

-- `service_id == ServiceId::stormd()`
abbrev pub is_stormd : ServiceId → Bool
is_stormd (ServiceId.msg_app BifrostApp.storm) = true
is_stormd _ = false

-- `From<ServiceId> for Vec<u8>`; `strict_serialize` is the argument.
unfoldable pub to_bytes :
    {E F : Type 0} → (ServiceId → Result E Bytes) → ServiceId → Outcome F Bytes
to_bytes strict_serialize id = elim (strict_serialize id) [
  | ok bytes ↦ value bytes
  | err e ↦ panic "Memory-based encoding does not fail"
]

-- `From<Vec<u8>> for ServiceId`; `strict_deserialize`, `String::from_utf8_lossy` and
-- `ServiceName::from_str` are the arguments.
unfoldable pub from_bytes :
    {E F : Type 0}
    → (Bytes → Result E ServiceId)
    → (Bytes → String)
    → (String → Option Bytes)
    → Bytes
    → Outcome F ServiceId
from_bytes strict_deserialize from_utf8_lossy from_str bytes = elim (strict_deserialize bytes) [
  | ok id ↦ value id
  | err e ↦ elim (from_str (from_utf8_lossy bytes)) [
    | some name ↦ value (ServiceId.other name)
    | none ↦ panic "ClientName conversion never fails"
  ]
]
