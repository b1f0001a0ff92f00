-- ===== src/Rpc/Messages.antt =====
-- Messages of the RPC bus: rpc/src/messages.rs, and `failure_to_error` of rpc/src/error.rs.
use storm_node.Base.{String, Option}
use storm_node.Base.Action.{Result, ok, err}
use storm_node.Wire.{NodeId, StormApp, ContainerFullId, AppMsg}
use storm_node.Rpc.Failure.{RemoteCode, RpcFailure, Error}

pub record AddressedMsg (T : Type 0) : Type 0 where
  pub remote_id : NodeId
  pub content : T

abbrev pub addressed : {T : Type 0} → AppMsg T → NodeId → AddressedMsg T
addressed app_msg remote_peer = record { remote_id = remote_peer; content = app_msg.content }

pub record AppContainer : Type 0 where
  pub storm_app : StormApp
  pub container_id : ContainerFullId

pub data RpcMsg : Type 0 where
  send_chat : AddressedMsg String → RpcMsg
  send_container : AddressedMsg AppContainer → RpcMsg
  get_container : AddressedMsg AppContainer → RpcMsg
  progress : String → RpcMsg
  success : Option String → RpcMsg
  failure : RpcFailure → RpcMsg

pub data RadioMsg : Type 0 where
  received : AddressedMsg String → RadioMsg

abbrev pub failure_error : RemoteCode → String → Error
failure_error (RemoteCode.other code) info = Error.local_failure code info
failure_error code info = Error.remote_failure code info

unfoldable pub failure_to_error : RpcMsg → Result Error RpcMsg
failure_to_error (RpcMsg.failure f) = err (failure_error f.code f.info)
failure_to_error msg = ok msg
