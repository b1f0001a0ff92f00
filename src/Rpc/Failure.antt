-- ===== src/Rpc/Failure.antt =====
-- Failure codes and client errors: rpc/src/error.rs.
use storm_node.Base.{ℕ, String}

pub data FailureCode : Type 0 where
  unknown encoding launch esb unexpected_request store transfer_automation unknown_container :
      FailureCode

-- `code as u16`
unfoldable pub to_u16 : FailureCode → ℕ
to_u16 FailureCode.unknown = 0xFFF
to_u16 FailureCode.encoding = 0x02
to_u16 FailureCode.launch = 0x03
to_u16 FailureCode.esb = 0x10
to_u16 FailureCode.unexpected_request = 0x11
to_u16 FailureCode.store = 0x12
to_u16 FailureCode.transfer_automation = 0x20
to_u16 FailureCode.unknown_container = 0x21

unfoldable pub from_u16 : ℕ → FailureCode
from_u16 value = FailureCode.unknown

-- `rpc::FailureCode<FailureCode>` of the `microservices` crate.
pub data RemoteCode : Type 0 where
  transport presentation : RemoteCode
  builtin : ℕ → RemoteCode
  other : FailureCode → RemoteCode

-- `rpc::Failure`
pub record RpcFailure : Type 0 where
  pub code : RemoteCode
  pub info : String

-- `esb::Error<ServiceId>`, passed on unread.
abbrev pub EsbError : Type 0
EsbError = ℕ

-- The errors of the client library.
pub data Error : Type 0 where
  esb : EsbError → Error
  local_failure : FailureCode → String → Error
  remote_failure : RemoteCode → String → Error
  unexpected_server_response : Error
