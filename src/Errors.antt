-- ===== src/Errors.antt =====
-- Errors of the daemons: src/error.rs. Errors of other crates are passed on unread and are numbers.
use storm_node.Base.{ℕ, String}
use storm_node.Wire.{ContainerId}
use storm_node.Rpc.Ids.{ServiceId}
use storm_node.Rpc.Failure.{FailureCode, RemoteCode, EsbError}
use storm_node.Rpc.Messages.{RpcMsg}
use storm_node.Bus.{ServiceBus, BusMsg}
use storm_node.Transferd.State.{AutomationError}

abbrev pub EncodingError : Type 0
EncodingError = ℕ

abbrev pub PresentationError : Type 0
PresentationError = ℕ

abbrev pub LauncherError : Type 0
LauncherError = ℕ

abbrev pub StoreError : Type 0
StoreError = ℕ

pub data LaunchError : Type 0 where
  bus_setup_failure : LaunchError
  store_connection : StoreError → LaunchError

pub data DaemonError : Type 0 where
  encoding : EncodingError → DaemonError
  esb : EsbError → DaemonError
  daemon_launch : LauncherError → DaemonError
  store : StoreError → DaemonError
  transfer_automation : AutomationError → DaemonError
  storm_encoding : PresentationError → DaemonError
  request_not_supported : ServiceBus → String → DaemonError
  source_not_supported : ServiceBus → String → ServiceId → DaemonError
  unknown_container : ContainerId → DaemonError

-- The code of `From<DaemonError> for RpcMsg`.
unfoldable pub failure_code : DaemonError → FailureCode
failure_code (DaemonError.encoding _) = FailureCode.encoding
failure_code (DaemonError.storm_encoding _) = FailureCode.encoding
failure_code (DaemonError.esb _) = FailureCode.esb
failure_code (DaemonError.request_not_supported _ _) = FailureCode.unexpected_request
failure_code (DaemonError.source_not_supported _ _ _) = FailureCode.unexpected_request
failure_code (DaemonError.transfer_automation _) = FailureCode.transfer_automation
failure_code (DaemonError.daemon_launch _) = FailureCode.launch
failure_code (DaemonError.store _) = FailureCode.store
failure_code (DaemonError.unknown_container _) = FailureCode.unknown_container

-- `From<DaemonError> for RpcMsg`; `to_string` is the derived `Display` of the error.
unfoldable pub to_rpc_msg : (DaemonError → String) → DaemonError → RpcMsg
unfolding failure_code
to_rpc_msg to_string e =
    RpcMsg.failure (record { code = RemoteCode.other (failure_code e); info = to_string e })

-- `From<DaemonError> for esb::Error<ServiceId>`; the constructor `ServiceError` of the bus's errors is
-- an argument.
unfoldable pub to_esb_error : (DaemonError → String) → (String → EsbError) → DaemonError → EsbError
to_esb_error to_string service_error e = service_error (to_string e)

-- `From<presentation::Error> for RpcMsg` of rpc/src/messages.rs; the text of the error is an argument.
unfoldable pub presentation_failure : (PresentationError → String) → PresentationError → RpcMsg
presentation_failure text e =
    RpcMsg.failure (record { code = RemoteCode.presentation; info = text e })

-- `message.to_string()` is the derived `Display` of the message.
unfoldable pub wrong_esb_msg : (BusMsg → String) → ServiceBus → BusMsg → DaemonError
wrong_esb_msg to_string bus message = DaemonError.request_not_supported bus (to_string message)

unfoldable pub wrong_esb_msg_source :
    (BusMsg → String) → ServiceBus → BusMsg → ServiceId → DaemonError
wrong_esb_msg_source to_string bus message source =
    DaemonError.source_not_supported bus (to_string message) source
