-- ===== src/Node/Reported.antt =====
-- An error of a daemon, as a client gets it.
use storm_node.Base.{String, ◌≡◌, ◌≢◌, arith}
use storm_node.Rpc.Failure.{FailureCode, Error}
use storm_node.Rpc.Messages.{failure_to_error}
use storm_node.Rpc.Client.{BusMsg, Verdict, judge}
use storm_node.Errors.{DaemonError, failure_code, to_rpc_msg}

-- An error of a daemon that reaches a client ends the client's request with a failure of the node,
-- under the error's code and text, and the code is never the catch-all `Unknown`.
pub judge-to_rpc_msg :
    (text : DaemonError → String) (e : DaemonError)
    → (judge (BusMsg.rpc (to_rpc_msg text e))
        ≡ Verdict.fail (Error.local_failure (failure_code e) (text e)))
      × (failure_code e ≢ FailureCode.unknown)
unfolding judge failure_to_error to_rpc_msg failure_code
judge-to_rpc_msg text e = ground arith
