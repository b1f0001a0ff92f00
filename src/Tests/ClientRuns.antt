-- ===== src/Tests/ClientRuns.antt =====
-- Runs of the client library, of the conversions of messages and of the failure codes.
use storm_node.Base.{◌≡◌, refl, ◌⊎◌, true, none, [], ◌∷◌, arith}
use storm_node.Base.Action.{ok, value}
use storm_node.Wire.{StormApp, Messages}
use storm_node.Rpc.Ids.{stormd}
use storm_node.Rpc.Messages.{RpcMsg}
use storm_node.Rpc.Client.{BusMsg, PollItem, Client, progress_loop}
use storm_node.Rpc.Client.Responses.{shown, one_by_one, progress_loop-shown}
use storm_node.Ext.{ExtMsg, storm_ext_msg, remote_id, p2p_message}
use storm_node.Ext.RoundTrip.{is_pull, p2p_message-storm_ext_msg}
use storm_node.Errors.{DaemonError}

abbrev said : RpcMsg → PollItem
said msg = record { source = stormd; request = BusMsg.rpc msg }

abbrev working_on_it : PollItem
working_on_it = said (RpcMsg.progress "Requested container")

abbrev over : PollItem
over = said (RpcMsg.success none)

-- Both messages come together.
abbrev together : Client
together = record {
  client_id = 5;
  user_agent = "cli";
  response_queue = [];
  incoming = ok (working_on_it ∷ over ∷ []) ∷ [];
  sent = [];
}

abbrev in_turn : Client
in_turn = record together { incoming = one_by_one (working_on_it ∷ over ∷ []) }

progress_loop-shown_example :
    let (r, texts, _) = progress_loop 3 in_turn in (r, texts) ≡ shown (working_on_it ∷ over ∷ [])
progress_loop-shown_example =
    progress_loop-shown 3 in_turn (working_on_it ∷ over ∷ []) refl refl (omega arith)

abbrev to_read : Messages
to_read = Messages.read (record { app = StormApp.chat; content = 6 })

abbrev read_it : ExtMsg
read_it = ExtMsg.read (record { remote_id = 3; content = 6 })

p2p_message-storm_ext_msg_example :
    (remote_id {E = DaemonError} read_it ≡ value 3)
    × ((is_pull to_read ≡ true)
        ⊎ (p2p_message {E = DaemonError} read_it StormApp.chat ≡ value to_read))
unfolding storm_ext_msg
p2p_message-storm_ext_msg_example = p2p_message-storm_ext_msg to_read 3 StormApp.chat read_it refl
