-- ===== src/Ext/RoundTrip.antt =====
-- The two conversions between messages of peers and messages of apps.
use storm_node.Base.{◌≡◌, ◌⊎◌, Bool, true, false, some, arith}
use storm_node.Base.Action.{ok, err, value}
use storm_node.Wire.{NodeId, ContainerId, StormApp, Messages}
use storm_node.Rpc.Messages.{AddressedMsg}
use storm_node.Errors.{DaemonError}
use storm_node.Bus.{CtlMsg}
use storm_node.World.{Platform}
use storm_node.Stormd.Handlers.{transfer_instr}
use storm_node.Ext.{ExtMsg, storm_ext_msg, remote_id, p2p_message}

abbrev pub is_pull : Messages → Bool
is_pull (Messages.pull_container _) = true
is_pull _ = false

-- What reaches an app from a peer names that peer, and the app's own reply path turns it back into
-- the message that the peer sent; a request for a container is the one message without a way back.
pub p2p_message-storm_ext_msg :
    (mesg : Messages) (remote : NodeId) (app : StormApp) (msg : ExtMsg)
    → storm_ext_msg mesg remote ≡ ok (app, msg)
    → (remote_id {E = DaemonError} msg ≡ value remote)
      × ((is_pull mesg ≡ true) ⊎ (p2p_message {E = DaemonError} msg app ≡ value mesg))
unfolding storm_ext_msg remote_id p2p_message
p2p_message-storm_ext_msg mesg remote app msg h = ground arith

abbrev with_remote : {T : Type 0} → NodeId → AddressedMsg T → AddressedMsg T
with_remote remote m = record m { remote_id = remote }

-- The same message, from or to another peer.
abbrev pub readdressed : NodeId → ExtMsg → ExtMsg
readdressed remote (ExtMsg.register_app app) = ExtMsg.register_app app
readdressed remote (ExtMsg.list_topics m) = ExtMsg.list_topics (with_remote remote m)
readdressed remote (ExtMsg.topics m) = ExtMsg.topics (with_remote remote m)
readdressed remote (ExtMsg.propose_topic m) = ExtMsg.propose_topic (with_remote remote m)
readdressed remote (ExtMsg.post m) = ExtMsg.post (with_remote remote m)
readdressed remote (ExtMsg.read m) = ExtMsg.read (with_remote remote m)
readdressed remote (ExtMsg.container_announcement m) =
    ExtMsg.container_announcement (with_remote remote m)
readdressed remote (ExtMsg.container_retrieved c) = ExtMsg.container_retrieved c
readdressed remote (ExtMsg.retrieve_container m) = ExtMsg.retrieve_container (with_remote remote m)
readdressed remote (ExtMsg.send_container m) = ExtMsg.send_container (with_remote remote m)
readdressed remote (ExtMsg.decline m) = ExtMsg.decline (with_remote remote m)
readdressed remote (ExtMsg.accept m) = ExtMsg.accept (with_remote remote m)

-- What an app sends to a peer reaches the app of the same number there as the message that was
-- sent, with the sender's id in place of the receiver's.
pub storm_ext_msg-p2p_message :
    (msg : ExtMsg) (app : StormApp) (mesg : Messages) (sender : NodeId)
    → p2p_message {E = DaemonError} msg app ≡ value mesg
    → storm_ext_msg mesg sender ≡ ok (app, readdressed sender msg)
unfolding storm_ext_msg p2p_message
storm_ext_msg-p2p_message msg app mesg sender h = ground arith

-- A message is for the transfer daemons or for an app, never for both.
pub transfer_instr-or-ext :
    (p : Platform) (mesg : Messages) (remote : NodeId) (c : ContainerId) (instr : CtlMsg)
    → transfer_instr p remote mesg ≡ some (c, instr)
    → storm_ext_msg mesg remote ≡ err mesg
unfolding transfer_instr storm_ext_msg
transfer_instr-or-ext p mesg remote c instr h = ground arith
