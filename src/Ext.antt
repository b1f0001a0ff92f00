-- ===== src/Ext.antt =====
-- The crate of the interface between the node and its extension apps: ext/src/messages.rs.
pub mod RoundTrip
use storm_node.Base.{List, Option, none, some}
use storm_node.Base.Action.{Result, ok, err, Outcome, value, panic}
use storm_node.Wire.{
  Bytes, NodeId, ContainerId, MesgId, Topic, StormApp, ContainerFullId, ContainerInfo, Mesg, AppMsg,
  Messages,
}
use storm_node.Rpc.Messages.{AddressedMsg}

pub data ExtMsg : Type 0 where
  register_app : StormApp → ExtMsg
  list_topics : AddressedMsg (Unit {0}) → ExtMsg
  topics : AddressedMsg (List MesgId) → ExtMsg
  propose_topic : AddressedMsg Topic → ExtMsg
  post : AddressedMsg Mesg → ExtMsg
  read : AddressedMsg MesgId → ExtMsg
  container_announcement : AddressedMsg ContainerInfo → ExtMsg
  container_retrieved : ContainerId → ExtMsg
  retrieve_container : AddressedMsg ContainerFullId → ExtMsg
  send_container : AddressedMsg ContainerFullId → ExtMsg
  decline : AddressedMsg MesgId → ExtMsg
  accept : AddressedMsg MesgId → ExtMsg

abbrev to_ext : {T : Type 0} → (AddressedMsg T → ExtMsg) → NodeId → AppMsg T → StormApp × ExtMsg
to_ext wrap remote_id m = (m.app, wrap (record { remote_id = remote_id; content = m.content }))

-- The app that a message is for and the message itself; a message that is not for an app comes
-- back as the error.
unfoldable pub storm_ext_msg : Messages → NodeId → Result Messages (StormApp × ExtMsg)
storm_ext_msg (Messages.list_topics m) remote_id = ok (to_ext ExtMsg.list_topics remote_id m)
storm_ext_msg (Messages.app_topics m) remote_id = ok (to_ext ExtMsg.topics remote_id m)
storm_ext_msg (Messages.propose_topic m) remote_id = ok (to_ext ExtMsg.propose_topic remote_id m)
storm_ext_msg (Messages.post m) remote_id = ok (to_ext ExtMsg.post remote_id m)
storm_ext_msg (Messages.read m) remote_id = ok (to_ext ExtMsg.read remote_id m)
storm_ext_msg (Messages.announce_container m) remote_id =
    ok (to_ext ExtMsg.container_announcement remote_id m)
storm_ext_msg (Messages.pull_container m) remote_id =
    ok (to_ext ExtMsg.retrieve_container remote_id m)
storm_ext_msg (Messages.decline m) remote_id = ok (to_ext ExtMsg.decline remote_id m)
storm_ext_msg (Messages.accept m) remote_id = ok (to_ext ExtMsg.accept remote_id m)
storm_ext_msg other remote_id = err other

unfoldable pub remote_id : {E : Type 0} → ExtMsg → Outcome E NodeId
remote_id (ExtMsg.register_app _) =
    panic "ExtMsg::remote_id must not be called on ExtMsg::RegisterApp"
remote_id (ExtMsg.container_retrieved _) =
    panic "ExtMsg::remote_id must not be called on ExtMsg::ContainerRetrieved"
remote_id (ExtMsg.list_topics m) = value m.remote_id
remote_id (ExtMsg.topics m) = value m.remote_id
remote_id (ExtMsg.propose_topic m) = value m.remote_id
remote_id (ExtMsg.post m) = value m.remote_id
remote_id (ExtMsg.read m) = value m.remote_id
remote_id (ExtMsg.container_announcement m) = value m.remote_id
remote_id (ExtMsg.retrieve_container m) = value m.remote_id
remote_id (ExtMsg.send_container m) = value m.remote_id
remote_id (ExtMsg.decline m) = value m.remote_id
remote_id (ExtMsg.accept m) = value m.remote_id

abbrev to_app : {T : Type 0} → (AppMsg T → Messages) → StormApp → AddressedMsg T → Messages
to_app wrap app m = wrap (record { app = app; content = m.content })

unfoldable pub p2p_message : {E : Type 0} → ExtMsg → StormApp → Outcome E Messages
p2p_message (ExtMsg.register_app _) app =
    panic "ExtMsg::remote_id must not be called on ExtMsg::RegisterApp"
p2p_message (ExtMsg.list_topics m) app = value (to_app Messages.list_topics app m)
p2p_message (ExtMsg.topics m) app = value (to_app Messages.app_topics app m)
p2p_message (ExtMsg.propose_topic m) app = value (to_app Messages.propose_topic app m)
p2p_message (ExtMsg.post m) app = value (to_app Messages.post app m)
p2p_message (ExtMsg.read m) app = value (to_app Messages.read app m)
p2p_message (ExtMsg.decline m) app = value (to_app Messages.decline app m)
p2p_message (ExtMsg.accept m) app = value (to_app Messages.accept app m)
p2p_message (ExtMsg.container_announcement m) app = value (to_app Messages.announce_container app m)
p2p_message (ExtMsg.send_container _) app = panic "the task is handled by a dedicated daemon"
p2p_message (ExtMsg.retrieve_container _) app = panic "the task is handled by a dedicated daemon"
p2p_message (ExtMsg.container_retrieved _) app = panic "the task is handled by a dedicated daemon"

-- The encoders of what messages carry, of the crates `storm` and `strict_encoding`; none for a failure.
pub record Encoders : Type 0 where
  pub empty : Option Bytes
  pub mesg_ids : List MesgId → Option Bytes
  pub topic : Topic → Option Bytes
  pub mesg : Mesg → Option Bytes
  pub mesg_id : MesgId → Option Bytes
  pub container_info : ContainerInfo → Option Bytes
  pub full_id : ContainerFullId → Option Bytes
  pub container_id : ContainerId → Option Bytes

abbrev expect_payload : {E : Type 0} → Option Bytes → Outcome E Bytes
expect_payload (some bytes) = value bytes
expect_payload none =
    panic "extension-generated message can't be serialized as a bifrost message payload"

unfoldable pub to_payload : {E : Type 0} → Encoders → ExtMsg → Outcome E Bytes
to_payload enc (ExtMsg.register_app _) =
    panic "ExtMsg::to_payload must not be called on ExtMsg::RegisterApp"
to_payload enc (ExtMsg.list_topics m) = expect_payload enc.empty
to_payload enc (ExtMsg.topics m) = expect_payload (enc.mesg_ids m.content)
to_payload enc (ExtMsg.propose_topic m) = expect_payload (enc.topic m.content)
to_payload enc (ExtMsg.post m) = expect_payload (enc.mesg m.content)
to_payload enc (ExtMsg.read m) = expect_payload (enc.mesg_id m.content)
to_payload enc (ExtMsg.decline m) = expect_payload (enc.mesg_id m.content)
to_payload enc (ExtMsg.accept m) = expect_payload (enc.mesg_id m.content)
to_payload enc (ExtMsg.container_announcement m) = expect_payload (enc.container_info m.content)
to_payload enc (ExtMsg.send_container m) = expect_payload (enc.full_id m.content)
to_payload enc (ExtMsg.retrieve_container m) = expect_payload (enc.full_id m.content)
to_payload enc (ExtMsg.container_retrieved id) = expect_payload (enc.container_id id)
