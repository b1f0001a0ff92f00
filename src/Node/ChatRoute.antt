-- ===== src/Node/ChatRoute.antt =====
-- The way of a chat message: chatd at the sender, stormd there, stormd at the receiver, and chatd
-- there, which publishes the text for the receiver's client.
use storm_node.Base.{String, ◌≡◌, none, some, [], ◌∷◌, arith}
use storm_node.Base.Action.{Outcome, ok}
use storm_node.Wire.{NodeId, ClientId, StormApp, Mesg, Messages}
use storm_node.Rpc.Ids.{ServiceId, stormd, chatd}
use storm_node.Rpc.Messages.{RpcMsg, RadioMsg}
use storm_node.Ext.{ExtMsg, storm_ext_msg, remote_id, p2p_message}
use storm_node.Bus.{ServiceBus, BusMsg, Packet}
use storm_node.Bus.Responder.{send_p2p, send_ext, send_radio, p2p_packet, ext_packet, radio_packet}
use storm_node.Errors.{DaemonError}
use storm_node.World.{Platform, Sys, Request, Event, Log}
use storm_node.Stormd.Runtime.{Runtime}
use storm_node.Stormd.Handlers
use storm_node.Chatd

-- The newest event of a log is that a packet was sent.
abbrev pub LastSent : Log → Packet → Type 0
LastSent [] packet = ⊥
LastSent (e ∷ log) packet = e ≡ Event.done (Request.send packet)

abbrev pub on_chatd :
    Platform → Packet → Sys (Unit {0}) → Outcome DaemonError (Unit {0}) × Sys (Unit {0})
on_chatd p packet = Chatd.handle p packet.bus packet.request packet.source

abbrev pub on_stormd :
    Platform → Packet → Sys Runtime → Outcome DaemonError (Unit {0}) × Sys Runtime
on_stormd p packet = Handlers.handle p packet.bus packet.request packet.source

-- What the peer's connection makes of a packet for it that `sender` sent.
abbrev pub from_peer : NodeId → Packet → Packet
from_peer sender packet = record {
  bus = ServiceBus.msg;
  source = ServiceId.peer sender;
  dest = stormd;
  request = packet.request;
}

-- The message that chatd makes of a text.
abbrev pub chat_mesg : Platform → String → Mesg
chat_mesg p text = record { parent_id = none; body = p.into_bytes text; container_ids = [] }

abbrev pub chat_post : Platform → String → Messages
chat_post p text = Messages.post (record { app = StormApp.chat; content = chat_mesg p text })

module _ (p q : Platform) (a b : NodeId) (c : ClientId) (text : String) where
  -- The packets on the way, from the client's request to the publication.
  abbrev pub asked : Packet
  asked = record {
    bus = ServiceBus.rpc;
    source = ServiceId.client c;
    dest = chatd;
    request = BusMsg.rpc (RpcMsg.send_chat (record { remote_id = b; content = text }));
  }

  abbrev pub posted : Packet
  posted =
      ext_packet chatd none (ExtMsg.post (record { remote_id = b; content = chat_mesg p text }))

  abbrev pub crossing : Packet
  crossing = p2p_packet p stormd b (chat_post p text)

  abbrev pub handed_on : Packet
  handed_on =
      ext_packet stormd (some StormApp.chat)
        (ExtMsg.post (record { remote_id = a; content = chat_mesg p text }))

  abbrev pub published : Packet
  published = radio_packet chatd (RadioMsg.received (record { remote_id = a; content = text }))

  -- A text that a client gives to its chatd for peer `b` is published at `b` unchanged, under the
  -- sender's id, each daemon handling what the one before it sent. (The buses take every packet,
  -- the receiver reads the sender's encoding of this message back, and the text is valid UTF-8.)
  pub chat_arrives :
      ((log : Log) (packet : Packet) → p.transport log packet ≡ none)
      → ((log : Log) (packet : Packet) → q.transport log packet ≡ none)
      → q.unmarshall (p.serialize (chat_post p text)) ≡ ok (chat_post p text)
      → q.from_utf8_lossy (p.into_bytes text) ≡ text
      → (s₁ s₄ : Sys (Unit {0})) (s₂ s₃ : Sys Runtime)
      → LastSent (on_chatd p asked s₁).1.log posted
        × LastSent (on_stormd p posted s₂).1.log crossing
        × LastSent (on_stormd q (from_peer a crossing) s₃).1.log handed_on
        × LastSent (on_chatd q handed_on s₄).1.log published
  unfolding Chatd.handle Chatd.handle_rpc Chatd.handle_storm Handlers.handle Handlers.handle_app
      Handlers.forward_p2p Handlers.handle_p2p Handlers.route_p2p Handlers.transfer_instr
      Handlers.route_ext storm_ext_msg remote_id p2p_message send_ext send_p2p send_radio
  chat_arrives sp sq codec utf s₁ s₄ s₂ s₃ = (
    ground (arith, sp s₁.log posted),
    ground (arith, sp s₂.log crossing),
    ground (arith, sq s₃.log handed_on),
    ground (arith, sq s₄.log published),
  )
