-- ===== src/Node/Authentic.antt =====
-- Whose words chatd publishes, in every state that a node can come to.
use storm_node.Base.{
  ◌≡◌, sym, ◌∙◌, ◌++◌, Bool, Bool-cases, inl, inr, String, true, false, ◌||◌, ◌&&◌, List, [], ◌∷◌,
  arith, nat_eq,
}
use storm_node.Wire.{NodeId, StormApp, Mesg}
use storm_node.Rpc.Ids.{is_stormd}
use storm_node.Rpc.Messages.{RadioMsg}
use storm_node.Bus.{Packet, BusMsg}
use storm_node.Bus.Protocol.{transferd_says, chatd_says, downpourd_says, is_app}
use storm_node.Bus.Responder.{send_ext, send_radio, send_ctl}
use storm_node.Config.{Config, StormConfig}
use storm_node.Errors.{wrong_esb_msg}
use storm_node.World.{Platform, Sys, said}
use storm_node.Stormd.Posts.{posts, brings, handle-From, on_ready-posted}
use storm_node.Chatd
use storm_node.Node.System.{
  Platforms, Node, Comes, by_storm, by_transfer, by_chat, by_downpour, Step, Reach, start, later,
  heard, step_heard, storm_starts, transfer_starts, chat_starts, downpour_starts, storm_hears,
  transfer_hears, chat_hears, downpour_hears,
}
use storm_node.Node.Protocol.{IsOrderly, says-Has, Reach-IsOrderly}
use storm_node.Node.Joined.{Has-said}

-- A text that is published under a peer's id, of a given kind.
abbrev pub publishes : (NodeId → String → Bool) → Packet → Bool
publishes about packet = elim packet.request [
  | BusMsg.chat (RadioMsg.received m) ↦ about m.remote_id m.content
  | _ ↦ false
]

-- What chatd makes of a message is of that kind.
abbrev pub reads : Platform → (NodeId → String → Bool) → NodeId → Mesg → Bool
reads p about remote mesg = about remote (p.from_utf8_lossy mesg.body)

module _ (p : Platform) (about : NodeId → String → Bool) where
  chat-published :
      (packet : Packet) (f : Sys (Unit {0}))
      → is_app StormApp.chat packet.dest ≡ true
      → said (publishes about) (Chatd.handle p packet.bus packet.request packet.source f).1.log
        ≡ true
      → (said (publishes about) f.log || (is_stormd packet.source && posts (reads p about) packet))
        ≡ true
  unfolding Chatd.handle Chatd.handle_storm Chatd.handle_rpc Chatd.handle_ctl send_ext send_radio
      wrong_esb_msg
  chat-published packet f dest h = ground (arith, dest, h)

  chat-on_ready :
      (f : Sys (Unit {0}))
      → said (publishes about) (Chatd.on_ready p f).1.log ≡ said (publishes about) f.log
  unfolding Chatd.on_ready send_ctl
  chat-on_ready f = ground arith

module _ (p : Platforms) (config : Config StormConfig) (about : NodeId → String → Bool) where
  abbrev kind : NodeId → Mesg → Bool
  kind = reads p.chat about

  -- Whether one of the packets brings stormd a chat message of that kind from a peer.
  abbrev pub any_brought : List Packet → Bool
  any_brought [] = false
  any_brought (packet ∷ packets) =
      brings p.storm kind packet.bus packet.request packet.source || any_brought packets

  -- A packet for chatd with stormd's name was sent by stormd.
  Comes-posted :
      (n : Node) (packet : Packet)
      → IsOrderly n
      → Comes n packet
      → is_stormd packet.source ≡ true
      → posts kind packet ≡ true
      → said (posts kind) n.storm.log ≡ true
  Comes-posted n packet o (inr out) s h = ground (arith, out, s)
  Comes-posted n packet o (inl (by_storm i)) s h = Has-said (posts kind) packet n.storm.log i h
  Comes-posted n packet o (inl (by_transfer e i)) s h =
      let own = says-Has (transferd_says e) packet (n.transfer e).log (o.transfer e).1 i in
      ground (arith, own, s)
  Comes-posted n packet o (inl (by_chat i)) s h =
      let own = says-Has chatd_says packet n.chat.log o.chat i in ground (arith, own, s)
  Comes-posted n packet o (inl (by_downpour i)) s h =
      let own = says-Has downpourd_says packet n.downpour.log o.downpour i in ground (arith, own, s)

  -- What stormd posted and what chatd published was brought by one of the packets.
  abbrev IsTraced : Node → List Packet → Type 0
  IsTraced n packets =
      (said (posts kind) n.storm.log ≡ true → any_brought packets ≡ true)
      × (said (publishes about) n.chat.log ≡ true → any_brought packets ≡ true)

  Step-IsTraced :
      (n m : Node) (step : Step p config n m) (packets : List Packet)
      → IsOrderly n
      → IsTraced n packets
      → IsTraced m (step_heard p config step ++ packets)
  Step-IsTraced n m storm_starts packets o t =
      (λ h. t.0 (sym (on_ready-posted p.storm kind n.storm) ∙ h), t.1)
  Step-IsTraced n m (transfer_starts d) packets o t = t
  Step-IsTraced n m chat_starts packets o t =
      (t.0, λ h. t.1 (sym (chat-on_ready p.chat about n.chat) ∙ h))
  Step-IsTraced n m downpour_starts packets o t = t
  Step-IsTraced n m (storm_hears packet comes dest bus) packets o t =
      let from = handle-From p.storm kind packet.bus packet.request packet.source n.storm in
      (λ h. ground (arith, from h, t.0), λ h. ground (arith, t.1 h))
  Step-IsTraced n m (transfer_hears d packet comes dest bus) packets o t = t
  Step-IsTraced n m (chat_hears packet comes dest bus) packets o t = (
    t.0,
    λ h.
        let told = chat-published p.chat about packet n.chat dest h in
        elim (Bool-cases (said (publishes about) n.chat.log)) [
          | inl old ↦ t.1 old
          | inr new ↦
              (let both : (is_stormd packet.source ≡ true) × (posts kind packet ≡ true) =
                  ground (arith, told, new) in
                t.0 (Comes-posted n packet o comes both.0 both.1))
        ],
  )
  Step-IsTraced n m (downpour_hears packet comes dest bus) packets o t = t

  Reach-IsTraced : (n : Node) (r : Reach p config n) → IsTraced n (heard p config r)
  Reach-IsTraced _ start = (λ h. ground (arith, h), λ h. ground (arith, h))
  Reach-IsTraced _ (later {n} {m} r step) =
      Step-IsTraced n m step (heard p config r) (Reach-IsOrderly p config r) (Reach-IsTraced n r)

  -- In every state that a node can come to, whatever others send under their own names, the
  -- platforms answer and however packets are lost, repeated or reordered: a text that chatd has
  -- published under the id of a peer came to stormd in a chat message that this very peer sent. No
  -- client, app or daemon can make chatd publish a text under the id of a peer. (Whatever is asked
  -- of the id and the text: if it holds of one that was published, it holds of the sender and the
  -- text of a message that stormd got over the bus of the peers.)
  pub Reach-publishes :
      (n : Node) (r : Reach p config n)
      → said (publishes about) n.chat.log ≡ true
      → any_brought (heard p config r) ≡ true
  Reach-publishes n r = (Reach-IsTraced n r).1
