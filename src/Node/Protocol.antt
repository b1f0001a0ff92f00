-- ===== src/Node/Protocol.antt =====
-- What the daemons of a node say to each other, in every state that the node can come to.
use storm_node.Base.{
  ◌≡◌, ◌∙◌, inl, inr, refl, subst, Bool, Bool-cases, true, ◌&&◌, ◌==◌, [], ◌∷◌, if◌then◌else◌, Has,
  arith, nat_eq, nat_beq_iff,
}
use storm_node.Wire.{DaemonId}
use storm_node.Rpc.Ids.{ServiceId, is_stormd}
use storm_node.Bus.{Packet, opens}
use storm_node.Bus.Protocol.{stormd_says, transferd_says, chatd_says, downpourd_says}
use storm_node.Config.{Config, StormConfig, to_shared}
use storm_node.World.{Sys, Request, Event, Log, sends_in}
use storm_node.World.Serve.{Manner, manner}
use storm_node.Stormd.Handlers
use storm_node.Stormd.Start
use storm_node.Stormd.Sends.{IsReady, handle-Stays, on_ready-Stays}
use storm_node.Stormd.Panics.{stormd_manner, handle-manner}
use storm_node.Transferd
use storm_node.Transferd.Sends.{transferd-handle-Same, transferd-on_ready-Same}
use storm_node.Transferd.Panics.{transferd_manner, transferd-manner}
use storm_node.Node.Buses.{
  chatd-handle-Same, chatd-on_ready-Same, downpourd-handle-Same, downpourd-on_ready-Same,
}
use storm_node.Node.System.{
  Platforms, Node, initial, update, Sent, by_storm, by_transfer, by_chat, by_downpour, Step, Reach,
  start, later, storm_starts, transfer_starts, chat_starts, downpour_starts, storm_hears,
  transfer_hears, chat_hears, downpour_hears,
}

-- A transfer daemon has its own name and has said only what is its to say.
abbrev pub IsProper : DaemonId → Sys Transferd.Runtime.Runtime → Type 0
IsProper d t = (t.rt.id ≡ d) × (sends_in (transferd_says d) t.log ≡ true)

-- So have all daemons, and only instructions wait at stormd.
pub record IsOrderly (n : Node) : Type 0 where
  pub ready : IsReady n.storm
  pub storm : sends_in stormd_says n.storm.log ≡ true
  pub transfer : (d : DaemonId) → IsProper d (n.transfer d)
  pub chat : sends_in chatd_says n.chat.log ≡ true
  pub downpour : sends_in downpourd_says n.downpour.log ≡ true

update-IsProper :
    (f : DaemonId → Sys Transferd.Runtime.Runtime) (d : DaemonId)
    (t : Sys Transferd.Runtime.Runtime)
    → ((e : DaemonId) → IsProper e (f e))
    → IsProper d t
    → (e : DaemonId) → IsProper e (update f d t e)
update-IsProper f d t all one e = elim (Bool-cases (d == e)) [
  | inl same ↦ rw same (subst (λ x. IsProper x t) ((nat_beq_iff d e).0 same) one)
  | inr other ↦ rw other (all e)
]

pub says-Has :
    (says : Packet → Bool) (packet : Packet) (log : Log)
    → sends_in says log ≡ true
    → Has (Event.done (Request.send packet)) log
    → says packet ≡ true
says-Has says packet [] h i = absurd i
says-Has says packet (x ∷ log) h (inl e) = ground (arith, e, h)
says-Has says packet (x ∷ log) h (inr i) = says-Has says packet log (ground (arith, h)) i

module _ (p : Platforms) (config : Config StormConfig) where
  IsProper-handled :
      (d : DaemonId) (packet : Packet) (t : Sys Transferd.Runtime.Runtime)
      → IsProper d t
      → IsProper d
          (Transferd.Service.handle (p.transfer d) packet.bus packet.request packet.source t).1
  IsProper-handled d packet t h =
      let (name, log, more) =
        transferd-handle-Same (p.transfer d) (λ x. true) t packet.bus packet.request
          packet.source in
      ground (arith, h, name, log)

  IsProper-started :
      (d : DaemonId) (t : Sys Transferd.Runtime.Runtime)
      → IsProper d t
      → IsProper d (Transferd.Runtime.on_ready (p.transfer d) t).1
  IsProper-started d t h =
      let (name, log, more) = transferd-on_ready-Same (p.transfer d) (λ x. true) t in
      ground (arith, h, name, log)

  initial-IsOrderly : IsOrderly (initial config)
  initial-IsOrderly = record {
    ready = refl;
    storm = refl;
    transfer = λ d. (refl, refl);
    chat = refl;
    downpour = refl;
  }

  Step-IsOrderly : (n m : Node) → Step p config n m → IsOrderly n → IsOrderly m
  Step-IsOrderly n m storm_starts h =
      let stays = on_ready-Stays p.storm n.storm h.ready in
      record {
        ready = stays.0;
        storm = stays.1 ∙ h.storm;
        transfer = h.transfer;
        chat = h.chat;
        downpour = h.downpour;
      }
  Step-IsOrderly n m (transfer_starts d) h = record {
    ready = h.ready;
    storm = h.storm;
    transfer =
        update-IsProper n.transfer d _ h.transfer
          (IsProper-started d (n.transfer d) (h.transfer d));
    chat = h.chat;
    downpour = h.downpour;
  }
  Step-IsOrderly n m chat_starts h = record {
    ready = h.ready;
    storm = h.storm;
    transfer = h.transfer;
    chat = chatd-on_ready-Same p.chat n.chat ∙ h.chat;
    downpour = h.downpour;
  }
  Step-IsOrderly n m downpour_starts h = record {
    ready = h.ready;
    storm = h.storm;
    transfer = h.transfer;
    chat = h.chat;
    downpour = downpourd-on_ready-Same p.downpour n.downpour ∙ h.downpour;
  }
  Step-IsOrderly n m (storm_hears packet comes dest bus) h =
      let stays = handle-Stays p.storm packet.bus packet.request packet.source n.storm h.ready in
      record {
        ready = stays.0;
        storm = stays.1 ∙ h.storm;
        transfer = h.transfer;
        chat = h.chat;
        downpour = h.downpour;
      }
  Step-IsOrderly n m (transfer_hears d packet comes dest bus) h = record {
    ready = h.ready;
    storm = h.storm;
    transfer =
        update-IsProper n.transfer d _ h.transfer
          (IsProper-handled d packet (n.transfer d) (h.transfer d));
    chat = h.chat;
    downpour = h.downpour;
  }
  Step-IsOrderly n m (chat_hears packet comes dest bus) h = record {
    ready = h.ready;
    storm = h.storm;
    transfer = h.transfer;
    chat = chatd-handle-Same p.chat n.chat packet.bus packet.request packet.source ∙ h.chat;
    downpour = h.downpour;
  }
  Step-IsOrderly n m (downpour_hears packet comes dest bus) h = record {
    ready = h.ready;
    storm = h.storm;
    transfer = h.transfer;
    chat = h.chat;
    downpour =
        downpourd-handle-Same p.downpour n.downpour packet.bus packet.request packet.source
        ∙ h.downpour;
  }

  pub Reach-IsOrderly : {n : Node} → Reach p config n → IsOrderly n
  Reach-IsOrderly start = initial-IsOrderly
  Reach-IsOrderly (later {n} {m} r step) = Step-IsOrderly n m step (Reach-IsOrderly r)

  -- How the daemon of the node that a packet reaches deals with it; what reaches none is let pass.
  abbrev pub answered : Node → Packet → Manner
  answered n packet =
      if is_stormd packet.dest && opens (Start.buses config) packet.bus
      then manner (Handlers.handle p.storm packet.bus packet.request packet.source n.storm).0
      else elim packet.dest [
        | ServiceId.transfer d ↦
            (if opens (Transferd.Runtime.buses (to_shared config)) packet.bus
              then manner
                  (Transferd.Service.handle (p.transfer d) packet.bus packet.request packet.source
                    (n.transfer d)).0
              else Manner.taken)
        | _ ↦ Manner.taken
      ]

  -- The same by the tables.
  abbrev expected : Packet → Manner
  expected packet =
      if is_stormd packet.dest && opens (Start.buses config) packet.bus
      then stormd_manner packet.bus packet.request packet.source
      else elim packet.dest [
        | ServiceId.transfer d ↦
            (if opens (Transferd.Runtime.buses (to_shared config)) packet.bus
              then transferd_manner packet.bus packet.request
              else Manner.taken)
        | _ ↦ Manner.taken
      ]

  answered-expected : (n : Node) (packet : Packet) → answered n packet ≡ expected packet
  answered-expected n packet = grind (
    arith,
    handle-manner p.storm packet.bus packet.request packet.source n.storm,
    λ (d : DaemonId).
        transferd-manner (p.transfer d) packet.bus packet.request packet.source (n.transfer d),
  )

  storm-taken : (packet : Packet) → stormd_says packet ≡ true → expected packet ≡ Manner.taken
  unfolding Start.buses Transferd.Runtime.buses
  storm-taken packet h = ground (arith, h)

  transfer-taken :
      (d : DaemonId) (packet : Packet)
      → transferd_says d packet ≡ true
      → expected packet ≡ Manner.taken
  unfolding Start.buses Transferd.Runtime.buses
  transfer-taken d packet h = ground (arith, h)

  chat-taken : (packet : Packet) → chatd_says packet ≡ true → expected packet ≡ Manner.taken
  unfolding Start.buses Transferd.Runtime.buses
  chat-taken packet h = ground (arith, h)

  downpour-taken : (packet : Packet) → downpourd_says packet ≡ true → expected packet ≡ Manner.taken
  unfolding Start.buses Transferd.Runtime.buses
  downpour-taken packet h = ground (arith, h)

  -- In every state that a node can come to, whatever others send under their own names, the
  -- platforms answer and however packets are lost, repeated or reordered: a packet that a daemon
  -- of the node has sent is taken on by the daemon that it is for, which neither refuses it as
  -- unsupported nor panics on it, if that daemon is stormd or a transfer daemon and opens the bus
  -- of the packet.
  pub Reach-answered :
      (n : Node) (packet : Packet)
      → Reach p config n
      → Sent n packet
      → answered n packet ≡ Manner.taken
  Reach-answered n packet r (by_storm i) =
      let h = says-Has stormd_says packet n.storm.log (Reach-IsOrderly r).storm i in
      answered-expected n packet ∙ storm-taken packet h
  Reach-answered n packet r (by_transfer d i) =
      let h =
        says-Has (transferd_says d) packet (n.transfer d).log ((Reach-IsOrderly r).transfer d).1
          i in
      answered-expected n packet ∙ transfer-taken d packet h
  Reach-answered n packet r (by_chat i) =
      let h = says-Has chatd_says packet n.chat.log (Reach-IsOrderly r).chat i in
      answered-expected n packet ∙ chat-taken packet h
  Reach-answered n packet r (by_downpour i) =
      let h = says-Has downpourd_says packet n.downpour.log (Reach-IsOrderly r).downpour i in
      answered-expected n packet ∙ downpour-taken packet h
