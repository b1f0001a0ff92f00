-- ===== src/Node/Joined.antt =====
-- Which transfer daemons stormd knows, in every state that a node can come to.
use storm_node.Base.{
  ◌≡◌, sym, subst, inl, inr, Bool, Bool-cases, true, false, ◌||◌, ◌==◌, [], ◌∷◌, Has, arith, nat_eq,
  nat_beq_iff,
}
use storm_node.Wire.{DaemonId}
use storm_node.Bus.{Packet, BusMsg}
use storm_node.Bus.Protocol.{stormd_says, transferd_says, chatd_says, downpourd_says, is_report}
use storm_node.Config.{Config, StormConfig}
use storm_node.World.{Sys, Request, Event, Log, said}
use storm_node.Stormd.Runtime
use storm_node.World.Effects.{launch}
use storm_node.Stormd.Known.{is_known, is_word_of, handle-known}
use storm_node.Stormd.Tasks.{is_met}
use storm_node.Stormd.Met.{handle-Meets, on_ready-Meets}
use storm_node.Transferd
use storm_node.Transferd.Sends.{transferd-handle-Same, transferd-on_ready-Same}
use storm_node.Node.System.{
  Platforms, Node, update, Comes, by_storm, by_transfer, by_chat, by_downpour, Step, Reach, start,
  later, storm_starts, transfer_starts, chat_starts, downpour_starts, storm_hears, transfer_hears,
  chat_hears, downpour_hears,
}
use storm_node.Node.Protocol.{IsOrderly, says-Has, Reach-IsOrderly}

-- A hello, or the report of the end of a task.
abbrev pub is_word : Packet → Bool
is_word packet = elim packet.request [ BusMsg.ctl msg ↦ is_report msg | _ ↦ false ]

-- stormd knows a transfer daemon, has given it a transfer or has sent it a packet.
abbrev pub deals_with : DaemonId → Sys Runtime.Runtime → Bool
deals_with d s = is_met d s || is_known d s.rt

-- Each daemon that stormd deals with has said a word to it.
abbrev pub IsHeard : Node → Type 0
IsHeard n = (d : DaemonId) → deals_with d n.storm ≡ true → said is_word (n.transfer d).log ≡ true

pub Has-said :
    (kind : Packet → Bool) (packet : Packet) (log : Log)
    → Has (Event.done (Request.send packet)) log
    → kind packet ≡ true
    → said kind log ≡ true
Has-said kind packet [] i h = absurd i
Has-said kind packet (x ∷ log) (inl e) h = ground (arith, e, h)
Has-said kind packet (x ∷ log) (inr i) h = ground (arith, Has-said kind packet log i h)

word-own :
    (d e : DaemonId) (packet : Packet)
    → is_word_of d packet.bus packet.request packet.source ≡ true
    → transferd_says e packet ≡ true
    → (e ≡ d) × (is_word packet ≡ true)
word-own d e packet w h = ground (arith, w, h, nat_beq_iff d, nat_beq_iff e)

-- A transfer daemon's word that comes to stormd was sent by that daemon.
word-said :
    (n : Node) (d : DaemonId) (packet : Packet)
    → IsOrderly n
    → Comes n packet
    → is_word_of d packet.bus packet.request packet.source ≡ true
    → said is_word (n.transfer d).log ≡ true
word-said n d packet o (inr out) w = ground (arith, out, w)
word-said n d packet o (inl (by_storm i)) w =
    let h = says-Has stormd_says packet n.storm.log o.storm i in ground (arith, w, h)
word-said n d packet o (inl (by_chat i)) w =
    let h = says-Has chatd_says packet n.chat.log o.chat i in ground (arith, w, h)
word-said n d packet o (inl (by_downpour i)) w =
    let h = says-Has downpourd_says packet n.downpour.log o.downpour i in ground (arith, w, h)
word-said n d packet o (inl (by_transfer e i)) w =
    let h = says-Has (transferd_says e) packet (n.transfer e).log (o.transfer e).1 i in
    let (own, word) = word-own d e packet w h in
    subst (λ x. said is_word (n.transfer x).log ≡ true) own
      (Has-said is_word packet (n.transfer e).log i word)

module _ (p : Platforms) (config : Config StormConfig) where
  update-said :
      (n : Node) (e : DaemonId) (t : Sys Transferd.Runtime.Runtime)
      → (said is_word (n.transfer e).log ≡ true → said is_word t.log ≡ true)
      → IsHeard n
      → IsHeard (record n { transfer = update n.transfer e t })
  update-said n e t more h d k = elim (Bool-cases (e == d)) [
    | inl same ↦ rw same (
        more (
          subst (λ x. said is_word (n.transfer x).log ≡ true) (sym ((nat_beq_iff e d).0 same))
            (h d k)))
    | inr other ↦ rw other (h d k)
  ]

  rt-on_ready : (s : Sys Runtime.Runtime) → (Runtime.on_ready p.storm s).1.rt ≡ s.rt
  unfolding Runtime.on_ready Runtime.start_chat Runtime.start_downpour Runtime.launch_daemon launch
  rt-on_ready s = ground arith

  Step-IsHeard : (n m : Node) → Step p config n m → IsOrderly n → IsHeard n → IsHeard m
  Step-IsHeard n m storm_starts o h =
      λ d k. h d (ground (arith, k, rt-on_ready n.storm, on_ready-Meets p.storm n.storm d))
  Step-IsHeard n m (transfer_starts e) o h =
      update-said n e _ (transferd-on_ready-Same (p.transfer e) is_word (n.transfer e)).2 h
  Step-IsHeard n m chat_starts o h = h
  Step-IsHeard n m downpour_starts o h = h
  Step-IsHeard n m (storm_hears packet comes dest bus) o h = λ d k.
      let known = handle-known p.storm packet.bus packet.request packet.source n.storm d in
      let met = handle-Meets p.storm packet.bus packet.request packet.source n.storm d in
      elim (Bool-cases (deals_with d n.storm)) [
        | inl old ↦ h d old
        | inr new ↦ word-said n d packet o comes (ground (arith, known, met, k, new))
      ]
  Step-IsHeard n m (transfer_hears e packet comes dest bus) o h =
      update-said n e _
        (transferd-handle-Same (p.transfer e) is_word (n.transfer e) packet.bus packet.request
          packet.source).2
        h
  Step-IsHeard n m (chat_hears packet comes dest bus) o h = h
  Step-IsHeard n m (downpour_hears packet comes dest bus) o h = h

  Reach-IsHeard : (n : Node) → Reach p config n → IsHeard n
  Reach-IsHeard _ start = λ d k. ground (arith, k)
  Reach-IsHeard _ (later {n} {m} r step) =
      Step-IsHeard n m step (Reach-IsOrderly p config r) (Reach-IsHeard n r)

  -- In every state that a node can come to, whatever others send under their own names, the
  -- platforms answer and however packets are lost, repeated or reordered: a transfer daemon that
  -- stormd knows as free or busy, has given a transfer or has sent a packet, has itself sent a
  -- hello or the report of an end, and its bus took it.
  pub Reach-deals_with :
      (n : Node) (d : DaemonId)
      → Reach p config n
      → deals_with d n.storm ≡ true
      → said is_word (n.transfer d).log ≡ true
  Reach-deals_with n d r = Reach-IsHeard n r d
