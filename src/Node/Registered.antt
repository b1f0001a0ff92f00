-- ===== src/Node/Registered.antt =====
-- Which apps are registered at stormd, in every state that a node can come to.
use storm_node.Base.{
  ◌≡◌, sym, ap, ◌∙◌, ◌++◌, Bool, inl, inr, true, false, ◌||◌, ◌&&◌, List, [], ◌∷◌, arith, nat_eq,
  ◌==◌,
}
use storm_node.Wire.{StormApp, app_eq, app_beq_iff}
use storm_node.Rpc.Ids.{ServiceId}
use storm_node.Ext.{ExtMsg}
use storm_node.Bus.{Packet, BusMsg}
use storm_node.Bus.Protocol.{stormd_says, transferd_says, chatd_says, downpourd_says}
use storm_node.Config.{Config, StormConfig}
use storm_node.World.{Sys}
use storm_node.World.Effects.{launch}
use storm_node.Stormd.Runtime
use storm_node.Stormd.Apps.{is_registered, handle-registered}
use storm_node.Node.System.{
  Platforms, Node, Comes, by_storm, by_transfer, by_chat, by_downpour, is_outside, Step, Reach,
  start, later, heard, step_heard, storm_starts, transfer_starts, chat_starts, downpour_starts,
  storm_hears, transfer_hears, chat_hears, downpour_hears,
}
use storm_node.Node.Protocol.{IsOrderly, says-Has, Reach-IsOrderly}

-- An app's own registration.
abbrev pub registers : StormApp → Packet → Bool
registers app packet = elim packet.request [
  | BusMsg.storm (ExtMsg.register_app a) ↦ elim packet.source [
    | ServiceId.storm_app b ↦ app == a && app == b
    | _ ↦ false
  ]
  | _ ↦ false
]

abbrev pub any_registers : StormApp → List Packet → Bool
any_registers app [] = false
any_registers app (packet ∷ packets) = registers app packet || any_registers app packets

-- No daemon of the node registers, so that the app is none of its own.
Comes-outside :
    (n : Node) (app : StormApp) (packet : Packet)
    → IsOrderly n
    → Comes n packet
    → packet.request ≡ BusMsg.storm (ExtMsg.register_app app)
    → packet.source ≡ ServiceId.storm_app app
    → is_outside (ServiceId.storm_app app) ≡ true
Comes-outside n app packet o (inr out) h s = ap is_outside (sym s) ∙ out
Comes-outside n app packet o (inl (by_storm i)) h s =
    let own = says-Has stormd_says packet n.storm.log o.storm i in ground (arith, own, s)
Comes-outside n app packet o (inl (by_transfer e i)) h s =
    let own = says-Has (transferd_says e) packet (n.transfer e).log (o.transfer e).1 i in
    ground (arith, own, s)
Comes-outside n app packet o (inl (by_chat i)) h s =
    let own = says-Has chatd_says packet n.chat.log o.chat i in ground (arith, own, h)
Comes-outside n app packet o (inl (by_downpour i)) h s =
    let own = says-Has downpourd_says packet n.downpour.log o.downpour i in ground (arith, own, h)

own-registers :
    (app : StormApp) (packet : Packet)
    → packet.request ≡ BusMsg.storm (ExtMsg.register_app app)
    → packet.source ≡ ServiceId.storm_app app
    → registers app packet ≡ true
own-registers app packet h s = rw (h, s) (ground (arith, app_beq_iff app app))

module _ (p : Platforms) (config : Config StormConfig) (app : StormApp) where
  abbrev IsOwn : Node → List Packet → Type 0
  IsOwn n packets =
      is_registered app n.storm.rt ≡ true
      → (is_outside (ServiceId.storm_app app) ≡ true) × (any_registers app packets ≡ true)

  apps-on_ready :
      (s : Sys Runtime.Runtime)
      → is_registered app (Runtime.on_ready p.storm s).1.rt ≡ is_registered app s.rt
  unfolding Runtime.on_ready Runtime.start_chat Runtime.start_downpour Runtime.launch_daemon launch
  apps-on_ready s = ground arith

  Step-IsOwn :
      (n m : Node) (step : Step p config n m) (packets : List Packet)
      → IsOrderly n
      → IsOwn n packets
      → IsOwn m (step_heard p config step ++ packets)
  Step-IsOwn n m storm_starts packets o t = λ h. t (sym (apps-on_ready n.storm) ∙ h)
  Step-IsOwn n m (transfer_starts d) packets o t = t
  Step-IsOwn n m chat_starts packets o t = t
  Step-IsOwn n m downpour_starts packets o t = t
  Step-IsOwn n m (storm_hears packet comes dest bus) packets o t = λ h.
      elim (handle-registered p.storm packet.bus packet.request packet.source n.storm app h) [
        | inl before ↦ ground (arith, t before)
        | inr (own, source) ↦ (
          Comes-outside n app packet o comes own source,
          ground (arith, own-registers app packet own source),
        )
      ]
  Step-IsOwn n m (transfer_hears d packet comes dest bus) packets o t = t
  Step-IsOwn n m (chat_hears packet comes dest bus) packets o t = t
  Step-IsOwn n m (downpour_hears packet comes dest bus) packets o t = t

  -- In every state that a node can come to, whatever others send under their own names, the
  -- platforms answer and however packets are lost, repeated or reordered: an app that stormd has
  -- registered has sent its own registration, and is none of the node's own apps: chatd and
  -- downpourd are never registered.
  pub Reach-registered :
      (n : Node) (r : Reach p config n)
      → is_registered app n.storm.rt ≡ true
      → (is_outside (ServiceId.storm_app app) ≡ true)
        × (any_registers app (heard p config r) ≡ true)
  Reach-registered _ start = λ h. ground (arith, h)
  Reach-registered _ (later {n} {m} r step) =
      Step-IsOwn n m step (heard p config r) (Reach-IsOrderly p config r) (Reach-registered n r)
