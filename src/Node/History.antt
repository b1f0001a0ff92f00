-- ===== src/Node/History.antt =====
-- What the transfer daemons are given to do, in every state that a node can come to.
use storm_node.Base.{◌≡◌, ◌++◌, Bool, List, [], ◌∷◌}
use storm_node.Bus.{Packet, CtlMsg}
use storm_node.Config.{Config, StormConfig}
use storm_node.World.{Platform}
use storm_node.Stormd.Runtime
use storm_node.Stormd.Jobs.{jobs, amount, total}
use storm_node.Node.System.{Platforms, Node}

-- The jobs that packets bring.
abbrev pub all_jobs : Platform → List Packet → List CtlMsg
all_jobs p [] = []
all_jobs p (packet ∷ packets) = jobs p packet.bus packet.request packet.source ++ all_jobs p packets

module _ (p : Platforms) (config : Config StormConfig) (about : CtlMsg → Bool) where
  abbrev IsGiven : Node → List Packet → Type 0
  IsGiven n packets = total about n.storm ≡ amount about (all_jobs p.storm packets)
