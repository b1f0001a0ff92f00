-- ===== src/World/Sends.antt =====
-- Sends of packets that are told apart in two ways which agree.
use storm_node.Base.{◌≡◌, refl, sym, ◌∙◌, Bool, [], ◌∷◌}
use storm_node.Bus.{Packet}
use storm_node.World.{Log, Request, Event, sends_in}

sends_in_cong :
    (f g : Packet → Bool) (log : Log)
    → ((packet : Packet) → f packet ≡ g packet)
    → sends_in f log ≡ sends_in g log
sends_in_cong f g [] h = refl
sends_in_cong f g (Event.done (Request.send packet) ∷ log) h =
    rw (h packet, sends_in_cong f g log h) refl
sends_in_cong f g (Event.failed (Request.send packet) ∷ log) h =
    rw (h packet, sends_in_cong f g log h) refl
sends_in_cong f g (_ ∷ log) h = sends_in_cong f g log h

pub sends_in-same :
    (f g : Packet → Bool) (old new : Log)
    → ((packet : Packet) → f packet ≡ g packet)
    → sends_in g new ≡ sends_in g old
    → sends_in f new ≡ sends_in f old
sends_in-same f g old new h e = sends_in_cong f g new h ∙ e ∙ sym (sends_in_cong f g old h)
