-- ===== src/Transferd/Sending.antt =====
-- The end of a transfer daemon's tasks at the sending side.
use storm_node.Base.{suc, ◌≡◌, refl, none, List, [], ◌∷◌, arith, nat_eq}
use storm_node.Base.Action.{Outcome, value, attempt, ◌>>=◌}
use storm_node.Wire.{NodeId, ContainerId, ChunkId, StormApp}
use storm_node.Rpc.Ids.{ServiceId, stormd}
use storm_node.Bus.{CtlMsg}
use storm_node.Bus.Responder.{send_p2p, send_ctl, ctl_packet}
use storm_node.Errors.{DaemonError}
use storm_node.World.{Platform, Sys, Log, table_chunks}
use storm_node.World.Effects.{retrieve_chunk}
use storm_node.Transferd.State.{StateTy, state_name, require_state}
use storm_node.Transferd.Runtime.{Runtime}
use storm_node.Transferd.Automation.{require, complete, push_chunk, push_chunks, handle_send_chunks}
use storm_node.Transferd.Completion.{completions, reports}

module _ (p : Platform) (me : ServiceId) (app : StormApp) (remote : NodeId) (c : ContainerId) where
  -- It goes on, with its fields as they were, and has reported nothing.
  abbrev pub Goes : Sys Runtime → Outcome DaemonError (Unit {0}) × Sys Runtime → Type 0
  Goes s r =
      (r.0 ≡ value tt)
      × (r.1.rt ≡ s.rt)
      × (completions r.1.log ≡ completions s.log)
      × (reports r.1.log ≡ reports s.log)

  one-Goes :
      (a : ChunkId) (s : Sys Runtime)
      → Goes s (
          (do
            found ← attempt (retrieve_chunk p table_chunks a)
            push_chunk p me app remote c a found)
            s)
  unfolding push_chunk retrieve_chunk send_p2p
  one-Goes a s = ground arith

  pub push_chunks-Goes :
      (ids : List ChunkId) (s : Sys Runtime) → Goes s (push_chunks p me app remote c ids s)
  unfolding push_chunks
  push_chunks-Goes [] s = (refl, refl, refl, refl)
  push_chunks-Goes (a ∷ ids) s = grind (arith, one-Goes a s, push_chunks-Goes ids)

  pub handle_send_chunks-completes :
      (ids : List ChunkId) (s : Sys Runtime)
      → ((log : Log) → p.transport log (ctl_packet me stormd CtlMsg.processing_complete) ≡ none)
      → s.rt.state ≡ StateTy.free
      → let r = handle_send_chunks p me app remote c ids s in
        (r.0 ≡ value tt) × (r.1.rt ≡ s.rt) × (completions r.1.log ≡ suc (completions s.log))
  unfolding handle_send_chunks require require_state state_name complete send_ctl
  handle_send_chunks-completes ids s sends e =
      ground (arith, push_chunks-Goes ids s, sends (push_chunks p me app remote c ids s).1.log)
