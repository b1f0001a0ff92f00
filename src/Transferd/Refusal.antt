-- ===== src/Transferd/Refusal.antt =====
-- What transferd refuses.
use storm_node.Base.{◌≡◌, false, Option, none, some, arith}
use storm_node.Base.Action.{error}
use storm_node.Rpc.Ids.{ServiceId}
use storm_node.Bus.{CtlMsg}
use storm_node.Errors.{DaemonError}
use storm_node.World.{Platform, Sys}
use storm_node.Transferd.State.{
  StateTy, StateName, ReceiveStateName, AutomationError, state_name, name_beq, require_state,
}
use storm_node.Transferd.Runtime.{Runtime}
use storm_node.Transferd.Automation.{
  require, handle_receive, handle_container, handle_chunk, handle_announce, handle_send_container,
  handle_send_chunks,
}
use storm_node.Transferd.Service.{handle_ctl}

-- The state that an instruction is for.
abbrev pub state_for : CtlMsg → Option StateName
state_for (CtlMsg.get_container _) = some StateTy.free
state_for (CtlMsg.announce_container _) = some StateTy.free
state_for (CtlMsg.send_container _) = some StateTy.free
state_for (CtlMsg.send_chunks _) = some StateTy.free
state_for (CtlMsg.process_container _) = some (StateTy.receive ReceiveStateName.awaiting_container)
state_for (CtlMsg.process_chunk _) = some (StateTy.receive ReceiveStateName.receiving_chunks)
state_for _ = none

-- An instruction for another state than the daemon is in changes nothing and sends nothing, to
-- stormd neither: its only effect is the error, which names `Free` as the state that was expected.
pub handle_ctl-refuses :
    (p : Platform) (me source : ServiceId) (msg : CtlMsg) (name : StateName) (s : Sys Runtime)
    → state_for msg ≡ some name
    → name_beq (state_name s.rt.state) name ≡ false
    → handle_ctl p me source msg s ≡ (
      error (
          DaemonError.transfer_automation
            (AutomationError.invalid_state StateTy.free (state_name s.rt.state))),
      s,
    )
unfolding handle_ctl handle_receive handle_container handle_chunk handle_announce
    handle_send_container handle_send_chunks require require_state
handle_ctl-refuses p me source (CtlMsg.get_container m) name s f h = ground arith
handle_ctl-refuses p me source (CtlMsg.announce_container m) name s f h = ground arith
handle_ctl-refuses p me source (CtlMsg.send_container m) name s f h = ground arith
handle_ctl-refuses p me source (CtlMsg.send_chunks m) name s f h = ground arith
handle_ctl-refuses p me source (CtlMsg.process_container m) name s f h = ground arith
handle_ctl-refuses p me source (CtlMsg.process_chunk m) name s f h = ground arith
handle_ctl-refuses p me source msg name s f h = cc
