-- ===== src/Transferd/State.antt =====
-- The states of a transfer: the first part of src/transferd/automation.rs.
use storm_node.Base.{ℕ, Bool, true, false, Option, none, some, List, if◌then◌else◌}
use storm_node.Base.Action.{Result, ok, err}
use storm_node.Wire.{NodeId, ClientId, ChunkId, StormApp, ContainerFullId}

pub data StateTy (R : Type 0) : Type 0 where
  free : StateTy R
  receive : R → StateTy R

pub data ReceiveStateName : Type 0 where
  awaiting_container receiving_chunks : ReceiveStateName

pub record Info : Type 0 where
  pub app_id : StormApp
  pub client_id : Option ClientId
  pub remote_id : NodeId
  pub id : ContainerFullId

pub data ReceiveState : Type 0 where
  awaiting_container : Info → ReceiveState
  receiving_chunks : Info → ℕ → List ChunkId → ReceiveState

abbrev pub StateName : Type 0
StateName = StateTy ReceiveStateName

abbrev pub State : Type 0
State = StateTy ReceiveState

pub data AutomationError : Type 0 where
  invalid_state : StateName → StateName → AutomationError

unfoldable pub receive_state_name : ReceiveState → ReceiveStateName
receive_state_name (ReceiveState.awaiting_container _) = ReceiveStateName.awaiting_container
receive_state_name (ReceiveState.receiving_chunks _ _ _) = ReceiveStateName.receiving_chunks

unfoldable pub receive_info : ReceiveState → Info
receive_info (ReceiveState.awaiting_container info) = info
receive_info (ReceiveState.receiving_chunks info _ _) = info

unfoldable pub state_name : State → StateName
unfolding receive_state_name
state_name StateTy.free = StateTy.free
state_name (StateTy.receive recv) = StateTy.receive (receive_state_name recv)

unfoldable pub state_info : State → Option Info
unfolding receive_info
state_info StateTy.free = none
state_info (StateTy.receive recv) = some (receive_info recv)

-- The derived `==` of `StateName`.
abbrev pub name_beq : StateName → StateName → Bool
name_beq StateTy.free StateTy.free = true
name_beq (StateTy.receive ReceiveStateName.awaiting_container)
      (StateTy.receive ReceiveStateName.awaiting_container) =
    true
name_beq (StateTy.receive ReceiveStateName.receiving_chunks)
      (StateTy.receive ReceiveStateName.receiving_chunks) =
    true
name_beq _ _ = false

-- The error names `free` as the state that was expected, whatever `expected` is, as in the source.
unfoldable pub require_state : State → StateName → Result AutomationError (Unit {0})
unfolding state_name
require_state state expected =
    if name_beq (state_name state) expected
    then ok tt
    else err (AutomationError.invalid_state StateTy.free (state_name state))
