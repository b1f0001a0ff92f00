-- ===== src/Tests/TransferRuns.antt =====
-- Runs of transferd.
use storm_node.Base.{Has, ◌≡◌, refl, true, none, [], ◌∷◌, List, nat_eq, length}
use storm_node.Base.Action.{ok, error}
use storm_node.Base.Sets
use storm_node.Wire.{Chunk, ChunkId, Messages, StormApp}
use storm_node.Rpc.Ids.{stormd, ServiceId}
use storm_node.Bus.{ServiceBus, CtlMsg, BusMsg}
use storm_node.Bus.Responder.{
  send_p2p, send_rpc, send_ctl, send_p2p_reporting_client, report_client,
}
use storm_node.Errors.{DaemonError}
use storm_node.World.{Platform, table_chunks}
use storm_node.World.Effects.{send_to, store_call, filter_unknown, retrieve_chunk}
use storm_node.Transferd.State.{
  StateTy, State, Info, ReceiveState, ReceiveStateName, AutomationError, state_name, state_info,
  receive_info, receive_state_name, require_state,
}
use storm_node.Transferd.Automation.{
  require, info, tell_client, store, store_container, request_missing, handle_container,
  handle_chunk, handle_receive, chunk_arrived, complete, handle_announce,
}
use storm_node.Transferd.Service.{handle, handle_ctl}
use storm_node.Transferd.Steps.{Step, handle-Step, asked_log}
use storm_node.World.Serve.{Message, serve}
use storm_node.Transferd.Awaited.{IsAsked, serve-IsAsked}
use storm_node.Transferd.Refusal.{handle_ctl-refuses}
use storm_node.Transferd.Completion.{completions, reports, told_stormd}
use storm_node.Transferd.Download.{ended, deliver, remaining, deliver_completes, deliver_waits}
use storm_node.Transferd.Container.{handle_container-awaits}
use storm_node.Transferd.Stored.{stored, deliver-stored}
use storm_node.Transferd.Silence.{handle_ctl-Silent}
use storm_node.Tests.Samples
use storm_node.Tests.Samples.{reliable, config, fetch, worker, container}

abbrev platform : Platform
platform = reliable Messages.list_apps

abbrev me : ServiceId
me = ServiceId.transfer 7

-- Chunks 4 and 5 are awaited.
abbrev receiving : State
receiving = StateTy.receive (ReceiveState.receiving_chunks Samples.info 2 (4 ∷ 5 ∷ []))

abbrev awaiting : State
awaiting = StateTy.receive (ReceiveState.awaiting_container Samples.info)

abbrev both : List Chunk
both = (5 ∷ 1 ∷ []) ∷ (6 ∷ []) ∷ (4 ∷ []) ∷ []

abbrev one : List Chunk
one = (5 ∷ 1 ∷ []) ∷ (6 ∷ []) ∷ []

deliver_completes_example :
    ((deliver platform me both (worker receiving)).rt.state ≡ StateTy.free)
    × (completions (deliver platform me both (worker receiving)).log ≡ 1)
    × (told_stormd (deliver platform me both (worker receiving)).log ≡ ended platform me ∷ [])
deliver_completes_example =
    deliver_completes platform me (λ log packet. refl) (λ log r. refl) both Samples.info 2
      (4 ∷ 5 ∷ []) (worker receiving) refl refl (refl, (refl, tt))

deliver_waits_example :
    let rest = remaining platform.chunk_id one (4 ∷ 5 ∷ []) in
    ((deliver platform me one (worker receiving)).rt.state
      ≡ StateTy.receive (ReceiveState.receiving_chunks Samples.info 2 rest))
    × (Sets.contains 4 rest ≡ true)
    × (told_stormd (deliver platform me one (worker receiving)).log ≡ [])
deliver_waits_example =
    deliver_waits platform me (λ log packet. refl) (λ log r. refl) one Samples.info 2 (4 ∷ 5 ∷ [])
      (worker receiving) 4 refl refl refl

handle_ctl-refuses_example :
    handle_ctl platform me stormd (CtlMsg.process_chunk (4 ∷ [])) (worker awaiting) ≡ (
      error (
          DaemonError.transfer_automation
            (AutomationError.invalid_state StateTy.free (state_name awaiting))),
      worker awaiting,
    )
unfolding state_name receive_state_name
handle_ctl-refuses_example =
    handle_ctl-refuses platform me stormd (CtlMsg.process_chunk (4 ∷ []))
      (StateTy.receive ReceiveStateName.receiving_chunks) (worker awaiting) refl refl

handle_container-awaits_example :
    let s' = (handle_container platform me container (worker awaiting)).1 in
    let log = asked_log platform me Samples.info container (worker awaiting) in
    (ids : List ChunkId) × (platform.unknown log table_chunks (Sets.collect container.chunks)
      ≡ ok ids)
    × (s'.rt.state ≡ StateTy.receive (ReceiveState.receiving_chunks Samples.info (length ids) ids))
    × (told_stormd s'.log ≡ [])
unfolding handle_container require require_state state_name receive_state_name info state_info
    receive_info tell_client store_container store request_missing send_p2p send_rpc send_to
    store_call filter_unknown
handle_container-awaits_example =
    handle_container-awaits platform me container Samples.info (worker awaiting) refl refl

deliver-stored_example :
    (c : Chunk) × Has c both
    × (platform.chunk_id c ≡ 4)
    × Has (stored platform me c) (deliver platform me both (worker receiving)).log
unfolding deliver handle_chunk require require_state state_name receive_state_name info state_info
    receive_info tell_client store chunk_arrived complete send_ctl send_rpc send_to store_call
deliver-stored_example = deliver-stored platform me 4 both (worker receiving) refl refl

-- The store has no container.
abbrev bare : Platform
bare = record platform { retrieved = λ log table id. ok none }

abbrev announce : CtlMsg
announce = CtlMsg.announce_container (record {
  remote_id = 3;
  client_id = none;
  content = record {
    storm_app = StormApp.file_transfer;
    container_id = record { message_id = 0; container_id = 8 };
  };
})

handle_ctl-Silent_example :
    reports (handle_ctl bare me stormd announce (worker StateTy.free)).1.log ≡ 0
unfolding handle_ctl handle_announce require require_state state_name retrieve_chunk
handle_ctl-Silent_example =
    handle_ctl-Silent bare me stormd announce (worker StateTy.free)
      (DaemonError.unknown_container 8) refl

abbrev container_comes : BusMsg
container_comes = BusMsg.ctl (CtlMsg.process_container container)

handle-Step_example :
    Step awaiting
      (handle platform ServiceBus.ctl container_comes stormd (worker awaiting)).1.rt.state
handle-Step_example = handle-Step platform ServiceBus.ctl container_comes stormd (worker awaiting)

abbrev conversation : List Message
conversation =
    (ServiceBus.ctl, BusMsg.ctl fetch, stormd)
    ∷ (ServiceBus.ctl, container_comes, stormd)
    ∷ (ServiceBus.ctl, BusMsg.ctl (CtlMsg.process_chunk (4 ∷ [])), stormd)
    ∷ []

-- What `fetch` asks for.
abbrev fetched : Info
fetched = record {
  app_id = StormApp.file_transfer;
  client_id = none;
  remote_id = 3;
  id = record { message_id = 0; container_id = 8 };
}

serve-IsAsked_example :
    IsAsked platform (λ e. 0) conversation (worker StateTy.free) fetched 2 (5 ∷ [])
unfolding serve handle handle_ctl handle_receive handle_container handle_chunk require require_state
    state_name receive_state_name info state_info receive_info tell_client store_container store
    request_missing chunk_arrived complete send_p2p_reporting_client report_client send_p2p send_rpc
    send_ctl send_to store_call filter_unknown
serve-IsAsked_example =
    serve-IsAsked platform (λ e. 0) conversation (worker StateTy.free) fetched 2 (5 ∷ []) refl refl
