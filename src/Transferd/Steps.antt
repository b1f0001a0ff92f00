-- ===== src/Transferd/Steps.antt =====
-- The states of a transfer as a step relation, and what the daemon can reach.
use storm_node.Base.{
  ℕ, ◌≡◌, refl, ◌⊎◌, inl, inr, true, false, Option, List, arith, nat_eq, length, is_empty, ap,
}
use storm_node.Base.Action.{ok}
use storm_node.Base.Sets
use storm_node.Wire.{
  NodeId, ClientId, ContainerFullId, ContainerId, ChunkId, Chunk, StormApp, Container,
}
use storm_node.Rpc.Ids.{ServiceId}
use storm_node.Bus.{ServiceBus, CtlMsg, BusMsg}
use storm_node.Bus.Responder.{send_p2p, send_rpc, send_ctl}
use storm_node.World.{Platform, Sys, Log, table_chunks}
use storm_node.World.Effects.{store_call, filter_unknown, retrieve_chunk}
use storm_node.Transferd.State.{
  StateTy, State, ReceiveState, Info, state_info, state_name, require_state,
}
use storm_node.Transferd.Runtime.{Runtime, identity}
use storm_node.Transferd.Automation.{
  require, info, tell_client, complete, store, handle_receive, store_container, request_missing,
  handle_container, chunk_arrived, handle_chunk, handle_announce, handle_send_container,
  handle_send_chunks,
}
use storm_node.Transferd.Service.{handle_ctl, handle}
use storm_node.Transferd.Container.{tell_client-SameTask, store_container-SameTask}
use storm_node.Transferd.Sending.{push_chunks-Goes}
use storm_node.Transferd.Silence.{report_client-reports}

-- One step from state `u` to state `v`.
pub data Step (u v : State) : Type 0 where
  stay : v ≡ u → Step u v
  request :
      (i : Info)
      → u ≡ StateTy.free
      → v ≡ StateTy.receive (ReceiveState.awaiting_container i)
      → Step u v
  container_came :
      (i : Info) (ids : List ChunkId)
      → u ≡ StateTy.receive (ReceiveState.awaiting_container i)
      → v ≡ StateTy.receive (ReceiveState.receiving_chunks i (length ids) ids)
      → Step u v
  chunk_came :
      (i : Info) (total : ℕ) (pending : List ChunkId) (a : ChunkId)
      → u ≡ StateTy.receive (ReceiveState.receiving_chunks i total pending)
      → is_empty (Sets.remove a pending) ≡ false
      → v ≡ StateTy.receive (ReceiveState.receiving_chunks i total (Sets.remove a pending))
      → Step u v
  last_came :
      (i : Info) (total : ℕ) (pending : List ChunkId) (a : ChunkId)
      → u ≡ StateTy.receive (ReceiveState.receiving_chunks i total pending)
      → is_empty (Sets.remove a pending) ≡ true
      → v ≡ StateTy.free
      → Step u v

module _ (p : Platform) (me : ServiceId) where
  pub handle_receive-state :
      (o : Option ClientId) (app : StormApp) (remote : NodeId) (id : ContainerFullId)
      (s : Sys Runtime)
      → let v = (handle_receive p me o app remote id s).1.rt.state in
        (v ≡ s.rt.state)
        ⊎ ((s.rt.state ≡ StateTy.free)
            × (v
                ≡ StateTy.receive (
                    ReceiveState.awaiting_container
                      (record { app_id = app; client_id = o; remote_id = remote; id = id }))))
  unfolding handle_receive require require_state state_name
  handle_receive-state o app remote id s = grind (arith, report_client-reports p me)

  handle_receive-Step :
      (o : Option ClientId) (app : StormApp) (remote : NodeId) (id : ContainerFullId)
      (s : Sys Runtime)
      → Step s.rt.state (handle_receive p me o app remote id s).1.rt.state
  handle_receive-Step o app remote id s = elim (handle_receive-state o app remote id s) [
    | inl e ↦ Step.stay e
    | inr (free, e) ↦ Step.request _ free e
  ]

  request_missing-state :
      (i : Info) (c : Container) (s : Sys Runtime)
      → let v = (request_missing p me i c s).1.rt.state in
        (v ≡ s.rt.state)
        ⊎ ((ids : List ChunkId) × (p.unknown s.log table_chunks (Sets.collect c.chunks) ≡ ok ids)
            × (v ≡ StateTy.receive (ReceiveState.receiving_chunks i (length ids) ids)))
  unfolding request_missing tell_client filter_unknown send_rpc send_p2p
  request_missing-state i c s = ground arith

  -- The log at the question to the store which chunks of a container it does not know.
  abbrev pub asked_log : Info → Container → Sys Runtime → Log
  asked_log i c s =
      let s₁ = (tell_client p me i.client_id "Container received" s).1 in
      (store_container p me c s₁).1.log

  pub handle_container-state :
      (c : Container) (i : Info) (s : Sys Runtime)
      → s.rt.state ≡ StateTy.receive (ReceiveState.awaiting_container i)
      → let v = (handle_container p me c s).1.rt.state in
        (v ≡ s.rt.state)
        ⊎ ((ids : List ChunkId) × (p.unknown (asked_log i c s) table_chunks (Sets.collect c.chunks)
              ≡ ok ids)
            × (v ≡ StateTy.receive (ReceiveState.receiving_chunks i (length ids) ids)))
  unfolding handle_container require require_state state_name info state_info
  handle_container-state c i s e =
      let s₁ = (tell_client p me i.client_id "Container received" s).1 in
      let s₂ = (store_container p me c s₁).1 in
      ground (
        arith,
        e,
        tell_client-SameTask p me i.client_id "Container received" s,
        store_container-SameTask p me c s₁,
        request_missing-state i c s₂,
      )

  pub handle_container-refused :
      (c : Container) (s : Sys Runtime)
      → ((i : Info) × (s.rt.state ≡ StateTy.receive (ReceiveState.awaiting_container i)))
        ⊎ ((handle_container p me c s).1 ≡ s)
  unfolding handle_container require require_state state_name
  handle_container-refused c s = ground arith

  handle_container-Step :
      (c : Container) (s : Sys Runtime) → Step s.rt.state (handle_container p me c s).1.rt.state
  handle_container-Step c s = elim (handle_container-refused c s) [
    | inr e ↦ Step.stay (rw e refl)
    | inl (i, e) ↦ elim (handle_container-state c i s e) [
      | inl same ↦ Step.stay same
      | inr (ids, _, e') ↦ Step.container_came i ids e e'
    ]
  ]

  pub handle_chunk-state :
      (c : Chunk) (i : Info) (total : ℕ) (pending : List ChunkId) (s : Sys Runtime)
      → s.rt.state ≡ StateTy.receive (ReceiveState.receiving_chunks i total pending)
      → let v = (handle_chunk p me c s).1.rt.state in
        let rest = Sets.remove (p.chunk_id c) pending in
        (v ≡ s.rt.state)
        ⊎ ((is_empty rest ≡ false)
            × (v ≡ StateTy.receive (ReceiveState.receiving_chunks i total rest)))
        ⊎ ((is_empty rest ≡ true) × (v ≡ StateTy.free))
  unfolding handle_chunk require require_state state_name info state_info tell_client complete store
      chunk_arrived send_rpc send_ctl store_call
  handle_chunk-state c i total pending s e = ground arith

  pub handle_chunk-refused :
      (c : Chunk) (s : Sys Runtime)
      → ((i : Info) × (total : ℕ) × (pending : List ChunkId) × (s.rt.state
            ≡ StateTy.receive (ReceiveState.receiving_chunks i total pending)))
        ⊎ ((handle_chunk p me c s).1 ≡ s)
  unfolding handle_chunk require require_state state_name
  handle_chunk-refused c s = ground arith

  handle_chunk-Step :
      (c : Chunk) (s : Sys Runtime) → Step s.rt.state (handle_chunk p me c s).1.rt.state
  handle_chunk-Step c s = elim (handle_chunk-refused c s) [
    | inr e ↦ Step.stay (rw e refl)
    | inl (i, total, pending, e) ↦ elim (handle_chunk-state c i total pending s e) [
      | inl same ↦ Step.stay same
      | inr (inl (more, e')) ↦ Step.chunk_came i total pending (p.chunk_id c) e more e'
      | inr (inr (over, e')) ↦ Step.last_came i total pending (p.chunk_id c) e over e'
    ]
  ]

  pub handle_announce-same :
      (o : Option ClientId) (app : StormApp) (remote : NodeId) (id : ContainerFullId)
      (s : Sys Runtime)
      → (handle_announce p me o app remote id s).1.rt ≡ s.rt
  unfolding handle_announce require complete send_ctl retrieve_chunk
  handle_announce-same o app remote id s = grind (arith, report_client-reports p me)

  pub handle_send_container-same :
      (o : Option ClientId) (app : StormApp) (remote : NodeId) (id : ContainerFullId)
      (s : Sys Runtime)
      → (handle_send_container p me o app remote id s).1.rt ≡ s.rt
  unfolding handle_send_container require complete send_ctl retrieve_chunk
  handle_send_container-same o app remote id s = grind (arith, report_client-reports p me)

  pub handle_send_chunks-same :
      (app : StormApp) (remote : NodeId) (c : ContainerId) (ids : List ChunkId) (s : Sys Runtime)
      → (handle_send_chunks p me app remote c ids s).1.rt ≡ s.rt
  unfolding handle_send_chunks require complete send_ctl
  handle_send_chunks-same app remote c ids s = grind (arith, push_chunks-Goes p me app remote c ids)

  handle_ctl-Step :
      (source : ServiceId) (msg : CtlMsg) (s : Sys Runtime)
      → Step s.rt.state (handle_ctl p me source msg s).1.rt.state
  unfolding handle_ctl
  handle_ctl-Step source (CtlMsg.get_container m) s = handle_receive-Step _ _ _ _ s
  handle_ctl-Step source (CtlMsg.process_container c) s = handle_container-Step c s
  handle_ctl-Step source (CtlMsg.process_chunk c) s = handle_chunk-Step c s
  handle_ctl-Step source (CtlMsg.announce_container m) s =
      Step.stay (ap (λ rt. rt.state) (handle_announce-same _ _ _ _ s))
  handle_ctl-Step source (CtlMsg.send_container m) s =
      Step.stay (ap (λ rt. rt.state) (handle_send_container-same _ _ _ _ s))
  handle_ctl-Step source (CtlMsg.send_chunks m) s =
      Step.stay (ap (λ rt. rt.state) (handle_send_chunks-same _ _ _ _ s))
  handle_ctl-Step source msg s = Step.stay refl

module _ (p : Platform) where
  -- Every message, whatever the platform answers, takes the state of a transfer by one step of the
  -- relation or leaves it.
  pub handle-Step :
      (bus : ServiceBus) (msg : BusMsg) (source : ServiceId) (s : Sys Runtime)
      → Step s.rt.state (handle p bus msg source s).1.rt.state
  unfolding handle
  handle-Step ServiceBus.ctl (BusMsg.ctl msg) source s =
      handle_ctl-Step p (identity s.rt) source msg s
  handle-Step bus msg source s = Step.stay refl
