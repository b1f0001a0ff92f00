-- ===== src/Transferd/Container.antt =====
-- The arrival of a container.
use storm_node.Base.{ℕ, String, ◌≡◌, ◌∙◌, Option, List, arith, length, nat_eq}
use storm_node.Base.Action.{ok, value}
use storm_node.Base.Sets
use storm_node.Wire.{ChunkId, Container}
use storm_node.Rpc.Ids.{ServiceId}
use storm_node.Bus.Responder.{send_rpc, send_p2p}
use storm_node.World.{Platform, Sys, table_chunks}
use storm_node.World.Effects.{store_call, filter_unknown}
use storm_node.Transferd.State.{StateTy, ReceiveState, Info, state_info, state_name, require_state}
use storm_node.Transferd.Runtime.{Runtime}
use storm_node.Transferd.Automation.{
  require, info, tell_client, store, store_container, request_missing, handle_container,
}
use storm_node.Transferd.Completion.{told_stormd}

module _ (p : Platform) (me : ServiceId) where
  -- Neither the state is changed nor stormd told anything.
  abbrev pub SameTask : Sys Runtime → Sys Runtime → Type 0
  SameTask s s' = (s'.rt ≡ s.rt) × (told_stormd s'.log ≡ told_stormd s.log)

  pub store_container-SameTask :
      (c : Container) (s : Sys Runtime) → SameTask s (store_container p me c s).1
  unfolding store_container store store_call
  store_container-SameTask c s = ground arith

  pub tell_client-SameTask :
      (o : Option ℕ) (text : String) (s : Sys Runtime) → SameTask s (tell_client p me o text s).1
  unfolding tell_client send_rpc
  tell_client-SameTask o text s = ground arith

  request_missing-Awaits :
      (i : Info) (c : Container) (s : Sys Runtime)
      → (request_missing p me i c s).0 ≡ value tt
      → (ids : List ChunkId) × (p.unknown s.log table_chunks (Sets.collect c.chunks) ≡ ok ids)
        × ((request_missing p me i c s).1.rt.state
            ≡ StateTy.receive (ReceiveState.receiving_chunks i (length ids) ids))
        × (told_stormd (request_missing p me i c s).1.log ≡ told_stormd s.log)
  unfolding request_missing tell_client filter_unknown send_rpc send_p2p
  request_missing-Awaits i c s v = ground arith

  -- The last step of `handle_container`, and that it is reached.
  last_step :
      (c : Container) (i : Info) (s : Sys Runtime)
      → s.rt.state ≡ StateTy.receive (ReceiveState.awaiting_container i)
      → (handle_container p me c s).0 ≡ value tt
      → let s₁ = (tell_client p me i.client_id "Container received" s).1 in
        let s₂ = (store_container p me c s₁).1 in
        ((request_missing p me i c s₂).0 ≡ value tt)
        × ((handle_container p me c s).1 ≡ (request_missing p me i c s₂).1)
  unfolding handle_container require require_state state_name info state_info
  last_step c i s e v = ground arith

  -- A container that comes where one is awaited, and is handled without an error, puts the daemon
  -- into the state in which it awaits exactly the chunks that the store, asked once the container is
  -- stored, says it does not know, and sends nothing at all to stormd, also where there are no such
  -- chunks.
  pub handle_container-awaits :
      (c : Container) (i : Info) (s : Sys Runtime)
      → s.rt.state ≡ StateTy.receive (ReceiveState.awaiting_container i)
      → (handle_container p me c s).0 ≡ value tt
      → let s' = (handle_container p me c s).1 in
        let s₁ = (tell_client p me i.client_id "Container received" s).1 in
        let s₂ = (store_container p me c s₁).1 in
        (ids : List ChunkId) × (p.unknown s₂.log table_chunks (Sets.collect c.chunks) ≡ ok ids)
        × (s'.rt.state ≡ StateTy.receive (ReceiveState.receiving_chunks i (length ids) ids))
        × (told_stormd s'.log ≡ told_stormd s.log)
  handle_container-awaits c i s e v =
      let s₁ = (tell_client p me i.client_id "Container received" s).1 in
      let s₂ = (store_container p me c s₁).1 in
      let told = tell_client-SameTask i.client_id "Container received" s in
      let kept = store_container-SameTask c s₁ in
      let (ran, ends) = last_step c i s e v in
      let (ids, q, st, n) = request_missing-Awaits i c s₂ ran in
      (ids, q, rw ends st, rw ends (n ∙ kept.1 ∙ told.1))
