-- ===== src/Transferd/Stored.antt =====
-- What of a transfer is in the store.
use storm_node.Base.{
  Has, ℕ, ◌≡◌, refl, inl, inr, Bool, true, false, List, [], ◌∷◌, arith, nat_eq, nat_beq_iff,
  is_empty, Bool-cases,
}
use storm_node.Base.Sets
use storm_node.Wire.{ChunkId, Chunk}
use storm_node.Rpc.Ids.{ServiceId}
use storm_node.Bus.Responder.{send_rpc, send_ctl}
use storm_node.World.{Platform, Sys, Request, Event, table_chunks}
use storm_node.World.Effects.{store_call}
use storm_node.Transferd.State.{
  StateTy, State, ReceiveState, Info, state_info, state_name, require_state,
}
use storm_node.Transferd.Runtime.{Runtime}
use storm_node.Transferd.Automation.{
  require, info, tell_client, complete, store, chunk_arrived, handle_chunk,
}
use storm_node.Transferd.Download.{deliver}

-- Whether the daemon awaits a chunk.
abbrev pub awaits : ChunkId → State → Bool
awaits a (StateTy.receive (ReceiveState.receiving_chunks i total pending)) = Sets.contains a pending
awaits a _ = false

empty-contains : (a : ChunkId) (xs : List ChunkId) → is_empty xs ≡ true → Sets.contains a xs ≡ false
empty-contains a [] h = refl
empty-contains a (x ∷ xs) h = cc

module _ (p : Platform) (me : ServiceId) where
  abbrev pub stored : Chunk → Event
  stored c = Event.done (Request.store table_chunks (p.chunk_id c) c)

  Has-handle_chunk :
      (e : Event) (c : Chunk) (s : Sys Runtime) → Has e s.log → Has e (handle_chunk p me c s).1.log
  unfolding handle_chunk require require_state state_name info state_info tell_client complete store
      chunk_arrived send_rpc send_ctl store_call
  Has-handle_chunk e c s h = ground arith

  Has-deliver :
      (e : Event) (cs : List Chunk) (s : Sys Runtime) → Has e s.log → Has e (deliver p me cs s).log
  unfolding deliver
  Has-deliver e [] s h = h
  Has-deliver e (c ∷ cs) s h = Has-deliver e cs _ (Has-handle_chunk e c s h)

  arrived_at :
      (a : ChunkId) (c : Chunk) (i : Info) (total : ℕ) (pending : List ChunkId) (s : Sys Runtime)
      → s.rt.state ≡ StateTy.receive (ReceiveState.receiving_chunks i total pending)
      → Sets.contains a pending ≡ true
      → awaits a (handle_chunk p me c s).1.rt.state ≡ false
      → (p.chunk_id c ≡ a) × Has (stored c) (handle_chunk p me c s).1.log
  unfolding handle_chunk require require_state state_name info state_info tell_client complete store
      chunk_arrived send_rpc send_ctl store_call
  arrived_at a c i total pending s e w n =
      let rest = Sets.remove (p.chunk_id c) pending in
      let gone = Sets.contains-remove a (p.chunk_id c) pending in
      ground (arith, gone, nat_beq_iff a (p.chunk_id c), empty-contains a rest)

  arrived :
      (a : ChunkId) (c : Chunk) (state : State) (s : Sys Runtime)
      → s.rt.state ≡ state
      → awaits a state ≡ true
      → awaits a (handle_chunk p me c s).1.rt.state ≡ false
      → (p.chunk_id c ≡ a) × Has (stored c) (handle_chunk p me c s).1.log
  arrived a c StateTy.free s e w n = cc
  arrived a c (StateTy.receive (ReceiveState.awaiting_container i)) s e w n = cc
  arrived a c (StateTy.receive (ReceiveState.receiving_chunks i total pending)) s e w n =
      arrived_at a c i total pending s e w n

  -- Where an awaited chunk is no longer awaited after a number of deliveries, one of the chunks that
  -- were delivered has its id and was put into the store, whatever the bus and the store answer.
  pub deliver-stored :
      (a : ChunkId) (cs : List Chunk) (s : Sys Runtime)
      → awaits a s.rt.state ≡ true
      → awaits a (deliver p me cs s).rt.state ≡ false
      → (c : Chunk) × Has c cs × (p.chunk_id c ≡ a) × Has (stored c) (deliver p me cs s).log
  unfolding deliver
  deliver-stored a [] s w n = cc
  deliver-stored a (c ∷ cs) s w n =
      let s' = (handle_chunk p me c s).1 in
      elim (Bool-cases (awaits a s'.rt.state)) [
        | inl still ↦
            let (d, inside, same, has) = deliver-stored a cs s' still n in
            (d, inr inside, same, has)
        | inr over ↦
            let (same, has) = arrived a c s.rt.state s refl w over in
            (c, inl refl, same, Has-deliver (stored c) cs s' has)
      ]
