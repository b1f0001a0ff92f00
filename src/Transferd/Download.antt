-- ===== src/Transferd/Download.antt =====
-- The arrival of chunks.
use storm_node.Base.{
  ℕ, suc, ◌≡◌, refl, inl, inr, true, false, not, ◌&&◌, none, List, [], ◌∷◌, map, arith, nat_eq,
  nat_beq_iff, if◌then◌else◌, is_empty, Bool-cases,
}
use storm_node.Base.Sets
use storm_node.Base.Sets.{Within}
use storm_node.Wire.{ChunkId, Chunk}
use storm_node.Rpc.Ids.{ServiceId, stormd}
use storm_node.Bus.{Packet, CtlMsg}
use storm_node.Bus.Responder.{send_rpc, send_ctl, ctl_packet}
use storm_node.World.{Platform, Sys, Log, Request}
use storm_node.World.Effects.{store_call}
use storm_node.Transferd.State.{
  StateTy, State, ReceiveState, Info, state_info, state_name, require_state,
}
use storm_node.Transferd.Runtime.{Runtime}
use storm_node.Transferd.Automation.{
  require, info, tell_client, complete, store, chunk_arrived, handle_chunk,
}
use storm_node.Transferd.Completion.{completions, told_stormd}

-- What is still awaited once the chunks have come.
abbrev pub remaining : (Chunk → ChunkId) → List Chunk → List ChunkId → List ChunkId
remaining chunk_id [] pending = pending
remaining chunk_id (c ∷ cs) pending = remaining chunk_id cs (Sets.remove (chunk_id c) pending)

-- The state of a transfer by what is still awaited.
abbrev pub state_after : Info → ℕ → List ChunkId → State
state_after i total pending =
    if is_empty pending
    then StateTy.free
    else StateTy.receive (ReceiveState.receiving_chunks i total pending)

contains-remaining :
    (f : Chunk → ChunkId) (a : ChunkId) (cs : List Chunk) (pending : List ChunkId)
    → Sets.contains a (remaining f cs pending)
      ≡ (not (Sets.contains a (map f cs)) && Sets.contains a pending)
contains-remaining f a [] pending = refl
contains-remaining f a (c ∷ cs) pending = ground (
  arith,
  contains-remaining f a cs (Sets.remove (f c) pending),
  Sets.contains-remove a (f c) pending,
)

nonempty_of_contains :
    (a : ChunkId) (xs : List ChunkId) → Sets.contains a xs ≡ true → is_empty xs ≡ false
nonempty_of_contains a [] h = cc
nonempty_of_contains a (x ∷ xs) h = refl

remaining-nil :
    (f : Chunk → ChunkId) (cs : List Chunk) (xs : List ChunkId)
    → is_empty xs ≡ true
    → remaining f cs xs ≡ []
remaining-nil f [] [] h = refl
remaining-nil f (c ∷ cs) [] h = remaining-nil f cs [] refl
remaining-nil f cs (x ∷ xs) h = cc

-- Nothing is left of a list that has no element.
empty_of_none :
    (xs : List ChunkId) → ((a : ChunkId) → Sets.contains a xs ≡ false) → is_empty xs ≡ true
empty_of_none [] h = refl
empty_of_none (x ∷ xs) h = ground (arith, h x, nat_beq_iff x x)

remaining-covered :
    (f : Chunk → ChunkId) (cs : List Chunk) (pending : List ChunkId)
    → Within pending (map f cs)
    → is_empty (remaining f cs pending) ≡ true
remaining-covered f cs pending w = empty_of_none (remaining f cs pending) λ a.
    elim (Bool-cases (Sets.contains a (map f cs))) [
      | inl there ↦ ground (arith, contains-remaining f a cs pending)
      | inr absent ↦ ground (
        arith,
        contains-remaining f a cs pending,
        Sets.Within-absent a pending (map f cs) w absent,
      )
    ]

module _ (p : Platform) (me : ServiceId) where
  -- The report of an end.
  abbrev pub ended : Packet
  ended = ctl_packet me stormd CtlMsg.processing_complete

  -- The daemon handles one chunk after the other; an error ends the handling of one chunk only.
  unfoldable pub deliver : List Chunk → Sys Runtime → Sys Runtime
  deliver [] s = s
  deliver (c ∷ cs) s = deliver cs (handle_chunk p me c s).1

  refused_chunk :
      (c : Chunk) (s : Sys Runtime) → s.rt.state ≡ StateTy.free → (handle_chunk p me c s).1 ≡ s
  unfolding handle_chunk require require_state state_name
  refused_chunk c s e = ground arith

  deliver-free : (cs : List Chunk) (s : Sys Runtime) → s.rt.state ≡ StateTy.free → deliver cs s ≡ s
  unfolding deliver
  deliver-free [] s e = refl
  deliver-free (c ∷ cs) s e = rw (refused_chunk c s e) (deliver-free cs s e)

  module _ (sends : (log : Log) (packet : Packet) → p.transport log packet ≡ none)
      (stores : (log : Log) (r : Request) → p.store_reply log r ≡ none) where
    handle_chunk_lem :
        (c : Chunk) (i : Info) (total : ℕ) (pending : List ChunkId) (s : Sys Runtime)
        → s.rt.state ≡ StateTy.receive (ReceiveState.receiving_chunks i total pending)
        → let rest = Sets.remove (p.chunk_id c) pending in
          let s' = (handle_chunk p me c s).1 in
          (s'.rt.state ≡ state_after i total rest)
          × (completions s'.log
              ≡ (if is_empty rest then suc (completions s.log) else completions s.log))
          × (told_stormd s'.log
              ≡ (if is_empty rest then ended ∷ told_stormd s.log else told_stormd s.log))
    unfolding handle_chunk require require_state state_name info state_info tell_client complete
        store chunk_arrived send_rpc send_ctl store_call
    handle_chunk_lem c i total pending s e = grind (arith, sends, stores)

    deliver_lem :
        (cs : List Chunk) (i : Info) (total : ℕ) (pending : List ChunkId) (s : Sys Runtime)
        → s.rt.state ≡ StateTy.receive (ReceiveState.receiving_chunks i total pending)
        → is_empty pending ≡ false
        → let rest = remaining p.chunk_id cs pending in
          let s' = deliver cs s in
          (s'.rt.state ≡ state_after i total rest)
          × (completions s'.log
              ≡ (if is_empty rest then suc (completions s.log) else completions s.log))
          × (told_stormd s'.log
              ≡ (if is_empty rest then ended ∷ told_stormd s.log else told_stormd s.log))
    unfolding deliver
    deliver_lem [] i total pending s e ne = rw ne (e, refl, refl)
    deliver_lem (c ∷ cs) i total pending s e ne =
        let rest = Sets.remove (p.chunk_id c) pending in
        let s' = (handle_chunk p me c s).1 in
        let step = handle_chunk_lem c i total pending s e in
        elim (Bool-cases (is_empty rest)) [
          | inl over ↦
              ground (arith, step, deliver-free cs s', remaining-nil p.chunk_id cs rest over)
          | inr more ↦ ground (arith, step, deliver_lem cs i total rest s', more)
        ]

    -- A daemon that awaits at least one chunk: once every awaited chunk has come, in whatever order
    -- and with whatever others in between, it is free, it has reported the end to stormd exactly
    -- once, and it has told stormd nothing else. (The bus and the store answer with no error.)
    pub deliver_completes :
        (cs : List Chunk) (i : Info) (total : ℕ) (pending : List ChunkId) (s : Sys Runtime)
        → s.rt.state ≡ StateTy.receive (ReceiveState.receiving_chunks i total pending)
        → is_empty pending ≡ false
        → Within pending (map p.chunk_id cs)
        → ((deliver cs s).rt.state ≡ StateTy.free)
          × (completions (deliver cs s).log ≡ suc (completions s.log))
          × (told_stormd (deliver cs s).log ≡ ended ∷ told_stormd s.log)
    deliver_completes cs i total pending s e ne w =
        ground
          (arith, deliver_lem cs i total pending s e ne, remaining-covered p.chunk_id cs pending w)

    -- While an awaited chunk has not come, the daemon goes on receiving, that chunk among those that
    -- it awaits, and has sent nothing at all to stormd. (The bus and the store answer with no error.)
    pub deliver_waits :
        (cs : List Chunk) (i : Info) (total : ℕ) (pending : List ChunkId) (s : Sys Runtime)
        (missing : ChunkId)
        → s.rt.state ≡ StateTy.receive (ReceiveState.receiving_chunks i total pending)
        → Sets.contains missing pending ≡ true
        → Sets.contains missing (map p.chunk_id cs) ≡ false
        → let rest = remaining p.chunk_id cs pending in
          ((deliver cs s).rt.state ≡ StateTy.receive (ReceiveState.receiving_chunks i total rest))
          × (Sets.contains missing rest ≡ true)
          × (told_stormd (deliver cs s).log ≡ told_stormd s.log)
    deliver_waits cs i total pending s missing e inside absent =
        let rest = remaining p.chunk_id cs pending in
        let still = contains-remaining p.chunk_id missing cs pending in
        ground (
          arith,
          still,
          deliver_lem cs i total pending s e (nonempty_of_contains missing pending inside),
          nonempty_of_contains missing rest,
        )
