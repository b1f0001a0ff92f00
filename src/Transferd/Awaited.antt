-- ===== src/Transferd/Awaited.antt =====
-- What transferd awaits after any messages.
use storm_node.Base.{
  ℕ, ◌≡◌, refl, sym, ◌∙◌, ap, ◌≤◌, ◌⊎◌, inl, inr, true, List, [], ◌∷◌, ◌++◌, arith, nat_eq, length,
  is_empty,
}
use storm_node.Base.Action.{ok}
use storm_node.Base.Sets
use storm_node.Wire.{ChunkId, Chunk, Container}
use storm_node.Rpc.Ids.{ServiceId}
use storm_node.Rpc.Failure.{EsbError}
use storm_node.Bus.{ServiceBus, CtlMsg, BusMsg}
use storm_node.Errors.{DaemonError}
use storm_node.World.{Platform, Sys, table_chunks}
use storm_node.World.Serve.{Message, serve, serve-next}
use storm_node.Transferd.State.{StateTy, State, ReceiveState, Info}
use storm_node.Transferd.Runtime.{Runtime, identity}
use storm_node.Transferd.Panics.{transferd-panics}
use storm_node.Transferd.Automation.{handle_container, handle_chunk}
use storm_node.Transferd.Service.{handle_ctl, handle, handle_err}
use storm_node.Transferd.Steps.{
  asked_log, handle_receive-state, handle_container-refused, handle_container-state,
  handle_chunk-refused, handle_chunk-state, handle_announce-same, handle_send_container-same,
  handle_send_chunks-same,
}

abbrev pub receiving : Info → ℕ → List ChunkId → State
receiving i total pending = StateTy.receive (ReceiveState.receiving_chunks i total pending)

-- Some of a list, and none of it only if it has none.
abbrev pub IsPartOf : List ChunkId → List ChunkId → Type 0
IsPartOf xs ys =
    ((a : ChunkId) → Sets.contains a xs ≡ true → Sets.contains a ys ≡ true)
    × (length xs ≤ length ys)
    × (is_empty xs ≡ true → is_empty ys ≡ true)

IsPartOf-self : (xs : List ChunkId) → IsPartOf xs xs
IsPartOf-self xs = (λ a h. h, omega arith, λ h. h)

IsPartOf-trans : (xs ys zs : List ChunkId) → IsPartOf xs ys → IsPartOf ys zs → IsPartOf xs zs
IsPartOf-trans xs ys zs h k = (λ a m. k.0 a (h.0 a m), omega arith, λ e. k.2 (h.2 e))

length-remove : (a : ChunkId) (xs : List ChunkId) → length (Sets.remove a xs) ≤ length xs
length-remove a [] = omega arith
length-remove a (x ∷ xs) = ground (arith, length-remove a xs)

module _ (p : Platform) where
  abbrev Held : Info → ℕ → List ChunkId → State → Type 0
  Held i total pending u = (old : List ChunkId) × (u ≡ receiving i total old) × IsPartOf pending old

  -- The state was there, but for chunks that came, or a container has come.
  abbrev Holds : CtlMsg → Sys Runtime → Info → ℕ → List ChunkId → Type 0
  Holds msg s i total pending =
      Held i total pending s.rt.state
      ⊎ ((c : Container) × (msg ≡ CtlMsg.process_container c)
          × (p.unknown (asked_log p (identity s.rt) i c s) table_chunks (Sets.collect c.chunks)
              ≡ ok pending)
          × (total ≡ length pending))

  same-Holds :
      (msg : CtlMsg) (s : Sys Runtime) (i : Info) (total : ℕ) (pending : List ChunkId) (v : State)
      → v ≡ s.rt.state
      → v ≡ receiving i total pending
      → Holds msg s i total pending
  same-Holds msg s i total pending v e h = inl (pending, sym e ∙ h, IsPartOf-self pending)

  -- A container that comes.
  container-Holds :
      (c : Container) (s : Sys Runtime) (i : Info) (total : ℕ) (pending : List ChunkId)
      → (handle_container p (identity s.rt) c s).1.rt.state ≡ receiving i total pending
      → Holds (CtlMsg.process_container c) s i total pending
  container-Holds c s i total pending h = elim (handle_container-refused p (identity s.rt) c s) [
    | inr e ↦ same-Holds _ s i total pending _ (ap (λ t. t.rt.state) e) h
    | inl (j, e) ↦ elim (handle_container-state p (identity s.rt) c j s e) [
      | inl same ↦ same-Holds _ s i total pending _ same h
      | inr (ids, answer, e') ↦
          (let all : (j ≡ i) × (length ids ≡ total) × (ids ≡ pending) = ground (arith, e', h) in
            inr (c, refl, ground (arith, answer, all), ground (arith, all)))
    ]
  ]

  -- A chunk that comes.
  chunk-Holds :
      (c : Chunk) (s : Sys Runtime) (i : Info) (total : ℕ) (pending : List ChunkId)
      → (handle_chunk p (identity s.rt) c s).1.rt.state ≡ receiving i total pending
      → Held i total pending s.rt.state
  chunk-Holds c s i total pending h = elim (handle_chunk-refused p (identity s.rt) c s) [
    | inr e ↦ (pending, sym (ap (λ t. t.rt.state) e) ∙ h, IsPartOf-self pending)
    | inl (j, n, old, e) ↦ elim (handle_chunk-state p (identity s.rt) c j n old s e) [
      | inl same ↦ (pending, sym same ∙ h, IsPartOf-self pending)
      | inr (inr (over, e')) ↦ absurd (ground (arith, e', h))
      | inr (inl (more, e')) ↦
          (let rest = Sets.remove (p.chunk_id c) old in
            let all : (j ≡ i) × (n ≡ total) × (rest ≡ pending) = ground (arith, e', h) in
            (
              old,
              rw (← all.0, ← all.1) e,
              rw (← all.2) (
                λ a m. ground (arith, m, Sets.contains-remove a (p.chunk_id c) old),
                length-remove (p.chunk_id c) old,
                λ none_left. ground (arith, none_left, more),
              ),
            ))
    ]
  ]

  handle_ctl-Holds :
      (source : ServiceId) (msg : CtlMsg) (s : Sys Runtime) (i : Info) (total : ℕ)
      (pending : List ChunkId)
      → (handle_ctl p (identity s.rt) source msg s).1.rt.state ≡ receiving i total pending
      → Holds msg s i total pending
  unfolding handle_ctl
  handle_ctl-Holds source (CtlMsg.get_container m) s i total pending h =
      elim (handle_receive-state p (identity s.rt) _ _ _ _ s) [
        | inl same ↦ same-Holds _ s i total pending _ same h
        | inr (free, e) ↦ absurd (ground (arith, e, h))
      ]
  handle_ctl-Holds source (CtlMsg.process_container c) s i total pending h =
      container-Holds c s i total pending h
  handle_ctl-Holds source (CtlMsg.process_chunk c) s i total pending h =
      inl (chunk-Holds c s i total pending h)
  handle_ctl-Holds source (CtlMsg.announce_container m) s i total pending h =
      same-Holds _ s i total pending _
        (ap (λ rt. rt.state) (handle_announce-same p (identity s.rt) _ _ _ _ s)) h
  handle_ctl-Holds source (CtlMsg.send_container m) s i total pending h =
      same-Holds _ s i total pending _
        (ap (λ rt. rt.state) (handle_send_container-same p (identity s.rt) _ _ _ _ s)) h
  handle_ctl-Holds source (CtlMsg.send_chunks m) s i total pending h =
      same-Holds _ s i total pending _
        (ap (λ rt. rt.state) (handle_send_chunks-same p (identity s.rt) _ _ _ _ s)) h
  handle_ctl-Holds source msg s i total pending h = same-Holds msg s i total pending _ refl h

  -- The message that brings a container.
  abbrev pub brings : Container → ServiceId → Message
  brings c source = (ServiceBus.ctl, BusMsg.ctl (CtlMsg.process_container c), source)

  handle-Holds :
      (bus : ServiceBus) (msg : BusMsg) (source : ServiceId) (s : Sys Runtime) (i : Info)
      (total : ℕ) (pending : List ChunkId)
      → (handle p bus msg source s).1.rt.state ≡ receiving i total pending
      → Held i total pending s.rt.state
        ⊎ ((c : Container) × ((bus, msg, source) ≡ brings c source)
            × (p.unknown (asked_log p (identity s.rt) i c s) table_chunks (Sets.collect c.chunks)
                ≡ ok pending)
            × (total ≡ length pending))
  unfolding handle
  handle-Holds ServiceBus.ctl (BusMsg.ctl msg) source s i total pending h =
      elim (handle_ctl-Holds source msg s i total pending h) [
        | inl held ↦ inl held
        | inr (c, e, answer, n) ↦
            inr (c, ap (λ m. (ServiceBus.ctl, BusMsg.ctl m, source)) e, answer, n)
      ]
  handle-Holds bus msg source s i total pending h = inl (pending, h, IsPartOf-self pending)

  module _ (raise : DaemonError → EsbError) where
    abbrev pub serve_all : List Message → Sys Runtime → Sys Runtime
    serve_all = serve raise handle_err (handle p)

    -- A container came after some of the messages, the store then did not know certain chunks of it,
    -- and some of these are awaited.
    abbrev pub IsAsked : List Message → Sys Runtime → Info → ℕ → List ChunkId → Type 0
    IsAsked messages s i total pending =
        (before : List Message) × (c : Container) × (source : ServiceId) × (after : List Message)
        × (ids : List ChunkId) × (messages ≡ before ++ brings c source ∷ after)
        × (let s₁ = serve_all before s in
            p.unknown (asked_log p (identity s₁.rt) i c s₁) table_chunks (Sets.collect c.chunks)
            ≡ ok ids)
        × (total ≡ length ids)
        × IsPartOf pending ids

    next :
        (bus : ServiceBus) (msg : BusMsg) (source : ServiceId) (messages : List Message)
        (s : Sys Runtime)
        → serve_all ((bus, msg, source) ∷ messages) s
          ≡ serve_all messages (handle p bus msg source s).1
    next bus msg source messages s =
        serve-next raise handle_err (handle p) (λ e s. refl) bus msg source messages s
          (transferd-panics p bus msg source s)

    serve-Holds :
        (messages : List Message) (s : Sys Runtime) (i : Info) (total : ℕ) (pending : List ChunkId)
        → (serve_all messages s).rt.state ≡ receiving i total pending
        → Held i total pending s.rt.state ⊎ IsAsked messages s i total pending
    unfolding serve
    serve-Holds [] s i total pending h = inl (pending, h, IsPartOf-self pending)
    serve-Holds ((bus, msg, source) ∷ messages) s i total pending h =
        let t = (handle p bus msg source s).1 in
        elim (serve-Holds messages t i total pending
          (sym (ap (λ s. s.rt.state) (next bus msg source messages s)) ∙ h)) [
            | inr (before, c, from, after, ids, e, answer, n, part) ↦ inr (
              (bus, msg, source) ∷ before,
              c,
              from,
              after,
              ids,
              ap (λ ms. (bus, msg, source) ∷ ms) e,
              rw (next bus msg source before s) answer,
              n,
              part,
            )
            | inl (old, e, part) ↦ elim (handle-Holds bus msg source s i total old e) [
              | inl (older, e', part') ↦
                  inl (older, e', IsPartOf-trans pending old older part part')
              | inr (c, e', answer, n) ↦
                  inr ([], c, source, messages, old, ap (λ m. m ∷ messages) e', answer, n, part)
            ]
          ]

    -- A daemon that was free and that is receiving chunks after some messages, from anyone and in any
    -- order, whatever the platform answers: a container came among these messages; the total is the
    -- number of its chunks that the store did not know when it was asked then; and the daemon awaits
    -- none but these, at most as many, and none only if there were none.
    pub serve-IsAsked :
        (messages : List Message) (s : Sys Runtime) (i : Info) (total : ℕ) (pending : List ChunkId)
        → s.rt.state ≡ StateTy.free
        → (serve_all messages s).rt.state ≡ receiving i total pending
        → IsAsked messages s i total pending
    serve-IsAsked messages s i total pending free h =
        elim (serve-Holds messages s i total pending h) [
          | inl (old, e, part) ↦ absurd (ground (arith, free, e))
          | inr asked ↦ asked
        ]
