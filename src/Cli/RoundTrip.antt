-- ===== src/Cli/RoundTrip.antt =====
-- A file that is made into a container and assembled again.
use text.Mathlib.Text.{◌==◌ as str_eq}
use storm_node.Base.{
  Has, append-nil, append_assoc, ℕ, ◌+◌, ◌≤◌, ◌<◌, ◌≡◌, refl, inl, inr, ◌&&◌, String, Option, none,
  some, List, [], ◌∷◌, ◌++◌, map, arith, length, length-append, nat_beq, nat_beq_iff, if◌then◌else◌,
}
use storm_node.Base.Action.{Result, ok, value}
use storm_node.Wire.{Bytes, ChunkId, Chunk, Container}
use storm_node.Errors.{EncodingError}
use storm_node.World.{
  Platform, Sys, Log, Request, Event, table_container_headers, table_containers, table_chunks,
}
use storm_node.World.Effects.{store_call, retrieve_chunk}
use storm_node.Cli.{
  max_chunk, pieces, unwrap_or_default, store_pieces, store_parts, containerize, collect_chunks,
  assemble,
}
use storm_node.Cli.Pieces.{concat, concat-pieces, Fits, pieces-Fits}

-- What was last put into a table under an id.
abbrev pub kept : String → ℕ → Log → Option Chunk
kept t i [] = none
kept t i (Event.done (Request.store u j c) ∷ log) =
    if str_eq t u && nat_beq i j then some c else kept t i log
kept t i (_ ∷ log) = kept t i log

-- The container of a file.
abbrev pub made : Platform → String → Option String → Bytes → Container
made p mime info bytes = record {
  header = record { version = 0; mime = mime; info = unwrap_or_default info; size = length bytes };
  chunks = map p.chunk_id (pieces bytes);
}

module _ (p : Platform) (push : List ChunkId → ChunkId → Result EncodingError (List ChunkId))
    (stores : (log : Log) (r : Request) → p.store_reply log r ≡ none)
    (holds : (log : Log) (t : String) (i : ℕ) → p.retrieved log t i ≡ ok (kept t i log))
    (fits : (b : Bytes) → length b ≤ max_chunk → p.chunk_try_from b ≡ ok b)
    (room : (ids : List ChunkId) (id : ChunkId)
      → length ids < max_chunk
      → push ids id ≡ ok (ids ++ id ∷ [])) where
  abbrev Kept : List Bytes → Log → Type 0
  Kept [] log = Unit
  Kept (x ∷ xs) log = (kept table_chunks (p.chunk_id x) log ≡ some x) × Kept xs log

  -- No two pieces of a list have one id.
  abbrev Apart : List Bytes → Type 0
  Apart all = (a b : Bytes) → Has a all → Has b all → p.chunk_id a ≡ p.chunk_id b → a ≡ b

  Kept-store :
      (all : List Bytes) (y : Bytes) (xs : List Bytes) (log : Log)
      → Apart all
      → Has y all
      → ((x : Bytes) → Has x xs → Has x all)
      → Kept xs log
      → Kept xs (Event.done (Request.store table_chunks (p.chunk_id y) y) ∷ log)
  Kept-store all y [] log apart there sub k = tt
  Kept-store all y (x ∷ xs) log apart there sub k = (
    ground
        (arith, k.0, apart x y (sub x (inl refl)) there, nat_beq_iff (p.chunk_id x) (p.chunk_id y)),
    Kept-store all y xs log apart there (λ z i. sub z (inr i)) k.1,
  )

  Kept-parts :
      (c : Container) (h b : Chunk) (xs : List Bytes) (log : Log)
      → Kept xs log
      → Kept xs (
          Event.done (Request.store table_containers (p.container_id c) b)
          ∷ Event.done (Request.store table_container_headers (p.container_id c) h)
          ∷ log)
  Kept-parts c h b [] log k = tt
  Kept-parts c h b (x ∷ xs) log k = (k.0, Kept-parts c h b xs log k.1)

  Kept-retrieve :
      (t : String) (i : ℕ) (xs : List Bytes) (log : Log)
      → Kept xs log
      → Kept xs (Event.done (Request.retrieve t i) ∷ log)
  Kept-retrieve t i [] log k = tt
  Kept-retrieve t i (x ∷ xs) log k = (k.0, Kept-retrieve t i xs log k.1)

  collect_chunks_lem :
      (xs : List Bytes) (s : Sys (Unit {0}))
      → Kept xs s.log
      → (collect_chunks p (map p.chunk_id xs) s).0 ≡ value (concat xs)
  unfolding collect_chunks retrieve_chunk
  collect_chunks_lem [] s k = refl
  collect_chunks_lem (x ∷ xs) s k =
      let s' = record s {
        log = Event.done (Request.retrieve table_chunks (p.chunk_id x)) ∷ s.log;
      } in
      ground (
        arith,
        holds s.log table_chunks (p.chunk_id x),
        k.0,
        collect_chunks_lem xs s' (Kept-retrieve table_chunks (p.chunk_id x) xs s.log k.1),
      )

  store_pieces_lem :
      (all : List Bytes) (xs : List Bytes) (ids : List ChunkId) (old : List Bytes)
      (s : Sys (Unit {0}))
      → Apart all
      → ((x : Bytes) → Has x xs → Has x all)
      → ((x : Bytes) → Has x old → Has x all)
      → Fits xs
      → length ids + length xs ≤ max_chunk
      → Kept old s.log
      → let r = store_pieces p push xs ids s in
        (r.0 ≡ value (ids ++ map p.chunk_id xs)) × Kept xs r.1.log × Kept old r.1.log
  unfolding store_pieces store_call
  store_pieces_lem all [] ids old s apart sub sub' f h k = (ground (arith, append-nil ids), tt, k)
  store_pieces_lem all (x ∷ xs) ids old s apart sub sub' f h k =
      let id = p.chunk_id x in
      let log' = Event.done (Request.store table_chunks id x) ∷ s.log in
      let kept_old = Kept-store all x old s.log apart (sub x (inl refl)) sub' k in
      let rest =
        store_pieces_lem all xs (ids ++ id ∷ []) (x ∷ old) (record s { log = log' }) apart
          (λ z i. sub z (inr i)) (λ z i. elim i [ inl e ↦ sub z (inl e) | inr o ↦ sub' z o ]) f.1
          (omega (arith, h, length-append ids (id ∷ [])))
          (ground (arith, nat_beq_iff id id), kept_old) in
      let stored = stores s.log (Request.store table_chunks id x) in
      let fit = fits x f.0 in
      let pushed = room ids id (omega (arith, h)) in
      let same = append_assoc ids (id ∷ []) (map p.chunk_id xs) in
      (
        ground (arith, stored, fit, pushed, rest.0, same),
        ground (arith, stored, fit, pushed, rest.1),
        ground (arith, stored, fit, pushed, rest.2.1),
      )

  store_parts_lem :
      (c : Container) (hb cb : Bytes) (xs : List Bytes) (s : Sys (Unit {0}))
      → p.serialize_header c.header ≡ ok hb
      → length hb ≤ max_chunk
      → p.serialize_container c ≡ ok cb
      → length cb ≤ max_chunk
      → Kept xs s.log
      → let r = store_parts p c s in
        (r.0 ≡ value (p.container_id c))
        × (kept table_containers (p.container_id c) r.1.log ≡ some cb)
        × Kept xs r.1.log
  unfolding store_parts store_call
  store_parts_lem c hb cb xs s he hl ce cl k =
      let h_store = Request.store table_container_headers (p.container_id c) hb in
      let c_store = Request.store table_containers (p.container_id c) cb in
      let first = stores s.log h_store in
      let second = stores (Event.done h_store ∷ s.log) c_store in
      let hf = fits hb hl in
      let cf = fits cb cl in
      let all_kept = Kept-parts c hb cb xs s.log k in
      (
        ground (arith, he, ce, hf, cf, first, second),
        ground (
          arith,
          he,
          ce,
          hf,
          cf,
          first,
          second,
          nat_beq_iff (p.container_id c) (p.container_id c),
        ),
        ground (arith, he, ce, hf, cf, first, second, all_kept),
      )

  -- A file that was made into a container is assembled again byte by byte. (The store answers with no
  -- error and holds what was last put under an id, bytes up to the greatest length of a chunk are a
  -- chunk, the list of ids takes as many as a 24-bit number counts and there are no more pieces, no
  -- two pieces of the file have one id, and the header and the container are encoded in a chunk each
  -- and the container is decoded again.)
  pub assemble-containerize :
      (mime : String) (info : Option String) (bytes hb cb : Bytes) (s : Sys (Unit {0}))
      → Apart (pieces bytes)
      → length (pieces bytes) ≤ max_chunk
      → p.serialize_header (made p mime info bytes).header ≡ ok hb
      → length hb ≤ max_chunk
      → p.serialize_container (made p mime info bytes) ≡ ok cb
      → length cb ≤ max_chunk
      → p.deserialize_container cb ≡ ok (made p mime info bytes)
      → let r = containerize p push mime info bytes s in
        let id = p.container_id (made p mime info bytes) in
        (r.0 ≡ value id) × ((assemble p id r.1).0 ≡ value bytes)
  unfolding containerize assemble retrieve_chunk
  assemble-containerize mime info bytes hb cb s apart few he hl ce cl de =
      let c = made p mime info bytes in
      let xs = pieces bytes in
      let cut =
        store_pieces_lem xs xs [] [] s apart (λ x i. i) (λ x i. absurd i) (pieces-Fits bytes)
          (omega (arith, few)) tt in
      let s₁ = (store_pieces p push xs [] s).1 in
      let parts = store_parts_lem c hb cb xs s₁ he hl ce cl cut.1 in
      let s₂ = (store_parts p c s₁).1 in
      let found = holds s₂.log table_containers (p.container_id c) in
      let s₃ = record s₂ {
        log = Event.done (Request.retrieve table_containers (p.container_id c)) ∷ s₂.log;
      } in
      let read =
        collect_chunks_lem xs s₃
          (Kept-retrieve table_containers (p.container_id c) xs s₂.log parts.2) in
      (
        ground (arith, cut.0, parts.0),
        ground (arith, cut.0, parts.0, parts.1, found, de, read, concat-pieces bytes),
      )
