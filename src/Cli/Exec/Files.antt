-- ===== src/Cli/Exec/Files.antt =====
-- What the commands `containerize` and `assemble` make of files, beside the definitions of Cli, which
-- take and return bytes.
use Prim.Native.String.{◌++◌ as concat}
use text.Mathlib.TextPositions.{eq_refl}
use storm_node.Base.{
  Has, ℕ, ◌≤◌, ◌<◌, ◌≡◌, refl, inl, inr, String, Option, none, some, List, [], ◌∷◌, ◌++◌, length,
  arith, append-nil, append_assoc,
}
use storm_node.Base.Action.{ok, Result-cases, Outcome-cases, Outcome, value, error, panic}
use storm_node.Wire.{Bytes, ContainerId, ChunkId, Container}
use storm_node.World.{Platform, Sys, Log, Request, Event, table_chunks, table_containers}
use storm_node.World.Effects.{retrieve_chunk}
use storm_node.Cli.{CliError, max_chunk, pieces, collect_chunks, assemble}
use storm_node.Cli.Opts.{Command}
use storm_node.Cli.Commands.{Ran, print}
use storm_node.Cli.RoundTrip.{kept, made, assemble-containerize}
use storm_node.Cli.Exec.{
  Files, put_file, Shell, Desk, read_file, create_file, write_file, write_chunks, containerize_file,
  assemble_file, exec,
}

-- The bytes are written to a file.
abbrev pub wrote : Outcome CliError Bytes → Outcome CliError (Unit {0})
wrote (value _) = value tt
wrote (error e) = error e
wrote (panic text) = panic text

abbrev bare : Sys Desk → Sys (Unit {0})
bare s = record { rt = tt; log = s.log }

module _ (p : Platform) (shell : Shell)
    (creates : (files : Files) (path : String) → shell.create files path ≡ none)
    (writes : (files : Files) (old bytes : Bytes) → shell.write_all files old bytes ≡ none) where
  write_chunks-collect_chunks :
      (path : String) (ids : List ChunkId) (old : Bytes) (s : Sys Desk)
      → s.rt.files path ≡ some old
      → let r = write_chunks p shell path old ids s in
        let c = (collect_chunks p ids (bare s)).0 in
        (r.0 ≡ wrote c) × ((b : Bytes) → c ≡ value b → r.1.rt.files path ≡ some (old ++ b))
  unfolding write_chunks collect_chunks retrieve_chunk write_file
  write_chunks-collect_chunks path [] old s h = (refl, λ b e. ground (arith, h, e, append-nil old))
  write_chunks-collect_chunks path (id ∷ ids) old s h =
      elim (Result-cases (p.retrieved s.log table_chunks id)) [
        | inr (e, q) ↦ (ground (arith, q), λ b v. ground (arith, q, v))
        | inl (none, q) ↦ (ground (arith, q), λ b v. ground (arith, q, v))
        | inl (some chunk, q) ↦
            (let s' : Sys Desk = record {
              rt = record s.rt { files = put_file path (old ++ chunk) s.rt.files };
              log = Event.done (Request.retrieve table_chunks id) ∷ s.log;
            } in
              let rest =
                write_chunks-collect_chunks path ids (old ++ chunk) s'
                  (ground (arith, eq_refl path)) in
              let put = writes s.rt.files old chunk in
              (
                ground (arith, q, put, rest.0),
                λ b v. elim (Outcome-cases (collect_chunks p ids (bare s')).0) [
                  | inl (r, e) ↦
                      (let known = rest.1 r e in
                        let same = append_assoc old chunk r in
                        ground (arith, q, put, v, e, known, same))
                  | inr (inl (f, e)) ↦ ground (arith, q, put, v, e)
                  | inr (inr (f, e)) ↦ ground (arith, q, put, v, e)
                ],
              ))
      ]

  -- Where `assemble` begins to write.
  abbrev begun : ContainerId → String → Container → Sys Desk → Sys Desk
  begun id path c s = record {
    rt = record {
      session = print (concat "Info: " c.header.info ∷ []) (
          print (concat "MIME: " c.header.mime ∷ []) (
            print (concat "Size: " (concat (shell.size_text c.header.size) " bytes") ∷ [])
              s.rt.session));
      files = put_file path [] s.rt.files;
    };
    log = Event.done (Request.retrieve table_containers id) ∷ s.log;
  }

  -- `assemble` writes to the file what its definition over bytes gives back.
  assemble_file_lem :
      (id : ContainerId) (path : String) (b : Bytes) (s : Sys Desk)
      → (assemble p id (bare s)).0 ≡ value b
      → let r = assemble_file p shell id path s in (r.0 ≡ value tt) × (r.1.rt.files path ≡ some b)
  unfolding assemble_file assemble retrieve_chunk create_file
  assemble_file_lem id path b s h = elim (Result-cases (p.retrieved s.log table_containers id)) [
    | inr (e, q) ↦ (ground (arith, q, h), ground (arith, q, h))
    | inl (none, q) ↦ (ground (arith, q, h), ground (arith, q, h))
    | inl (some chunk, q) ↦ elim (Result-cases (p.deserialize_container chunk)) [
      | inr (e, d) ↦ (ground (arith, q, d, h), ground (arith, q, d, h))
      | inl (c, d) ↦
          (let s' = begun id path c s in
            let free = creates s.rt.files path in
            let whole =
              write_chunks-collect_chunks path c.chunks [] s' (ground (arith, eq_refl path)) in
            let read : (collect_chunks p c.chunks (bare s')).0 ≡ value b =
              ground (arith, q, d, h) in
            (ground (arith, q, d, free, whole.0, read), ground (arith, q, d, free, whole.1 b read)))
    ]
  ]

  -- A file that the client makes into a container and assembles under the number that it printed comes
  -- back byte by byte, and both commands finish. (The files are read, created and written without an
  -- error; the store answers with no error and holds what was last put under an id; bytes up to the
  -- greatest length of a chunk are a chunk; the list of ids takes as many as a 24-bit number counts and
  -- there are no more pieces; no two pieces of the file have one id; and the header and the container
  -- are encoded in a chunk each and the container is decoded again.)
  pub file_comes_back :
      ((log : Log) (r : Request) → p.store_reply log r ≡ none)
      → ((log : Log) (t : String) (i : ℕ) → p.retrieved log t i ≡ ok (kept t i log))
      → ((b : Bytes) → length b ≤ max_chunk → p.chunk_try_from b ≡ ok b)
      → ((ids : List ChunkId) (id : ChunkId)
          → length ids < max_chunk
          → shell.push ids id ≡ ok (ids ++ id ∷ []))
      → (mime path out : String) (info : Option String) (bytes hb cb : Bytes) (s : Sys Desk)
      → shell.read s.rt.files path ≡ ok bytes
      → ((a b : Bytes)
          → Has a (pieces bytes)
          → Has b (pieces bytes)
          → p.chunk_id a ≡ p.chunk_id b
          → a ≡ b)
      → length (pieces bytes) ≤ max_chunk
      → p.serialize_header (made p mime info bytes).header ≡ ok hb
      → length hb ≤ max_chunk
      → p.serialize_container (made p mime info bytes) ≡ ok cb
      → length cb ≤ max_chunk
      → p.deserialize_container cb ≡ ok (made p mime info bytes)
      → let id = p.container_id (made p mime info bytes) in
        let (r, s') = exec p shell (Command.containerize mime path info) s in
        let (r', s'') = exec p shell (Command.assemble id out) s' in
        (r ≡ some Ran.finished)
        × (s'.rt.session.printed ≡ s.rt.session.printed ++ shell.id_text id ∷ [])
        × (r' ≡ some Ran.finished)
        × (s''.rt.files out ≡ some bytes)
  unfolding exec containerize_file read_file
  file_comes_back stores holds fits room mime path out info bytes hb cb s found apart few he hl ce
        cl de =
      let crossed =
        assemble-containerize p shell.push stores holds fits room mime info bytes hb cb (bare s)
          apart few he hl ce cl de in
      let s' = (exec p shell (Command.containerize mime path info) s).1 in
      let id = p.container_id (made p mime info bytes) in
      let back : (assemble p id (bare s')).0 ≡ value bytes = ground (arith, found, crossed) in
      let filed = assemble_file_lem id out bytes s' back in
      (
        ground (arith, found, crossed.0),
        ground (arith, found, crossed.0),
        ground (arith, filed.0),
        ground (arith, filed.1),
      )
