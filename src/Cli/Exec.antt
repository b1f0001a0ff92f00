-- ===== src/Cli/Exec.antt =====
-- The dispatch of the client on its command, `exec` of cli/src/command.rs, and its program,
-- cli/src/main.rs, from the parsed options on. Files are texts by path; what the file system, the
-- terminal and the client of the LNP node answer are arguments. What goes to the standard error is
-- left out, but for the error at the end.
pub mod Files
pub mod Ends
use Prim.Native.String.{◌++◌ as concat}
use text.Mathlib.Text.{◌==◌ as str_eq}
use storm_node.Base.{
  ℕ, String, Bool, true, false, Option, none, some, List, [], ◌∷◌, ◌++◌, if◌then◌else◌,
}
use storm_node.Base.Action.{
  Result, ok, err, Outcome, value, error, panic, Action, pure, lift, ◌>>=◌, ◌>>◌, conv, expect,
}
use storm_node.Wire.{Bytes, ContainerId, ChunkId, NodeId, ClientId}
use storm_node.Rpc.Ids.{ServiceId}
use storm_node.Rpc.Failure.{EsbError, Error}
use storm_node.Rpc.Messages.{RpcMsg}
use storm_node.Rpc.Client.{Client, PollItem}
use storm_node.Rpc.Client.Start.{Bus, Handler, connect}
use storm_node.Bus.{BusConfig}
use storm_node.Errors.{EncodingError, StoreError}
use storm_node.World.{Platform, Sys, Request, table_containers, table_chunks}
use storm_node.World.Effects.{retrieve_chunk, store_call, update}
use storm_node.Cli.{IoError, LnpError, CliError, CliAction, containerize}
use storm_node.Cli.Opts.{ServiceAddr, Command, CliOpts, expand_endpoints}
use storm_node.Cli.Commands.{
  Ran, Session, print, chat_send, chat_listen, upload_container, download_container,
}

abbrev pub Files : Type 0
Files = String → Option Bytes

abbrev pub put_file : String → Bytes → Files → Files
put_file path bytes files = λ name. if str_eq name path then some bytes else files name

-- The file system, and the client's push onto the list of chunks, which may be full. A write that
-- fails may have written a part, so it answers with what the file then holds.
pub record Shell : Type 0 where
  pub read : Files → String → Result IoError Bytes
  pub create : Files → String → Option IoError
  pub write_all : Files → Bytes → Bytes → Option (IoError × Bytes)
  pub push : List ChunkId → ChunkId → Result EncodingError (List ChunkId)
  pub id_text : ContainerId → String
  pub size_text : ℕ → String
  pub transport : List (ServiceId × RpcMsg) → Option EsbError
  pub lnp : List (NodeId × String) → Option LnpError
  pub stdin : List (Result IoError String)

-- What the client works on: its connections, what it printed, and the files.
pub record Desk : Type 0 where
  pub session : Session
  pub files : Files

abbrev pub DeskAction : Type 0 → Type 0
DeskAction A = Action (Sys Desk) CliError A

-- A command on the store alone.
abbrev pub on_store : {A : Type 0} → CliAction A → DeskAction A
on_store m s = let (r, s') = m (record { rt = tt; log = s.log }) in (r, record s { log = s'.log })

abbrev println : String → DeskAction (Unit {0})
println line = update (λ desk. record desk { session = print (line ∷ []) desk.session })

-- How a command that does not wait for messages ends.
abbrev pub ended : Outcome CliError (Unit {0}) → Ran
ended (value _) = Ran.finished
ended (error e) = Ran.failed e
ended (panic text) = Ran.panicked text

abbrev pub with_session : (Session → Option Ran × Session) → Sys Desk → Option Ran × Sys Desk
with_session command s =
    let (r, session) = command s.rt.session in
    (r, record s { rt = record s.rt { session = session } })

module _ (p : Platform) (shell : Shell) where
  unfoldable pub read_file : String → DeskAction Bytes
  read_file path s = elim (shell.read s.rt.files path) [
    | ok bytes ↦ (value bytes, s)
    | err e ↦ (error (CliError.io e), s)
  ]

  unfoldable pub create_file : String → DeskAction (Unit {0})
  create_file path s = elim (shell.create s.rt.files path) [
    | none ↦ (value tt, record s { rt = record s.rt { files = put_file path [] s.rt.files } })
    | some e ↦ (error (CliError.io e), s)
  ]

  -- `file.write_all`, to the end of what the file holds.
  unfoldable pub write_file : String → Bytes → Bytes → DeskAction (Unit {0})
  write_file path old bytes s = elim (shell.write_all s.rt.files old bytes) [
    | none ↦ (
      value tt,
      record s { rt = record s.rt { files = put_file path (old ++ bytes) s.rt.files } },
    )
    | some failure ↦ (
      error (CliError.io failure.0),
      record s { rt = record s.rt { files = put_file path failure.1 s.rt.files } },
    )
  ]

  -- The loop of `assemble`; the bytes that are written already are the second argument.
  unfoldable pub write_chunks : String → Bytes → List ChunkId → DeskAction (Unit {0})
  write_chunks path old [] = pure tt
  write_chunks path old (id ∷ ids) = do
    found ← conv CliError.store (retrieve_chunk p table_chunks id)
    chunk ← expect found (concat "Chunk " (concat (p.chunk_id_text id) " is absent"))
    write_file path old chunk
    write_chunks path (old ++ chunk) ids

  unfoldable pub containerize_file : String → String → Option String → DeskAction (Unit {0})
  containerize_file mime path info = do
    bytes ← read_file path
    id ← on_store (containerize p shell.push mime info bytes)
    println (shell.id_text id)

  unfoldable pub assemble_file : ContainerId → String → DeskAction (Unit {0})
  assemble_file container_id path = do
    found ← conv CliError.store (retrieve_chunk p table_containers container_id)
    container_chunk ← expect found "No container with the provided id"
    container ← conv CliError.strict_encoding (lift (p.deserialize_container container_chunk))
    println (concat "Size: " (concat (shell.size_text container.header.size) " bytes"))
    println (concat "MIME: " container.header.mime)
    println (concat "Info: " container.header.info)
    create_file path
    write_chunks path [] container.chunks

  unfoldable pub exec : Command → Sys Desk → Option Ran × Sys Desk
  exec (Command.chat_send connect peer) s =
      with_session
        (λ session.
          let (r, session') =
            chat_send shell.transport shell.lnp connect peer shell.stdin session in
          (some r, session'))
        s
  exec (Command.chat_listen connect peer) s =
      with_session (chat_listen shell.transport shell.lnp connect peer) s
  exec (Command.containerize mime path info) s =
      let (r, s') = containerize_file mime path info s in (some (ended r), s')
  exec (Command.assemble container_id path) s =
      let (r, s') = assemble_file container_id path s in (some (ended r), s')
  exec (Command.upload connect peer container_id) s =
      with_session (upload_container shell.transport shell.lnp connect peer container_id) s
  exec (Command.download connect peer container_id) s =
      with_session (download_container shell.transport shell.lnp connect peer container_id) s

-- What `main` opens: `shellexpand::tilde`, an address as the clients take it, the arguments of
-- `Client::with` of rpc/src/client.rs, and the client of the LNP node, which may fail.
pub record Setup : Type 0 where
  pub tilde : String → String
  pub address : ServiceAddr → String
  pub controller : List (Bus × BusConfig) → Handler → Option EsbError
  pub client_id : ClientId
  pub incoming : List (Result EsbError (List PollItem))
  pub lnp_client : String → Option LnpError

abbrev banner : String
banner = "storm-cli: command-line tool for working with Storm node"

abbrev desk : Client → Files → Desk
desk client files = record {
  session = record { client = client; connects = []; printed = banner ∷ [] };
  files = files;
}

-- `expect` on the connection to the store.
abbrev opened :
    {A : Type 0} → Outcome StoreError (Unit {0}) × Sys Desk → (Sys Desk → A) → Result String A
opened (value _, s) k = ok (k s)
opened (_, s) k = err "Error initializing store client"

-- The three clients, one after the other, and the command; the error is the text of a panic. `main`
-- prints the error that a command ends with, and returns.
unfoldable pub main :
    Platform → Shell → Setup → CliOpts → Files → Result String (Option Ran × Sys Desk)
main p shell setup opts files =
    let expanded = expand_endpoints setup.tilde opts in
    let storm =
      connect setup.controller setup.client_id setup.incoming
        (setup.address expanded.storm_endpoint) (setup.address expanded.radio_endpoint)
        "storm-cli" in
    elim storm [
      | err e ↦ err "Error initializing Storm client"
      | ok client ↦ elim (setup.lnp_client (setup.address expanded.lnp_endpoint)) [
        | some e ↦ err "Error initializing LNP client"
        | none ↦
            opened
              (store_call p (Request.connect (setup.address expanded.store_endpoint))
                (record { rt = desk client files; log = [] }))
              (exec p shell expanded.command)
      ]
    ]
