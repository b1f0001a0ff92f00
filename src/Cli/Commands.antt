-- ===== src/Cli/Commands.antt =====
-- The commands of the client that talk to the node, `chat-send`, `chat-listen`, `upload` and
-- `download`: the other branches of `exec` of cli/src/command.rs. The lines of the standard input are
-- an argument.
pub mod Talk
pub mod Listen
use Prim.Native.String.{◌++◌ as concat}
use storm_node.Base.{ℕ, zero, suc, String, Option, none, some, List, [], ◌∷◌, ◌++◌}
use storm_node.Base.Action.{Result, ok, err}
use storm_node.Wire.{NodeId, ContainerId}
use storm_node.Rpc.Ids.{ServiceId}
use storm_node.Rpc.Failure.{EsbError}
use storm_node.Rpc.Messages.{RpcMsg}
use storm_node.Cli.{LnpError, IoError, CliError}
use storm_node.Rpc.Client.{Client, Ended, chat_tell, chat_recv, upload, download, waiting}

-- How a command ends: `waits` is for a message that does not come, `panicked` for an `expect` that fails.
pub data Ran : Type 0 where
  finished : Ran
  failed : CliError → Ran
  waits : Ran
  panicked : String → Ran

-- What a command works on: the client of the node, the peers that the LNP node was told to connect,
-- newest first, and the printed lines, in order.
pub record Session : Type 0 where
  pub client : Client
  pub connects : List (NodeId × String)
  pub printed : List String

abbrev pub print : List String → Session → Session
print lines s = record s { printed = s.printed ++ lines }

abbrev pub ran : Ended (Unit {0}) → Ran
ran (Ended.returned _) = Ran.finished
ran (Ended.failed e) = Ran.failed (CliError.storm e)
ran Ended.blocked = Ran.waits

module _ (transport : List (ServiceId × RpcMsg) → Option EsbError)
    (lnp : List (NodeId × String) → Option LnpError) where
  -- `if let Some(addr) = connect`
  unfoldable pub connect_peer :
      Option String → NodeId → Session → Result CliError (Unit {0}) × Session
  connect_peer none peer s = (ok tt, s)
  connect_peer (some addr) peer s = elim (lnp ((peer, addr) ∷ s.connects)) [
    | none ↦ (ok tt, record s { connects = (peer, addr) ∷ s.connects })
    | some e ↦ (err (CliError.lnp e), s)
  ]

  unfoldable pub tell_lines : NodeId → List (Result IoError String) → Session → Ran × Session
  tell_lines peer [] s = (Ran.finished, s)
  tell_lines peer (err e ∷ lines) s = (Ran.failed (CliError.io e), s)
  tell_lines peer (ok line ∷ lines) s =
      let (r, client) = chat_tell transport s.client peer line in
      elim r [
        | err e ↦ (Ran.failed (CliError.storm e), record s { client = client })
        | ok _ ↦ tell_lines peer lines (record s { client = client })
      ]

  unfoldable pub chat_send :
      Option String → NodeId → List (Result IoError String) → Session → Ran × Session
  chat_send connect peer lines s =
      let (r, s') = connect_peer connect peer s in
      elim r [ err e ↦ (Ran.failed e, s') | ok _ ↦ tell_lines peer lines s' ]

  -- The loop of `chat-listen` on fuel.
  unfoldable pub listen : ℕ → NodeId → Session → Option Ran × Session
  listen zero peer s = (none, s)
  listen (suc fuel) peer s =
      let (heard, client) = chat_recv s.client peer in
      elim heard [
        | Ended.failed e ↦ (some (Ran.failed (CliError.storm e)), record s { client = client })
        | Ended.blocked ↦ (some Ran.waits, record s { client = client })
        | Ended.returned line ↦
            listen fuel peer (print (concat "> " line ∷ []) (record s { client = client }))
      ]

  -- The fuel is one more than there are messages.
  unfoldable pub chat_listen : Option String → NodeId → Session → Option Ran × Session
  chat_listen connect peer s =
      let (r, s') = connect_peer connect peer s in
      elim r [ err e ↦ (some (Ran.failed e), s') | ok _ ↦ listen (suc (waiting s'.client)) peer s' ]

  unfoldable pub show_progress :
      Option (Ended (Unit {0})) × List String × Client → Session → Option Ran × Session
  show_progress (none, texts, client) s = (none, print texts (record s { client = client }))
  show_progress (some r, texts, client) s =
      (some (ran r), print texts (record s { client = client }))

  unfoldable pub upload_container :
      Option String → NodeId → ContainerId → Session → Option Ran × Session
  upload_container connect peer container_id s =
      let (r, s') = connect_peer connect peer s in
      elim r [
        | err e ↦ (some (Ran.failed e), s')
        | ok _ ↦ show_progress (upload transport s'.client peer container_id) s'
      ]

  unfoldable pub download_container :
      Option String → NodeId → ContainerId → Session → Option Ran × Session
  download_container connect peer container_id s =
      let (r, s') = connect_peer connect peer s in
      elim r [
        | err e ↦ (some (Ran.failed e), s')
        | ok _ ↦ show_progress (download transport s'.client peer container_id) s'
      ]
