-- ===== src/Cli/Exec/Ends.antt =====
-- That every command of the client ends, or waits for a message that does not come.
use storm_node.Base.{◌≡◌, refl, inl, inr, String, Option, some, List, arith}
use storm_node.Base.Action.{Result-cases}
use storm_node.Wire.{NodeId, ContainerId}
use storm_node.Rpc.Client.{Ended, Client, upload, download}
use storm_node.Rpc.Client.Responses.{progressive_request-ends}
use storm_node.World.{Platform, Sys}
use storm_node.Cli.Opts.{Command}
use storm_node.Cli.Commands.{
  Ran, Session, ran, connect_peer, show_progress, upload_container, download_container,
}
use storm_node.Cli.Commands.Listen.{chat_listen-ends}
use storm_node.Cli.Exec.{Shell, Desk, exec}

abbrev Ends : {A : Type 0} → Option Ran × A → Type 0
Ends ended = (r : Ran) × (ended.0 ≡ some r)

module _ (p : Platform) (shell : Shell) where
  show_progress-Ends :
      (shown : Option (Ended (Unit {0})) × List String × Client) (s : Session)
      → ((r : Ended (Unit {0})) × (shown.0 ≡ some r))
      → Ends (show_progress shell.transport shell.lnp shown s)
  unfolding show_progress
  show_progress-Ends shown s (r, e) = (ran r, ground (arith, e))

  upload-Ends :
      (connect : Option String) (peer : NodeId) (id : ContainerId) (s : Session)
      → Ends (upload_container shell.transport shell.lnp connect peer id s)
  unfolding upload_container upload
  upload-Ends connect peer id s =
      let (tried, s') = connect_peer shell.transport shell.lnp connect peer s in
      elim (Result-cases tried) [
        | inr (e, q) ↦ (Ran.failed e, ground (arith, q))
        | inl (a, q) ↦
            (let (r, shown) =
                show_progress-Ends (upload shell.transport s'.client peer id) s'
                  (progressive_request-ends shell.transport s'.client _ _) in
              (r, ground (arith, q, shown)))
      ]

  download-Ends :
      (connect : Option String) (peer : NodeId) (id : ContainerId) (s : Session)
      → Ends (download_container shell.transport shell.lnp connect peer id s)
  unfolding download_container download
  download-Ends connect peer id s =
      let (tried, s') = connect_peer shell.transport shell.lnp connect peer s in
      elim (Result-cases tried) [
        | inr (e, q) ↦ (Ran.failed e, ground (arith, q))
        | inl (a, q) ↦
            (let (r, shown) =
                show_progress-Ends (download shell.transport s'.client peer id) s'
                  (progressive_request-ends shell.transport s'.client _ _) in
              (r, ground (arith, q, shown)))
      ]

  -- Every command of the client ends, in success, with an error or with a panic, or waits for a message
  -- that does not come: the fuel of the loops is enough, whatever the bus, the store, the files and the
  -- terminal answer and whatever messages come.
  pub exec-ends :
      (command : Command) (s : Sys Desk) → (r : Ran) × ((exec p shell command s).0 ≡ some r)
  unfolding exec
  exec-ends (Command.chat_send connect peer) s = (_, refl)
  exec-ends (Command.chat_listen connect peer) s =
      chat_listen-ends shell.transport shell.lnp connect peer s.rt.session
  exec-ends (Command.containerize mime path info) s = (_, refl)
  exec-ends (Command.assemble id path) s = (_, refl)
  exec-ends (Command.upload connect peer id) s = upload-Ends connect peer id s.rt.session
  exec-ends (Command.download connect peer id) s = download-Ends connect peer id s.rt.session
