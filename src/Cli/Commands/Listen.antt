-- ===== src/Cli/Commands/Listen.antt =====
-- What `chat-listen` prints.
use Prim.Native.String.{◌++◌ as concat}
use storm_node.Base.{
  ℕ, zero, suc, ◌≡◌, ◌≢◌, ◌<◌, refl, inl, inr, String, Option, Option-cases, none, some, List, [],
  ◌∷◌, ◌++◌, arith, append-nil, append_assoc, length, nat_eq, if◌then◌else◌, ◌==◌,
}
use storm_node.Base.Action.{Result-cases}
use storm_node.Wire.{NodeId}
use storm_node.Rpc.Ids.{ServiceId}
use storm_node.Rpc.Failure.{EsbError, Error}
use storm_node.Rpc.Messages.{RpcMsg, RadioMsg}
use storm_node.Rpc.Client.{BusMsg, PollItem, pop, poll_loop, response, chat_recv, waiting}
use storm_node.Rpc.Client.Responses.{one_by_one, response-last, waiting-response}
use storm_node.Cli.{LnpError, CliError}
use storm_node.Cli.Commands.{Ran, Session, print, connect_peer, listen, chat_listen}

-- What is printed if the messages come one at a time, and how it ends.
abbrev pub overheard : NodeId → List PollItem → Ran × List String
overheard peer [] = (Ran.waits, [])
overheard peer (poll ∷ polls) =
    let (r, lines) = overheard peer polls in
    elim poll.request [
      | BusMsg.chat (RadioMsg.received m) ↦
          if m.remote_id == peer
          then (r, concat "> " m.content ∷ lines)
          else (Ran.failed (CliError.storm Error.unexpected_server_response), [])
      | BusMsg.rpc _ ↦ (Ran.failed (CliError.storm Error.unexpected_server_response), [])
    ]

module _ (transport : List (ServiceId × RpcMsg) → Option EsbError)
    (lnp : List (NodeId × String) → Option LnpError) where
  -- If the messages come one at a time, `chat-listen` prints the texts of the peer in the order in
  -- which they came, up to the first message that is not a text of that peer, which ends it with an
  -- error.
  pub listen-overheard :
      (fuel : ℕ) (peer : NodeId) (s : Session) (polls : List PollItem)
      → s.client.response_queue ≡ []
      → s.client.incoming ≡ one_by_one polls
      → length polls < fuel
      → let (r, lines) = overheard peer polls in
        let (r', s') = listen transport lnp fuel peer s in
        (r' ≡ some r) × (s'.printed ≡ s.printed ++ lines)
  unfolding listen chat_recv response poll_loop pop
  listen-overheard zero peer s polls q i h = absurd (omega arith)
  listen-overheard (suc fuel) peer s [] q i h = ground (arith, append-nil s.printed)
  listen-overheard (suc fuel) peer s (poll ∷ polls) q i h =
      let c = record s.client { response_queue = []; incoming = one_by_one polls } in
      let heard_line = λ (line : String). print (concat "> " line ∷ []) (record s { client = c }) in
      grind (
        arith,
        response-last s.client [] poll (one_by_one polls) q i,
        λ (line : String). listen-overheard fuel peer (heard_line line) polls refl refl,
        λ (line : String). append_assoc s.printed (concat "> " line ∷ []) (overheard peer polls).1,
        append-nil s.printed,
      )

  listen-ne-none :
      (fuel : ℕ) (peer : NodeId) (s : Session)
      → waiting s.client < fuel
      → (listen transport lnp fuel peer s).0 ≢ none
  unfolding listen chat_recv
  listen-ne-none zero peer s h = absurd (omega arith)
  listen-ne-none (suc fuel) peer s h =
      let c = (response s.client).1 in
      grind (
        arith,
        waiting-response s.client,
        λ (line : String).
            listen-ne-none fuel peer (print (concat "> " line ∷ []) (record s { client = c })),
      )

  -- `chat-listen` ends or waits for a message that does not come: one more round than there are
  -- messages is enough fuel for its loop.
  pub chat_listen-ends :
      (connect : Option String) (peer : NodeId) (s : Session)
      → (r : Ran) × ((chat_listen transport lnp connect peer s).0 ≡ some r)
  unfolding chat_listen
  chat_listen-ends connect peer s =
      let (tried, s') = connect_peer transport lnp connect peer s in
      let fuel = suc (waiting s'.client) in
      elim (Result-cases tried) [
        | inr (e, q) ↦ (Ran.failed e, ground (arith, q))
        | inl (a, q) ↦ elim (Option-cases (listen transport lnp fuel peer s').0) [
          | inl stuck ↦ absurd (listen-ne-none fuel peer s' (omega arith) stuck)
          | inr (r, found) ↦ (r, ground (arith, q, found))
        ]
      ]
