-- ===== src/Cli/Commands/Talk.antt =====
-- What `chat-send` sends.
use storm_node.Base.{
  append-nil, ◌≡◌, refl, inl, inr, String, Option, Option-cases, none, some, List, [], ◌∷◌, ◌++◌,
  map, arith, ap,
}
use storm_node.Base.Action.{Result, Result-cases, ok, err}
use storm_node.Wire.{NodeId}
use storm_node.Rpc.Ids.{ServiceId, chatd}
use storm_node.Rpc.Failure.{EsbError}
use storm_node.Rpc.Messages.{RpcMsg}
use storm_node.Rpc.Client.{chat_tell, request}
use storm_node.Cli.{IoError, LnpError, CliError}
use storm_node.Cli.Commands.{Ran, Session, connect_peer, tell_lines, chat_send}

abbrev readable : List String → List (Result IoError String)
readable texts = map ok texts

-- The requests of the client, newest first, once lines were told to a peer.
abbrev pub told : NodeId → List String → List (ServiceId × RpcMsg) → List (ServiceId × RpcMsg)
told peer [] sent = sent
told peer (line ∷ lines) sent =
    told peer lines ((chatd, RpcMsg.send_chat (record { remote_id = peer; content = line })) ∷ sent)

module _ (transport : List (ServiceId × RpcMsg) → Option EsbError)
    (lnp : List (NodeId × String) → Option LnpError) where
  tell_lines-finished :
      (peer : NodeId) (lines : List (Result IoError String)) (s : Session)
      → (tell_lines transport lnp peer lines s).0 ≡ Ran.finished
      → (texts : List String) × (lines ≡ map ok texts)
        × ((tell_lines transport lnp peer lines s).1.client.sent ≡ told peer texts s.client.sent)
  unfolding tell_lines chat_tell request
  tell_lines-finished peer [] s h = ([], refl, refl)
  tell_lines-finished peer (err e ∷ lines) s h = cc
  tell_lines-finished peer (ok line ∷ lines) s h =
      let c = record s.client {
        sent =
            (chatd, RpcMsg.send_chat (record { remote_id = peer; content = line })) ∷ s.client.sent;
      } in
      elim (Option-cases (transport c.sent)) [
        | inl e ↦
            let (texts, all, sent) =
              tell_lines-finished peer lines (record s { client = c }) (ground (arith, e, h)) in
            (line ∷ texts, ap (◌∷◌ (ok line)) all, ground (arith, e, sent))
        | inr (x, e) ↦ absurd (ground (arith, e, h))
      ]

  connect_peer-client :
      (connect : Option String) (peer : NodeId) (s : Session)
      → (connect_peer transport lnp connect peer s).1.client ≡ s.client
  unfolding connect_peer
  connect_peer-client none peer s = refl
  connect_peer-client (some addr) peer s = ground arith

  -- The LNP node is not asked to connect the peer, or does it.
  abbrev pub Connects : Option String → NodeId → Session → Type 0
  Connects none peer s = Unit
  Connects (some addr) peer s = lnp ((peer, addr) ∷ s.connects) ≡ none

  connect_peer-ok :
      (connect : Option String) (peer : NodeId) (s : Session)
      → Connects connect peer s
      → (connect_peer transport lnp connect peer s).0 ≡ ok tt
  unfolding connect_peer
  connect_peer-ok none peer s connects = refl
  connect_peer-ok (some addr) peer s connects = ground (arith, connects)

  -- `chat-send` ends without an error only if every line was read and asked to be sent to the peer, in
  -- order, whatever the bus and the LNP node answer.
  pub chat_send-finished :
      (connect : Option String) (peer : NodeId) (lines : List (Result IoError String)) (s : Session)
      → (chat_send transport lnp connect peer lines s).0 ≡ Ran.finished
      → (texts : List String) × (lines ≡ map ok texts)
        × ((chat_send transport lnp connect peer lines s).1.client.sent
            ≡ told peer texts s.client.sent)
  unfolding chat_send
  chat_send-finished connect peer lines s h =
      let s' = (connect_peer transport lnp connect peer s).1 in
      elim (Result-cases (connect_peer transport lnp connect peer s).0) [
        | inl (a, e) ↦
            let (texts, all, sent) = tell_lines-finished peer lines s' (ground (arith, e, h)) in
            (texts, all, ground (arith, e, sent, connect_peer-client connect peer s))
        | inr (x, e) ↦ absurd (ground (arith, e, h))
      ]

  tell_lines-told :
      ((sent : List (ServiceId × RpcMsg)) → transport sent ≡ none)
      → (peer : NodeId) (texts : List String) (lines : List (Result IoError String)) (s : Session)
      → let c = record s.client { sent = told peer texts s.client.sent } in
        tell_lines transport lnp peer (map ok texts ++ lines) s
        ≡ tell_lines transport lnp peer lines (record s { client = c })
  unfolding tell_lines chat_tell request
  tell_lines-told sends peer [] lines s = refl
  tell_lines-told sends peer (text ∷ texts) lines s =
      let c = record s.client {
        sent =
            (chatd, RpcMsg.send_chat (record { remote_id = peer; content = text })) ∷ s.client.sent;
      } in
      ground (arith, sends c.sent, tell_lines-told sends peer texts lines (record s { client = c }))

  -- If the LNP node connects the peer, or is not asked to (whatever it would answer), and the bus takes every request,
  -- `chat-send` asks for every line to be sent to the peer, in order, and ends without an error; a
  -- line that cannot be read ends it with that error after the lines before it.
  pub chat_send-told :
      ((sent : List (ServiceId × RpcMsg)) → transport sent ≡ none)
      → (connect : Option String) (peer : NodeId) (texts : List String) (e : IoError)
        (unread : List (Result IoError String)) (s : Session)
      → Connects connect peer s
      → let whole = chat_send transport lnp connect peer (map ok texts) s in
        let broken = chat_send transport lnp connect peer (map ok texts ++ err e ∷ unread) s in
        (whole.0 ≡ Ran.finished)
        × (whole.1.client.sent ≡ told peer texts s.client.sent)
        × (broken.0 ≡ Ran.failed (CliError.io e))
        × (broken.1.client.sent ≡ told peer texts s.client.sent)
  unfolding chat_send tell_lines
  chat_send-told sends connect peer texts e unread s connects =
      let s' = (connect_peer transport lnp connect peer s).1 in
      let connected = connect_peer-ok connect peer s connects in
      let client = connect_peer-client connect peer s in
      let all = tell_lines-told sends peer texts [] s' in
      let cut = tell_lines-told sends peer texts (err e ∷ unread) s' in
      let nil = append-nil (readable texts) in
      (
        ground (arith, connected, client, all, nil),
        ground (arith, connected, client, all, nil),
        ground (arith, connected, client, cut),
        ground (arith, connected, client, cut),
      )
