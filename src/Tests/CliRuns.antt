-- ===== src/Tests/CliRuns.antt =====
-- A run of the command line client.
use storm_node.Base.{
  Has, ◌≡◌, refl, sym, ◌∙◌, inl, inr, String, none, some, List, [], ◌∷◌, ◌++◌, map, arith, nat_eq,
}
use storm_node.Base.Action.{Result, ok, err}
use storm_node.Wire.{Bytes, ChunkId, NodeId, Messages}
use storm_node.Errors.{EncodingError}
use storm_node.World.{Platform, Sys}
use storm_node.Cli.{pieces, pieces_from}
use storm_node.Rpc.Ids.{chatd}
use storm_node.Rpc.Messages.{RadioMsg}
use storm_node.Rpc.Client.{BusMsg, PollItem, Client}
use storm_node.Rpc.Client.Responses.{one_by_one}
use storm_node.Cli.{IoError, CliError}
use storm_node.Cli.Commands.{Ran, Session, chat_send, listen}
use storm_node.Cli.Commands.Talk.{told, chat_send-told}
use storm_node.Cli.Commands.Listen.{overheard, listen-overheard}
use storm_node.Cli.RoundTrip.{kept, made}
use storm_node.Cli.Opts.{Command}
use storm_node.Cli.Exec.{Shell, Desk, exec}
use storm_node.Cli.Exec.Ends.{exec-ends}
use storm_node.Cli.Exec.Files.{file_comes_back}
use storm_node.Tests.Samples.{reliable}

abbrev text : Bytes
text = 104 ∷ 105 ∷ []

-- A store that holds what was put into it, and one container that decodes.
abbrev platform : Platform
platform = record (reliable Messages.list_apps) {
  retrieved = λ log table id. ok (kept table id log);
  deserialize_container = λ c. ok (made (reliable Messages.list_apps) "text/plain" none text);
}

abbrev push : List ChunkId → ChunkId → Result EncodingError (List ChunkId)
push ids id = ok (ids ++ id ∷ [])

one_piece :
    (a b : Bytes)
    → Has a (pieces text)
    → Has b (pieces text)
    → platform.chunk_id a ≡ platform.chunk_id b
    → a ≡ b
unfolding pieces pieces_from
one_piece a b (inl e) (inl f) h = e ∙ sym f
one_piece a b (inr i) f h = absurd i
one_piece a b e (inr i) h = absurd i

abbrev session : Client → Session
session client = record { client = client; connects = []; printed = [] }

abbrev silent : Client
silent = record { client_id = 5; user_agent = "cli"; response_queue = []; incoming = []; sent = [] }

abbrev typed : List String
typed = "hi" ∷ "bye" ∷ []

abbrev typed_lines : List (Result IoError String)
typed_lines = map ok typed

chat_send-told_example :
    let send = chat_send (λ log. none) (λ peers. none) (some "10.0.0.1:9735") 3 in
    let whole = send (map ok typed) (session silent) in
    let broken = send (map ok typed ++ err 5 ∷ []) (session silent) in
    (whole.0 ≡ Ran.finished)
    × (whole.1.client.sent ≡ told 3 typed [])
    × (broken.0 ≡ Ran.failed (CliError.io 5))
    × (broken.1.client.sent ≡ told 3 typed [])
chat_send-told_example =
    chat_send-told (λ log. none) (λ peers. none) (λ sent. refl) (some "10.0.0.1:9735") 3 typed 5 []
      (session silent) refl

abbrev heard_from : NodeId → String → PollItem
heard_from peer text = record {
  source = chatd;
  request = BusMsg.chat (RadioMsg.received (record { remote_id = peer; content = text }));
}

abbrev polls : List PollItem
polls = heard_from 3 "hi" ∷ heard_from 4 "hello" ∷ []

abbrev spoken_to : Client
spoken_to = record silent { incoming = one_by_one polls }

listen-overheard_example :
    let (r, lines) = overheard 3 polls in
    let (r', s') = listen (λ log. none) (λ peers. none) 3 3 (session spoken_to) in
    (r' ≡ some r) × (s'.printed ≡ [] ++ lines)
listen-overheard_example =
    listen-overheard (λ log. none) (λ peers. none) 3 3 (session spoken_to) polls refl refl
      (omega arith)

abbrev shell : Shell
shell = record {
  read = λ files path. elim (files path) [ some bytes ↦ ok bytes | none ↦ err 2 ];
  create = λ files path. none;
  write_all = λ files old bytes. none;
  push = push;
  id_text = λ id. "container9";
  size_text = λ n. "some";
  transport = λ log. none;
  lnp = λ peers. none;
  stdin = [];
}

abbrev at_desk : Sys Desk
at_desk = record { rt = record { session = session silent; files = λ name. some text }; log = [] }

file_comes_back_example :
    let (r, s') = exec platform shell (Command.containerize "text/plain" "a.txt" none) at_desk in
    let (r', s'') = exec platform shell (Command.assemble 9 "b.txt") s' in
    (r ≡ some Ran.finished)
    × (s'.rt.session.printed ≡ [] ++ "container9" ∷ [])
    × (r' ≡ some Ran.finished)
    × (s''.rt.files "b.txt" ≡ some text)
unfolding pieces pieces_from
file_comes_back_example =
    file_comes_back platform shell (λ files path. refl) (λ files old bytes. refl) (λ log r. refl)
      (λ log t i. refl) (λ b h. refl) (λ ids id h. refl) "text/plain" "a.txt" "b.txt" none text
      (0 ∷ []) (0 ∷ []) at_desk refl one_piece (omega arith) refl (omega arith) refl (omega arith)
      refl

exec-ends_example :
    (r : Ran) × ((exec platform shell (Command.download none 3 9) at_desk).0 ≡ some r)
exec-ends_example = exec-ends platform shell (Command.download none 3 9) at_desk
