-- ===== src/Rpc/Client.antt =====
-- The client library: rpc/src/client.rs. The answers of `recv_poll` are an input, a list of what
-- each call returns; where the list ends, the client waits for ever. A `Vec` has its last element
-- at the end of the list.
pub mod Responses
pub mod Start
use Prim.Native.String.{◌++◌ as concat}
use storm_node.Base.{
  ℕ, zero, suc, ◌+◌, String, Option, none, some, List, [], ◌∷◌, ◌++◌, if◌then◌else◌, ◌==◌, nat_eq,
  length,
}
use storm_node.Base.Action.{Result, ok, err}
use storm_node.Wire.{NodeId, ClientId, ContainerId, StormApp}
use storm_node.Rpc.Ids.{ServiceId, stormd, chatd}
use storm_node.Rpc.Failure.{EsbError, Error}
use storm_node.Rpc.Messages.{AddressedMsg, AppContainer, RpcMsg, RadioMsg, failure_to_error}

-- The wrapper of rpc/src/messages.rs for the two buses of a client.
pub data BusMsg : Type 0 where
  rpc : RpcMsg → BusMsg
  chat : RadioMsg → BusMsg

pub record PollItem : Type 0 where
  pub source : ServiceId
  pub request : BusMsg

pub record Client : Type 0 where
  pub client_id : ClientId
  pub user_agent : String
  pub response_queue : List PollItem
  pub incoming : List (Result EsbError (List PollItem))
  pub sent : List (ServiceId × RpcMsg)

-- `Vec::pop`
unfoldable pub pop {ℓ} : {A : Type ℓ} → List A → Option (A × List A)
pop [] = none
pop (x ∷ xs) = elim (pop xs) [ none ↦ some (x, []) | some (y, ys) ↦ some (y, x ∷ ys) ]

-- How a call of the client ends: `blocked` waits for a message that does not come.
pub data Ended (A : Type 0) : Type 0 where
  returned : A → Ended A
  failed : Error → Ended A
  blocked : Ended A

-- What `response` gives, and the queue and the input that it leaves.
pub record Response : Type 0 where
  pub poll : Ended PollItem
  pub queue : List PollItem
  pub rest : List (Result EsbError (List PollItem))

-- The loop of `response`.
unfoldable pub poll_loop : List PollItem → List (Result EsbError (List PollItem)) → Response
poll_loop queue [] = elim (pop queue) [
  | some (poll, left) ↦ record { poll = Ended.returned poll; queue = left; rest = [] }
  | none ↦ record { poll = Ended.blocked; queue = queue; rest = [] }
]
poll_loop queue (ok polls ∷ rest) = elim (pop queue) [
  | some (poll, left) ↦ record { poll = Ended.returned poll; queue = left; rest = ok polls ∷ rest }
  | none ↦ poll_loop (queue ++ polls) rest
]
poll_loop queue (err e ∷ rest) = elim (pop queue) [
  | some (poll, left) ↦ record { poll = Ended.returned poll; queue = left; rest = err e ∷ rest }
  | none ↦ record { poll = Ended.failed (Error.esb e); queue = queue; rest = rest }
]

unfoldable pub response : Client → Ended PollItem × Client
response c =
    let r = poll_loop c.response_queue c.incoming in
    (r.poll, record c { response_queue = r.queue; incoming = r.rest })

-- What `progressive_request` does with one response.
pub data Verdict : Type 0 where
  finish : String → Verdict
  report : String → Verdict
  fail : Error → Verdict

abbrev judge_rpc : Result Error RpcMsg → Verdict
judge_rpc (err e) = Verdict.fail e
judge_rpc (ok (RpcMsg.success (some info))) = Verdict.finish (concat "Success. " info)
judge_rpc (ok (RpcMsg.success none)) = Verdict.finish "Success"
judge_rpc (ok (RpcMsg.progress info)) = Verdict.report info
judge_rpc (ok _) = Verdict.fail Error.unexpected_server_response

unfoldable pub judge : BusMsg → Verdict
judge (BusMsg.rpc msg) = judge_rpc (failure_to_error msg)
judge (BusMsg.chat _) = Verdict.fail Error.unexpected_server_response

-- The loop of `progressive_request` on fuel, which is `none` when it runs out. The texts are what
-- `progress` is called with, in order.
unfoldable pub progress_loop : ℕ → Client → Option (Ended (Unit {0})) × List String × Client
progress_loop zero c = (none, [], c)
progress_loop (suc fuel) c =
    let (polled, c') = response c in
    elim polled [
      | Ended.failed e ↦ (some (Ended.failed e), [], c')
      | Ended.blocked ↦ (some Ended.blocked, [], c')
      | Ended.returned poll ↦ elim (judge poll.request) [
        | Verdict.fail e ↦ (some (Ended.failed e), [], c')
        | Verdict.finish text ↦ (some (Ended.returned tt), text ∷ [], c')
        | Verdict.report text ↦
            let (r, texts, c'') = progress_loop fuel c' in (r, text ∷ texts, c'')
      ]
    ]

-- The messages that wait in the queue and in the input.
abbrev pub polls_of : List (Result EsbError (List PollItem)) → ℕ
polls_of [] = 0
polls_of (ok polls ∷ rest) = length polls + polls_of rest
polls_of (err e ∷ rest) = polls_of rest

abbrev pub waiting : Client → ℕ
waiting c = length c.response_queue + polls_of c.incoming

-- The bus answers each send with nothing or an error.
module _ (transport : List (ServiceId × RpcMsg) → Option EsbError) where
  unfoldable pub request : Client → RpcMsg → ServiceId → Result Error (Unit {0}) × Client
  request c req service_id = elim (transport ((service_id, req) ∷ c.sent)) [
    | none ↦ (ok tt, record c { sent = (service_id, req) ∷ c.sent })
    | some e ↦ (err (Error.esb e), c)
  ]

  -- The fuel is one more than there are messages.
  unfoldable pub progressive_request :
      Client → RpcMsg → ServiceId → Option (Ended (Unit {0})) × List String × Client
  progressive_request c req service_id =
      let (r, c') = request c req service_id in
      elim r [
        | err e ↦ (some (Ended.failed e), [], c')
        | ok _ ↦ progress_loop (suc (waiting c')) c'
      ]

  unfoldable pub chat_tell : Client → NodeId → String → Result Error (Unit {0}) × Client
  chat_tell c remote_id text =
      request c (RpcMsg.send_chat (record { remote_id = remote_id; content = text })) chatd

  -- The id of the message is zero, as in the source.
  abbrev pub file_transfer : NodeId → ContainerId → AddressedMsg AppContainer
  file_transfer remote_id container_id = record {
    remote_id = remote_id;
    content = record {
      storm_app = StormApp.file_transfer;
      container_id = record { message_id = 0; container_id = container_id };
    };
  }

  unfoldable pub upload :
      Client → NodeId → ContainerId → Option (Ended (Unit {0})) × List String × Client
  upload c remote_id container_id =
      progressive_request c (RpcMsg.send_container (file_transfer remote_id container_id)) stormd

  unfoldable pub download :
      Client → NodeId → ContainerId → Option (Ended (Unit {0})) × List String × Client
  download c remote_id container_id =
      progressive_request c (RpcMsg.get_container (file_transfer remote_id container_id)) stormd

abbrev pub heard : NodeId → BusMsg → Ended String
heard from_remote_id (BusMsg.chat (RadioMsg.received m)) =
    if m.remote_id == from_remote_id
    then Ended.returned m.content
    else Ended.failed Error.unexpected_server_response
heard from_remote_id (BusMsg.rpc _) = Ended.failed Error.unexpected_server_response

unfoldable pub chat_recv : Client → NodeId → Ended String × Client
chat_recv c from_remote_id =
    let (polled, c') = response c in
    elim polled [
      | Ended.failed e ↦ (Ended.failed e, c')
      | Ended.blocked ↦ (Ended.blocked, c')
      | Ended.returned poll ↦ (heard from_remote_id poll.request, c')
    ]
