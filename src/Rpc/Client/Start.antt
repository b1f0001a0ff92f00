-- ===== src/Rpc/Client/Start.antt =====
-- The connection of a client: `Bus`, `Client::with` and the `Handler` of rpc/src/client.rs.
use storm_node.Base.{String, Option, none, some, List, [], ◌∷◌}
use storm_node.Base.Action.{Result, ok, err}
use storm_node.Wire.{ClientId}
use storm_node.Rpc.Ids.{ServiceId, stormd}
use storm_node.Rpc.Failure.{EsbError, Error}
use storm_node.Rpc.Client.{PollItem, Client}
use storm_node.Bus.{SocketType, BusConfig, with_addr, with_subscription}

pub data Bus : Type 0 where
  rpc chat : Bus

-- The buses that `Client::with` opens.
unfoldable pub client_buses : String → String → List (Bus × BusConfig)
client_buses rpc_endpoint chat_endpoint =
    (Bus.rpc, with_addr rpc_endpoint SocketType.router_connect (some stormd))
    ∷ (Bus.chat, with_subscription chat_endpoint SocketType.subscriber none)
    ∷ []

abbrev pub Handler : Type 0
Handler = ServiceId

abbrev pub client_handler : ClientId → Handler
client_handler client_id = ServiceId.client client_id

-- The methods of the controller's handler.
abbrev pub identity : Handler → ServiceId
identity handler = handler

abbrev pub handle :
    Handler → Bus → ServiceId → storm_node.Rpc.Client.BusMsg → Result EsbError (Unit {0})
handle handler bus source msg = ok tt

abbrev pub handle_err : Handler → EsbError → Result EsbError (Unit {0})
handle_err handler e = err e

-- `Client::with`: the controller of the `microservices` crate, which may refuse, and the random number
-- are arguments, and so is what `recv_poll` will answer.
unfoldable pub connect :
    (List (Bus × BusConfig) → Handler → Option EsbError)
    → ClientId
    → List (Result EsbError (List PollItem))
    → String
    → String
    → String
    → Result Error Client
unfolding client_buses
connect controller client_id incoming rpc_endpoint chat_endpoint user_agent =
    elim (controller (client_buses rpc_endpoint chat_endpoint) (client_handler client_id)) [
      | some e ↦ err (Error.esb e)
      | none ↦ ok (record {
        client_id = client_id;
        user_agent = user_agent;
        response_queue = [];
        incoming = incoming;
        sent = [];
      })
    ]
