-- ===== src/World.antt =====
-- What the daemons run on: the message bus controller, the store service, the launcher of
-- processes, and the encodings of the `storm` crate. None of it is code of the repository, so it
-- is a parameter, `Platform`. Every call of it is an event of a log, newest first, and an answer
-- may depend on the whole log and on the call, so a platform can stand for any behaviour.
pub mod Effects
pub mod Sends
pub mod Serve
use storm_node.Base.{ℕ, String, Option, List, [], ◌∷◌, Bool, true, false, ◌&&◌, ◌||◌}
use storm_node.Base.Action.{Result}
use storm_node.Wire.{Bytes, ContainerId, ChunkId, Chunk, ContainerHeader, Container, Messages}
use storm_node.Bus.{ServiceBus, BusConfig, BusMsg, Packet}
use storm_node.Config.{Config}
use storm_node.Rpc.Failure.{EsbError}
use storm_node.Errors.{EncodingError, PresentationError, LauncherError, StoreError}
use storm_node.Stormd.Daemons.{Daemon}

-- Names of the store's tables: rpc/src/lib.rs.
abbrev pub table_container_headers : String
table_container_headers = "container_headers"

abbrev pub table_containers : String
table_containers = "containers"

abbrev pub table_chunks : String
table_chunks = "chunks"

pub data Request : Type 0 where
  send : Packet → Request
  thread_daemon : Daemon → Config (Unit {0}) → Request
  exec_daemon : Daemon → Request
  connect : String → Request
  use_table : String → Request
  store : String → ℕ → Chunk → Request
  retrieve : String → ℕ → Request
  filter_unknown : String → List ChunkId → Request
  open_buses : List (ServiceBus × BusConfig) → Request

pub data Event : Type 0 where
  done : Request → Event
  failed : Request → Event

abbrev pub Log : Type 0
Log = List Event

pub record Platform : Type 0 where
  pub transport : Log → Packet → Option EsbError
  pub controller : Log → Request → Option EsbError
  pub launcher : Log → Request → Option LauncherError
  pub store_reply : Log → Request → Option StoreError
  pub retrieved : Log → String → ℕ → Result StoreError (Option Chunk)
  pub unknown : Log → String → List ChunkId → Result StoreError (List ChunkId)
  pub container_id : Container → ContainerId
  pub chunk_id : Chunk → ChunkId
  pub chunk_try_from : Bytes → Result EncodingError Chunk
  pub serialize_header : ContainerHeader → Result EncodingError Bytes
  pub deserialize_header : Chunk → Result EncodingError ContainerHeader
  pub serialize_container : Container → Result EncodingError Bytes
  pub deserialize_container : Chunk → Result EncodingError Container
  pub serialize : Messages → Bytes
  pub unmarshall : Bytes → Result PresentationError Messages
  pub message_text : BusMsg → String
  pub esb_error_text : EsbError → String
  pub chunk_id_text : ChunkId → String
  pub count_text : ℕ → String
  pub from_utf8_lossy : Bytes → String
  pub into_bytes : String → Bytes

-- Whether a call, if it is a send, is of a packet of a given kind.
abbrev pub request_in : (Packet → Bool) → Request → Bool
request_in says (Request.send packet) = says packet
request_in says _ = true

abbrev pub event_in : (Packet → Bool) → Event → Bool
event_in says (Event.done r) = request_in says r
event_in says (Event.failed r) = request_in says r

-- Whether every send of a log, also a failed one, was of such a packet.
abbrev pub sends_in : (Packet → Bool) → Log → Bool
sends_in says [] = true
sends_in says (e ∷ log) = event_in says e && sends_in says log

-- Whether a packet of a kind was sent, and the call did not fail.
abbrev pub said : (Packet → Bool) → Log → Bool
said f [] = false
said f (Event.done (Request.send packet) ∷ log) = f packet || said f log
said f (_ ∷ log) = said f log

-- The state that a daemon's methods work on: its own fields, and the log of its calls.
pub record Sys (R : Type 0) : Type 0 where
  pub rt : R
  pub log : Log
