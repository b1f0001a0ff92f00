-- ===== src/Transferd/Automation.antt =====
-- The workflows of a transfer: `impl Runtime` of src/transferd/automation.rs. `me` is the daemon's
-- identity. A `?` on an error of another kind is `conv`.
use Prim.Native.String.{◌++◌}
use storm_node.Base.{
  String, Option, none, some, List, [], ◌∷◌, if◌then◌else◌, nat_eq, length, is_empty,
}
use storm_node.Base.Action.{
  Result, ok, err, Action, pure, unreachable, gets, lift, ◌>>=◌, ◌>>◌, conv, ignore, attempt,
  or_throw, expect,
}
use storm_node.Base.Sets
use storm_node.Wire.{
  NodeId, ClientId, ContainerId, ChunkId, Chunk, StormApp, ContainerFullId, Container, Messages,
}
use storm_node.Rpc.Ids.{ServiceId, stormd}
use storm_node.Rpc.Messages.{RpcMsg}
use storm_node.Bus.{CtlMsg}
use storm_node.Bus.Responder.{send_p2p, send_rpc, send_ctl, send_p2p_reporting_client}
use storm_node.Errors.{StoreError, DaemonError}
use storm_node.Transferd.State.{
  StateTy, StateName, State, ReceiveStateName, ReceiveState, Info, state_info, require_state,
}
use storm_node.Transferd.Runtime.{Runtime, set_state}
use storm_node.World.{
  Platform, Sys, Request, table_container_headers, table_containers, table_chunks,
}
use storm_node.World.Effects.{update, store_call, retrieve_chunk, filter_unknown}

abbrev pub Handler : Type 0 → Type 0
Handler A = Action (Sys Runtime) DaemonError A

-- `self.state.require_state(expected)?`
unfoldable pub require : StateName → Handler (Unit {0})
require expected s =
    conv DaemonError.transfer_automation (lift (require_state s.rt.state expected)) s

-- `self.state.info().expect(..)`
unfoldable pub info : Handler Info
info s = expect (state_info s.rt.state) "receive state always have metadata" s

module _ (p : Platform) (me : ServiceId) where
  unfoldable pub tell_client : Option ClientId → String → Handler (Unit {0})
  tell_client none text = pure tt
  tell_client (some client_id) text =
      conv DaemonError.esb (send_rpc p me client_id (RpcMsg.progress text))

  unfoldable pub complete : Handler (Unit {0})
  complete = conv DaemonError.esb (send_ctl p me stormd CtlMsg.processing_complete)

  unfoldable pub store : String → ContainerId → Chunk → Handler (Unit {0})
  store table id chunk = conv DaemonError.store (store_call p (Request.store table id chunk))

  unfoldable pub handle_receive :
      Option ClientId → StormApp → NodeId → ContainerFullId → Handler (Unit {0})
  handle_receive client_id storm_app remote_id id = do
    require StateTy.free
    update (
        set_state (
          StateTy.receive (
            ReceiveState.awaiting_container (record {
              app_id = storm_app;
              client_id = client_id;
              remote_id = remote_id;
              id = id;
            }))))
    send_p2p_reporting_client p me client_id (some "Requested container") remote_id
        (Messages.pull_container (record { app = storm_app; content = id }))

  -- The header and the container itself go to the store.
  unfoldable pub store_container : Container → Handler (Unit {0})
  store_container container = do
    header_bytes ← conv DaemonError.encoding (lift (p.serialize_header container.header))
    header_chunk ← conv DaemonError.encoding (lift (p.chunk_try_from header_bytes))
    container_bytes ← conv DaemonError.encoding (lift (p.serialize_container container))
    container_chunk ← conv DaemonError.encoding (lift (p.chunk_try_from container_bytes))
    store table_container_headers (p.container_id container) header_chunk
    store table_containers (p.container_id container) container_chunk

  -- The chunks that the store does not have are awaited and requested.
  unfoldable pub request_missing : Info → Container → Handler (Unit {0})
  request_missing info container = do
    chunk_ids ←
        conv DaemonError.store (filter_unknown p table_chunks (Sets.collect container.chunks))
    tell_client info.client_id ("Retrieving " ++ p.count_text (length chunk_ids) ++ " new chunks")
    update (
        set_state
          (StateTy.receive (ReceiveState.receiving_chunks info (length chunk_ids) chunk_ids)))
    conv DaemonError.esb (
        send_p2p p me info.remote_id (
          Messages.pull_chunk (record {
            app = info.app_id;
            message_id = info.id.message_id;
            container_id = info.id.container_id;
            chunk_ids = chunk_ids;
          })))

  unfoldable pub handle_container : Container → Handler (Unit {0})
  handle_container container = do
    require (StateTy.receive ReceiveStateName.awaiting_container)
    i ← info
    tell_client i.client_id "Container received"
    store_container container
    request_missing i container

  unfoldable pub chunk_arrived : ChunkId → State → Handler (Unit {0})
  chunk_arrived chunk_id (StateTy.receive (ReceiveState.receiving_chunks i total pending)) = do
    let rest = Sets.remove chunk_id pending
    update (set_state (StateTy.receive (ReceiveState.receiving_chunks i total rest)))
    if is_empty rest then (do update (set_state StateTy.free); complete) else pure tt
  chunk_arrived chunk_id _ = unreachable "internal error: entered unreachable code"

  unfoldable pub handle_chunk : Chunk → Handler (Unit {0})
  handle_chunk chunk = do
    require (StateTy.receive ReceiveStateName.receiving_chunks)
    i ← info
    tell_client i.client_id ("Received chunk " ++ p.chunk_id_text (p.chunk_id chunk))
    store table_chunks (p.chunk_id chunk) chunk
    state ← gets (λ s. s.rt.state)
    chunk_arrived (p.chunk_id chunk) state

  unfoldable pub handle_announce :
      Option ClientId → StormApp → NodeId → ContainerFullId → Handler (Unit {0})
  handle_announce client_id storm_app remote_id id = do
    require StateTy.free
    found ← conv DaemonError.store (retrieve_chunk p table_container_headers id.container_id)
    header_chunk ← or_throw found (DaemonError.unknown_container id.container_id)
    header ← conv DaemonError.encoding (lift (p.deserialize_header header_chunk))
    send_p2p_reporting_client p me client_id none remote_id (
        Messages.announce_container
          (record { app = storm_app; content = record { header = header; id = id } }))
    complete

  unfoldable pub handle_send_container :
      Option ClientId → StormApp → NodeId → ContainerFullId → Handler (Unit {0})
  handle_send_container client_id storm_app remote_id id = do
    require StateTy.free
    found ← conv DaemonError.store (retrieve_chunk p table_containers id.container_id)
    container_chunk ← or_throw found (DaemonError.unknown_container id.container_id)
    container ← conv DaemonError.encoding (lift (p.deserialize_container container_chunk))
    send_p2p_reporting_client p me client_id none remote_id
        (Messages.push_container (record { app = storm_app; content = container }))
    complete

  -- A chunk that the store does not give is passed over, and so is a failed send.
  unfoldable pub push_chunk :
      StormApp
      → NodeId
      → ContainerId
      → ChunkId
      → Result StoreError (Option Chunk)
      → Handler (Unit {0})
  push_chunk storm_app remote_id container_id chunk_id (ok (some chunk)) = ignore (
      send_p2p p me remote_id (
        Messages.push_chunk (record {
          app = storm_app;
          container_id = container_id;
          chunk_id = chunk_id;
          chunk = chunk;
        })))
  push_chunk storm_app remote_id container_id chunk_id (ok none) = pure tt
  push_chunk storm_app remote_id container_id chunk_id (err e) = pure tt

  unfoldable pub push_chunks : StormApp → NodeId → ContainerId → List ChunkId → Handler (Unit {0})
  push_chunks storm_app remote_id container_id [] = pure tt
  push_chunks storm_app remote_id container_id (chunk_id ∷ chunk_ids) = do
    found ← attempt (retrieve_chunk p table_chunks chunk_id)
    push_chunk storm_app remote_id container_id chunk_id found
    push_chunks storm_app remote_id container_id chunk_ids

  unfoldable pub handle_send_chunks :
      StormApp → NodeId → ContainerId → List ChunkId → Handler (Unit {0})
  handle_send_chunks storm_app remote_id container_id chunk_ids = do
    require StateTy.free
    push_chunks storm_app remote_id container_id chunk_ids
    complete
