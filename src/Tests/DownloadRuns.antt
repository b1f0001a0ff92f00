-- ===== src/Tests/DownloadRuns.antt =====
-- Runs of several messages: of stormd, and of a download.
use storm_node.Base.{◌≡◌, refl, true, false, ◌||◌, none, List, [], ◌∷◌, map, nat_eq}
use storm_node.Base.Action.{ok}
use storm_node.Base.Maps
use storm_node.Wire.{Chunk, StormApp, Messages}
use storm_node.Rpc.Ids.{ServiceId}
use storm_node.Rpc.Messages.{RpcMsg}
use storm_node.Bus.{ServiceBus, CtlMsg, BusMsg}
use storm_node.World.Serve.{Message}
use storm_node.World.{Platform, Sys}
use storm_node.Stormd.Runtime.{Runtime}
use storm_node.Stormd.Pool.{is_free, is_busy}
use storm_node.Stormd.Known.{is_known}
use storm_node.Stormd.Fifo.Runs.{IsFifo, serve-IsFifo}
use storm_node.Stormd.Served.{serve_all, until_fatal, any_word_of, known-serve}
use storm_node.Transferd.State.{StateTy, ReceiveState, State}
use storm_node.Transferd.Completion.{completions}
use storm_node.Ext.{ExtMsg}
use storm_node.World.Serve.{manner}
use storm_node.Stormd.Panics.{stormd_manner}
use storm_node.Transferd.Panics.{transferd_manner}
use storm_node.Stormd
use storm_node.Transferd
use storm_node.Chatd
use storm_node.Downpourd
use storm_node.Node.Panics.{daemons-manner, chatd_manner, downpourd_manner}
use storm_node.Node.ChatRoute.{LastSent, on_stormd}
use storm_node.Node.Download.{
  relay, forwards, receive, chunk_forwarded, end_reported, end_notified, download_ends,
}
use storm_node.Tests.Samples
use storm_node.Tests.Samples.{reliable, first_byte, working, worker, stateless}

-- A hello, a request of a client, and the end of a task.
abbrev messages : List Message
messages =
    (ServiceBus.ctl, BusMsg.ctl CtlMsg.hello, ServiceId.transfer 9)
    ∷ (
      ServiceBus.rpc,
      BusMsg.rpc (
          RpcMsg.get_container (record {
            remote_id = 3;
            content = record {
              storm_app = StormApp.chat;
              container_id = record { message_id = 0; container_id = 6 };
            };
          })),
      ServiceId.client 5,
    )
    ∷ (ServiceBus.ctl, BusMsg.ctl CtlMsg.processing_complete, ServiceId.transfer 7)
    ∷ []

serve-IsFifo_example :
    let p = reliable Messages.list_apps in
    IsFifo p (until_fatal messages) working (serve_all p (λ e. 0) messages working)
serve-IsFifo_example = serve-IsFifo (reliable Messages.list_apps) (λ e. 0) messages working

known-serve_example :
    is_known 9 (serve_all (reliable Messages.list_apps) (λ e. 0) messages working).rt
    ≡ (is_known 9 working.rt || any_word_of 9 (until_fatal messages))
known-serve_example = known-serve (reliable Messages.list_apps) (λ e. 0) messages working 9

abbrev receiving : State
receiving = StateTy.receive (ReceiveState.receiving_chunks Samples.info 2 (4 ∷ 5 ∷ []))

abbrev retrieved : BusMsg
retrieved = BusMsg.storm (ExtMsg.container_retrieved 4)

daemons-manner_example :
    let p = reliable Messages.list_apps in
    let app = ServiceId.storm_app StormApp.chat in
    let bus = ServiceBus.storm in
    (manner (Stormd.Handlers.handle p bus retrieved app working).0
      ≡ stormd_manner bus retrieved app)
    × (manner (Transferd.Service.handle p bus retrieved app (worker receiving)).0
        ≡ transferd_manner bus retrieved)
    × (manner (Chatd.handle p bus retrieved app stateless).0 ≡ chatd_manner bus retrieved app)
    × (manner (Downpourd.handle p bus retrieved app stateless).0
        ≡ downpourd_manner bus retrieved app)
daemons-manner_example =
    daemons-manner (reliable Messages.list_apps) ServiceBus.storm retrieved
      (ServiceId.storm_app StormApp.chat) working (worker receiving) stateless

-- Chunks are their own encoding.
abbrev platform : Platform
platform = record (reliable Messages.list_apps) {
  unmarshall = λ bytes. ok (
      Messages.push_chunk (record {
        app = StormApp.chat;
        container_id = 4;
        chunk_id = first_byte bytes;
        chunk = bytes;
      }));
}

abbrev own : Chunk → Chunk
own chunk = chunk

abbrev busy : Sys Runtime
busy = record working { rt = record working.rt { ctl_queue = [] } }

abbrev chunks : List Chunk
chunks = (5 ∷ 1 ∷ []) ∷ (6 ∷ []) ∷ (4 ∷ []) ∷ []

download_ends_example :
    let s' = relay platform 3 (map own chunks) busy in
    let sent = map (chunk_forwarded 7) chunks in
    let t' = receive platform sent (worker receiving) in
    let s'' = (on_stormd platform (end_reported 7) s').1 in
    (s' ≡ record busy { log = forwards 7 chunks [] })
    × (t'.rt.state ≡ StateTy.free)
    × (completions t'.log ≡ 1)
    × LastSent s''.log (end_notified StormApp.chat 4)
    × (Maps.get 4 s''.rt.container_transfers ≡ none)
    × (is_free 7 s''.rt ≡ true)
    × (is_busy 7 s''.rt ≡ false)
download_ends_example =
    download_ends platform 3 StormApp.chat 4 7 own (λ log packet. refl) (λ chunk. refl)
      (λ log r. refl) chunks Samples.info 2 (4 ∷ 5 ∷ []) busy (worker receiving)
      (record { free_distinct = tt; apart = tt; owned = (refl, tt); single = (refl, tt) }) refl refl
      refl refl refl refl (refl, (refl, tt))
