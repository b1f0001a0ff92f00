-- ===== src/Tests/NodeRuns.antt =====
-- Runs that pass from one daemon to the next.
use Prim.Native.String.{◌++◌ as concat}
use storm_node.Base.{◌≡◌, refl, false, ◌⊎◌, true, none, some, nat_eq, [], ◌∷◌}
use storm_node.Base.Action.{value, error, panic}
use storm_node.Wire.{Messages, BifrostApp, LnMsg, StormApp, AppMsg, Container, ContainerInfo}
use storm_node.Rpc.Ids.{stormd, ServiceId}
use storm_node.Bus.{ServiceBus, CtlMsg, BusMsg}
use storm_node.Bus.Responder.{ctl_packet}
use storm_node.Errors.{DaemonError}
use storm_node.World.{
  Platform, Request, Event, table_chunks, table_containers, table_container_headers,
}
use storm_node.Config.{
  Config, StormConfig, Shell, StormOpts, process_storm, from_opts, storm_options, to_shared,
}
use storm_node.Stormd.Daemons.{Daemon}
use storm_node.Stormd.Runtime
use storm_node.Stormd.Runtime.{fresh}
use storm_node.Chatd
use storm_node.Downpourd
use storm_node.Stormd.Start
use storm_node.Rpc.Client.Start.{client_buses}
use storm_node.Node.Main.{
  stormd_main, daemon_main, or_panic, run_impl, failure_text, daemon_main-run_impl,
}
use storm_node.Node.Started.{openings, is_failed, stormd_main-opens}
use storm_node.Bus.Protocol.{stormd_says, transferd_says, chatd_says, downpourd_says}
use storm_node.Stormd.Sends.{IsReady}
use storm_node.Node.Buses.{Meets, ClientMeets, daemons-KeepsTo, KeepsTo, buses-Meets}
use storm_node.Stormd.Handlers
use storm_node.Stormd.Pool.{is_busy}
use storm_node.Transferd.State.{StateTy, AutomationError}
use storm_node.Transferd
use storm_node.Node.ChatRoute.{
  LastSent, on_chatd, on_stormd, from_peer, asked, posted, crossing, handed_on, published,
  chat_arrives,
}
use storm_node.Node.Stranded.{unsolicited_container_strands}
use storm_node.Base.Maps
use storm_node.Node.FileRoute.{
  on_downpourd, on_transferd, announced, told, wanted, assigned, pulled, announcement_answered,
}
use storm_node.Tests.Samples.{config, header, reliable, container, idle, worker, stateless}

-- Every platform of the samples reads the text "hi".
abbrev sender : Platform
sender = reliable Messages.list_apps

abbrev receiver : Platform
receiver = reliable (
    Messages.post (record {
      app = StormApp.chat;
      content = record { parent_id = none; body = 104 ∷ 105 ∷ []; container_ids = [] };
    }))

chat_arrives_example :
    LastSent
      (on_chatd sender (asked sender receiver 1 2 5 "hi") stateless).1.log
      (posted sender receiver 1 2 5 "hi")
    × LastSent
        (on_stormd sender (posted sender receiver 1 2 5 "hi") idle).1.log
        (crossing sender receiver 1 2 5 "hi")
    × LastSent
        (on_stormd receiver (from_peer 1 (crossing sender receiver 1 2 5 "hi")) idle).1.log
        (handed_on sender receiver 1 2 5 "hi")
    × LastSent
        (on_chatd receiver (handed_on sender receiver 1 2 5 "hi") stateless).1.log
        (published sender receiver 1 2 5 "hi")
chat_arrives_example =
    chat_arrives sender receiver 1 2 5 "hi" (λ log packet. refl) (λ log packet. refl) refl refl
      stateless stateless idle idle

abbrev pushed : AppMsg Container
pushed = record { app = StormApp.file_transfer; content = container }

abbrev node : Platform
node = reliable (Messages.push_container pushed)

unsolicited_container_strands_example :
    let task = CtlMsg.process_container container in
    let s' =
      (Handlers.handle node ServiceBus.msg
        (BusMsg.bifrost (LnMsg.message BifrostApp.storm []))
        (ServiceId.peer 3)
        idle).1 in
    LastSent s'.log (ctl_packet stormd (ServiceId.transfer 7) task)
    × (s'.rt.transferd_free ≡ 8 ∷ [])
    × (is_busy 7 s'.rt ≡ true)
    × (Transferd.Service.handle node ServiceBus.ctl (BusMsg.ctl task) stormd (worker StateTy.free)
        ≡ (
          error (
              DaemonError.transfer_automation
                (AutomationError.invalid_state StateTy.free StateTy.free)),
          worker StateTy.free,
        ))
unsolicited_container_strands_example =
    unsolicited_container_strands node 3 [] pushed 7 (8 ∷ []) idle (worker StateTy.free)
      (λ log packet. refl) refl refl refl refl refl

abbrev offer : ContainerInfo
offer = record { header = header; id = record { message_id = 0; container_id = 9 } }

abbrev offered : Platform
offered =
    reliable
      (Messages.announce_container (record { app = StormApp.file_transfer; content = offer }))

announcement_answered_example :
    LastSent
      (on_stormd offered (announced offered 3 [] offer 7 (8 ∷ [])) idle).1.log
      (told offered 3 [] offer 7 (8 ∷ []))
    × LastSent
        (on_downpourd offered (told offered 3 [] offer 7 (8 ∷ [])) stateless).1.log
        (wanted offered 3 [] offer 7 (8 ∷ []))
    × LastSent
        (on_stormd offered (wanted offered 3 [] offer 7 (8 ∷ [])) idle).1.log
        (assigned offered 3 [] offer 7 (8 ∷ []))
    × (Maps.get 9
          (on_stormd offered (wanted offered 3 [] offer 7 (8 ∷ [])) idle).1.rt.container_transfers
        ≡ some 7)
    × LastSent
        (on_transferd offered (assigned offered 3 [] offer 7 (8 ∷ [])) (worker StateTy.free)).1.log
        (pulled offered 3 [] offer 7 (8 ∷ []))
announcement_answered_example =
    announcement_answered offered 3 [] offer 7 (8 ∷ []) idle idle stateless (worker StateTy.free)
      (λ log packet. refl) refl refl refl refl refl

abbrev hello : BusMsg
hello = BusMsg.ctl CtlMsg.hello

daemons-KeepsTo_example :
    let shared = to_shared config in
    let w = worker StateTy.free in
    let storm = KeepsTo (Start.buses config) stormd_says [] in
    let transfer = KeepsTo (Transferd.Runtime.buses shared) (transferd_says 7) [] in
    let chat = KeepsTo (Chatd.buses shared) chatd_says [] in
    let downpour = KeepsTo (Downpourd.buses shared) downpourd_says [] in
    IsReady (Handlers.handle sender ServiceBus.ctl hello stormd idle).1
    × storm (Runtime.on_ready sender idle).1.log
    × storm (Handlers.handle sender ServiceBus.ctl hello stormd idle).1.log
    × transfer (Transferd.Runtime.on_ready sender w).1.log
    × transfer (Transferd.Service.handle sender ServiceBus.ctl hello stormd w).1.log
    × chat (Chatd.on_ready sender stateless).1.log
    × chat (Chatd.handle sender ServiceBus.ctl hello stormd stateless).1.log
    × downpour (Downpourd.on_ready sender stateless).1.log
    × downpour (Downpourd.handle sender ServiceBus.ctl hello stormd stateless).1.log
daemons-KeepsTo_example =
    daemons-KeepsTo sender config (to_shared config) ServiceBus.ctl hello stormd idle
      (worker StateTy.free) stateless refl

buses-Meets_example :
    let server = Start.buses config in
    let shared = to_shared config in
    Meets server (Transferd.Runtime.buses shared)
    × Meets server (Chatd.buses shared)
    × Meets server (Downpourd.buses shared)
    × ClientMeets server (Chatd.buses shared) (client_buses "rpc" "chat")
buses-Meets_example = buses-Meets config

abbrev shell : Shell
shell verbose sockets data_dir = (sockets, concat data_dir "/bitcoin")

abbrev storm_opts : StormOpts
storm_opts = record {
  shared = record {
    verbose = 1;
    data_dir = "/var/lib/storm";
    config = none;
    msg_endpoint = "msg";
    ctl_endpoint = "ctl";
    rpc_endpoint = "rpc";
    ext_endpoint = "ext";
    store_endpoint = "store";
    chat_endpoint = "chat";
  };
  chat = true;
  downpour = false;
  threaded_daemons = true;
}

abbrev started : Config StormConfig
started = from_opts (process_storm shell storm_opts)

daemon_main-run_impl_example :
    daemon_main sender shell 7 Daemon.transferd storm_opts.shared stateless
    ≡ or_panic
        (run_impl sender 7 Daemon.transferd (to_shared started))
        (failure_text Daemon.transferd)
        stateless
daemon_main-run_impl_example =
    daemon_main-run_impl sender shell storm_opts 7 Daemon.transferd stateless

stormd_main-opens_example :
    let r = stormd_main sender shell storm_opts stateless in
    ((r.0 ≡ value (fresh started))
      × (r.1.log
          ≡ Event.done (Request.open_buses (Start.buses started))
            ∷ Event.done (Request.use_table table_chunks)
            ∷ Event.done (Request.use_table table_containers)
            ∷ Event.done (Request.use_table table_container_headers)
            ∷ Event.done (Request.connect started.store_endpoint)
            ∷ []))
    ⊎ ((r.0 ≡ panic "running stromd runtime") × (is_failed r.1.log ≡ true) × (openings r.1.log ≡ 0))
stormd_main-opens_example = stormd_main-opens sender shell storm_opts stateless
