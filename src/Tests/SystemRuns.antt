-- ===== src/Tests/SystemRuns.antt =====
-- A node of stormd, transfer daemons and the apps, some steps after its start.
use storm_node.Base.{◌≡◌, true, refl, inl, inr, nat_eq}
use storm_node.Wire.{Messages, StormApp}
use storm_node.Rpc.Messages.{RpcMsg}
use storm_node.Rpc.Ids.{ServiceId, stormd}
use storm_node.Bus.{Packet, ServiceBus, CtlMsg, BusMsg}
use storm_node.Bus.Responder.{ctl_packet, send_ctl, send_rpc}
use storm_node.World.Serve.{Manner}
use storm_node.Transferd
use storm_node.Stormd.Handlers
use storm_node.Stormd.Start
use storm_node.Node.System.{
  Platforms, Node, Sent, by_transfer, initial, update, Reach, start, later, transfer_starts,
  storm_hears,
}
use storm_node.World.{said}
use storm_node.Stormd.Scheduler.{
  accept_daemon, pick_task, assign_front, submit, pick_or_start, after_pick, start_transferd,
  tell_client, task_container,
}
use storm_node.Stormd.Runtime.{launch_daemon}
use storm_node.World.Effects.{launch}
use storm_node.Node.Joined.{is_word, Reach-deals_with}
use storm_node.Node.Protocol.{answered, Reach-answered}
use storm_node.Tests.Samples.{config, reliable}

abbrev p : Platforms
p = record {
  storm = reliable Messages.list_apps;
  transfer = λ d. reliable Messages.list_apps;
  chat = reliable Messages.list_apps;
  downpour = reliable Messages.list_apps;
}

abbrev hello : Packet
hello = ctl_packet (ServiceId.transfer 7) stormd CtlMsg.hello

abbrev request : Packet
request = record {
  bus = ServiceBus.rpc;
  source = ServiceId.client 5;
  dest = stormd;
  request = BusMsg.rpc (
      RpcMsg.get_container (record {
        remote_id = 3;
        content = record {
          storm_app = StormApp.chat;
          container_id = record { message_id = 0; container_id = 6 };
        };
      }));
}

-- A client asks for a container, daemon 7 starts, and stormd hears of it.
abbrev requested : Node
requested = record (initial config) {
  storm =
      (Handlers.handle p.storm request.bus request.request request.source (initial config).storm).1;
}

abbrev started : Node
started = record requested {
  transfer =
      update requested.transfer 7
        (Transferd.Runtime.on_ready (p.transfer 7) (requested.transfer 7)).1;
}

abbrev greeted : Sent started hello
unfolding Transferd.Runtime.on_ready send_ctl
greeted = by_transfer 7 (inl refl)

abbrev joined : Node
joined = record started {
  storm = (Handlers.handle p.storm hello.bus hello.request hello.source started.storm).1;
}

abbrev joins : Reach p config joined
unfolding Start.buses
joins =
    later (later (later start (storm_hears request (inr refl) refl refl)) (transfer_starts 7))
      (storm_hears hello (inl greeted) refl refl)

-- The packet comes once more.
Reach-answered_example : answered p config joined hello ≡ Manner.taken
unfolding Transferd.Runtime.on_ready send_ctl
Reach-answered_example = Reach-answered p config joined hello joins (by_transfer 7 (inl refl))

-- stormd has given daemon 7 the task.
Reach-deals_with_example : said is_word (joined.transfer 7).log ≡ true
unfolding Handlers.handle Handlers.handle_ctl Handlers.handle_hello Handlers.handle_rpc
    accept_daemon pick_task assign_front submit pick_or_start after_pick start_transferd tell_client
    task_container launch_daemon launch send_rpc send_ctl
Reach-deals_with_example = Reach-deals_with p config joined 7 joins refl
