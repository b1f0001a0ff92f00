-- ===== src/Tests/StormdRuns.antt =====
-- Runs of stormd.
use storm_node.Base.{◌≡◌, ◌++◌, refl, [], ◌∷◌, nat_eq}
use storm_node.Wire.{Messages}
use storm_node.Rpc.Ids.{ServiceId}
use storm_node.Bus.{ServiceBus, CtlMsg, BusMsg}
use storm_node.Bus.Responder.{send_ctl, send_ext}
use storm_node.Stormd.Daemons.{starts_with_any, keep_args, cmd_args}
use storm_node.Stormd.Daemons.Args.{chat_endpoint_value_left}
use storm_node.Stormd.Scheduler.{pick_task, assign_front, task_container}
use storm_node.Stormd.Handlers.{handle, handle_ctl, handle_finished, end_transfer, notify_app}
use storm_node.Stormd.Pool.{IsPool}
use storm_node.Stormd.Pool.Handling.{handle-IsPool}
use storm_node.Stormd.Waiting.{IsServed, handle-IsServed}
use storm_node.World.Effects.{send_to}
use storm_node.Base.{inr}
use storm_node.Tests.Samples.{reliable, working}

handle-IsPool_example :
    IsPool
      (handle
        (reliable Messages.list_apps)
        ServiceBus.ctl
        (BusMsg.ctl CtlMsg.processing_complete)
        (ServiceId.transfer 7)
        working).1.rt
handle-IsPool_example =
    handle-IsPool (reliable Messages.list_apps) ServiceBus.ctl
      (BusMsg.ctl CtlMsg.processing_complete) (ServiceId.transfer 7) working refl
      (record { free_distinct = tt; apart = tt; owned = (refl, tt); single = (refl, tt) })

handle-IsServed_example :
    IsServed
      (handle
        (reliable Messages.list_apps)
        ServiceBus.ctl
        (BusMsg.ctl CtlMsg.processing_complete)
        (ServiceId.transfer 7)
        working).1.rt
unfolding handle handle_ctl handle_finished end_transfer notify_app pick_task assign_front send_ctl
    send_ext send_to task_container
handle-IsServed_example =
    handle-IsServed (reliable Messages.list_apps) ServiceBus.ctl
      (BusMsg.ctl CtlMsg.processing_complete) (ServiceId.transfer 7) working refl (inr refl)

chat_endpoint_value_left_example :
    cmd_args ("stormd" ∷ "-v" ∷ "--chat-endpoint" ∷ "lnp:chat" ∷ "--threaded" ∷ [])
    ≡ keep_args ("-v" ∷ []) ++ "lnp:chat" ∷ keep_args ("--threaded" ∷ [])
unfolding starts_with_any
chat_endpoint_value_left_example =
    chat_endpoint_value_left "stormd" "lnp:chat" ("-v" ∷ []) ("--threaded" ∷ []) refl
