-- ===== src/Stormd/Handlers.antt =====
-- The handlers of stormd: `handle` and what it calls, of src/stormd/service.rs.
use storm_node.Base.{Option, none, some, if◌then◌else◌, ◌==◌, nat_eq}
use storm_node.Base.Action.{
  Result, ok, err, Action, pure, throw, gets, lift, call, ◌>>=◌, ◌>>◌, conv, ignore,
}
use storm_node.Base.Sets
use storm_node.Base.Maps
use storm_node.Wire.{
  NodeId, ClientId, DaemonId, ContainerId, BifrostApp, StormApp, app_eq, Messages, LnMsg,
}
use storm_node.Rpc.Failure.{EsbError}
use storm_node.Rpc.Ids.{ServiceId}
use storm_node.Rpc.Messages.{RpcMsg}
use storm_node.Ext.{ExtMsg, storm_ext_msg, remote_id, p2p_message}
use storm_node.Bus.{ServiceBus, CtlMsg, BusMsg}
use storm_node.Bus.Responder.{send_p2p, send_ctl, send_ext}
use storm_node.Errors.{DaemonError, wrong_esb_msg, wrong_esb_msg_source}
use storm_node.Stormd.Runtime.{Runtime, identity}
use storm_node.Stormd.Scheduler.{push_free, accept_daemon, pick_task, submit}
use storm_node.World.{Platform, Sys}
use storm_node.World.Effects.{update}

abbrev Handler : Type 0
Handler = Action (Sys Runtime) DaemonError (Unit {0})

-- `container_transfers.remove(&container_id)`, if there is one.
abbrev pub drop_transfer : Option ContainerId → Runtime → Runtime
drop_transfer none rt = rt
drop_transfer (some container_id) rt = record rt {
  container_transfers = Maps.remove container_id rt.container_transfers;
}

-- The daemon that has finished is free again.
abbrev pub release : DaemonId → Runtime → Runtime
release daemon_id rt =
    push_free daemon_id (record rt { transferd_busy = Sets.remove daemon_id rt.transferd_busy })

module _ (p : Platform) where
  -- The container and the instruction of a message for the transfer daemons.
  unfoldable pub transfer_instr : NodeId → Messages → Option (ContainerId × CtlMsg)
  transfer_instr remote (Messages.push_container m) =
      some (p.container_id m.content, CtlMsg.process_container m.content)
  transfer_instr remote (Messages.pull_chunk m) = some (
    m.container_id,
    CtlMsg.send_chunks (record {
      remote_id = remote;
      content = record {
        storm_app = m.app;
        container_id = m.container_id;
        chunk_ids = m.chunk_ids;
      };
    }),
  )
  transfer_instr remote (Messages.push_chunk m) =
      some (m.container_id, CtlMsg.process_chunk m.chunk)
  transfer_instr remote _ = none

  -- An instruction for a container that no daemon has.
  unfoldable pub submit_unclaimed : CtlMsg → Handler
  submit_unclaimed (CtlMsg.process_container c) = submit p (CtlMsg.process_container c) none
  submit_unclaimed (CtlMsg.send_chunks m) = submit p (CtlMsg.send_chunks m) none
  submit_unclaimed _ = pure tt

  unfoldable pub route_instr : Option DaemonId → CtlMsg → Handler
  route_instr (some daemon_id) instr =
      conv DaemonError.esb (send_ctl p identity (ServiceId.transfer daemon_id) instr)
  route_instr none instr = submit_unclaimed instr

  -- The messages that are for an app, and those that stormd answers itself.
  unfoldable pub route_ext : NodeId → Result Messages (StormApp × ExtMsg) → Handler
  route_ext remote (ok (app, msg)) = conv DaemonError.esb (send_ext p identity (some app) msg)
  route_ext remote (err Messages.list_apps) = do
    apps ← gets (λ s. s.rt.registered_apps)
    conv DaemonError.esb (send_p2p p identity remote (Messages.active_apps apps))
  route_ext remote (err _) = pure tt

  unfoldable pub route_p2p : NodeId → Messages → Option (ContainerId × CtlMsg) → Handler
  route_p2p remote mesg (some (container_id, instr)) = do
    transfers ← gets (λ s. s.rt.container_transfers)
    route_instr (Maps.get container_id transfers) instr
  route_p2p remote mesg none = route_ext remote (storm_ext_msg mesg remote)

  unfoldable pub handle_p2p : NodeId → LnMsg → Handler
  handle_p2p remote (LnMsg.message BifrostApp.storm payload) = do
    mesg ← conv DaemonError.storm_encoding (lift (p.unmarshall payload))
    route_p2p remote mesg (transfer_instr remote mesg)
  handle_p2p remote ln_msg =
      throw (wrong_esb_msg p.message_text ServiceBus.rpc (BusMsg.bifrost ln_msg))

  unfoldable pub handle_rpc : ClientId → RpcMsg → Handler
  handle_rpc client_id (RpcMsg.send_container container) =
      submit p
        (CtlMsg.announce_container (record {
          remote_id = container.remote_id;
          client_id = some client_id;
          content = container.content;
        }))
        (some client_id)
  handle_rpc client_id (RpcMsg.get_container container) =
      submit p
        (CtlMsg.get_container (record {
          remote_id = container.remote_id;
          client_id = some client_id;
          content = container.content;
        }))
        (some client_id)
  handle_rpc client_id wrong_msg =
      throw (wrong_esb_msg p.message_text ServiceBus.rpc (BusMsg.rpc wrong_msg))

  unfoldable pub notify_app : Option StormApp → ContainerId → Handler
  notify_app none container_id = pure tt
  notify_app (some app) container_id =
      ignore (send_ext p identity (some app) (ExtMsg.container_retrieved container_id))

  unfoldable pub end_transfer : Option ContainerId → Handler
  end_transfer none = pure tt
  end_transfer (some container_id) = do
    update (drop_transfer (some container_id))
    apps ← gets (λ s. s.rt.container_apps)
    notify_app (Maps.get container_id apps) container_id

  -- `ProcessingFailed` and `ProcessingComplete`
  unfoldable pub handle_finished : ServiceId → Handler
  handle_finished (ServiceId.transfer daemon_id) = do
    transfers ← gets (λ s. s.rt.container_transfers)
    end_transfer (Maps.find_key daemon_id transfers)
    update (release daemon_id)
    conv DaemonError.esb (pick_task p)
    pure tt
  handle_finished source = pure tt

  unfoldable pub handle_hello : ServiceId → Handler
  handle_hello (ServiceId.transfer daemon_id) = do
    conv DaemonError.esb (accept_daemon p (ServiceId.transfer daemon_id))
    conv DaemonError.esb (pick_task p)
    pure tt
  handle_hello source = pure tt

  unfoldable pub handle_ctl : ServiceId → CtlMsg → Handler
  handle_ctl source CtlMsg.hello = handle_hello source
  handle_ctl source CtlMsg.processing_failed = handle_finished source
  handle_ctl source CtlMsg.processing_complete = handle_finished source
  handle_ctl source wrong_msg =
      throw (wrong_esb_msg p.message_text ServiceBus.ctl (BusMsg.ctl wrong_msg))

  unfoldable pub forward_p2p : StormApp → ExtMsg → Handler
  forward_p2p app forward = do
    remote ← call (remote_id forward)
    mesg ← call (p2p_message forward app)
    conv DaemonError.esb (send_p2p p identity remote mesg)

  unfoldable pub handle_app : StormApp → ExtMsg → Handler
  handle_app app (ExtMsg.register_app app_id) =
      if app == app_id
      then update (λ rt. record rt { registered_apps = Sets.insert app_id rt.registered_apps })
      else throw (
          wrong_esb_msg_source p.message_text ServiceBus.storm
            (BusMsg.storm (ExtMsg.register_app app_id)) (ServiceId.storm_app app_id))
  handle_app app (ExtMsg.retrieve_container container) = do
    update λ rt. record rt {
      container_apps = Maps.insert container.content.container_id app rt.container_apps;
    }
    submit p
        (CtlMsg.get_container (record {
          remote_id = container.remote_id;
          client_id = none;
          content = record { storm_app = app; container_id = container.content };
        }))
        none
  handle_app app (ExtMsg.send_container container) =
      submit p
        (CtlMsg.send_container (record {
          remote_id = container.remote_id;
          client_id = none;
          content = record { storm_app = app; container_id = container.content };
        }))
        none
  handle_app app forward = forward_p2p app forward

  unfoldable pub handle_others : ServiceId → ExtMsg → Handler
  handle_others source (ExtMsg.container_announcement container) =
      submit p
        (CtlMsg.announce_container (record {
          remote_id = container.remote_id;
          client_id = none;
          content = record {
            storm_app = StormApp.file_transfer;
            container_id = container.content.id;
          };
        }))
        none
  handle_others source wrong_msg =
      throw (wrong_esb_msg p.message_text ServiceBus.rpc (BusMsg.storm wrong_msg))

  unfoldable pub handle : ServiceBus → BusMsg → ServiceId → Handler
  handle ServiceBus.msg (BusMsg.bifrost msg) (ServiceId.peer remote) = handle_p2p remote msg
  handle ServiceBus.ctl (BusMsg.ctl msg) source = handle_ctl source msg
  handle ServiceBus.storm (BusMsg.storm msg) (ServiceId.storm_app app) = handle_app app msg
  handle ServiceBus.rpc (BusMsg.rpc msg) (ServiceId.client client_id) = handle_rpc client_id msg
  handle ServiceBus.rpc (BusMsg.storm msg) other_source = handle_others other_source msg
  handle bus msg _ = throw (wrong_esb_msg p.message_text bus msg)

-- The controller has reported the error.
abbrev pub handle_err : EsbError → Handler
handle_err e = pure tt
