-- ===== src/Tests/OrderRuns.antt =====
-- Two states of stormd that differ in the order of their entries.
use storm_node.Base.{refl, none, [], ◌∷◌, arith, List, nat_eq}
use storm_node.Wire.{StormApp, Messages}
use storm_node.Rpc.Ids.{ServiceId}
use storm_node.Rpc.Messages.{RpcMsg}
use storm_node.Bus.{ServiceBus, CtlMsg, BusMsg}
use storm_node.World.{Sys}
use storm_node.World.Serve.{Message}
use storm_node.Stormd.Runtime
use storm_node.Stormd.Served.{serve_all}
use storm_node.Stormd.Pool.{IsPool}
use storm_node.Stormd.Iteration.{Like}
use storm_node.Stormd.Iteration.Runs.{serve-Like}
use storm_node.Tests.Samples.{config, reliable}

abbrev one : Sys Runtime.Runtime
one = record {
  rt = record (Runtime.fresh config) {
    transferd_busy = 7 ∷ 8 ∷ [];
    container_apps = (4, StormApp.chat) ∷ (6, StormApp.file_transfer) ∷ [];
    container_transfers = (4, 7) ∷ (6, 8) ∷ [];
  };
  log = [];
}

abbrev other : Sys Runtime.Runtime
other = record one {
  rt = record one.rt {
    transferd_busy = 8 ∷ 7 ∷ [];
    container_apps = (6, StormApp.file_transfer) ∷ (4, StormApp.chat) ∷ [];
    container_transfers = (6, 8) ∷ (4, 7) ∷ [];
  };
}

abbrev one_pool : IsPool one.rt
one_pool = record {
  free_distinct = tt;
  apart = tt;
  owned = (refl, (refl, tt));
  single = (refl, (refl, tt));
}

abbrev other_pool : IsPool other.rt
other_pool = record {
  free_distinct = tt;
  apart = tt;
  owned = (refl, (refl, tt));
  single = (refl, (refl, tt));
}

-- Daemon 7 ends its task, and a client sends what is not supported.
abbrev messages : List Message
messages =
    (ServiceBus.ctl, BusMsg.ctl CtlMsg.processing_complete, ServiceId.transfer 7)
    ∷ (ServiceBus.rpc, BusMsg.rpc (RpcMsg.success none), ServiceId.client 5)
    ∷ []

serve-Like_example :
    Like
      (serve_all (reliable Messages.list_apps) (λ e. 0) messages one)
      (serve_all (reliable Messages.list_apps) (λ e. 0) messages other)
serve-Like_example =
    serve-Like (reliable Messages.list_apps) (λ e. 0) messages one other (refl, (tt, tt)) one_pool
      other_pool
      (
        record {
          config = refl;
          apps = refl;
          free = refl;
          queue = refl;
          busy = λ d. ground arith;
          told = λ c. ground arith;
          transfers = λ c. ground arith;
          keys_left = (refl, (refl, tt));
          keys_right = (refl, (refl, tt));
        },
        refl,
      )
