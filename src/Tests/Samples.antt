-- ===== src/Tests/Samples.antt =====
-- A platform whose calls all succeed, and states of the daemons.
use storm_node.Base.{ℕ, none, some, List, [], ◌∷◌, false}
use storm_node.Base.Action.{ok}
use storm_node.Wire.{StormApp, ContainerHeader, Container, Messages}
use storm_node.Config.{Config, StormConfig}
use storm_node.World.{Platform, Sys}
use storm_node.Bus.{CtlMsg}
use storm_node.Stormd.Runtime
use storm_node.Transferd.State.{State, Info}
use storm_node.Transferd.Runtime as Worker

abbrev pub header : ContainerHeader
header = record { version = 0; mime = "text/plain"; info = ""; size = 12 }

abbrev pub container : Container
container = record { header = header; chunks = 4 ∷ 5 ∷ 4 ∷ [] }

abbrev pub first_byte : List ℕ → ℕ
first_byte [] = 0
first_byte (x ∷ xs) = x

-- What is unmarshalled is always the given message; the store knows no chunk.
abbrev pub reliable : Messages → Platform
reliable mesg = record {
  transport = λ log packet. none;
  controller = λ log r. none;
  launcher = λ log r. none;
  store_reply = λ log r. none;
  retrieved = λ log table id. ok (some (4 ∷ []));
  unknown = λ log table ids. ok ids;
  container_id = λ c. 9;
  chunk_id = first_byte;
  chunk_try_from = ok;
  serialize_header = λ h. ok (0 ∷ []);
  deserialize_header = λ c. ok header;
  serialize_container = λ c. ok (0 ∷ []);
  deserialize_container = λ c. ok container;
  serialize = λ m. [];
  unmarshall = λ bytes. ok mesg;
  message_text = λ m. "message";
  esb_error_text = λ e. "error";
  chunk_id_text = λ c. "chunk";
  count_text = λ n. "some";
  from_utf8_lossy = λ bytes. "hi";
  into_bytes = λ text. 104 ∷ 105 ∷ [];
}

abbrev pub config : Config StormConfig
config = record {
  data_dir = "/var/lib/storm";
  msg_endpoint = "msg";
  ctl_endpoint = "ctl";
  rpc_endpoint = "rpc";
  ext_endpoint = "ext";
  store_endpoint = "store";
  chat_endpoint = "chat";
  ext = record { run_chat = false; run_downpour = false; threaded = false };
}

abbrev pub fetch : CtlMsg
fetch = CtlMsg.get_container (record {
  remote_id = 3;
  client_id = none;
  content = record {
    storm_app = StormApp.file_transfer;
    container_id = record { message_id = 0; container_id = 8 };
  };
})

-- Daemon 7 transfers container 4, and a task waits.
abbrev pub working : Sys Runtime.Runtime
working = record {
  rt = record {
    config = config;
    registered_apps = StormApp.chat ∷ [];
    transferd_free = [];
    transferd_busy = 7 ∷ [];
    container_apps = (4, StormApp.chat) ∷ [];
    container_transfers = (4, 7) ∷ [];
    ctl_queue = fetch ∷ [];
  };
  log = [];
}

-- Daemons 7 and 8 are free, and no task waits.
abbrev pub idle : Sys Runtime.Runtime
idle = record { rt = record (Runtime.fresh config) { transferd_free = 7 ∷ 8 ∷ [] }; log = [] }

abbrev pub info : Info
info = record {
  app_id = StormApp.file_transfer;
  client_id = some 2;
  remote_id = 3;
  id = record { message_id = 0; container_id = 9 };
}

abbrev pub worker : State → Sys Worker.Runtime
worker state = record { rt = record { id = 7; state = state }; log = [] }

-- A daemon without a state of its own.
abbrev pub stateless : Sys (Unit {0})
stateless = record { rt = tt; log = [] }
