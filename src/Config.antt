-- ===== src/Config.antt =====
-- Configuration of the daemons: src/config.rs, src/stormd/config.rs and the options that they are
-- made from (src/opts.rs and the opts.rs of each daemon). Addresses and paths are texts.
use storm_node.Base.{ℕ, String, Option, Bool}

pub record Config (Ext : Type 0) : Type 0 where
  pub data_dir : String
  pub msg_endpoint : String
  pub ctl_endpoint : String
  pub rpc_endpoint : String
  pub ext_endpoint : String
  pub store_endpoint : String
  pub chat_endpoint : String
  pub ext : Ext

-- `Config::with`
unfoldable pub with_ext : {Orig Ext : Type 0} → Config Orig → Ext → Config Ext
with_ext orig ext = record {
  data_dir = orig.data_dir;
  msg_endpoint = orig.msg_endpoint;
  ctl_endpoint = orig.ctl_endpoint;
  rpc_endpoint = orig.rpc_endpoint;
  ext_endpoint = orig.ext_endpoint;
  store_endpoint = orig.store_endpoint;
  chat_endpoint = orig.chat_endpoint;
  ext = ext;
}

-- The extension of stormd.
pub record StormConfig : Type 0 where
  pub run_chat : Bool
  pub run_downpour : Bool
  pub threaded : Bool

-- `From<Config<stormd::Config>> for Config<()>`
unfoldable pub to_shared : Config StormConfig → Config (Unit {0})
to_shared config = record {
  data_dir = config.data_dir;
  msg_endpoint = config.msg_endpoint;
  ctl_endpoint = config.ctl_endpoint;
  rpc_endpoint = config.rpc_endpoint;
  ext_endpoint = config.ext_endpoint;
  store_endpoint = config.store_endpoint;
  chat_endpoint = config.chat_endpoint;
  ext = tt;
}

-- The options that all daemons share. The path of a configuration file is read by nobody.
pub record Opts : Type 0 where
  pub verbose : ℕ
  pub data_dir : String
  pub config : Option String
  pub msg_endpoint : String
  pub ctl_endpoint : String
  pub rpc_endpoint : String
  pub ext_endpoint : String
  pub store_endpoint : String
  pub chat_endpoint : String

-- The addresses that `Opts::process` gives to `shell_setup`, its array written as a record.
pub record Sockets : Type 0 where
  pub msg_endpoint : String
  pub ctl_endpoint : String
  pub rpc_endpoint : String
  pub ext_endpoint : String
  pub chat_endpoint : String

-- `shell_setup` of the `microservices` crate, as far as it writes to what it is given: the verbosity,
-- the addresses and the data directory.
abbrev pub Shell : Type 0
Shell = ℕ → Sockets → String → Sockets × String

unfoldable pub process : Shell → Opts → Opts
process shell_setup opts =
    let given : Sockets = record {
      msg_endpoint = opts.msg_endpoint;
      ctl_endpoint = opts.ctl_endpoint;
      rpc_endpoint = opts.rpc_endpoint;
      ext_endpoint = opts.ext_endpoint;
      chat_endpoint = opts.chat_endpoint;
    } in
    let (sockets, data_dir) = shell_setup opts.verbose given opts.data_dir in
    record opts {
      data_dir = data_dir;
      msg_endpoint = sockets.msg_endpoint;
      ctl_endpoint = sockets.ctl_endpoint;
      rpc_endpoint = sockets.rpc_endpoint;
      ext_endpoint = sockets.ext_endpoint;
      chat_endpoint = sockets.chat_endpoint;
    }

-- The trait `Options`; `Conf` is its associated type.
pub record Options (Opt Conf : Type 0) : Type 0 where
  pub shared : Opt → Opts
  pub config : Opt → Conf

-- The options of stormd.
pub record StormOpts : Type 0 where
  pub shared : Opts
  pub chat : Bool
  pub downpour : Bool
  pub threaded_daemons : Bool

unfoldable pub config_ext : StormOpts → StormConfig
config_ext opts = record {
  run_chat = opts.chat;
  run_downpour = opts.downpour;
  threaded = opts.threaded_daemons;
}

instance abbrev pub storm_options : Options StormOpts StormConfig
storm_options = record { shared = λ opts. opts.shared; config = config_ext }

unfoldable pub process_storm : Shell → StormOpts → StormOpts
unfolding process
process_storm shell_setup opts = record opts { shared = process shell_setup opts.shared }

-- The options of chatd.
pub record ChatdOpts : Type 0 where
  pub shared : Opts

instance abbrev pub chatd_options : Options ChatdOpts (Unit {0})
chatd_options = record { shared = λ opts. opts.shared; config = λ _. tt }

unfoldable pub process_chatd : Shell → ChatdOpts → ChatdOpts
unfolding process
process_chatd shell_setup opts = record { shared = process shell_setup opts.shared }

-- The options of downpourd.
pub record DownpourdOpts : Type 0 where
  pub shared : Opts

instance abbrev pub downpourd_options : Options DownpourdOpts (Unit {0})
downpourd_options = record { shared = λ opts. opts.shared; config = λ _. tt }

unfoldable pub process_downpourd : Shell → DownpourdOpts → DownpourdOpts
unfolding process
process_downpourd shell_setup opts = record { shared = process shell_setup opts.shared }

-- The options of transferd.
pub record TransferdOpts : Type 0 where
  pub shared : Opts

instance abbrev pub transferd_options : Options TransferdOpts (Unit {0})
transferd_options = record { shared = λ opts. opts.shared; config = λ _. tt }

unfoldable pub process_transferd : Shell → TransferdOpts → TransferdOpts
unfolding process
process_transferd shell_setup opts = record { shared = process shell_setup opts.shared }

-- `From<Opt> for Config<Opt::Conf>`
unfoldable pub from_opts : {Opt Conf : Type 0} ⦃o : Options Opt Conf⦄ → Opt → Config Conf
from_opts ⦃o⦄ opt =
    let opts = o.shared opt in
    record {
      data_dir = opts.data_dir;
      msg_endpoint = opts.msg_endpoint;
      ctl_endpoint = opts.ctl_endpoint;
      rpc_endpoint = opts.rpc_endpoint;
      ext_endpoint = opts.ext_endpoint;
      store_endpoint = opts.store_endpoint;
      chat_endpoint = opts.chat_endpoint;
      ext = o.config opt;
    }
