-- ===== src/Cli/Opts.antt =====
-- The options and commands of the command line client: cli/src/opts.rs, and how its main function
-- (cli/src/main.rs) prepares the addresses. Paths and the addresses of peers are texts.
use storm_node.Base.{ℕ, String, Option}
use storm_node.Wire.{NodeId, ContainerId}

-- `ServiceAddr` of the `internet2` crate, as far as the client takes it apart.
pub data ServiceAddr : Type 0 where
  ipc : String → ServiceAddr
  other : String → ServiceAddr

pub data Command : Type 0 where
  chat_listen : Option String → NodeId → Command
  chat_send : Option String → NodeId → Command
  containerize : String → String → Option String → Command
  assemble : ContainerId → String → Command
  upload : Option String → NodeId → ContainerId → Command
  download : Option String → NodeId → ContainerId → Command

pub record CliOpts : Type 0 where
  pub storm_endpoint : ServiceAddr
  pub store_endpoint : ServiceAddr
  pub radio_endpoint : ServiceAddr
  pub lnp_endpoint : ServiceAddr
  pub verbose : ℕ
  pub command : Command

-- `shellexpand::tilde` is the argument.
unfoldable pub expand : (String → String) → ServiceAddr → ServiceAddr
expand tilde (ServiceAddr.ipc path) = ServiceAddr.ipc (tilde path)
expand tilde (ServiceAddr.other addr) = ServiceAddr.other addr

-- What `main` makes of the addresses before it opens the three clients.
unfoldable pub expand_endpoints : (String → String) → CliOpts → CliOpts
unfolding expand
expand_endpoints tilde opts = record opts {
  storm_endpoint = expand tilde opts.storm_endpoint;
  radio_endpoint = expand tilde opts.radio_endpoint;
  lnp_endpoint = expand tilde opts.lnp_endpoint;
  store_endpoint = expand tilde opts.store_endpoint;
}
