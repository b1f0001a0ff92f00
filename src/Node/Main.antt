-- ===== src/Node/Main.antt =====
-- The programs of the daemons: `main` of src/bin/stormd.rs, transferd.rs, chatd.rs and downpourd.rs,
-- from the parsed options on, and `run_impl` of src/stormd/daemons.rs. A run that opens its buses
-- never returns, so what a start gives back is the daemon at work.
use storm_node.Base.{String, ◌≡◌, refl, arith}
use storm_node.Base.Action.{Action, value, error, panic, pure, ◌>>=◌}
use storm_node.Wire.{DaemonId}
use storm_node.Config.{
  Config, Opts, StormOpts, ChatdOpts, DownpourdOpts, Shell, process_storm, process_chatd,
  process_downpourd, from_opts, to_shared, storm_options, chatd_options, downpourd_options,
}
use storm_node.Errors.{LaunchError}
use storm_node.World.{Platform, Sys}
use storm_node.Stormd.Daemons.{Daemon}
use storm_node.Stormd.Runtime
use storm_node.Stormd.Start
use storm_node.Transferd
use storm_node.Chatd
use storm_node.Downpourd

-- `Result::expect`; the text of the error is left out.
abbrev pub or_panic : {S E F A : Type 0} → Action S E A → String → Action S F A
or_panic m text s =
    let (r, s') = m s in
    elim r [ value a ↦ (value a, s') | error e ↦ (panic text, s') | panic t ↦ (panic t, s') ]

-- `main` returns `Err` nowhere; the error type is the declared one.
abbrev pub Program : Type 0 → Type 0
Program A = Action (Sys (Unit {0})) LaunchError A

module _ (p : Platform) (shell_setup : Shell) where
  unfoldable pub stormd_main : StormOpts → Program Runtime.Runtime
  stormd_main opts =
      or_panic (Start.run p (from_opts (process_storm shell_setup opts))) "running stromd runtime"

  -- It takes the options of chatd. `id` is the number that transferd draws.
  unfoldable pub transferd_main : DaemonId → ChatdOpts → Program Transferd.Runtime.Runtime
  transferd_main id opts =
      or_panic (Transferd.Runtime.run p (from_opts (process_chatd shell_setup opts)) id)
        "running transferd runtime"

  unfoldable pub chatd_main : ChatdOpts → Program (Unit {0})
  chatd_main opts =
      or_panic (Chatd.run p (from_opts (process_chatd shell_setup opts))) "running chatd runtime"

  unfoldable pub downpourd_main : DownpourdOpts → Program (Unit {0})
  downpourd_main opts =
      or_panic (Downpourd.run p (from_opts (process_downpourd shell_setup opts)))
        "running downpourd runtime"

-- `run_impl`; what the daemon works on is dropped.
unfoldable pub run_impl : Platform → DaemonId → Daemon → Config (Unit {0}) → Program (Unit {0})
run_impl p id Daemon.transferd config = do runtime ← Transferd.Runtime.run p config id; pure tt
run_impl p id Daemon.chatd config = Chatd.run p config
run_impl p id Daemon.downpourd config = Downpourd.run p config

-- The program of a daemon, called with the shared options.
abbrev pub daemon_main : Platform → Shell → DaemonId → Daemon → Opts → Program (Unit {0})
daemon_main p shell_setup id Daemon.transferd opts =
    transferd_main p shell_setup id (record { shared = opts }) >>= λ _. pure tt
daemon_main p shell_setup id Daemon.chatd opts = chatd_main p shell_setup (record { shared = opts })
daemon_main p shell_setup id Daemon.downpourd opts =
    downpourd_main p shell_setup (record { shared = opts })

-- The text of the panic of each program.
abbrev pub failure_text : Daemon → String
failure_text Daemon.transferd = "running transferd runtime"
failure_text Daemon.chatd = "running chatd runtime"
failure_text Daemon.downpourd = "running downpourd runtime"

-- A daemon that stormd launches as a thread starts just as its own program does with the options that
-- stormd shares with it: the same calls end in the same way, except that where the thread returns an
-- error the program panics.
pub daemon_main-run_impl :
    (p : Platform) (shell_setup : Shell) (opts : StormOpts) (id : DaemonId) (d : Daemon)
    (s : Sys (Unit {0}))
    → let config = to_shared (from_opts (process_storm shell_setup opts)) in
      daemon_main p shell_setup id d opts.shared s
      ≡ or_panic (run_impl p id d config) (failure_text d) s
unfolding run_impl transferd_main chatd_main downpourd_main to_shared from_opts process_storm
    process_chatd process_downpourd
daemon_main-run_impl p shell_setup opts id Daemon.transferd s = ground arith
daemon_main-run_impl p shell_setup opts id Daemon.chatd s = refl
daemon_main-run_impl p shell_setup opts id Daemon.downpourd s = refl
