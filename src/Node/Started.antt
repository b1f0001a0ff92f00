-- ===== src/Node/Started.antt =====
-- The start of stormd: the order of its calls.
use storm_node.Base.{ℕ, suc, Bool, true, false, ◌≡◌, ◌⊎◌, [], ◌∷◌, arith}
use storm_node.Base.Action.{value, panic}
use storm_node.Config.{
  Config, StormConfig, StormOpts, Shell, process_storm, from_opts, storm_options,
}
use storm_node.World.{
  Platform, Sys, Request, Event, Log, table_container_headers, table_containers, table_chunks,
}
use storm_node.World.Effects.{store_call, open_controller}
use storm_node.Stormd.Runtime.{fresh, init, use_tables}
use storm_node.Stormd.Start.{run, buses}
use storm_node.Node.Main.{stormd_main}

-- How often the buses were opened.
abbrev pub openings : Log → ℕ
openings [] = 0
openings (Event.done (Request.open_buses buses) ∷ log) = suc (openings log)
openings (e ∷ log) = openings log

-- Whether the last call failed.
abbrev pub is_failed : Log → Bool
is_failed (Event.failed r ∷ log) = true
is_failed _ = false

-- stormd starts with an empty state and opens its buses only after the store took the connection and
-- all three tables; otherwise one of these calls failed, it panics there and no bus is open.
pub stormd_main-opens :
    (p : Platform) (shell_setup : Shell) (opts : StormOpts) (s : Sys (Unit {0}))
    → let config : Config StormConfig = from_opts (process_storm shell_setup opts) in
      let r = stormd_main p shell_setup opts s in
      ((r.0 ≡ value (fresh config))
        × (r.1.log
            ≡ Event.done (Request.open_buses (buses config))
              ∷ Event.done (Request.use_table table_chunks)
              ∷ Event.done (Request.use_table table_containers)
              ∷ Event.done (Request.use_table table_container_headers)
              ∷ Event.done (Request.connect config.store_endpoint)
              ∷ s.log))
      ⊎ ((r.0 ≡ panic "running stromd runtime")
          × (is_failed r.1.log ≡ true)
          × (openings r.1.log ≡ openings s.log))
unfolding stormd_main run init use_tables store_call open_controller
stormd_main-opens p shell_setup opts s = ground arith
