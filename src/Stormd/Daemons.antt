-- ===== src/Stormd/Daemons.antt =====
-- The daemons that stormd launches: src/stormd/daemons.rs.
pub mod Args
use text.Mathlib.Text.{starts_with}
use storm_node.Base.{String, Bool, false, ◌||◌, List, [], ◌∷◌, if◌then◌else◌}

pub data Daemon : Type 0 where
  transferd chatd downpourd : Daemon

unfoldable pub bin_name : Daemon → String
bin_name Daemon.transferd = "transferd"
bin_name Daemon.chatd = "chatd"
bin_name Daemon.downpourd = "downpourd"

-- The options of stormd itself, which the other daemons do not take.
abbrev pub own_options : List String
own_options = "--threaded" ∷ "--chat" ∷ "--downpour" ∷ []

-- `pats.iter().any(|pat| arg.starts_with(pat))`
unfoldable pub starts_with_any : String → List String → Bool
starts_with_any arg [] = false
starts_with_any arg (pat ∷ pats) = starts_with arg pat || starts_with_any arg pats

unfoldable pub keep_args : List String → List String
unfolding starts_with_any
keep_args [] = []
keep_args (arg ∷ args) =
    let rest = keep_args args in if starts_with_any arg own_options then rest else arg ∷ rest

-- The arguments of a child process, from those of stormd, the program's name first.
unfoldable pub cmd_args : List String → List String
unfolding keep_args
cmd_args [] = []
cmd_args (program ∷ args) = keep_args args
