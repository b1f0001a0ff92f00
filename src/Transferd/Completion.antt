-- ===== src/Transferd/Completion.antt =====
-- What transferd has told stormd, and the reports of a finished task among it.
use storm_node.Base.{ℕ, suc, Bool, true, false, List, [], ◌∷◌, ◌++◌, if◌then◌else◌}
use storm_node.Rpc.Ids.{is_stormd}
use storm_node.Bus.{CtlMsg, BusMsg, Packet}
use storm_node.World.{Request, Event, Log}

abbrev pub is_completion : Event → Bool
is_completion (Event.done (Request.send packet)) = elim packet.request [
  | BusMsg.ctl msg ↦ elim msg [ CtlMsg.processing_complete ↦ true | _ ↦ false ]
  | _ ↦ false
]
is_completion _ = false

-- How often the log holds such a report.
abbrev pub completions : Log → ℕ
completions [] = 0
completions (e ∷ log) = if is_completion e then suc (completions log) else completions log

-- What was sent to stormd, of whatever kind and whether or not the bus took it, newest first.
abbrev pub to_stormd : Request → List Packet
to_stormd (Request.send packet) = if is_stormd packet.dest then packet ∷ [] else []
to_stormd _ = []

abbrev pub event_told : Event → List Packet
event_told (Event.done r) = to_stormd r
event_told (Event.failed r) = to_stormd r

abbrev pub told_stormd : Log → List Packet
told_stormd [] = []
told_stormd (e ∷ log) = event_told e ++ told_stormd log

-- A report of a failure counts too.
abbrev pub is_report : Event → Bool
is_report (Event.done (Request.send packet)) = elim packet.request [
  | BusMsg.ctl msg ↦ elim msg [
    | CtlMsg.processing_complete ↦ true
    | CtlMsg.processing_failed ↦ true
    | _ ↦ false
  ]
  | _ ↦ false
]
is_report _ = false

abbrev pub reports : Log → ℕ
reports [] = 0
reports (e ∷ log) = if is_report e then suc (reports log) else reports log
