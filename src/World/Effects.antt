-- ===== src/World/Effects.antt =====
-- The calls of the platform as actions.
use storm_node.Base.{ℕ, String, Option, none, some, List, ◌∷◌}
use storm_node.Base.Action.{Result, ok, err, value, error, Action}
use storm_node.Wire.{Chunk, ChunkId}
use storm_node.Bus.{Packet}
use storm_node.Rpc.Failure.{EsbError}
use storm_node.Errors.{LauncherError, StoreError}
use storm_node.World.{Request, Event, Platform, Sys}

abbrev logged : {R : Type 0} → Event → Sys R → Sys R
logged e s = record s { log = e ∷ s.log }

-- A call that answers with nothing or an error.
abbrev settle : {R E : Type 0} → Request → Option E → Action (Sys R) E (Unit {0})
settle r none s = (value tt, logged (Event.done r) s)
settle r (some e) s = (error e, logged (Event.failed r) s)

-- A call that answers with a value or an error.
abbrev answer : {R E A : Type 0} → Request → Result E A → Action (Sys R) E A
answer r (ok a) s = (value a, logged (Event.done r) s)
answer r (err e) s = (error e, logged (Event.failed r) s)

module _ (p : Platform) {R : Type 0} where
  -- `endpoints.send_to`
  unfoldable pub send_to : Packet → Action (Sys R) EsbError (Unit {0})
  send_to packet s = settle (Request.send packet) (p.transport s.log packet) s

  -- `Controller::with`
  unfoldable pub open_controller : Request → Action (Sys R) EsbError (Unit {0})
  open_controller r s = settle r (p.controller s.log r) s

  unfoldable pub launch : Request → Action (Sys R) LauncherError (Unit {0})
  launch r s = settle r (p.launcher s.log r) s

  -- `Client::with`, `use_table` and `store` of the store's client.
  unfoldable pub store_call : Request → Action (Sys R) StoreError (Unit {0})
  store_call r s = settle r (p.store_reply s.log r) s

  unfoldable pub retrieve_chunk : String → ℕ → Action (Sys R) StoreError (Option Chunk)
  retrieve_chunk table id s = answer (Request.retrieve table id) (p.retrieved s.log table id) s

  unfoldable pub filter_unknown : String → List ChunkId → Action (Sys R) StoreError (List ChunkId)
  filter_unknown table ids s =
      answer (Request.filter_unknown table ids) (p.unknown s.log table ids) s

-- A method's assignment to the daemon's own fields.
abbrev pub update : {R E : Type 0} → (R → R) → Action (Sys R) E (Unit {0})
update f s = (value tt, record s { rt = f s.rt })
