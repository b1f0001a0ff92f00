-- ===== src/Stormd/Iteration/Runs.antt =====
-- A run of stormd on two states with the same entries.
use storm_node.Base.{sym, Bool-cases, inl, inr, List, [], ◌∷◌, ap, ◌∙◌, nat_eq}
use storm_node.Base.Sets
use storm_node.Rpc.Ids.{ServiceId}
use storm_node.Rpc.Failure.{EsbError}
use storm_node.Errors.{DaemonError}
use storm_node.Bus.{BusMsg, CtlMsg}
use storm_node.World.{Platform, Sys}
use storm_node.World.Serve.{Message, serve}
use storm_node.Stormd.Runtime.{Runtime}
use storm_node.Stormd.Handlers.{handle}
use storm_node.Stormd.Panics.{is_fatal}
use storm_node.Stormd.Served.{serve_all, next, last}
use storm_node.Stormd.Pool.{IsPool}
use storm_node.Stormd.Pool.Handling.{Follows, handle-IsPool}
use storm_node.Stormd.Iteration.{IsLike, Like}
use storm_node.Stormd.Iteration.Handling.{handle-Alike}

-- Where two states have the same entries, the same is in order to be sent.
Follows-Like :
    (msg : BusMsg) (source : ServiceId) (rt rt' : Runtime)
    → IsLike rt rt'
    → Follows msg source rt
    → Follows msg source rt'
Follows-Like (BusMsg.ctl CtlMsg.hello) (ServiceId.transfer d) rt rt' h f =
    (ap (Sets.contains d) (sym h.free) ∙ f.0, sym (h.busy d) ∙ f.1)
Follows-Like (BusMsg.ctl CtlMsg.processing_complete) (ServiceId.transfer d) rt rt' h f =
    sym (h.busy d) ∙ f
Follows-Like (BusMsg.ctl CtlMsg.processing_failed) (ServiceId.transfer d) rt rt' h f =
    sym (h.busy d) ∙ f
Follows-Like msg source rt rt' h f = tt

-- The transfer daemons keep to the protocol in each message of a run.
abbrev pub Obeys : Platform → List Message → Sys Runtime → Type 0
Obeys p [] s = Unit
Obeys p ((bus, msg, source) ∷ messages) s =
    Follows msg source s.rt × Obeys p messages (handle p bus msg source s).1

module _ (p : Platform) (raise : DaemonError → EsbError) where
  -- Two states of stormd that hold the same entries in their maps and in the set of busy daemons, in
  -- whatever order these are iterated, are not told apart by any run: after the same messages the
  -- same calls were made, in the same order, and the states hold the same entries, if the pools are in
  -- order and the transfer daemons keep to their protocol.
  pub serve-Like :
      (messages : List Message) (s s' : Sys Runtime)
      → Obeys p messages s
      → IsPool s.rt
      → IsPool s'.rt
      → Like s s'
      → Like (serve_all p raise messages s) (serve_all p raise messages s')
  unfolding serve
  serve-Like [] s s' o pool pool' h = h
  serve-Like ((bus, msg, source) ∷ messages) s s' o pool pool' h =
      let one = (handle-Alike p bus msg source s s' pool.single pool'.single h).1 in
      let t = (handle p bus msg source s).1 in
      let t' = (handle p bus msg source s').1 in
      let pool_after = handle-IsPool p bus msg source s o.0 pool in
      let pool_after' =
        handle-IsPool p bus msg source s' (Follows-Like msg source s.rt s'.rt h.0 o.0) pool' in
      elim (Bool-cases (is_fatal bus msg source)) [
        | inl fatal ↦
            rw
              (
                last p raise bus msg source messages s fatal,
                last p raise bus msg source messages s' fatal,
              )
              one
        | inr fine ↦
            rw
              (
                next p raise bus msg source messages s fine,
                next p raise bus msg source messages s' fine,
              )
              (serve-Like messages t t' o.1 pool_after pool_after' one)
      ]
