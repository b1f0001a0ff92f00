-- ===== src/Stormd/Fifo/Runs.antt =====
-- The queue, by any messages that stormd handles.
use storm_node.Base.{
  ◌≡◌, sym, ap, ◌∙◌, Bool-cases, inl, inr, List, [], ◌∷◌, ◌++◌, append-nil, append_assoc,
}
use storm_node.Rpc.Ids.{ServiceId}
use storm_node.Rpc.Failure.{EsbError}
use storm_node.Bus.{ServiceBus, CtlMsg, BusMsg}
use storm_node.Errors.{DaemonError}
use storm_node.World.{Platform, Sys}
use storm_node.World.Serve.{Message, serve}
use storm_node.Stormd.Runtime.{Runtime}
use storm_node.Stormd.Handlers.{handle}
use storm_node.Stormd.Panics.{is_fatal}
use storm_node.Stormd.Served.{until_fatal, serve_all, next, last}
use storm_node.Stormd.Fifo.{direct, queued, all_given}
use storm_node.Stormd.Fifo.Handling.{handle-Fifo}

-- The third list is made of the other two, each in its order.
pub data Merge : List CtlMsg → List CtlMsg → List CtlMsg → Type 0 where
  nothing : Merge [] [] []
  from_first : {xs ys zs : List CtlMsg} (x : CtlMsg) → Merge xs ys zs → Merge (x ∷ xs) ys (x ∷ zs)
  from_second : {xs ys zs : List CtlMsg} (y : CtlMsg) → Merge xs ys zs → Merge xs (y ∷ ys) (y ∷ zs)

Merge-first :
    (hs : List CtlMsg) {xs ys zs : List CtlMsg} → Merge xs ys zs → Merge (hs ++ xs) ys (hs ++ zs)
Merge-first [] m = m
Merge-first (h ∷ hs) m = from_first h (Merge-first hs m)

Merge-second :
    (ds : List CtlMsg) {xs ys zs : List CtlMsg} → Merge xs ys zs → Merge xs (ds ++ ys) (ds ++ zs)
Merge-second [] m = m
Merge-second (d ∷ ds) m = from_second d (Merge-second ds m)

module _ (p : Platform) where
  -- What messages bring past the queue, and for it, in order.
  abbrev pub all_direct : List Message → Sys Runtime → List CtlMsg
  all_direct [] s = []
  all_direct ((bus, msg, source) ∷ messages) s =
      direct p s.rt bus msg source ++ all_direct messages (handle p bus msg source s).1

  abbrev pub all_queued : List Message → Sys Runtime → List CtlMsg
  all_queued [] s = []
  all_queued ((bus, msg, source) ∷ messages) s =
      queued p s.rt bus msg source ++ all_queued messages (handle p bus msg source s).1

  -- What was sent is what came past the queue, in its order, and what was at the front of the queue,
  -- in its order; the rest of the queue waits.
  abbrev pub IsFifo : List Message → Sys Runtime → Sys Runtime → Type 0
  IsFifo messages s s' =
      (hs : List CtlMsg) × (zs : List CtlMsg) × Merge hs (all_direct messages s) zs
      × (all_given s'.log ≡ all_given s.log ++ zs)
      × (s.rt.ctl_queue ++ all_queued messages s ≡ hs ++ s'.rt.ctl_queue)

  IsFifo-nil : (s : Sys Runtime) → IsFifo [] s s
  IsFifo-nil s =
      ([], [], Merge.nothing, sym (append-nil (all_given s.log)), append-nil s.rt.ctl_queue)

  IsFifo-cons :
      (bus : ServiceBus) (msg : BusMsg) (source : ServiceId) (messages : List Message)
      (s s' : Sys Runtime)
      → IsFifo messages (handle p bus msg source s).1 s'
      → IsFifo ((bus, msg, source) ∷ messages) s s'
  IsFifo-cons bus msg source messages s s' (hs, zs, m, g, w) =
      let t = (handle p bus msg source s).1 in
      let ds = direct p s.rt bus msg source in
      let qs = queued p s.rt bus msg source in
      let (h, given, waits) = handle-Fifo p bus msg source s in
      (
        h ++ hs,
        ds ++ (h ++ zs),
        Merge-second ds (Merge-first h m),
        g
            ∙ ap (λ xs. xs ++ zs) given
            ∙ append_assoc (all_given s.log) (ds ++ h) zs
            ∙ ap (λ xs. all_given s.log ++ xs) (append_assoc ds h zs),
        sym (append_assoc s.rt.ctl_queue qs (all_queued messages t))
            ∙ ap (λ xs. xs ++ all_queued messages t) waits
            ∙ append_assoc h t.rt.ctl_queue (all_queued messages t)
            ∙ ap (λ xs. h ++ xs) w
            ∙ sym (append_assoc h hs s'.rt.ctl_queue),
      )

  -- The transfer daemons get what they are to do first come, first served: after any messages, from
  -- anyone and interleaved in any way, whatever the platform answers, what stormd sent to transfer
  -- daemons (or tried to send) is made of two lists, each in its order: what peers sent for a
  -- transfer that a daemon had at that moment, and a front of the queue, to whose end every message
  -- adds what a client or an app asks for, and what a peer sends for a transfer that no daemon has
  -- (but for a chunk, which is dropped); the rest of the queue is what waits. (The messages after an
  -- app's `ContainerRetrieved` are not handled, since stormd panics on it.)
  pub serve-IsFifo :
      (raise : DaemonError → EsbError) (messages : List Message) (s : Sys Runtime)
      → IsFifo (until_fatal messages) s (serve_all p raise messages s)
  unfolding serve
  serve-IsFifo raise [] s = IsFifo-nil s
  serve-IsFifo raise ((bus, msg, source) ∷ messages) s =
      let t = (handle p bus msg source s).1 in
      elim (Bool-cases (is_fatal bus msg source)) [
        | inl fatal ↦
            rw (fatal, last p raise bus msg source messages s fatal)
              (IsFifo-cons bus msg source [] s t (IsFifo-nil t))
        | inr fine ↦
            rw (fine, next p raise bus msg source messages s fine)
              (IsFifo-cons bus msg source (until_fatal messages) s (serve_all p raise messages t)
                (serve-IsFifo raise messages t))
      ]
