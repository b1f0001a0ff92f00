-- ===== src/World/Serve.antt =====
-- A daemon that handles one message after the other: what a handler returns as an error goes to
-- `handle_err`, and a panic ends the daemon.
use storm_node.Base.{◌≡◌, Bool, true, false, List, [], ◌∷◌, arith}
use storm_node.Base.Action.{Action, Outcome, value, error, panic}
use storm_node.Rpc.Ids.{ServiceId}
use storm_node.Rpc.Failure.{EsbError}
use storm_node.Bus.{ServiceBus, BusMsg}
use storm_node.Errors.{DaemonError}
use storm_node.World.{Sys}

abbrev pub Message : Type 0
Message = ServiceBus × BusMsg × ServiceId

abbrev pub panics : {E A : Type 0} → Outcome E A → Bool
panics (value a) = false
panics (error e) = false
panics (panic text) = true

-- How a handler deals with a message: it takes it on, whatever comes of that, it answers that the
-- message is not supported, or it panics.
pub data Manner : Type 0 where
  taken refused panicked : Manner

abbrev pub manner : {A : Type 0} → Outcome DaemonError A → Manner
manner (value a) = Manner.taken
manner (error (DaemonError.request_not_supported _ _)) = Manner.refused
manner (error (DaemonError.source_not_supported _ _ _)) = Manner.refused
manner (error e) = Manner.taken
manner (panic text) = Manner.panicked

abbrev pub is_panicked : Manner → Bool
is_panicked Manner.panicked = true
is_panicked _ = false

pub panics-manner : {A : Type 0} (r : Outcome DaemonError A) → panics r ≡ is_panicked (manner r)
panics-manner r = ground arith

abbrev pub MessageHandler : Type 0 → Type 0
MessageHandler R = ServiceBus → BusMsg → ServiceId → Action (Sys R) DaemonError (Unit {0})

module _ {R : Type 0} (raise : DaemonError → EsbError)
    (handle_err : EsbError → Action (Sys R) DaemonError (Unit {0}))
    (handle : MessageHandler R) where
  -- `raise` is the conversion of the error, a text in the error type of the bus.
  unfoldable pub serve : List Message → Sys R → Sys R
  serve [] s = s
  serve ((bus, msg, source) ∷ messages) s =
      let (r, s') = handle bus msg source s in
      elim r [
        | value a ↦ serve messages s'
        | panic text ↦ s'
        | error e ↦
            let (r', s'') = handle_err (raise e) s' in
            elim r' [ value a ↦ serve messages s'' | panic text ↦ s'' | error e' ↦ s'' ]
      ]

  module _ (settled : (e : EsbError) (s : Sys R) → handle_err e s ≡ (value tt, s)) where
    pub serve-next :
        (bus : ServiceBus) (msg : BusMsg) (source : ServiceId) (messages : List Message) (s : Sys R)
        → panics (handle bus msg source s).0 ≡ false
        → serve ((bus, msg, source) ∷ messages) s ≡ serve messages (handle bus msg source s).1
    unfolding serve
    serve-next bus msg source messages s h =
        grind (arith, h, λ (e : DaemonError). settled (raise e) (handle bus msg source s).1)

    pub serve-last :
        (bus : ServiceBus) (msg : BusMsg) (source : ServiceId) (messages : List Message) (s : Sys R)
        → panics (handle bus msg source s).0 ≡ true
        → serve ((bus, msg, source) ∷ messages) s ≡ (handle bus msg source s).1
    unfolding serve
    serve-last bus msg source messages s h = ground (arith, h)
