-- ===== src/Stormd/Served.antt =====
-- Sequences of messages that stormd handles.
use storm_node.Base.{◌≡◌, refl, if◌then◌else◌, true, ◌∙◌, Bool, false, ◌||◌, List, [], ◌∷◌, arith}
use storm_node.Wire.{DaemonId}
use storm_node.Rpc.Ids.{ServiceId}
use storm_node.Bus.{ServiceBus, BusMsg}
use storm_node.World.{Platform, Sys}
use storm_node.Stormd.Runtime.{Runtime}
use storm_node.World.Serve.{Message, serve, serve-next, serve-last}
use storm_node.Rpc.Failure.{EsbError}
use storm_node.Errors.{DaemonError}
use storm_node.Stormd.Handlers.{handle, handle_err}
use storm_node.Stormd.Panics.{is_fatal, handle-panics}
use storm_node.Stormd.Known.{is_known, is_word_of, handle-known}

-- The messages up to the first that stormd panics on.
abbrev pub until_fatal : List Message → List Message
until_fatal [] = []
until_fatal ((bus, msg, source) ∷ messages) =
    if is_fatal bus msg source
    then (bus, msg, source) ∷ []
    else (bus, msg, source) ∷ until_fatal messages

-- Whether a daemon speaks of itself in some message.
abbrev pub any_word_of : DaemonId → List Message → Bool
any_word_of d [] = false
any_word_of d ((bus, msg, source) ∷ messages) =
    is_word_of d bus msg source || any_word_of d messages

module _ (p : Platform) (raise : DaemonError → EsbError) where
  abbrev pub serve_all : List Message → Sys Runtime → Sys Runtime
  serve_all = serve raise handle_err (handle p)

  pub next :
      (bus : ServiceBus) (msg : BusMsg) (source : ServiceId) (messages : List Message)
      (s : Sys Runtime)
      → is_fatal bus msg source ≡ false
      → serve_all ((bus, msg, source) ∷ messages) s
        ≡ serve_all messages (handle p bus msg source s).1
  next bus msg source messages s h =
      serve-next raise handle_err (handle p) (λ e s. refl) bus msg source messages s
        (handle-panics p bus msg source s ∙ h)

  pub last :
      (bus : ServiceBus) (msg : BusMsg) (source : ServiceId) (messages : List Message)
      (s : Sys Runtime)
      → is_fatal bus msg source ≡ true
      → serve_all ((bus, msg, source) ∷ messages) s ≡ (handle p bus msg source s).1
  last bus msg source messages s h =
      serve-last raise handle_err (handle p) (λ e s. refl) bus msg source messages s
        (handle-panics p bus msg source s ∙ h)

  -- After any messages stormd knows, as free or busy, just the transfer daemons that it knew before,
  -- and those that said hello or reported the end of a task, whatever the platform answers: none is
  -- forgotten, and none appears otherwise. (The messages after an app's `ContainerRetrieved` are not
  -- handled, since stormd panics on it.)
  pub known-serve :
      (messages : List Message) (s : Sys Runtime) (d : DaemonId)
      → is_known d (serve_all messages s).rt
        ≡ (is_known d s.rt || any_word_of d (until_fatal messages))
  unfolding serve
  known-serve [] s d = ground arith
  known-serve ((bus, msg, source) ∷ messages) s d = ground (
    arith,
    next bus msg source messages s,
    last bus msg source messages s,
    known-serve messages (handle p bus msg source s).1 d,
    handle-known p bus msg source s d,
  )
