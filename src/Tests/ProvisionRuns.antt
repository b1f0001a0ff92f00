-- ===== src/Tests/ProvisionRuns.antt =====
-- Runs of two nodes, and of the queue of stormd.
use storm_node.Base.{◌≡◌, refl, List, [], ◌∷◌, map, nat_eq}
use storm_node.Wire.{DaemonId, Messages, ContainerFullId, ChunkPull, StormApp}
use storm_node.World.{Platform, Sys, Request, Event, table_containers}
use storm_node.Stormd.Runtime
use storm_node.Stormd.Served.{serve_all}
use storm_node.Stormd.Drain.{Word, said, instructions, serve-drains}
use storm_node.Transferd.Completion.{completions}
use storm_node.Stormd.Pool.{IsPool}
use storm_node.Node.Overlap
use storm_node.Transferd.State.{StateTy}
use storm_node.Node.ChatRoute.{LastSent, on_stormd, from_peer}
use storm_node.Node.FileRoute.{on_downpourd, on_transferd}
use storm_node.Node.Provision.{
  pull_message, push_message, requested, app_asked, agreed, ordered, delivered, completed,
  handed_over, container_crosses,
}
use storm_node.Tests.Samples.{reliable, container, fetch, idle, working, worker, stateless}

abbrev words : List (Word × DaemonId)
words = (Word.complete, 7) ∷ (Word.hello, 9) ∷ []

serve-drains_example :
    let s' = serve_all (reliable Messages.list_apps) (λ e. 0) (map said words) working in
    (s'.rt.ctl_queue ≡ []) × (instructions s'.log ≡ fetch ∷ [])
serve-drains_example =
    serve-drains (reliable Messages.list_apps) (λ log packet. refl) (λ e. 0) words working

abbrev id : ContainerFullId
id = record { message_id = 0; container_id = 9 }

abbrev requester : Platform
requester = reliable (push_message container)

abbrev provider : Platform
provider = reliable (pull_message id)

-- Daemon 3 of the node that asks awaits container 9.
abbrev awaiting : Sys Runtime.Runtime
awaiting = record idle { rt = record idle.rt { container_transfers = (9, 3) ∷ [] } }

container_crosses_example :
    let p = requester in
    let q = provider in
    LastSent
      (on_stormd q (from_peer 1 (requested p q 1 2 3 7 id container)) idle).1.log
      (app_asked p q 1 2 3 7 id container)
    × LastSent
        (on_downpourd q (app_asked p q 1 2 3 7 id container) stateless).1.log
        (agreed p q 1 2 3 7 id container)
    × LastSent
        (on_stormd q (agreed p q 1 2 3 7 id container) idle).1.log
        (ordered p q 1 2 3 7 id container)
    × ((on_transferd q (ordered p q 1 2 3 7 id container) (worker StateTy.free)).1.log
        ≡ Event.done (Request.send (completed p q 1 2 3 7 id container))
          ∷ Event.done (Request.send (delivered p q 1 2 3 7 id container))
          ∷ Event.done (Request.retrieve table_containers 9)
          ∷ [])
    × LastSent
        (on_stormd p (from_peer 2 (delivered p q 1 2 3 7 id container)) awaiting).1.log
        (handed_over p q 1 2 3 7 id container)
container_crosses_example =
    container_crosses requester provider 1 2 3 7 id container (8 ∷ []) (4 ∷ []) idle idle awaiting
      stateless (worker StateTy.free) (λ log packet. refl) (λ log packet. refl) refl refl refl refl
      refl refl (λ log. refl) refl refl

-- Daemon 7 sends container 9, and a peer asks for two chunks of it.
abbrev wish : ChunkPull
wish = record {
  app = StormApp.file_transfer;
  message_id = 0;
  container_id = 9;
  chunk_ids = 4 ∷ 5 ∷ [];
}

abbrev asked_for : Platform
asked_for = reliable (Messages.pull_chunk wish)

abbrev sending : Sys Runtime.Runtime
sending = record idle {
  rt = record idle.rt {
    transferd_free = 8 ∷ [];
    transferd_busy = 7 ∷ [];
    container_transfers = (9, 7) ∷ [];
  };
}

pull_breaks_example :
    let q = asked_for in
    let app = StormApp.file_transfer in
    let s₁ = (on_stormd q (Overlap.asking q 3 [] wish 7 app id) sending).1 in
    let s₂ = (on_stormd q (Overlap.ended q 3 [] wish 7 app id) s₁).1 in
    let s₃ = (on_stormd q (Overlap.ended q 3 [] wish 7 app id) s₂).1 in
    let t₁ = (on_transferd q (Overlap.ordered q 3 [] wish 7 app id) (worker StateTy.free)).1 in
    let t₂ = (on_transferd q (Overlap.passed_on q 3 [] wish 7 app id) t₁).1 in
    LastSent s₁.log (Overlap.passed_on q 3 [] wish 7 app id)
    × LastSent t₁.log (Overlap.ended q 3 [] wish 7 app id)
    × (completions t₂.log ≡ 2)
    × (s₃.rt.transferd_free ≡ 8 ∷ 7 ∷ 7 ∷ [])
    × ¬ IsPool s₃.rt
pull_breaks_example =
    Overlap.pull_breaks asked_for 3 [] wish 7 StormApp.file_transfer id sending
      (worker StateTy.free) (4 ∷ []) container (λ log packet. refl) refl refl refl refl refl
      (λ log. refl) refl
