-- ===== src/Rpc/Client/Responses.antt =====
-- The order in which a client sees the messages that come, and the end of its requests.
use Prim.Native.String.{◌++◌ as concat}
use storm_node.Base.{
  ℕ, zero, suc, ◌+◌, ◌≡◌, ◌≢◌, ◌<◌, refl, inl, inr, String, Option, none, some, Option-cases, List,
  [], ◌∷◌, ◌++◌, arith, length, length-append,
}
use storm_node.Base.Action.{Result, ok, err}
use storm_node.Rpc.Failure.{EsbError, Error}
use storm_node.Rpc.Ids.{ServiceId}
use storm_node.Rpc.Messages.{RpcMsg, failure_error, failure_to_error}
use storm_node.Rpc.Client.{
  BusMsg, PollItem, Client, Response, Ended, pop, poll_loop, response, judge, progress_loop,
  polls_of, waiting, request, progressive_request,
}

pop-append_one {ℓ} : {A : Type ℓ} (xs : List A) (x : A) → pop (xs ++ x ∷ []) ≡ some (x, xs)
unfolding pop
pop-append_one [] x = refl
pop-append_one (y ∷ xs) x = rw (pop-append_one xs x) refl

pop-none {ℓ} : {A : Type ℓ} (xs : List A) → pop xs ≡ none → xs ≡ []
unfolding pop
pop-none [] h = refl
pop-none (x ∷ xs) h = ground arith

length-pop {ℓ} :
    {A : Type ℓ} (xs : List A) (x : A) (ys : List A)
    → pop xs ≡ some (x, ys)
    → length xs ≡ suc (length ys)
unfolding pop
length-pop [] x ys h = cc
length-pop (z ∷ xs) x ys h = elim (Option-cases (pop xs)) [
  | inl e ↦ ground (arith, pop-none xs e)
  | inr ((y, zs), e) ↦ ground (arith, length-pop xs y zs e)
]

-- What a returned message takes away.
abbrev Shrinks : List PollItem → List (Result EsbError (List PollItem)) → Response → Type 0
Shrinks queue incoming r =
    (poll : PollItem)
    → r.poll ≡ Ended.returned poll
    → suc (length r.queue + polls_of r.rest) ≡ length queue + polls_of incoming

poll_loop-Shrinks :
    (queue : List PollItem) (incoming : List (Result EsbError (List PollItem)))
    → Shrinks queue incoming (poll_loop queue incoming)
unfolding poll_loop
poll_loop-Shrinks queue [] poll h = elim (Option-cases (pop queue)) [
  | inl e ↦ ground arith
  | inr ((x, left), e) ↦ ground (arith, length-pop queue x left e)
]
poll_loop-Shrinks queue (ok polls ∷ rest) poll h = elim (Option-cases (pop queue)) [
  | inl e ↦ ground (arith, poll_loop-Shrinks (queue ++ polls) rest poll, length-append queue polls)
  | inr ((x, left), e) ↦ ground (arith, length-pop queue x left e)
]
poll_loop-Shrinks queue (err x ∷ rest) poll h = elim (Option-cases (pop queue)) [
  | inl e ↦ ground arith
  | inr ((x, left), e) ↦ ground (arith, length-pop queue x left e)
]

pub waiting-response :
    (c : Client) (poll : PollItem)
    → (response c).0 ≡ Ended.returned poll
    → suc (waiting (response c).1) ≡ waiting c
unfolding response
waiting-response c poll h = poll_loop-Shrinks c.response_queue c.incoming poll h

progress_loop-ne-none : (fuel : ℕ) (c : Client) → waiting c < fuel → (progress_loop fuel c).0 ≢ none
unfolding progress_loop
progress_loop-ne-none zero c h = absurd (omega arith)
progress_loop-ne-none (suc fuel) c h =
    grind (arith, waiting-response c, progress_loop-ne-none fuel (response c).1)

progress_loop-some :
    (fuel : ℕ) (c : Client)
    → waiting c < fuel
    → (r : Ended (Unit {0})) × ((progress_loop fuel c).0 ≡ some r)
progress_loop-some fuel c h = elim (Option-cases (progress_loop fuel c).0) [
  | inl e ↦ absurd (progress_loop-ne-none fuel c h e)
  | inr found ↦ found
]

module _ (transport : List (ServiceId × RpcMsg) → Option EsbError) where
  -- A request ends: one more round than there are messages is enough fuel for its loop, whatever
  -- comes, and whether or not it could be sent.
  pub progressive_request-ends :
      (c : Client) (req : RpcMsg) (service_id : ServiceId)
      → (r : Ended (Unit {0})) × ((progressive_request transport c req service_id).0 ≡ some r)
  unfolding progressive_request request
  progressive_request-ends c req service_id =
      let c' = record c { sent = (service_id, req) ∷ c.sent } in
      elim (Option-cases (transport ((service_id, req) ∷ c.sent))) [
        | inl e ↦
            let (r, q) = progress_loop-some (suc (waiting c')) c' (omega arith) in
            (r, ground (arith, q))
        | inr (x, e) ↦ (Ended.failed (Error.esb x), ground arith)
      ]

poll_loop-append_one :
    (xs : List PollItem) (x : PollItem) (rest : List (Result EsbError (List PollItem)))
    → poll_loop (xs ++ x ∷ []) rest ≡ record { poll = Ended.returned x; queue = xs; rest = rest }
unfolding poll_loop
poll_loop-append_one xs x [] = rw (poll_loop, pop-append_one xs x)
poll_loop-append_one xs x (ok polls ∷ rest) = rw (poll_loop, pop-append_one xs x)
poll_loop-append_one xs x (err e ∷ rest) = rw (poll_loop, pop-append_one xs x)

pub response-last :
    (c : Client) (earlier : List PollItem) (poll : PollItem)
    (rest : List (Result EsbError (List PollItem)))
    → c.response_queue ≡ []
    → c.incoming ≡ ok (earlier ++ poll ∷ []) ∷ rest
    → response c ≡ (Ended.returned poll, record c { response_queue = earlier; incoming = rest })
unfolding response poll_loop pop
response-last c earlier poll rest q i = ground (arith, poll_loop-append_one earlier poll rest, q, i)

-- What a request shows if its messages come one at a time: the texts in their order, up to the
-- message that ends it.
abbrev pub shown : List PollItem → Option (Ended (Unit {0})) × List String
shown [] = (some Ended.blocked, [])
shown (poll ∷ polls) =
    let (r, texts) = shown polls in
    elim poll.request [
      | BusMsg.rpc (RpcMsg.progress text) ↦ (r, text ∷ texts)
      | BusMsg.rpc (RpcMsg.success none) ↦ (some (Ended.returned tt), "Success" ∷ [])
      | BusMsg.rpc (RpcMsg.success (some info)) ↦
          (some (Ended.returned tt), concat "Success. " info ∷ [])
      | BusMsg.rpc (RpcMsg.failure f) ↦ (some (Ended.failed (failure_error f.code f.info)), [])
      | _ ↦ (some (Ended.failed Error.unexpected_server_response), [])
    ]

abbrev pub one_by_one : List PollItem → List (Result EsbError (List PollItem))
one_by_one [] = []
one_by_one (poll ∷ polls) = ok (poll ∷ []) ∷ one_by_one polls

-- If its messages come one at a time, a request shows the texts of the progress messages in the order
-- in which they came, up to the first message that is none: a success ends it well and is shown last,
-- a failure ends it with the error of the failure, and any other message with the error of an
-- unexpected response; if there is no such message, it waits for more.
pub progress_loop-shown :
    (fuel : ℕ) (c : Client) (polls : List PollItem)
    → c.response_queue ≡ []
    → c.incoming ≡ one_by_one polls
    → length polls < fuel
    → let (r, texts, _) = progress_loop fuel c in (r, texts) ≡ shown polls
unfolding progress_loop response poll_loop pop judge failure_to_error
progress_loop-shown zero c polls q i h = absurd (omega arith)
progress_loop-shown (suc fuel) c [] q i h = ground arith
progress_loop-shown (suc fuel) c (poll ∷ polls) q i h =
    let c' = record c { response_queue = []; incoming = one_by_one polls } in
    ground (
      arith,
      response-last c [] poll (one_by_one polls) q i,
      progress_loop-shown fuel c' polls refl refl,
    )
