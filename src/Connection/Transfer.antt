-- ===== src/Connection/Transfer.antt =====
-- One end's Send, the other end's Receive and Pull: a request's way from queue to queue.
pub mod Handled
use dowow_network.Prelude.{
  ℕ, zero, suc, ◌<◌, ◌≤◌, ◌≡◌, refl, sym, ap, subst, ◌∙◌, Bool, true, false, Option, none, some,
  List, [], ◌∷◌, ◌++◌, All, length, arith, Outcome, done, ◌>>=◌,
}
use dowow_network.Request.{Request}
use dowow_network.Connection.State.{Connection}
use dowow_network.Connection.Send.Pending.{encode_all, unsent, pending, IsSendable}
use dowow_network.Connection.Send.Stream.{send_rounds}
use dowow_network.Connection.Send.Drain.{Works, send_rounds-drains}
use dowow_network.Connection.Receive.Partial.{IsIdle}
use dowow_network.Connection.Receive.Feed.{feed, IsAccepted}
use dowow_network.Connection.Receive.Requests.{feed-queues}
use dowow_network.Connection.Api.{pull}

-- Calls of `Pull` that do not wait, until one finds the queue empty.
unfoldable pub pulls : ℕ → Connection → List Request × Connection
pulls zero this = ([], this)
pulls (suc n) this =
    let (found, after) = pull (λ c. c) false this in
    elim found [
      | none ↦ ([], after)
      | some req ↦ let (reqs, last) = pulls n after in (req ∷ reqs, last)
    ]

pull_first :
    (c : Connection) (r : Request) (rs : List Request)
    → c.recv_queue ≡ r ∷ rs
    → pull (λ c. c) false c ≡ (some r, record c { recv_queue = rs })
unfolding pull
pull_first c r rs e = ground arith

-- As many calls as there are requests in the queue give these in their order.
pulls-queue :
    (rs : List Request) (c : Connection) → c.recv_queue ≡ rs → (pulls (length rs) c).0 ≡ rs
unfolding pulls
pulls-queue [] c e = refl
pulls-queue (r ∷ rs) c e =
    let first = pull_first c r rs e in
    rw (pulls, first)
      (ap (λ reqs. r ∷ reqs)
        (pulls-queue rs (pull (λ c'. c') false c).1
          (ap (λ (p : Option Request × Connection). p.1.recv_queue) first)))

module _ (call : ℕ → Connection → Request → Connection) where
  -- What the sender's calls put on the socket goes to the receiver's calls.
  unfoldable pub transfer :
      List (ℕ → Option ℕ)
      → List ℕ
      → Connection
      → Connection
      → Outcome (Connection × Bool × Connection × List ℕ)
  unfolding feed
  transfer kernels limits sender receiver = send_rounds kernels sender >>= λ sent.
      feed call limits sent.1 receiver >>= λ taken. done (sent.0, taken.0, taken.1, taken.2)

  -- The sender's buffer and queue are sound and its buffer is empty; the receiver waits for a request
  -- and has none; it accepts each request of the sender's queue: sound, within its size limit, not
  -- named "_" and taken by no handler. Both have blocks that are not empty; the sender's kernel takes
  -- something each time, and of the stream at least four bytes have arrived at each call of `Receive`, or
  -- its rest. Then as many calls on both sides as the requests have bytes bring all of these over: no
  -- call faults or ends the receiver's connection, nothing is left on the way, and as many calls of
  -- `Pull` give the sender's requests in their order, with their names, ids and arguments.
  pub transfer-queue :
      (kernels : List (ℕ → Option ℕ)) (limits : List ℕ) (sender receiver : Connection)
      → IsSendable sender
      → sender.send_buffer ≡ none
      → IsIdle receiver
      → receiver.recv_queue ≡ []
      → 0 < receiver.recv_block_size
      → All (IsAccepted receiver) sender.send_queue
      → All Works kernels
      → All (λ limit. 4 ≤ limit) limits
      → length (encode_all sender.send_queue) ≤ length kernels
      → length (encode_all sender.send_queue) ≤ length limits
      → (s : Connection) × (d : Connection) × (transfer kernels limits sender receiver
          ≡ done (s, true, d, []))
        × (pending s ≡ [])
        × IsIdle d
        × ((pulls (length sender.send_queue) d).0 ≡ sender.send_queue)
  unfolding transfer
  transfer-queue kernels limits sender receiver sound empty idle fresh block accepted works arrived
        calls reads =
      let bytes : pending sender ≡ encode_all sender.send_queue =
        ap (λ o. unsent o sender.send_buffer_offset ++ encode_all sender.send_queue) empty in
      let (s, sent, over) =
        send_rounds-drains kernels sender works sound
          (subst (λ bs. length bs ≤ length kernels) (sym bytes) calls) in
      let (d, taken, queue, waits) =
        feed-queues call limits receiver sender.send_queue idle accepted block arrived reads in
      (
        s,
        d,
        rw (sent, bytes, taken) refl,
        over,
        waits,
        pulls-queue sender.send_queue d (queue ∙ ap (λ rs. rs ++ sender.send_queue) fresh),
      )
