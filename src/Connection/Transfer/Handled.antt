-- ===== src/Connection/Transfer/Handled.antt =====
-- One end's Send, and a handler of the other end.
use dowow_network.Prelude.{
  ℕ, ◌<◌, ◌≤◌, ◌≡◌, refl, sym, ap, ◌∙◌, subst, true, false, Option, none, some, List, [], ◌∷◌, ◌++◌,
  All, length, done, append-nil,
}
use dowow_network.Prelude.Bytes.{bytes_eq}
use dowow_network.Request.{Request}
use dowow_network.Request.Wire
use dowow_network.Connection.State.{Connection, get_handler_named}
use dowow_network.Connection.Send.Pending.{encode_all, unsent, pending, IsSendable}
use dowow_network.Connection.Send.Drain.{Works, send_rounds-drains}
use dowow_network.Connection.Receive.{keep_alive_name}
use dowow_network.Connection.Receive.Partial.{IsIdle}
use dowow_network.Connection.Receive.Handled.{IsReceiving, afterwards, feed-handled}
use dowow_network.Connection.Transfer.{transfer}

-- The way of a request to a handler. The sender's buffer and queue are sound, its buffer is empty and the
-- request is the only one in its queue; the receiver waits for a request, the request is within its size
-- limit and not named "_", and a handler is set for its name. Both have blocks that are not empty; the
-- sender's kernel takes something each time, and of the stream at least four bytes have arrived at each call
-- of `Receive`, or its rest. Then as many calls on both sides as the request has bytes bring it over: no call
-- faults or ends the receiver's connection, nothing is left on the way, and the handler is called with the
-- request that was sent, with its name, id and arguments, on an object that differs from the receiver only
-- in what it has received and in a timer. What the handler leaves stays, but for the receive buffer, which is
-- emptied for the next request, and that timer.
pub transfer-handled :
    (call : ℕ → Connection → Request → Connection) (kernels : List (ℕ → Option ℕ)) (limits : List ℕ)
    (sender receiver : Connection) (r : Request) (h : ℕ)
    → IsSendable sender
    → sender.send_buffer ≡ none
    → sender.send_queue ≡ r ∷ []
    → IsIdle receiver
    → length (Wire.encode r) ≤ receiver.recv_buffer_max_length
    → get_handler_named receiver r.name ≡ some h
    → bytes_eq r.name keep_alive_name ≡ false
    → 0 < receiver.recv_block_size
    → All Works kernels
    → All (λ limit. 4 ≤ limit) limits
    → length (Wire.encode r) ≤ length kernels
    → length (Wire.encode r) ≤ length limits
    → (s : Connection) × (m : Connection) × (transfer call kernels limits sender receiver
        ≡ done (s, true, afterwards (call h m r), []))
      × (pending s ≡ [])
      × IsReceiving receiver m
      × IsIdle (afterwards (call h m r))
unfolding transfer
transfer-handled call kernels limits sender receiver r h sound empty queue idle fits named told
      block works arrived calls reads =
    let one : encode_all (r ∷ []) ≡ Wire.encode r =
      unfold encode_all in append-nil (Wire.encode r) in
    let bytes : pending sender ≡ Wire.encode r =
      ap (λ o. unsent o sender.send_buffer_offset ++ encode_all sender.send_queue) empty
      ∙ ap encode_all queue
      ∙ one in
    let valid : All Wire.IsValid (r ∷ []) = subst (All Wire.IsValid) queue sound.queued in
    let (s, sent, over) =
      send_rounds-drains kernels sender works sound
        (subst (λ bs. length bs ≤ length kernels) (sym bytes) calls) in
    let (m, taken, same, waits) =
      feed-handled call limits receiver r h idle valid.0 fits named told block arrived reads in
    (s, m, rw (sent, bytes, taken) refl, over, same, waits)
