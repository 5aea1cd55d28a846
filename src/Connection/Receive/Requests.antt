-- ===== src/Connection/Receive/Requests.antt =====
-- A whole stream of requests is taken, however it is cut.
use dowow_network.Prelude.{
  ℕ, ◌+◌, ◌<◌, ◌≤◌, ◌≡◌, sym, ap, ◌∙◌, true, List, [], ◌∷◌, ◌++◌, All, length, take, drop, arith,
  done, append_assoc, append-nil, length-append, length-drop, take-append_le, drop-append_le,
  take_all, take-append-drop, length-take_le, nil_of_length,
}
use dowow_network.Prelude.Bytes.{u32_mod, le_bytes}
use native.Mathlib.Decide.{dec_lt}
use dowow_network.Request.{Request}
use dowow_network.Request.Wire
use dowow_network.Request.Wire.{length-request, encode_total}
use dowow_network.Connection.State.{Connection}
use dowow_network.Connection.Send.Pending.{encode_all}
use dowow_network.Connection.Receive.{receive}
use dowow_network.Connection.Receive.Partial.{
  gives, IsIdle, IsPartial, next, next-IsPartial, next_queue, started, started-IsPartial,
  receive_part, receive_header,
}
use dowow_network.Connection.Receive.Feed.{
  piece_of, recv_amount, feed, IsAccepted, IsAccepted-Same, All-Same, QueuesAll, amount_lem,
  length-encode_all, header_lem, taken, taken-Same, next-Same, started-Same, taken-IsIdle,
  taken_queue, started_queue, after_step, after_taken, feed_step, receive_piece, receive-taken,
  feed_nil,
}

module _ (call : ℕ → Connection → Request → Connection) where
  mutual
    feed_body :
        (limits : List ℕ) (c : Connection) (r : Request) (front back : List ℕ) (rs : List Request)
        → IsPartial c r front
        → front ++ back ≡ Wire.encode r
        → 0 < length back
        → IsAccepted c r
        → All (IsAccepted c) rs
        → 0 < c.recv_block_size
        → All (λ limit. 4 ≤ limit) limits
        → length back + length (encode_all rs) ≤ length limits
        → QueuesAll c (r ∷ rs) (feed call limits (back ++ encode_all rs) c)
    feed_body [] c r front back rs p whole some_bytes a as' block arrived enough =
        absurd (omega arith)
    feed_body (limit ∷ limits) c r front back rs p whole some_bytes a as' block arrived enough =
        let sizes = ap (λ l. length l) whole in
        let parts = length-append front back in
        let long : length (Wire.encode r) < u32_mod =
          omega (arith, a.valid.fits, length-request r) in
        let (n, amount, positive, inside, within) =
          amount_lem c r front back limit p (omega arith) long some_bytes (omega (arith, arrived.0))
            block in
        let piece_length = length-take_le n back inside in
        let cut : piece_of limit (recv_amount c) (back ++ encode_all rs) ≡ take n back =
          ap (λ k. take k (back ++ encode_all rs)) amount
          ∙ take-append_le n back (encode_all rs) inside in
        let left : drop (length (take n back)) (back ++ encode_all rs)
            ≡ drop n back ++ encode_all rs =
          ap (λ k. drop k (back ++ encode_all rs)) piece_length
          ∙ drop-append_le n back (encode_all rs) inside in
        let stream : 0 < length (back ++ encode_all rs) =
          omega (arith, length-append back (encode_all rs)) in
        elim (dec_lt n (length back)) [
          | yes more ↦
              let ran : receive call (gives (take n back)) c ≡ done (true, next c (take n back)) =
                receive_piece call c r front (take n back) (omega arith) p (omega arith) long
                  (omega arith)
                ∙ receive_part call c r front (take n back) p (omega arith) long in
              after_step c (next c (take n back)) (r ∷ rs) _ _
                (feed_step call limit limits _ (take n back) _ c (next c (take n back)) stream cut
                  left ran)
                (next_queue c (take n back))
                (feed_body limits (next c (take n back)) r (front ++ take n back) (drop n back) rs
                  (next-IsPartial c r front (take n back) p (omega arith))
                  (append_assoc front (take n back) (drop n back)
                    ∙ ap (λ bs. front ++ bs) (take-append-drop n back)
                    ∙ whole)
                  (omega (arith, length-drop {0} n back))
                  (IsAccepted-Same (next-Same c (take n back)) r a)
                  (All-Same (next-Same c (take n back)) rs as')
                  (omega (arith, (next-Same c (take n back)).block)) arrived.1
                  (omega (arith, length-drop {0} n back)))
          | no last ↦
              let all : take n back ≡ back = take_all n back (omega arith) in
              let nothing : drop n back ≡ [] =
                nil_of_length (drop n back) (omega (arith, length-drop {0} n back)) in
              let over : drop (length (take n back)) (back ++ encode_all rs) ≡ encode_all rs =
                left ∙ ap (λ bs. bs ++ encode_all rs) nothing in
              let ran : receive call (gives (take n back)) c
                  ≡ done (true, taken c (take n back) r) =
                receive-taken call c r front (take n back) (omega arith) p a
                  (ap (λ bs. front ++ bs) all ∙ whole) (omega arith) in
              after_taken c (taken c (take n back) r) r rs _ _
                (feed_step call limit limits _ (take n back) _ c (taken c (take n back) r) stream
                  cut over ran)
                (taken_queue c (take n back) r)
                (feed_idle limits (taken c (take n back) r) rs (taken-IsIdle c (take n back) r)
                  (All-Same (taken-Same c (take n back) r) rs as')
                  (omega (arith, (taken-Same c (take n back) r).block)) arrived.1 (omega arith))
        ]

    feed_idle :
        (limits : List ℕ) (c : Connection) (rs : List Request)
        → IsIdle c
        → All (IsAccepted c) rs
        → 0 < c.recv_block_size
        → All (λ limit. 4 ≤ limit) limits
        → length (encode_all rs) ≤ length limits
        → QueuesAll c rs (feed call limits (encode_all rs) c)
    feed_idle limits c [] i as' block arrived enough =
        (c, feed_nil call limits c, sym (append-nil c.recv_queue), i)
    feed_idle [] c (r ∷ rs) i as' block arrived enough =
        absurd (omega (arith, length-encode_all r rs, length-request r))
    feed_idle (limit ∷ limits) c (r ∷ rs) i as' block arrived enough =
        let a = as'.0 in
        let size = length-request r in
        let n : ℕ = length (Wire.encode r) in
        let fits = a.valid.fits in
        let (front, cut, left) = header_lem c r rs limit i (arrived.0) in
        let total = length-encode_all r rs in
        after_step c (started c n) (r ∷ rs) _ _
          (feed_step call limit limits _ (le_bytes 4 n) _ c (started c n) (omega arith) cut left
            (receive_header call c n i (omega arith) (omega arith) a.fits))
          (started_queue c n)
          (feed_body limits (started c n) r (le_bytes 4 n) (drop 4 (Wire.encode r)) rs
            (started-IsPartial c r)
            (ap (λ bs. bs ++ drop 4 (Wire.encode r)) (sym front)
              ∙ take-append-drop 4 (Wire.encode r))
            (omega (arith, length-drop {0} 4 (Wire.encode r)))
            (IsAccepted-Same (started-Same c n) r a) (All-Same (started-Same c n) rs as'.1)
            (omega (arith, (started-Same c n).block)) arrived.1
            (omega (arith, length-drop {0} 4 (Wire.encode r))))

  -- The requests that `encode_all` writes one behind the other arrive at an object that waits for one,
  -- each sound, within the size limit, not named "_" and taken by no handler. However the kernel cuts
  -- the stream, if at least four bytes have arrived whenever `Receive` is called (or the rest of the
  -- stream), as many calls as it has bytes take all of it; no call faults or ends the connection, and
  -- the requests then stand at the end of the queue in their order.
  pub feed-queues :
      (limits : List ℕ) (c : Connection) (rs : List Request)
      → IsIdle c
      → All (IsAccepted c) rs
      → 0 < c.recv_block_size
      → All (λ limit. 4 ≤ limit) limits
      → length (encode_all rs) ≤ length limits
      → QueuesAll c rs (feed call limits (encode_all rs) c)
  feed-queues = feed_idle
