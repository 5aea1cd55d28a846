-- ===== src/Connection/Receive/Handled.antt =====
-- Connection.cpp: a request on its way from the socket to a handler.
use dowow_network.Prelude.{
  ℕ, ◌<◌, ◌≤◌, ◌≡◌, refl, sym, ap, ◌∙◌, Bool, true, false, some, List, [], ◌∷◌, ◌++◌, All, length,
  take, drop, arith, done, Outcome, append_assoc, append-nil, length-append, length-drop, take_all,
  take-append-drop, length-take_le, nil_of_length,
}
use dowow_network.Prelude.Bytes.{u32_mod, le_bytes, bytes_eq}
use native.Mathlib.Decide.{dec_lt}
use dowow_network.Request.{Request}
use dowow_network.Request.Wire
use dowow_network.Request.Wire.{length-request, encode_total}
use dowow_network.Connection.State.{Connection, get_handler_named, delete_recv_buffer}
use dowow_network.Connection.Send.Pending.{encode_all}
use dowow_network.Connection.Receive.{
  keep_alive_name, receive, dispatch, pass_through_handlers, refresh_their_na_timer,
}
use dowow_network.Connection.Receive.Partial.{
  gives, IsIdle, IsPartial, next, next-IsPartial, read_more, started, started-IsPartial,
  receive_part, receive_header, receive_last,
}
use dowow_network.Connection.Receive.Feed.{
  piece_of, recv_amount, feed, amount_lem, header_lem, feed_step, receive_piece, next-Same,
  started-Same,
}

-- The object is another but for what it has received of a request, and the timer of the other side.
abbrev pub IsReceiving : Connection → Connection → Type 0
IsReceiving c m = m ≡ record c {
  recv_buffer = m.recv_buffer;
  recv_buffer_length = m.recv_buffer_length;
  recv_buffer_offset = m.recv_buffer_offset;
  is_recv_length = m.is_recv_length;
  their_na_timer = m.their_na_timer;
}

IsReceiving-chain : (c d m : Connection) → IsReceiving c d → IsReceiving d m → IsReceiving c m
IsReceiving-chain c d m e f =
    f
    ∙ ap
        (λ (x : Connection). record x {
          recv_buffer = m.recv_buffer;
          recv_buffer_length = m.recv_buffer_length;
          recv_buffer_offset = m.recv_buffer_offset;
          is_recv_length = m.is_recv_length;
          their_na_timer = m.their_na_timer;
        })
        e

next-IsReceiving : (c : Connection) (bs : List ℕ) → IsReceiving c (next c bs)
unfolding refresh_their_na_timer
next-IsReceiving c bs = refl

started-IsReceiving : (c : Connection) (n : ℕ) → IsReceiving c (started c n)
unfolding refresh_their_na_timer
started-IsReceiving c n = refl

-- The object after a request was given to the handlers.
abbrev pub afterwards : Connection → Connection
afterwards c = refresh_their_na_timer (delete_recv_buffer c)

afterwards-IsIdle : (c : Connection) → IsIdle (afterwards c)
unfolding refresh_their_na_timer delete_recv_buffer
afterwards-IsIdle c = record { at_length = refl; no_bytes = refl; at_start = refl }

module _ (call : ℕ → Connection → Request → Connection) where
  feed_empty : (limits : List ℕ) (c : Connection) → feed call limits [] c ≡ done (true, c, [])
  unfolding feed
  feed_empty [] c = refl
  feed_empty (limit ∷ limits) c = refl

  abbrev pub Dispatches : Connection → Request → Outcome (Bool × Connection × List ℕ) → Type 0
  Dispatches c r o =
      (m : Connection) × (o ≡ done (true, afterwards (dispatch call m r), [])) × IsReceiving c m

  from_next :
      (c d : Connection) (r : Request) (o o' : Outcome (Bool × Connection × List ℕ))
      → o ≡ o'
      → IsReceiving c d
      → Dispatches d r o'
      → Dispatches c r o
  from_next c d r o o' e f (m, ran, same) = (m, e ∙ ran, IsReceiving-chain c d m f same)

  dispatch_body :
      (limits : List ℕ) (c : Connection) (r : Request) (front back : List ℕ)
      → IsPartial c r front
      → front ++ back ≡ Wire.encode r
      → 0 < length back
      → Wire.IsValid r
      → 0 < c.recv_block_size
      → All (λ limit. 4 ≤ limit) limits
      → length back ≤ length limits
      → Dispatches c r (feed call limits back c)
  dispatch_body [] c r front back p whole some_bytes v block arrived enough = absurd (omega arith)
  dispatch_body (limit ∷ limits) c r front back p whole some_bytes v block arrived enough =
      let sizes = ap (λ l. length l) whole in
      let parts = length-append front back in
      let long : length (Wire.encode r) < u32_mod = omega (arith, v.fits, length-request r) in
      let (n, amount, positive, inside, within) =
        amount_lem c r front back limit p (omega arith) long some_bytes (omega (arith, arrived.0))
          block in
      let piece_length = length-take_le n back inside in
      let cut : piece_of limit (recv_amount c) back ≡ take n back = ap (λ k. take k back) amount in
      let left : drop (length (take n back)) back ≡ drop n back =
        ap (λ k. drop k back) piece_length in
      elim (dec_lt n (length back)) [
        | yes more ↦
            let ran : receive call (gives (take n back)) c ≡ done (true, next c (take n back)) =
              receive_piece call c r front (take n back) (omega arith) p (omega arith) long
                (omega arith)
              ∙ receive_part call c r front (take n back) p (omega arith) long in
            from_next c (next c (take n back)) r _ _
              (feed_step call limit limits back (take n back) (drop n back) c (next c (take n back))
                some_bytes cut left ran)
              (next-IsReceiving c (take n back))
              (dispatch_body limits (next c (take n back)) r (front ++ take n back) (drop n back)
                (next-IsPartial c r front (take n back) p (omega arith))
                (append_assoc front (take n back) (drop n back)
                  ∙ ap (λ bs. front ++ bs) (take-append-drop n back)
                  ∙ whole)
                (omega (arith, length-drop {0} n back)) v
                (omega (arith, (next-Same c (take n back)).block)) arrived.1
                (omega (arith, length-drop {0} n back)))
        | no last ↦
            let all : take n back ≡ back = take_all n back (omega arith) in
            let nothing : drop n back ≡ [] =
              nil_of_length (drop n back) (omega (arith, length-drop {0} n back)) in
            let d = afterwards (dispatch call (read_more c (take n back)) r) in
            let ran : receive call (gives (take n back)) c ≡ done (true, d) =
              receive_piece call c r front (take n back) (omega arith) p (omega arith) long
                (omega arith)
              ∙ receive_last call c r front (take n back) p (ap (λ bs. front ++ bs) all ∙ whole)
                  v in
            (
              read_more c (take n back),
              feed_step call limit limits back (take n back) [] c d some_bytes cut (left ∙ nothing)
                    ran
                  ∙ feed_empty limits d,
              refl,
            )
      ]

  -- One request, from its first byte on.
  dispatch_idle :
      (limits : List ℕ) (c : Connection) (r : Request)
      → IsIdle c
      → Wire.IsValid r
      → length (Wire.encode r) ≤ c.recv_buffer_max_length
      → 0 < c.recv_block_size
      → All (λ limit. 4 ≤ limit) limits
      → length (Wire.encode r) ≤ length limits
      → Dispatches c r (feed call limits (Wire.encode r) c)
  dispatch_idle [] c r i v fits block arrived enough = absurd (omega (arith, length-request r))
  dispatch_idle (limit ∷ limits) c r i v fits block arrived enough =
      let size = length-request r in
      let n : ℕ = length (Wire.encode r) in
      let one : encode_all (r ∷ []) ≡ Wire.encode r =
        unfold encode_all in append-nil (Wire.encode r) in
      let (front, cut, left) = header_lem c r [] limit i (arrived.0) in
      from_next c (started c n) r _ _
        (feed_step call limit limits (Wire.encode r) (le_bytes 4 n) (drop 4 (Wire.encode r)) c
          (started c n) (omega arith) (ap (λ bs. piece_of limit (recv_amount c) bs) (sym one) ∙ cut)
          (ap (λ bs. drop (length (le_bytes 4 n)) bs) (sym one)
            ∙ left
            ∙ (unfold encode_all in append-nil (drop 4 (Wire.encode r))))
          (receive_header call c n i (omega arith) (omega (arith, v.fits)) fits))
        (started-IsReceiving c n)
        (dispatch_body limits (started c n) r (le_bytes 4 n) (drop 4 (Wire.encode r))
          (started-IsPartial c r)
          (ap (λ bs. bs ++ drop 4 (Wire.encode r)) (sym front) ∙ take-append-drop 4 (Wire.encode r))
          (omega (arith, length-drop {0} 4 (Wire.encode r))) v
          (omega (arith, (started-Same c n).block)) arrived.1
          (omega (arith, length-drop {0} 4 (Wire.encode r))))

  passed :
      (m : Connection) (r : Request) (h : ℕ)
      → get_handler_named m r.name ≡ some h
      → pass_through_handlers call m r ≡ (true, call h m r)
  unfolding pass_through_handlers
  passed m r h found = rw (pass_through_handlers, found) refl

  dispatch-handled :
      (c m : Connection) (r : Request) (h : ℕ)
      → IsReceiving c m
      → get_handler_named c r.name ≡ some h
      → bytes_eq r.name keep_alive_name ≡ false
      → dispatch call m r ≡ call h m r
  unfolding dispatch
  dispatch-handled c m r h same named told =
      let kept : get_handler_named m r.name ≡ get_handler_named c r.name =
        unfold get_handler_named in ap (λ (x : Connection). get_handler_named x r.name) same in
      let found : get_handler_named m r.name ≡ some h = kept ∙ named in
      rw (told, passed m r h found) refl

  -- The handler gets the request, and nothing of it is left in the buffer.
  pub feed-handled :
      (limits : List ℕ) (c : Connection) (r : Request) (h : ℕ)
      → IsIdle c
      → Wire.IsValid r
      → length (Wire.encode r) ≤ c.recv_buffer_max_length
      → get_handler_named c r.name ≡ some h
      → bytes_eq r.name keep_alive_name ≡ false
      → 0 < c.recv_block_size
      → All (λ limit. 4 ≤ limit) limits
      → length (Wire.encode r) ≤ length limits
      → (m : Connection) × (feed call limits (Wire.encode r) c
          ≡ done (true, afterwards (call h m r), []))
        × IsReceiving c m
        × IsIdle (afterwards (call h m r))
  feed-handled limits c r h i v fits named told block arrived enough =
      let (m, ran, same) = dispatch_idle limits c r i v fits block arrived enough in
      (
        m,
        ran
            ∙ ap (λ (x : Connection). done (true, afterwards x, []))
                (dispatch-handled c m r h same named told),
        same,
        afterwards-IsIdle (call h m r),
      )
