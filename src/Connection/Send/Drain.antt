-- ===== src/Connection/Send/Drain.antt =====
-- Calls of `Send` on a socket that takes something each time: all that is pending goes out.
use dowow_network.Prelude.{
  ℕ, ◌+◌, ◌-◌, ◌%◌, ◌<◌, ◌≤◌, ◌≡◌, ◌⊎◌, refl, sym, ap, subst, ◌∙◌, Bool, true, false, Bool-cases,
  Option-cases, List-cases, inl, inr, Option, none, some, List, [], ◌∷◌, ◌++◌, All, length,
  length-append, length-drop, take, drop, arith, done, ltb, ◌==◌, if◌then◌else◌, nil_of_length,
  append-nil, length-take_le,
}
use dowow_network.Prelude.Bytes.{u32_mod, read_bytes-take}
use dowow_network.Request.{Request}
use dowow_network.Request.Wire
use dowow_network.Connection.State.{
  Connection, delete_send_buffer, has_something_to_send, set_timer_fd_timeout,
}
use dowow_network.Connection.Send.{
  load_send_buffer, pop_send_queue, after_send, send_buffered, send_loaded, send,
}
use dowow_network.Connection.Send.Pending.{
  encode_all, unsent, pending, IsSendable, IsLoaded, popped, pop_lem, popped-IsSendable,
  pending-popped, after_send_lem, after_send_all, Fields-pending,
}
use dowow_network.Connection.Send.Stream.{send_rounds}

-- Of a block that is not empty the kernel takes some bytes, and no more than it is given.
abbrev pub Works : (ℕ → Option ℕ) → Type 0
Works kernel = (asked : ℕ) → 0 < asked → (n : ℕ) × (kernel asked ≡ some n) × (0 < n) × (n ≤ asked)

-- A call's result: what it sent and what is then pending are what was pending, something is sent if
-- anything was pending, and the connection is over only where nothing is pending any more.
record Step (c : Connection) (r : Bool × Connection × List ℕ) : Type 0 where
  same : r.2 ++ pending r.1 ≡ pending c
  sound : IsSendable r.1
  moves : (0 < length r.2) ⊎ (pending c ≡ [])
  ends : r.0 ≡ false → pending r.1 ≡ []

goes_on_part :
    (c : Connection) (n : ℕ)
    → ((c.send_buffer_offset + n) % u32_mod == c.send_buffer_length) ≡ false
    → (after_send c n).0 ≡ true
unfolding after_send
goes_on_part c n e = rw e refl

goes_on_queue :
    (c : Connection) (n : ℕ) (r : Request) (rs : List Request)
    → ((c.send_buffer_offset + n) % u32_mod == c.send_buffer_length) ≡ true
    → c.send_queue ≡ r ∷ rs
    → (after_send c n).0 ≡ true
unfolding after_send delete_send_buffer has_something_to_send
goes_on_queue c n r rs e q = ground arith

-- A call ends the connection only where nothing is pending any more.
after_send-ends :
    (c : Connection) (n : ℕ) → (after_send c n).0 ≡ false → pending (after_send c n).1 ≡ []
after_send-ends c n over =
    elim (Bool-cases ((c.send_buffer_offset + n) % u32_mod == c.send_buffer_length)) [
      | inr part ↦ cc (goes_on_part c n part)
      | inl all ↦ elim (List-cases c.send_queue) [
        | inr (r, rs, q) ↦ cc (goes_on_queue c n r rs all q)
        | inl q ↦
            Fields-pending (after_send_all c n all) ∙ ap encode_all q ∙ (unfold encode_all in refl)
      ]
    ]

-- What `Send` asks for: the rest of the buffer, or a block of it.
abbrev asked_of : Connection → ℕ
asked_of c =
    let left_to_send : ℕ = (c.send_buffer_length + u32_mod - c.send_buffer_offset) % u32_mod in
    if ltb left_to_send c.send_block_size then left_to_send else c.send_block_size

loaded_lem :
    (c : Connection) (buf : List ℕ)
    → IsSendable c
    → c.send_buffer ≡ some buf
    → IsLoaded (some buf) c.send_buffer_length c.send_buffer_offset
loaded_lem c buf s e = subst (λ o. IsLoaded o c.send_buffer_length c.send_buffer_offset) e s.loaded

asked_of_lem :
    (c : Connection) (buf : List ℕ)
    → IsSendable c
    → c.send_buffer ≡ some buf
    → (0 < asked_of c) × (asked_of c ≤ length buf - c.send_buffer_offset)
asked_of_lem c buf s e =
    let loaded = loaded_lem c buf s e in
    let block = s.block in (ground (arith, loaded, block), ground (arith, loaded, block))

module _ (kernel : ℕ → Option ℕ) where
  took-Step :
      (c : Connection) (buf : List ℕ) (n : ℕ)
      → IsSendable c
      → c.send_buffer ≡ some buf
      → kernel (asked_of c) ≡ some n
      → 0 < n
      → n ≤ length buf - c.send_buffer_offset
      → (r : Bool × Connection × List ℕ) × (send_buffered kernel c buf ≡ done r) × Step c r
  unfolding send_buffered
  took-Step c buf n s e took some_bytes room =
      let left = after_send_lem c buf n s e some_bytes room in
      let nonzero : (n == 0) ≡ false = ground arith in
      let inside : n ≤ length (drop c.send_buffer_offset buf) =
        omega (arith, length-drop {0} c.send_buffer_offset buf) in
      (
        ((after_send c n).0, (after_send c n).1, take n (drop c.send_buffer_offset buf)),
        rw (took, send_buffered, nonzero, read_bytes-take (drop c.send_buffer_offset buf) n inside)
            refl,
        record {
          same = left.0;
          sound = left.1;
          moves = inl (omega (arith, length-take_le n (drop c.send_buffer_offset buf) inside));
          ends = after_send-ends c n;
        },
      )

  buffered-Step :
      (c : Connection) (buf : List ℕ)
      → Works kernel
      → IsSendable c
      → c.send_buffer ≡ some buf
      → (r : Bool × Connection × List ℕ) × (send_loaded kernel c ≡ done r) × Step c r
  unfolding send_loaded
  buffered-Step c buf works s e =
      let ask = asked_of_lem c buf s e in
      let took = works (asked_of c) ask.0 in
      let (r, ran, step) =
        took-Step c buf took.0 s e took.1 took.2 (omega (arith, took.3, ask.1)) in
      (r, rw (e, send_loaded) ran, step)

  send_popped :
      (c : Connection) (req : Request) (rest : List Request)
      → Works kernel
      → IsSendable c
      → c.send_buffer ≡ none
      → c.send_queue ≡ req ∷ rest
      → (r : Bool × Connection × List ℕ) × (send kernel c ≡ done r) × Step c r
  unfolding send load_send_buffer
  send_popped c req rest works s e q =
      let sound : All Wire.IsValid (req ∷ rest) = subst (All Wire.IsValid) q s.queued in
      let popped_sound = popped-IsSendable c req rest s sound in
      let (r, ran, step) =
        buffered-Step (popped c req rest) (Wire.encode req) works popped_sound refl in
      let load : load_send_buffer c ≡ done (popped c req rest) =
        ground (arith, pop_lem c req rest (sound.0) q) in
      let same = pending-popped c req rest e q in
      (
        r,
        rw load ran,
        record {
          same = step.same ∙ same;
          sound = step.sound;
          moves = elim step.moves [
            | inl some_bytes ↦ inl some_bytes
            | inr nothing ↦ inr (sym same ∙ nothing)
          ];
          ends = step.ends;
        },
      )

  send_idle :
      (c : Connection)
      → IsSendable c
      → c.send_buffer ≡ none
      → c.send_queue ≡ []
      → (r : Bool × Connection × List ℕ) × (send kernel c ≡ done r) × Step c r
  unfolding send load_send_buffer send_loaded pop_send_queue
  send_idle c s e q = (
    (true, record c { our_sa_timer = set_timer_fd_timeout c.our_sa_timer c.our_sa_interval }, []),
    ground arith,
    record {
      same = refl;
      sound = record { loaded = s.loaded; queued = s.queued; block = s.block };
      moves = inr (
          ap (λ o. unsent o c.send_buffer_offset ++ encode_all c.send_queue) e
          ∙ ap encode_all q
          ∙ (unfold encode_all in refl));
      ends = λ over. cc;
    },
  )

  send-Step :
      (c : Connection)
      → Works kernel
      → IsSendable c
      → (r : Bool × Connection × List ℕ) × (send kernel c ≡ done r) × Step c r
  send-Step c works s = elim (Option-cases c.send_buffer) [
    | inr (buf, e) ↦
        let (r, ran, step) = buffered-Step c buf works s e in
        let load : load_send_buffer c ≡ done c = unfold load_send_buffer in ground arith in
        (r, unfold send in rw load ran, step)
    | inl e ↦ elim (List-cases c.send_queue) [
      | inl q ↦ send_idle c s e q
      | inr (req, rest, q) ↦ send_popped c req rest works s e q
    ]
  ]

Step-length :
    {c : Connection} {r : Bool × Connection × List ℕ}
    → Step c r
    → length (pending c) ≡ length r.2 + length (pending r.1)
Step-length {r = r} step = sym (ap (λ bs. length bs) step.same) ∙ length-append r.2 (pending r.1)

Step-shorter :
    {c : Connection} {r : Bool × Connection × List ℕ} (n : ℕ)
    → Step c r
    → length (pending c) ≤ n + 1
    → length (pending r.1) ≤ n
Step-shorter n step few = elim step.moves [
  | inl some_bytes ↦ omega (arith, Step-length step)
  | inr nothing ↦ omega (arith, Step-length step, ap (λ bs. length bs) nothing)
]

-- An object whose buffer has its length and something left to send, whose queued requests are
-- sound and whose blocks are not empty, on a socket that takes something each time, and no more
-- than it is given: as many calls as bytes are pending put all of these on the socket, in their
-- order, also where a call ends the connection, and then nothing is pending.
pub send_rounds-drains :
    (kernels : List (ℕ → Option ℕ)) (c : Connection)
    → All Works kernels
    → IsSendable c
    → length (pending c) ≤ length kernels
    → (d : Connection) × (send_rounds kernels c ≡ done (d, pending c)) × (pending d ≡ [])
unfolding send_rounds
send_rounds-drains [] c works s few =
    let nothing = nil_of_length (pending c) (omega arith) in
    (c, ap (λ bs. done (c, bs)) (sym nothing), nothing)
send_rounds-drains (kernel ∷ kernels) c works s few =
    let (r, ran, step) = send-Step kernel c works.0 s in
    let (d, rest, nothing) =
      send_rounds-drains kernels r.1 works.1 step.sound
        (Step-shorter (length kernels) step (omega arith)) in
    elim (Bool-cases r.0) [
      | inl alive ↦ (d, rw (ran, alive, rest) (ap (λ bs. done (d, bs)) step.same), nothing)
      | inr over ↦
          let last = step.ends over in
          (
            r.1,
            rw (ran, over)
                (ap (λ bs. done (r.1, bs))
                  (sym (append-nil r.2) ∙ ap (λ bs. r.2 ++ bs) (sym last) ∙ step.same)),
            last,
          )
    ]
