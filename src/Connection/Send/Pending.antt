-- ===== src/Connection/Send/Pending.antt =====
-- What a connection has still to send, and how taking a request from the queue and a write change it.
use dowow_network.Prelude.{
  ℕ, ◌+◌, ◌-◌, ◌%◌, ◌<◌, ◌≤◌, ◌≡◌, refl, sym, ap, subst, ◌∙◌, true, false, not, ◌&&◌, Bool-cases,
  Option-cases, List-cases, inl, inr, Option, none, some, List, [], ◌∷◌, ◌++◌, All, length, take,
  drop, arith, done, ◌==◌, take-length, take-append-drop, length-drop, drop-add, append_assoc,
}
use dowow_network.Prelude.Bytes.{u32_mod}
use dowow_network.Request.{Request}
use dowow_network.Request.Wire
use dowow_network.Request.Wire.{serialize-request, get_size-request, length-request}
use dowow_network.Connection.State.{Connection, delete_send_buffer, has_something_to_send}
use dowow_network.Connection.Send.{pop_send_queue, load_send_buffer, after_send}

-- The formats of the requests, one behind the other.
unfoldable pub encode_all : List Request → List ℕ
encode_all [] = []
encode_all (r ∷ rs) = Wire.encode r ++ encode_all rs

-- What of a buffer is still to be sent.
abbrev pub unsent : Option (List ℕ) → ℕ → List ℕ
unsent none offset = []
unsent (some buf) offset = drop offset buf

-- All that is still to be sent: the rest of the buffer, then the queue.
abbrev pub pending : Connection → List ℕ
pending c = unsent c.send_buffer c.send_buffer_offset ++ encode_all c.send_queue

abbrev pub IsLoaded : Option (List ℕ) → ℕ → ℕ → Type 0
IsLoaded none len offset = (len ≡ 0) × (offset ≡ 0)
IsLoaded (some buf) len offset = (len ≡ length buf) × (offset < len) × (len < u32_mod)

-- The buffer has its length and something left to send, the requests are sound, and a block is not
-- empty.
pub record IsSendable (c : Connection) : Type 0 where
  pub loaded : IsLoaded c.send_buffer c.send_buffer_length c.send_buffer_offset
  pub queued : All Wire.IsValid c.send_queue
  pub block : 0 < c.send_block_size

-- The object after the queue's first request became the buffer.
abbrev pub popped : Connection → Request → List Request → Connection
popped c req rest = record c {
  send_queue = rest;
  send_buffer = some (Wire.encode req);
  send_buffer_length = length (Wire.encode req);
  send_buffer_offset = 0;
}

pub pop_lem :
    (c : Connection) (req : Request) (rest : List Request)
    → Wire.IsValid req
    → c.send_queue ≡ req ∷ rest
    → pop_send_queue c ≡ done (true, popped c req rest)
unfolding pop_send_queue
pop_lem c req rest h e =
    rw (e, pop_send_queue, serialize-request req h, get_size-request req h) refl

pop_empty : (c : Connection) → c.send_queue ≡ [] → pop_send_queue c ≡ done (false, c)
unfolding pop_send_queue
pop_empty c e = ground arith

pub pending-popped :
    (c : Connection) (req : Request) (rest : List Request)
    → c.send_buffer ≡ none
    → c.send_queue ≡ req ∷ rest
    → pending (popped c req rest) ≡ pending c
pending-popped c req rest e q = sym (
    ap (λ o. unsent o c.send_buffer_offset ++ encode_all c.send_queue) e
    ∙ ap encode_all q
    ∙ (unfold encode_all in refl))

pub popped-IsSendable :
    (c : Connection) (req : Request) (rest : List Request)
    → IsSendable c
    → All Wire.IsValid (req ∷ rest)
    → IsSendable (popped c req rest)
popped-IsSendable c req rest s sound = record {
  loaded =
      (refl, omega (arith, length-request req), omega (arith, length-request req, (sound.0).fits));
  queued = sound.1;
  block = s.block;
}

pub load_lem :
    (c : Connection)
    → IsSendable c
    → (c' : Connection) × (load_send_buffer c ≡ done c') × (pending c' ≡ pending c) × IsSendable c'
unfolding load_send_buffer
load_lem c s = elim (Option-cases c.send_buffer) [
  | inr (buf, e) ↦ (c, ground arith, refl, s)
  | inl e ↦ elim (List-cases c.send_queue) [
    | inl q ↦ (c, ground (arith, pop_empty c q), refl, s)
    | inr (req, rest, q) ↦
        let sound : All Wire.IsValid (req ∷ rest) = subst (All Wire.IsValid) q s.queued in
        (
          popped c req rest,
          ground (arith, pop_lem c req rest (sound.0) q),
          pending-popped c req rest e q,
          popped-IsSendable c req rest s sound,
        )
  ]
]

-- The fields that `pending` and `IsSendable` read, after a write that did and that did not finish
-- the buffer.
pub record Fields (d : Connection) (o : Option (List ℕ)) (len offset : ℕ) (c : Connection)
    : Type 0 where
  buffer : d.send_buffer ≡ o
  size : d.send_buffer_length ≡ len
  place : d.send_buffer_offset ≡ offset
  queue : d.send_queue ≡ c.send_queue
  block : d.send_block_size ≡ c.send_block_size

pub after_send_all :
    (c : Connection) (n : ℕ)
    → ((c.send_buffer_offset + n) % u32_mod == c.send_buffer_length) ≡ true
    → Fields (after_send c n).1 none 0 0 c
unfolding after_send delete_send_buffer
after_send_all c n e =
    rw e
      (elim (Bool-cases (
        c.is_disconnecting
        && not (
            has_something_to_send (
              delete_send_buffer
                (record c { send_buffer_offset = (c.send_buffer_offset + n) % u32_mod }))))) [
                  | inl t ↦ rw t (record {
                    buffer = refl;
                    size = refl;
                    place = refl;
                    queue = refl;
                    block = refl;
                  })
                  | inr f ↦ rw f (record {
                    buffer = refl;
                    size = refl;
                    place = refl;
                    queue = refl;
                    block = refl;
                  })
                ])

after_send_part :
    (c : Connection) (n : ℕ)
    → ((c.send_buffer_offset + n) % u32_mod == c.send_buffer_length) ≡ false
    → Fields
        (after_send c n).1
        c.send_buffer
        c.send_buffer_length
        ((c.send_buffer_offset + n) % u32_mod)
        c
unfolding after_send
after_send_part c n e =
    rw e (record { buffer = refl; size = refl; place = refl; queue = refl; block = refl })

pub Fields-pending :
    {d c : Connection} {o : Option (List ℕ)} {len offset : ℕ}
    → Fields d o len offset c
    → pending d ≡ unsent o offset ++ encode_all c.send_queue
Fields-pending {o = o} f = cc

Fields-IsSendable :
    {d c : Connection} {o : Option (List ℕ)} {len offset : ℕ}
    → Fields d o len offset c
    → IsLoaded o len offset
    → IsSendable c
    → IsSendable d
Fields-IsSendable f l s = record {
  loaded = rw (f.buffer, f.size, f.place) l;
  queued = subst (All Wire.IsValid) (sym f.queue) s.queued;
  block = omega arith;
}

pending_buffer :
    (c : Connection) (buf : List ℕ)
    → c.send_buffer ≡ some buf
    → pending c ≡ drop c.send_buffer_offset buf ++ encode_all c.send_queue
pending_buffer c buf e = ap (λ o. unsent o c.send_buffer_offset ++ encode_all c.send_queue) e

-- What a successful write of `n` bytes leaves.
pub after_send_lem :
    (c : Connection) (buf : List ℕ) (n : ℕ)
    → IsSendable c
    → c.send_buffer ≡ some buf
    → 0 < n
    → n ≤ length buf - c.send_buffer_offset
    → (take n (drop c.send_buffer_offset buf) ++ pending (after_send c n).1 ≡ pending c)
      × IsSendable (after_send c n).1
after_send_lem c buf n s e some_bytes room =
    elim (Bool-cases ((c.send_buffer_offset + n) % u32_mod == c.send_buffer_length)) [
      | inl all ↦
          let whole : n ≡ length (drop c.send_buffer_offset buf) =
            ground (arith, loaded, length-drop {0} c.send_buffer_offset buf) in
          (
            rw (Fields-pending (after_send_all c n all), pending_buffer c buf e)
                (ap (λ bs. bs ++ encode_all c.send_queue)
                  (ap (λ k. take k (drop c.send_buffer_offset buf)) whole
                    ∙ take-length (drop c.send_buffer_offset buf))),
            Fields-IsSendable (after_send_all c n all) (refl, refl) s,
          )
      | inr part ↦ (
        rw
            (
              Fields-pending (after_send_part c n part),
              pending_buffer c buf e,
              e,
              next,
              drop-add c.send_buffer_offset n buf,
              ← append_assoc,
              take-append-drop n (drop c.send_buffer_offset buf),
            )
            refl,
        Fields-IsSendable (after_send_part c n part)
            (rw (e, next) (loaded.0, ground arith, loaded.2)) s,
      )
    ]
  where
    loaded : IsLoaded (some buf) c.send_buffer_length c.send_buffer_offset
    loaded = subst (λ o. IsLoaded o c.send_buffer_length c.send_buffer_offset) e s.loaded

    next : (c.send_buffer_offset + n) % u32_mod ≡ c.send_buffer_offset + n
    next = omega (arith, loaded)
