-- ===== src/Connection/Api/Ids.antt =====
-- Connection.cpp: the ids of the requests that one side numbers.
use dowow_network.Prelude.{
  ℕ, ◌+◌, ◌%◌, ◌<◌, ◌≡◌, refl, ◌∙◌, true, false, List, [], ◌∷◌, ◌++◌, All, arith, Outcome, done,
  ◌>>=◌, if◌then◌else◌, append_assoc, append-nil, sym, ◌≢◌,
}
use dowow_network.Prelude.Bytes.{u32_mod}
use dowow_network.Request
use dowow_network.Request.{Request}
use dowow_network.Connection.State
use dowow_network.Connection.State.{
  Connection, is_connected, is_disconnecting_now, set_even_request_ids_part,
}
use dowow_network.Connection.Api.{
  SocketDomain, af_unix, af_inet, af_other, of_fd, client_connected, enqueue, push,
}

-- The next id lies in the side's half of the ids.
abbrev pub OnItsSide : Connection → Type 0
OnItsSide c =
    (c.free_request_id % 2 ≡ (if c.is_even_request_parts then 0 else 1))
    × (c.free_request_id < u32_mod)

-- Requests pushed one after the other, each with a new id.
unfoldable pub push_rounds : List Request → Connection → Outcome Connection
push_rounds [] this = done this
push_rounds (req ∷ reqs) this = push this req false true >>= λ c. push_rounds reqs c

-- The requests as they are numbered from an id on.
unfoldable pub number_from : ℕ → List Request → List Request
number_from id [] = []
number_from id (r ∷ rs) = record r { id = id } ∷ number_from ((id + 2) % u32_mod) rs

number_from-side :
    (half id : ℕ) (rs : List Request)
    → id < u32_mod
    → id % 2 ≡ half
    → All (λ (r : Request). r.id % 2 ≡ half) (number_from id rs)
unfolding number_from
number_from-side half id [] h e = tt
number_from-side half id (r ∷ rs) h e =
    (e, number_from-side half ((id + 2) % u32_mod) rs (omega arith) (omega arith))

push_lem :
    (c : Connection) (req : Request)
    → is_connected c ≡ true
    → c.is_disconnecting ≡ false
    → push c req false true ≡ done (enqueue c req true)
unfolding push is_disconnecting_now
push_lem c req connected alive = ground arith

still_connected :
    (c : Connection) (r : Request) → is_connected c ≡ true → is_connected (enqueue c r true) ≡ true
unfolding enqueue is_connected
still_connected c r h = h

still_alive :
    (c : Connection) (r : Request)
    → c.is_disconnecting ≡ false
    → (enqueue c r true).is_disconnecting ≡ false
unfolding enqueue
still_alive c r h = h

next_side : (c : Connection) (r : Request) → OnItsSide c → OnItsSide (enqueue c r true)
unfolding enqueue
next_side c r side = (omega arith, omega arith)

next_queue :
    (c : Connection) (r : Request) (rs : List Request)
    → (enqueue c r true).send_queue ++ number_from (enqueue c r true).free_request_id rs
      ≡ c.send_queue ++ number_from c.free_request_id (r ∷ rs)
unfolding enqueue number_from Request.set_id
next_queue c r rs = append_assoc c.send_queue (Request.set_id r c.free_request_id ∷ []) _

-- On an object that is connected and not disconnecting, requests that are pushed with new ids go to
-- the end of the send queue in their order; each has an id of the side's half, two more than the one
-- before it and 32 bits wide, and the next id lies in that half too.
pub push_rounds-side :
    (rs : List Request) (c : Connection)
    → is_connected c ≡ true
    → c.is_disconnecting ≡ false
    → OnItsSide c
    → (d : Connection) × (push_rounds rs c ≡ done d)
      × (d.send_queue ≡ c.send_queue ++ number_from c.free_request_id rs)
      × All
          (λ (r : Request). r.id % 2 ≡ (if c.is_even_request_parts then 0 else 1))
          (number_from c.free_request_id rs)
      × OnItsSide d
unfolding push_rounds
push_rounds-side [] c connected alive side =
    (c, refl, unfold number_from in sym (append-nil c.send_queue), unfold number_from in tt, side)
push_rounds-side (r ∷ rs) c connected alive side =
    let numbered = number_from-side _ c.free_request_id (r ∷ rs) side.1 side.0 in
    let (d, ran, queue, ids, last) =
      push_rounds-side rs (enqueue c r true) (still_connected c r connected) (still_alive c r alive)
        (next_side c r side) in
    (d, rw (push_lem c r connected alive) ran, queue ∙ next_queue c r rs, numbered, last)

-- On a UNIX or TCP socket the constructor over the socket, which the server uses, and the client's
-- thread, for a client of any state that is not connected, leave objects that are connected and whose
-- next id is 2: both sides of a connection take the even half.
pub sides-same_half :
    (client : Connection) (domain : SocketDomain)
    → is_connected client ≡ false
    → domain ≢ af_other
    → (is_connected (of_fd domain) ≡ true)
      × (is_connected (client_connected client domain) ≡ true)
      × ((of_fd domain).free_request_id ≡ 2)
      × ((client_connected client domain).free_request_id ≡ 2)
      × OnItsSide (of_fd domain)
      × OnItsSide (client_connected client domain)
unfolding of_fd client_connected is_connected set_even_request_ids_part State.init
sides-same_half client af_unix off h = ground arith
sides-same_half client af_inet off h = ground arith
sides-same_half client af_other off h = absurd (h refl)
