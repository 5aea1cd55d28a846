-- ===== src/Server.antt =====
-- Server.cpp and Server.hpp: accepting clients and removing them. What the kernel answers and what a
-- handler of the library's user does to the object are arguments.
pub mod Start
pub mod Limit
use dowow_network.Prelude.{
  ℕ, ◌+◌, ◌%◌, Bool, true, false, not, ◌&&◌, ◌||◌, Option, none, some, List, [], ◌∷◌, ◌++◌, length,
  ltb, ◌==◌, if◌then◌else◌, Outcome, done, fault, ◌>>=◌,
}
use dowow_network.Prelude.Int.{ℤ, pos, negsuc}
use dowow_network.Prelude.Bytes.{u32_mod, bytes_eq}
use dowow_network.Connection.State.{Connection, write_event_fd, increase_refs}
use dowow_network.Connection.Api.{SocketDomain, of_fd}

-- A connection with its public fields.
pub record Accepted : Type 0 where
  pub id : ℕ
  pub tag : List ℕ
  pub connection : Connection

-- A descriptor is its number and an event its counter; `none` is -1. A handler is the number of the
-- function that the pointer points to, `none` the null pointer.
pub record Server : Type 0 where
  pub socket_fd : Option ℕ
  pub connections : List Accepted
  pub max_connections : ℤ
  pub socket_type : ℕ
  pub unix_socket_path : List ℕ
  pub tcp_socket_address : ℕ
  pub tcp_socket_port : ℕ
  pub stopped_event : Option ℕ
  pub to_stop_event : Option ℕ
  pub connected_handler : Option ℕ
  pub disconnected_handler : Option ℕ

unfoldable pub set_max_connections : Server → ℤ → Server
set_max_connections this c = record this { max_connections = c }

unfoldable pub set_connected_handler : Server → Option ℕ → Server
set_connected_handler this handler = record this { connected_handler = handler }

unfoldable pub set_disconnected_handler : Server → Option ℕ → Server
set_disconnected_handler this handler = record this { disconnected_handler = handler }

unfoldable pub get_max_connections : Server → ℤ
get_max_connections this = this.max_connections

unfoldable pub get_connected_handler : Server → Option ℕ
get_connected_handler this = this.connected_handler

unfoldable pub get_disconnected_handler : Server → Option ℕ
get_disconnected_handler this = this.disconnected_handler

unfoldable pub get_unix_path : Server → List ℕ
get_unix_path this = this.unix_socket_path

unfoldable pub get_tcp_ip : Server → ℕ
get_tcp_ip this = this.tcp_socket_address

-- `inet_ntoa` is the C library's.
unfoldable pub get_tcp_ip_string : (ℕ → List ℕ) → Server → List ℕ
get_tcp_ip_string inet_ntoa this = inet_ntoa this.tcp_socket_address

unfoldable pub get_tcp_port : Server → ℕ
get_tcp_port this = this.tcp_socket_port

unfoldable pub get_type : Server → ℕ
get_type this = this.socket_type

-- The first connection that passes the test, under a new reference, and the list with it.
unfoldable pub take_reference : (Accepted → Bool) → List Accepted → Option Accepted × List Accepted
take_reference test [] = (none, [])
take_reference test (c ∷ cs) =
    let held : Accepted = record c { connection = increase_refs c.connection } in
    let (found, rest) = take_reference test cs in
    if test c then (some held, held ∷ cs) else (found, c ∷ rest)

unfoldable pub get_connection_tag : Server → List ℕ → Option Accepted × Server
unfolding take_reference
get_connection_tag this tag =
    let (found, cs) = take_reference (λ c. bytes_eq c.tag tag) this.connections in
    (found, record this { connections = cs })

unfoldable pub get_connection_id : Server → ℕ → Option Accepted × Server
unfolding take_reference
get_connection_id this id =
    let (found, cs) = take_reference (λ c. c.id == id) this.connections in
    (found, record this { connections = cs })

unfoldable pub stop : Server → Server
stop this =
    if this.socket_type == 0
    then this
    else record this { to_stop_event = write_event_fd this.to_stop_event 1 }

-- `wait` is what the server's thread and others do until the event or the timeout; whether the wait
-- ended with the event is not told.
unfoldable pub wait_for_stop : (Server → Server) → Server → Server
wait_for_stop wait this = if this.socket_type == 0 then this else wait this

unfoldable pub stop_waiting : (Server → Server) → Server → Server
unfolding stop wait_for_stop
stop_waiting wait this = if this.socket_type == 0 then this else wait_for_stop wait (stop this)

-- The destructor. Freeing is left out.
unfoldable pub destroy : (Server → Server) → Server → Server
unfolding stop_waiting
destroy wait this = record (stop_waiting wait this) { stopped_event = none }

-- Whether new clients are accepted: a negative limit is none. The amount is a signed 32-bit number.
unfoldable pub accepts_new : Server → Bool
accepts_new this = elim this.max_connections [
  | negsuc n ↦ true
  | pos n ↦ ltb (length this.connections) n
]

-- The connections that `poll` reported as stopped, and the others.
unfoldable pub closed : List Bool → List Accepted → List Accepted
closed [] cs = []
closed (b ∷ bs) [] = []
closed (true ∷ bs) (c ∷ cs) = c ∷ closed bs cs
closed (false ∷ bs) (c ∷ cs) = closed bs cs

unfoldable pub remaining : List Bool → List Accepted → List Accepted
remaining [] cs = cs
remaining (b ∷ bs) [] = []
remaining (true ∷ bs) (c ∷ cs) = remaining bs cs
remaining (false ∷ bs) (c ∷ cs) = c ∷ remaining bs cs

-- What `poll` reports: of the server's socket, the event to stop and the connections in their order.
pub record Revents : Type 0 where
  pub incoming : Bool
  pub to_stop : Bool
  pub stopped : List Bool

module _ (call : ℕ → Server → Accepted → Server × Accepted) where
  -- `accept4`'s socket, `none` for a failure. The handler gets the connection before it has its id.
  unfoldable pub accept_one : Option SocketDomain → Server → Option Accepted × Server
  accept_one none this = (none, this)
  accept_one (some domain) this =
      let conn : Accepted = record { id = 0; tag = []; connection = of_fd domain } in
      elim this.connected_handler [
        | none ↦ (some conn, this)
        | some h ↦ let (after, made) = call h this conn in (some made, after)
      ]

  -- The handler of disconnections, for each closed connection; the null pointer is called as well.
  unfoldable pub tell_disconnected : List Accepted → Server → Outcome Server
  tell_disconnected [] this = done this
  tell_disconnected (c ∷ cs) this = elim this.disconnected_handler [
    | none ↦ fault
    | some h ↦ tell_disconnected cs ((call h this c).0)
  ]

  -- The new connection takes the free id.
  unfoldable pub add_client : Option SocketDomain → ℕ → Server → ℕ × Server
  unfolding accept_one
  add_client accepted free_conn_id this =
      let (new_conn, after) = accept_one accepted this in
      elim new_conn [
        | none ↦ (free_conn_id, after)
        | some conn ↦ (
          (free_conn_id + 1) % u32_mod,
          record after {
            connections = after.connections ++ record conn { id = free_conn_id } ∷ [];
          },
        )
      ]

  -- A pass of the loop of `ServerThreadFunc`: whether it goes on, the next free id and the object.
  -- `poll` ignores the socket where no clients are accepted.
  unfoldable pub round : Revents → Option SocketDomain → ℕ → Server → Outcome (Bool × ℕ × Server)
  unfolding tell_disconnected add_client
  round ev accepted free_conn_id this =
      let gone : List Accepted = closed ev.stopped this.connections in
      let rest = tell_disconnected gone this >>= λ told.
      let left : Server = record told { connections = remaining ev.stopped told.connections } in
      let (next_id, added) = add_client accepted free_conn_id left in
      if ev.incoming && accepts_new this
      then done (true, next_id, added)
      else done (not (length gone == 0), free_conn_id, left) in
      if ev.to_stop then done (false, free_conn_id, this) else rest

-- After the loop: every connection is disconnected by force and deleted. The UNIX socket's file is
-- left out.
unfoldable pub finish : Server → Server
finish this = record this {
  connections = [];
  stopped_event = write_event_fd this.stopped_event 1;
  socket_fd = none;
  to_stop_event = none;
  socket_type = 0;
}
