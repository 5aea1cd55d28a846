-- ===== src/Client.antt =====
-- Client.cpp and Client.hpp: a connection that is made from this side. The thread that connects is
-- waited for, and is part of the call.
pub mod Connect
use dowow_network.Prelude.{
  ℕ, ◌+◌, Bool, true, false, not, ◌&&◌, ◌||◌, Option, none, some, List, length, ltb, if◌then◌else◌,
  Outcome, done, fault, ◌>>=◌,
}
use dowow_network.Connection.State
use dowow_network.Connection.State.{Connection, is_connected, write_event_fd}
use dowow_network.Connection.Api.{SocketDomain, af_unix, af_inet, client_connected}
use dowow_network.Server.Start.{sun_path_size}

pub record Client : Type 0 where
  pub connection : Connection
  pub temp_socket_fd : Option ℕ
  pub connect_event : Option ℕ

unfoldable pub init : Client
init = record { connection = State.init; temp_socket_fd = none; connect_event = none }

-- What `connect` answers.
pub data Answer : Type 0 where
  connected in_progress refused : Answer

-- What the system calls answer: the new socket, `none` for a failure, whether `inet_aton` reads the
-- address, `connect`, and whether the socket is then readable within the timeout.
pub record System : Type 0 where
  pub socket : Option ℕ
  pub valid_address : Bool
  pub connects : Answer
  pub readable : Bool

unfoldable pub is_connecting : Client → Bool
is_connecting this = elim this.temp_socket_fd [ none ↦ false | some fd ↦ true ]

-- The end of both threads, where they could not connect and where they could.
unfoldable pub give_up : Client → Client
give_up c = record c { temp_socket_fd = none; connect_event = write_event_fd c.connect_event 1 }

unfoldable pub succeed : Client → SocketDomain → Client
succeed c domain = record c {
  connection = client_connected c.connection domain;
  temp_socket_fd = none;
  connect_event = write_event_fd c.connect_event 1;
}

-- The part that both threads share, from `connect` on.
unfoldable pub after_connect : System → SocketDomain → Client → Client
unfolding give_up succeed
after_connect sys domain c = elim sys.connects [
  | connected ↦ succeed c domain
  | in_progress ↦ if sys.readable then succeed c domain else give_up c
  | refused ↦ give_up c
]

unfoldable pub tcp_thread : System → Client → Client
unfolding after_connect
tcp_thread sys c = if not sys.valid_address then give_up c else after_connect sys af_inet c

-- The path is copied with its terminating null, whatever its length.
unfoldable pub unix_thread : System → Client → List ℕ → Outcome Client
unfolding after_connect
unix_thread sys c path =
    if ltb sun_path_size (length path + 1) then fault else done (after_connect sys af_unix c)

-- What both functions do before and after the thread.
unfoldable pub prepare : System → Client → Client
prepare sys this = record this { temp_socket_fd = sys.socket; connect_event = some 0 }

unfoldable pub conclude : Client → Bool × Client
conclude c = (is_connected c.connection, record c { connect_event = none })

unfoldable pub connect_tcp : System → Client → Bool × Client
unfolding tcp_thread prepare conclude is_connecting
connect_tcp sys this =
    let attempt : Bool × Client = elim sys.socket [
      | none ↦ (false, record this { temp_socket_fd = none })
      | some fd ↦ conclude (tcp_thread sys (prepare sys this))
    ] in
    if is_connected this.connection || is_connecting this then (false, this) else attempt

unfoldable pub connect_unix : System → Client → List ℕ → Outcome (Bool × Client)
unfolding unix_thread prepare conclude is_connecting
connect_unix sys this path =
    let attempt : Outcome (Bool × Client) = elim sys.socket [
      | none ↦ done (false, record this { temp_socket_fd = none })
      | some fd ↦ unix_thread sys (prepare sys this) path >>= λ c. done (conclude c)
    ] in
    if is_connected this.connection || is_connecting this then done (false, this) else attempt
