-- ===== src/Server/Start.antt =====
-- Server.cpp: the constructor, StartUnix and StartTcp, up to the start of the thread, which is `round`
-- and `finish` of the parent.
use dowow_network.Prelude.{
  ℕ, ◌+◌, ◌≤◌, ◌≡◌, ◌≢◌, inl, inr, refl, Bool, true, false, not, ◌&&◌, ◌||◌, Bool-cases,
  Option-cases, Option, none, some, List, [], length, ltb, ◌==◌, if◌then◌else◌, arith, Outcome,
  done, fault,
}
use dowow_network.Prelude.Int.{negsuc}
use dowow_network.Connection.State.{write_event_fd}
use dowow_network.Server.{Server, stop, finish}

-- The handlers and the address have no initial value: what the memory held is an argument.
unfoldable pub init : Option ℕ → Option ℕ → ℕ → ℕ → Server
init connected disconnected address port = record {
  socket_fd = none;
  connections = [];
  max_connections = negsuc 0;
  socket_type = 0;
  unix_socket_path = [];
  tcp_socket_address = address;
  tcp_socket_port = port;
  stopped_event = some 0;
  to_stop_event = none;
  connected_handler = connected;
  disconnected_handler = disconnected;
}

-- What the system calls answer: the new socket, `none` for a failure, whether the file is there and
-- can be deleted, what `inet_aton` reads of the address, and whether `bind` and `listen` succeed.
pub record System : Type 0 where
  pub socket : Option ℕ
  pub file_exists : Bool
  pub unlinks : Bool
  pub address : Option ℕ
  pub binds : Bool
  pub listens : Bool

-- The bytes of `sockaddr_un::sun_path`.
abbrev pub sun_path_size : ℕ
sun_path_size = 108

-- From `bind` on. A socket that is closed again stays in the field.
unfoldable pub bind_unix : System → Server → List ℕ → Bool × Server
bind_unix sys this path =
    if not sys.binds || not sys.listens
    then (false, this)
    else (true, record this { socket_type = 1; unix_socket_path = path; to_stop_event = some 0 })

-- The path is copied with its terminating null, whatever its length.
unfoldable pub start_unix : System → Server → List ℕ → Bool → Outcome (Bool × Server)
unfolding bind_unix
start_unix sys this path dof =
    let opened : Server = record this { socket_fd = sys.socket } in
    let bound : Outcome (Bool × Server) =
      if dof && (sys.file_exists && not sys.unlinks)
      then done (false, opened)
      else if ltb sun_path_size (length path + 1)
      then fault
      else done (bind_unix sys opened path) in
    if not (this.socket_type == 0)
    then done (false, this)
    else elim sys.socket [ none ↦ done (false, opened) | some fd ↦ bound ]

unfoldable pub start_tcp : System → Server → ℕ → Bool × Server
start_tcp sys this port =
    let opened : Server = record this { socket_fd = sys.socket } in
    let bound : Bool × Server = elim sys.address [
      | none ↦ (false, opened)
      | some address ↦ if not sys.binds || not sys.listens then (false, opened) else (
        true,
        record opened {
          socket_type = 2;
          tcp_socket_address = address;
          tcp_socket_port = port;
          to_stop_event = some 0;
        },
      )
    ] in
    if not (this.socket_type == 0)
    then (false, this)
    else elim sys.socket [ none ↦ (false, opened) | some fd ↦ bound ]

-- After a start that answers true the server has the type, and no request to stop is pending; after
-- one that answers false the type is what it was. A server that runs is left as it was.
abbrev pub IsStart : ℕ → Server → Bool × Server → Type 0
IsStart type s r =
    (r.1.socket_type ≡ (if r.0 then type else s.socket_type))
    × (r.1.connections ≡ s.connections)
    × (s.socket_type ≢ 0 → r ≡ (false, s))
    × (r.0 ≡ true → r.1.to_stop_event ≡ some 0)

start_tcp-IsStart : (sys : System) (s : Server) (port : ℕ) → IsStart 2 s (start_tcp sys s port)
unfolding start_tcp
start_tcp-IsStart sys s port = (ground arith, ground arith, λ h. ground arith, λ h. ground arith)

bind_unix-IsStart :
    (sys : System) (s opened : Server) (path : List ℕ)
    → s.socket_type ≡ 0
    → opened.socket_type ≡ s.socket_type
    → opened.connections ≡ s.connections
    → IsStart 1 s (bind_unix sys opened path)
unfolding bind_unix
bind_unix-IsStart sys s opened path z t c =
    (ground arith, ground arith, λ h. absurd (h z), λ h. ground arith)

-- Whatever the system calls answer: a start over UNIX with a path that fits its address returns, and a
-- start over TCP returns. One that answers true leaves a server of its type with no request to stop
-- pending, one that answers false leaves the type as it was; the connections stay, and a server that
-- runs already is left as it was, with the answer false.
pub starts-IsStart :
    (sys : System) (s : Server) (path : List ℕ) (dof : Bool) (port : ℕ)
    → length path + 1 ≤ sun_path_size
    → IsStart 2 s (start_tcp sys s port)
      × ((r : Bool × Server) × (start_unix sys s path dof ≡ done r) × IsStart 1 s r)
unfolding start_unix
starts-IsStart sys s path dof port fits = (
  start_tcp-IsStart sys s port,
  elim (Bool-cases (s.socket_type == 0)) [
    | inr running ↦ ((false, s), ground arith, (refl, refl, λ h. refl, λ h. cc))
    | inl stopped ↦ elim (Option-cases sys.socket) [
      | inl failed ↦ (
        (false, record s { socket_fd = sys.socket }),
        ground arith,
        (refl, refl, λ h. absurd (h (ground arith)), λ h. cc),
      )
      | inr (fd, made) ↦ elim (Bool-cases (dof && (sys.file_exists && not sys.unlinks))) [
        | inl kept ↦ (
          (false, record s { socket_fd = sys.socket }),
          ground arith,
          (refl, refl, λ h. absurd (h (ground arith)), λ h. cc),
        )
        | inr free ↦ (
          bind_unix sys (record s { socket_fd = sys.socket }) path,
          ground arith,
          bind_unix-IsStart sys s (record s { socket_fd = sys.socket }) path (ground arith) refl
              refl,
        )
      ]
    ]
  ],
)

-- After a server has stopped and started again, the event that tells that it has stopped is still set
-- from the first stop: the wait that follows a request to stop does not wait.
pub stopped_event-restart :
    (sys : System) (s : Server) (port n : ℕ)
    → s.stopped_event ≡ some n
    → (stop ((start_tcp sys (finish s) port).1)).stopped_event ≡ some (n + 1)
unfolding start_tcp finish stop write_event_fd
stopped_event-restart sys s port n e = ground arith
