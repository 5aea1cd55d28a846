-- ===== src/Tests/Endpoints.antt =====
-- Server.cpp, Client.cpp and the end of a connection, run on small objects.
use dowow_network.Prelude.{
  ℕ, ◌≡◌, ◌≢◌, refl, Bool, true, false, Option, none, some, List, [], ◌∷◌, arith, done,
}
use dowow_network.Prelude.Int.{pos}
use dowow_network.Prelude.Text.{codes}
use dowow_network.Connection.State.{Connection, is_connected, has_something_to_send}
use dowow_network.Connection.Receive.Partial.{IsIdle}
use dowow_network.Connection.Api.{SocketDomain, af_unix, af_inet, af_other, initialize_by_fd}
use dowow_network.Connection.Loop.{finish}
use dowow_network.Connection.Loop.Finish.{restart-IsIdle}
use dowow_network.Server.{Server, Accepted, Revents}
use dowow_network.Server.Limit.{IsSound, AreTame, rounds, rounds-IsSound}
use dowow_network.Server.Start
use dowow_network.Server.Start.{
  start_tcp, start_unix, IsStart, starts-IsStart, stopped_event-restart,
}
use dowow_network.Client
use dowow_network.Client.{in_progress, connect_tcp, connect_unix}
use dowow_network.Client.Connect.{IsAttempt, connects-IsAttempt}
use dowow_network.Tests.{question, open_connection}

-- The other threads take the requests that were received.
abbrev others : Connection → Connection
others c = record c { recv_queue = []; recv_buffer_offset = 3 }

tcp_other : af_inet ≢ af_other
tcp_other e = cc

restart-IsIdle_example :
    let c : Connection = record open_connection {
      send_queue = question ∷ [];
      recv_buffer_offset = 2;
      refs_amount = 1;
    } in
    let d : Connection = initialize_by_fd (finish others c) af_inet in
    (is_connected (finish others c) ≡ false)
    × (is_connected d ≡ true)
    × (d.is_disconnecting ≡ false)
    × (has_something_to_send d ≡ false)
    × (d.recv_queue ≡ [])
    × IsIdle d
restart-IsIdle_example =
    restart-IsIdle others
      (record open_connection {
        send_queue = question ∷ [];
        recv_buffer_offset = 2;
        refs_amount = 1;
      })
      af_inet tcp_other

-- A stopped server with a handler and room for one client.
abbrev small_server : Server
small_server = record (Start.init none (some 4) 0 0) { max_connections = pos 1 }

-- A handler that gives the connection a tag.
abbrev tagging : ℕ → Server → Accepted → Server × Accepted
tagging h s c = (s, record c { tag = codes "new" })

tagging-AreTame : AreTame tagging
tagging-AreTame h s c = record { list = refl; limit = refl; handler = refl }

small_server-IsSound : IsSound 1 small_server
unfolding Start.init
small_server-IsSound = record { within = omega arith; numbered = omega arith; handled = (4, refl) }

-- Two clients want to connect, and then the first connection closes.
abbrev reports : List (Revents × Option SocketDomain)
reports =
    (record { incoming = true; to_stop = false; stopped = [] }, some af_unix)
    ∷ (record { incoming = true; to_stop = false; stopped = true ∷ [] }, some af_unix)
    ∷ []

rounds-IsSound_example :
    (r : ℕ × Server) × (rounds tagging reports 1 small_server ≡ done r) × IsSound r.0 r.1
rounds-IsSound_example =
    rounds-IsSound tagging tagging-AreTame reports 1 small_server small_server-IsSound (omega arith)

-- All calls succeed.
abbrev working : Start.System
working = record {
  socket = some 3;
  file_exists = true;
  unlinks = true;
  address = some 7;
  binds = true;
  listens = true;
}

starts-IsStart_example :
    IsStart 2 small_server (start_tcp working small_server 80)
    × ((r : Bool × Server) × (start_unix working small_server (codes "/tmp/s") true ≡ done r)
        × IsStart 1 small_server r)
starts-IsStart_example = starts-IsStart working small_server (codes "/tmp/s") true 80 (omega arith)

-- The connection takes its time.
abbrev slow : Client.System
slow = record { socket = some 3; valid_address = true; connects = in_progress; readable = true }

connects-IsAttempt_example :
    IsAttempt slow true af_inet Client.init (connect_tcp slow Client.init)
    × ((r : Bool × Client.Client) × (connect_unix slow Client.init (codes "/tmp/s") ≡ done r)
        × IsAttempt slow true af_unix Client.init r)
connects-IsAttempt_example = connects-IsAttempt slow Client.init (codes "/tmp/s") (omega arith)
