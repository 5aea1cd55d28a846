-- ===== src/Chat/Main.antt =====
-- examples/ChatServer.cpp: main.
use dowow_network.Prelude.{ℕ, some, if◌then◌else◌}
use dowow_network.Server.{Server, set_connected_handler, set_disconnected_handler, wait_for_stop}
use dowow_network.Server.Start.{System, start_tcp}

-- The exit code, and the server. Handler 0 is HandlerConnected, 1 is HandlerDisconnected; `wait` is what
-- the server's thread does until it stops.
unfoldable pub main : System → (Server → Server) → Server → ℕ × Server
main sys wait server =
    let handled : Server =
      set_disconnected_handler (set_connected_handler server (some 0)) (some 1) in
    let (started, next) = start_tcp sys handled 29000 in
    if started then (0, wait_for_stop wait next) else (1, next)
