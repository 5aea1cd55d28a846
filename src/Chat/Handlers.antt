-- ===== src/Chat/Handlers.antt =====
-- examples/ChatServer.cpp: the handlers. A connection that a handler gets is a position in the server's
-- list; a position outside it is a pointer to an object that is gone.
use dowow_network.Prelude.{
  ℕ, zero, suc, ◌||◌, true, none, some, List, [], ◌∷◌, ◌++◌, length, ltb, ◌==◌, if◌then◌else◌,
  Outcome, done, fault, ◌>>=◌,
}
use dowow_network.Prelude.Text.{codes, to_string}
use dowow_network.Value.ValueStr
use dowow_network.Request
use dowow_network.Request.{Request}
use dowow_network.Request.Templates.{get_as, as_str}
use dowow_network.Connection.State.{Connection, set_handler_named}
use dowow_network.Connection.Api.{push_reference, disconnect}
use dowow_network.Server.{Server, Accepted}
use dowow_network.Chat.{
  Participant, Chat, get_participant_name, get_participant_id, generate_message, generate_status,
  issue_message,
}

-- What the server shows as the sender of its own messages.
abbrev pub the_server : List ℕ
the_server = codes "SERVER"

unfoldable pub connection_at : ℕ → List Accepted → Outcome Accepted
connection_at c [] = fault
connection_at zero (conn ∷ rest) = done conn
connection_at (suc c) (conn ∷ rest) = connection_at c rest

unfoldable pub use_at :
    ℕ → (Connection → Outcome Connection) → List Accepted → Outcome (List Accepted)
use_at c use_it [] = fault
use_at zero use_it (conn ∷ rest) =
    use_it conn.connection >>= λ used. done (record conn { connection = used } ∷ rest)
use_at (suc c) use_it (conn ∷ rest) = use_at c use_it rest >>= λ others. done (conn ∷ others)

-- A call of a function of the connection.
unfoldable pub on_connection : ℕ → (Connection → Outcome Connection) → Server → Outcome Server
unfolding use_at
on_connection c use_it server =
    use_at c use_it server.connections >>= λ cs. done (record server { connections = cs })

-- `c->Push` of a request that is made for it.
unfoldable pub reply : ℕ → Outcome Request → Server → Outcome Server
unfolding on_connection
reply c made server = made >>= λ r. on_connection c (λ conn. push_reference conn r true) server

unfoldable pub complain : ℕ → List ℕ → List ℕ → Server → Outcome Server
unfolding reply
complain c to text server = reply c (generate_message the_server to text) server

-- The server after a call, with the participants as they are.
unfoldable pub with_server : Chat → Outcome Server → Outcome Chat
with_server this called = called >>= λ s. done (record this { server = s })

-- The part of `HandlerAuth` that follows the checks.
unfoldable pub authorize : ℕ → List ℕ → Chat → Outcome Chat
unfolding connection_at reply with_server
authorize c username this = connection_at c this.server.connections >>= λ conn.
    let participants : List Participant =
      this.participants ++ record { username = username; id = conn.id } ∷ [] in
    with_server (record this { participants = participants })
      (reply c (done (Request.init (codes "auth_success"))) this.server >>= λ told.
        issue_message participants the_server []
          (codes "Let's welcome "
            ++ (username
                ++ (codes " to our server! People online: " ++ to_string (length participants))))
          told
        >>= λ welcomed.
            issue_message participants the_server username
              (codes "Send '/help' to the global chat to get help about commands") welcomed)

unfoldable pub auth_as : ℕ → List ℕ → Chat → Outcome Chat
unfolding authorize complain
auth_as c username this =
    let known : Outcome Chat = elim (get_participant_name this.participants username) [
      | some p ↦
          with_server this (complain c [] (codes "This username is already taken") this.server)
      | none ↦ authorize c username this
    ] in
    if ltb (length username) 2 || ltb 16 (length username)
    then with_server this (
        complain c [] (codes "Username must be at least 2 and at most 16 symbols long") this.server)
    else known

unfoldable pub handler_auth : ℕ → Request → Chat → Outcome Chat
unfolding auth_as get_as as_str
handler_auth c r this = elim (get_as as_str r (codes "username")) [
  | none ↦ with_server this (complain c [] (codes "No username specified") this.server)
  | some username_v ↦ ValueStr.get username_v >>= λ username. auth_as c username this
]

-- The participant of a connection, for the handlers that need one.
unfoldable pub if_authorized : ℕ → (Participant → Outcome Server) → Chat → Outcome Chat
unfolding connection_at complain with_server
if_authorized c use_it this = connection_at c this.server.connections >>= λ conn.
    with_server this (elim (get_participant_id this.participants conn.id) [
      | none ↦ complain c [] (codes "You are not authorized") this.server
      | some p ↦ use_it p
    ])

-- The receiver of a message; without one, all.
unfoldable pub receiver : Request → Outcome (List ℕ)
unfolding get_as as_str
receiver r = elim (get_as as_str r (codes "to")) [ none ↦ done [] | some to_v ↦ ValueStr.get to_v ]

unfoldable pub handler_message : ℕ → Request → Chat → Outcome Chat
unfolding if_authorized receiver get_as as_str
handler_message c r this =
    if_authorized c
      (λ p. elim (get_as as_str r (codes "text")) [
        | none ↦ complain c p.username (codes "No text is specified") this.server
        | some text_v ↦ receiver r >>= λ to. ValueStr.get text_v >>= λ text.
            issue_message this.participants p.username to text this.server
      ])
      this

unfoldable pub handler_status : ℕ → Request → Chat → Outcome Chat
unfolding if_authorized connection_at reply
handler_status c r this =
    if_authorized c
      (λ p. connection_at c this.server.connections >>= λ conn.
        reply c (generate_status this.participants conn.id) this.server)
      this

unfoldable pub handler_bye : ℕ → Request → Chat → Outcome Chat
unfolding on_connection with_server
handler_bye c r this = with_server this (on_connection c (λ conn. disconnect conn true) this.server)

-- A new connection, not yet in the server's list. A handler's number stands for the function.
unfoldable pub handler_connected : Connection → Outcome Connection
handler_connected c =
    let named : Connection =
      set_handler_named
        (set_handler_named
          (set_handler_named (set_handler_named c (codes "auth") (some 0)) (codes "message")
            (some 1))
          (codes "status") (some 2))
        (codes "bye") (some 3) in
    push_reference named (Request.init (codes "auth")) true >>= λ invited.
    generate_message the_server []
      (codes "Please authorize. We can not transfer any messages unless we know your username.")
    >>= λ r. push_reference invited r true

unfoldable pub remove_id : ℕ → List Participant → List Participant
remove_id id [] = []
remove_id id (p ∷ ps) = let rest = remove_id id ps in if id == p.id then rest else p ∷ rest

unfoldable pub handler_disconnected : ℕ → Chat → Outcome Chat
unfolding connection_at remove_id
handler_disconnected c this = connection_at c this.server.connections >>= λ conn.
    elim (get_participant_id this.participants conn.id) [
      | none ↦ done this
      | some p ↦
          issue_message this.participants the_server [] (codes "Cya, " ++ p.username) this.server
          >>= λ s. done (record { participants = remove_id conn.id this.participants; server = s })
    ]
