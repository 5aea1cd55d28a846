-- ===== src/Chat/Terminal/Typing.antt =====
-- examples/ChatClient.cpp and examples/ChatServer.cpp: the way of a text from one terminal to another.
use dowow_network.Prelude.{ℕ, ◌<◌, ◌≡◌, refl, false, some, List, [], ◌∷◌, All, length, arith, done}
use dowow_network.Prelude.Bytes.{bytes_eq}
use dowow_network.Prelude.Text.{codes}
use dowow_network.Value.Copy.{without_raw}
use dowow_network.Value.ValueStr
use dowow_network.Value.ValueStr.Laws.{get-IsValid}
use dowow_network.Request
use dowow_network.Request.{Request}
use dowow_network.Request.Templates.{get_as, as_str}
use dowow_network.Request.Arguments.{copied}
use dowow_network.Server.{Accepted}
use dowow_network.Chat.{Participant, Chat, get_participant_id}
use dowow_network.Chat.Handlers as Handlers
use dowow_network.Chat.Handlers.{connection_at, if_authorized, receiver, with_server}
use dowow_network.Chat.Messages.{IsText, text_value-IsValid, message_of, emplace_text}
use dowow_network.Chat.Delivery.{pushed, push_reference_lem, tell_all, issue_message_broadcast}
use dowow_network.Chat.Terminal.{
  Terminal, add_to_history, handler_message, is_typed, send_input, on_key,
}

-- A message to all, as the terminal makes it.
abbrev pub typed : List ℕ → Request
typed text = message_of [] [] text

get_text :
    (text : List ℕ)
    → IsText text
    → ValueStr.get (record { str_data = text; str_length = length text }) ≡ done text
get_text text h =
    get-IsValid (record { str_data = text; str_length = length text })
      (record { sized = refl; fits = h })

send_input_lem :
    (t : Terminal)
    → t.is_login ≡ false
    → IsText t.input_field
    → send_input t
      ≡ done (record t { client = pushed (typed t.input_field) t.client; input_field = [] })
unfolding send_input Request.init Request.find bytes_eq copied without_raw
send_input_lem t idle h =
    let made = emplace_text (Request.init (codes "message")) (codes "text") t.input_field h refl in
    let sent =
      push_reference_lem (typed t.input_field) t.client (text_value-IsValid t.input_field h, tt)
        (tt, tt) refl in
    rw (send_input, idle, made, sent) refl

-- The server's handler gets the request under the id that `Push` gave it.
broadcast_lem :
    (c : ℕ) (d : Chat) (conn : Accepted) (p : Participant) (text : List ℕ) (id : ℕ)
    → connection_at c d.server.connections ≡ done conn
    → get_participant_id d.participants conn.id ≡ some p
    → All (λ (q : Participant). IsText q.username) d.participants
    → IsText p.username
    → IsText text
    → Handlers.handler_message c (Request.set_id (typed text) id) d
      ≡ done (record d {
        server = record d.server {
          connections = tell_all d.participants p.username text d.server.connections;
        };
      })
unfolding Handlers.handler_message if_authorized receiver get_as as_str Request.set_id Request.get
    Request.find bytes_eq with_server
broadcast_lem c d conn p text id at authorized names from h =
    rw
      (
        at,
        authorized,
        get_text text h,
        issue_message_broadcast d.participants p.username text d.server names from h,
      )
      refl

-- The terminal that gets the message shows it.
shown_lem :
    (t : Terminal) (from to text : List ℕ)
    → 0 < length from
    → IsText from
    → IsText text
    → handler_message t (message_of from to text) ≡ done (add_to_history t from text)
unfolding handler_message get_as as_str Request.get Request.find bytes_eq
shown_lem t [] to text some_name f h = absurd (omega arith)
shown_lem t (a ∷ front) [] text some_name f h = rw (get_text (a ∷ front) f, get_text text h) refl
shown_lem t (a ∷ front) (b ∷ bs) text some_name f h =
    rw (get_text (a ∷ front) f, get_text text h) refl

-- The way of a text that is typed in, and that fits a value, to another terminal, where every name fits
-- a value too. On a terminal that is not logging in, `enter` ends, clears the input and pushes a message
-- with the text to the server. The server's handler, for that message under any id from a connection of
-- a participant with a name, ends, and has the text pushed to the connection of every participant,
-- from that name; and a terminal that gets a message from that name with the text, to anyone, ends its
-- handler and puts the name and the text into its history.
pub on_key_shown :
    (t reader : Terminal) (c : ℕ) (d : Chat) (conn : Accepted) (p : Participant) (id : ℕ)
    (to : List ℕ)
    → t.is_login ≡ false
    → IsText t.input_field
    → connection_at c d.server.connections ≡ done conn
    → get_participant_id d.participants conn.id ≡ some p
    → All (λ (q : Participant). IsText q.username) d.participants
    → IsText p.username
    → 0 < length p.username
    → (on_key t 10
        ≡ done (record t { client = pushed (typed t.input_field) t.client; input_field = [] }))
      × (Handlers.handler_message c (Request.set_id (typed t.input_field) id) d
          ≡ done (record d {
            server = record d.server {
              connections = tell_all d.participants p.username t.input_field d.server.connections;
            };
          }))
      × (handler_message reader (message_of p.username to t.input_field)
          ≡ done (add_to_history reader p.username t.input_field))
unfolding on_key is_typed
on_key_shown t reader c d conn p id to idle h at authorized names from some_name = (
  send_input_lem t idle h,
  broadcast_lem c d conn p t.input_field id at authorized names from h,
  shown_lem reader p.username to t.input_field some_name from h,
)
