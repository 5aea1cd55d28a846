-- ===== src/Tests/Chats.antt =====
-- examples/ChatServer.cpp and examples/ChatClient.cpp, run on a server with one connection.
use dowow_network.Prelude.{
  ◌*◌, ◌≡◌, ◌≢◌, refl, false, [], ◌∷◌, ◌++◌, All, length, arith, some, done, if◌then◌else◌,
}
use dowow_network.Prelude.Bytes.{bytes_eq}
use dowow_network.Prelude.Text.{codes}
use dowow_network.Value.Data.{Values, arr, str, v32u}
use dowow_network.Value.ValueArr.{count}
use dowow_network.Value.ValueStr.{ValueStr}
use dowow_network.Value.ValueStr.Laws
use dowow_network.Request
use dowow_network.Request.{Request}
use dowow_network.Request.Templates.{get_as, as_str}
use dowow_network.Server.{Server, Accepted}
use dowow_network.Server.Start
use dowow_network.Chat.{
  Participant, Chat, get_participant_name, get_participant_id, generate_status, issue_message,
}
use dowow_network.Chat.Handlers.{connection_at, handler_auth}
use dowow_network.Chat.Messages.{IsText, message_of, text_value}
use dowow_network.Chat.Delivery.{tell, pushed, tell_all, told, issue_message-one}
use dowow_network.Chat.Terminal.{Terminal, add_to_history, handler_message, on_key}
use dowow_network.Value.ValueStr
use dowow_network.Chat.Terminal.Typing.{typed, on_key_shown}
use dowow_network.Chat.Handlers as Handlers
use dowow_network.Chat.Status.{generate_status-twice}
use dowow_network.Chat.Admission.{refuses, handler_auth-admits}
use dowow_network.Tests.{open_connection}

abbrev guest : Accepted
guest = record { id = 1; tag = []; connection = open_connection }

abbrev hall : Server
hall = record (Start.init (some 0) (some 0) 0 0) { connections = guest ∷ []; socket_type = 1 }

abbrev empty_chat : Chat
empty_chat = record { participants = []; server = hall }

-- The text of the argument.
abbrev ada : ValueStr
ada = record { str_data = codes "ada"; str_length = 3 }

abbrev asks : Request
asks = record {
  name = codes "auth";
  id = 2;
  arguments = record { name = codes "username"; value = str ada } ∷ [];
}

guest_connected : connection_at 0 hall.connections ≡ done guest
unfolding connection_at
guest_connected = refl

asks-ada : get_as as_str asks (codes "username") ≡ some ada
unfolding get_as as_str Request.get Request.find bytes_eq
asks-ada = refl

ada-IsValid : Laws.IsValid ada
ada-IsValid = record { sized = refl; fits = omega arith }

handler_auth-admits_example :
    (e : Chat) × (handler_auth 0 asks empty_chat ≡ done e)
    × (e.participants ≡ (
        if refuses empty_chat.participants ada.str_data
        then empty_chat.participants
        else empty_chat.participants ++ record { username = ada.str_data; id = guest.id } ∷ []))
handler_auth-admits_example =
    handler_auth-admits 0 asks empty_chat guest ada guest_connected asks-ada ada-IsValid tt

admitted :
    (e : Chat) × (handler_auth 0 asks empty_chat ≡ done e)
    × (e.participants ≡ (
        if refuses empty_chat.participants ada.str_data
        then empty_chat.participants
        else empty_chat.participants ++ record { username = ada.str_data; id = guest.id } ∷ []))
admitted = handler_auth-admits 0 asks empty_chat guest ada guest_connected asks-ada ada-IsValid tt

-- The chat after that call.
abbrev joined : Chat
joined = admitted.0

abbrev member : Participant
member = record { username = codes "ada"; id = 1 }

abbrev other : Participant
other = record { username = codes "bob"; id = 2 }

short : IsText (codes "hello")
short = omega arith

names : All (λ (p : Participant). IsText p.username) (member ∷ other ∷ [])
names = (omega arith, (omega arith, tt))

abbrev terminal : Terminal
terminal = record {
  rows = 24;
  cols = 80;
  history = [];
  input_field = codes "hello";
  client = open_connection;
  is_login = false;
}

ada_is_first : get_participant_id (member ∷ other ∷ []) guest.id ≡ some member
unfolding get_participant_id
ada_is_first = refl

abbrev crowd : Chat
crowd = record { participants = member ∷ other ∷ []; server = hall }

on_key_shown_example :
    (on_key terminal 10
      ≡ done (record terminal {
        client = pushed (typed terminal.input_field) terminal.client;
        input_field = [];
      }))
    × (Handlers.handler_message 0 (Request.set_id (typed terminal.input_field) 4) crowd
        ≡ done (record crowd {
          server = record crowd.server {
            connections =
                tell_all crowd.participants member.username terminal.input_field
                  crowd.server.connections;
          };
        }))
    × (handler_message terminal (message_of member.username other.username terminal.input_field)
        ≡ done (add_to_history terminal member.username terminal.input_field))
on_key_shown_example =
    on_key_shown terminal terminal 0 crowd guest member 4 other.username refl short guest_connected
      ada_is_first names (omega arith) (omega arith)

found_ada : get_participant_name (member ∷ other ∷ []) (codes "ada") ≡ some member
unfolding get_participant_name bytes_eq
found_ada = refl

named_ada : codes "ada" ≢ []
named_ada e = cc

issue_message-one_example :
    issue_message (member ∷ other ∷ []) (codes "bob") (codes "ada") (codes "hello") hall
    ≡ done (record hall {
      connections =
          tell member.id (told (codes "bob") (codes "ada") (codes "ada")) hall.connections;
    })
issue_message-one_example =
    issue_message-one (member ∷ other ∷ []) (codes "bob") (codes "ada") (codes "hello") member hall
      named_ada found_ada (omega arith) (omega arith)

found_first : get_participant_id (member ∷ other ∷ []) 1 ≡ some member
unfolding get_participant_id
found_first = refl

generate_status-twice_example :
    (r : Request) × (them : Values) × (generate_status (member ∷ other ∷ []) 1 ≡ done r)
    × (Request.get r (codes "username") ≡ some (text_value member.username))
    × (Request.get r (codes "amount") ≡ some (v32u (length (member ∷ other ∷ []))))
    × (Request.get r (codes "them") ≡ some (arr them))
    × (count them ≡ 2 * length (member ∷ other ∷ []))
generate_status-twice_example =
    generate_status-twice (member ∷ other ∷ []) 1 member found_first names (omega arith)
      (omega arith)

-- The terminal with a message of ada's.
abbrev greeted : Terminal
greeted = record terminal { history = (codes "ada", codes "hello") ∷ [] }
