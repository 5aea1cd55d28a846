-- ===== src/Chat.antt =====
-- examples/ChatServer.cpp: the chat server's participants and the messages it sends. What it writes on
-- its own output is left out, and so is the count of messages, which it never sets.
pub mod Handlers
pub mod Roster
pub mod Messages
pub mod Delivery
pub mod Status
pub mod Admission
pub mod Terminal
pub mod Main
use dowow_network.Prelude.{
  ℕ, zero, suc, ◌%◌, true, false, Option, none, some, List, [], ◌∷◌, ◌++◌, length, ◌==◌,
  if◌then◌else◌, Outcome, done, fault, ◌>>=◌,
}
use dowow_network.Prelude.Bytes.{u32_mod, bytes_eq}
use dowow_network.Prelude.Text.{codes}
use dowow_network.Value.Data.{Values, nil, str, arr, v32u}
use dowow_network.Value.ValueStr
use dowow_network.Value.ValueArr
use dowow_network.Value.Codec
use dowow_network.Request
use dowow_network.Request.{Request}
use dowow_network.Request.Templates.{emplace}
use dowow_network.Connection.State.{Connection, increase_refs, decrease_refs}
use dowow_network.Connection.Api.{push_reference}
use dowow_network.Server.{Server, Accepted}

pub record Participant : Type 0 where
  pub username : List ℕ
  pub id : ℕ

-- The two global variables.
pub record Chat : Type 0 where
  pub participants : List Participant
  pub server : Server

unfoldable pub get_participant_name : List Participant → List ℕ → Option Participant
get_participant_name [] username = none
get_participant_name (p ∷ ps) username =
    let later = get_participant_name ps username in
    if bytes_eq p.username username then some p else later

unfoldable pub get_participant_id : List Participant → ℕ → Option Participant
get_participant_id [] id = none
get_participant_id (p ∷ ps) id =
    let later = get_participant_id ps id in if p.id == id then some p else later

-- An argument that is set only where the text is not empty.
unfoldable pub emplace_if_any : Request → List ℕ → List ℕ → Outcome Request
unfolding emplace ValueStr.init
emplace_if_any r name [] = done r
emplace_if_any r name (b ∷ bs) = emplace r name (str (ValueStr.init (b ∷ bs)))

unfoldable pub generate_message : List ℕ → List ℕ → List ℕ → Outcome Request
unfolding emplace_if_any
generate_message from to text =
    emplace_if_any (Request.init (codes "message")) (codes "from") from >>= λ r.
    emplace_if_any r (codes "to") to >>= λ q. emplace q (codes "text") (str (ValueStr.init text))

-- The loop that pushes the names.
unfoldable pub push_names : Values → List Participant → Outcome Values
push_names them [] = done them
push_names them (p ∷ ps) =
    ValueArr.push Codec.copy them (str (ValueStr.init p.username)) >>= λ more. push_names more ps

-- The participant is looked for, and the pointer used whatever it is.
unfoldable pub generate_status : List Participant → ℕ → Outcome Request
unfolding get_participant_id push_names
generate_status participants id = elim (get_participant_id participants id) [
  | none ↦ fault
  | some issuer ↦
      emplace (Request.init (codes "status")) (codes "username")
        (str (ValueStr.init issuer.username))
      >>= λ r. emplace r (codes "amount") (v32u (length participants % u32_mod)) >>= λ q.
          push_names (ValueArr.new nil (length participants % u32_mod)) participants >>= λ them.
          Request.set q (codes "them") (some (arr them)) false
]

-- `GetConnection` of the server, the use of what it finds, and the end of its reference.
unfoldable pub with_connection :
    ℕ → (Connection → Outcome Connection) → List Accepted → Outcome (List Accepted)
with_connection id use_it [] = done []
with_connection id use_it (c ∷ cs) =
    let here = use_it (increase_refs c.connection) >>= λ used.
    done (record c { connection = decrease_refs used } ∷ cs) in
    let there = with_connection id use_it cs >>= λ others. done (c ∷ others) in
    if c.id == id then here else there

unfoldable pub push_message : List ℕ → List ℕ → List ℕ → Connection → Outcome Connection
unfolding generate_message
push_message from to text conn = generate_message from to text >>= λ r. push_reference conn r true

unfoldable pub issue_to_all :
    List Participant → List ℕ → List ℕ → List Accepted → Outcome (List Accepted)
unfolding with_connection push_message
issue_to_all [] from text cs = done cs
issue_to_all (i ∷ rest) from text cs =
    with_connection i.id (push_message from i.username text) cs >>= λ more.
    issue_to_all rest from text more

-- To one participant, its own name is sent where the text was meant.
unfoldable pub issue_to_one :
    List Participant → List ℕ → List ℕ → List ℕ → List Accepted → Outcome (List Accepted)
unfolding get_participant_name with_connection push_message
issue_to_one participants from to text cs = elim (get_participant_name participants to) [
  | none ↦ done cs
  | some p ↦ with_connection p.id (push_message from to p.username) cs
]

unfoldable pub issue_message : List Participant → List ℕ → List ℕ → List ℕ → Server → Outcome Server
unfolding issue_to_all issue_to_one
issue_message participants from to text server =
    (elim to [
      | [] ↦ issue_to_all participants from text server.connections
      | b ∷ bs ↦ issue_to_one participants from (b ∷ bs) text server.connections
    ])
    >>= λ cs. done (record server { connections = cs })
