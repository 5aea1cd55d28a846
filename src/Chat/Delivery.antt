-- ===== src/Chat/Delivery.antt =====
-- examples/ChatServer.cpp: IssueMessage, against what each connection gets.
use dowow_network.Prelude.{
  ℕ, ◌≡◌, ◌≢◌, refl, Bool-cases, inl, inr, true, not, ◌||◌, some, List, [], ◌∷◌, All, map, arith,
  if◌then◌else◌, ◌==◌, Outcome, done,
}
use dowow_network.Prelude.Bytes.{bytes_eq, bytes_eq_iff}
use dowow_network.Value.Copy.{without_raw}
use dowow_network.Value.Wire
use dowow_network.Datum.{Datum}
use dowow_network.Request
use dowow_network.Request.{Request}
use dowow_network.Request.Arguments.{copied, Distinct, copy_from-Distinct}
use dowow_network.Connection.State.{
  Connection, is_connected, is_disconnecting_now, increase_refs, decrease_refs,
}
use dowow_network.Connection.Api.{enqueue, push, push_reference}
use dowow_network.Server.{Server, Accepted}
use dowow_network.Chat.{
  Participant, get_participant_name, with_connection, push_message, issue_to_all, issue_to_one,
  issue_message,
}
use dowow_network.Chat.Messages.{IsText, text_value-IsValid, message_of, generate_message_lem}

pub message_of-copied :
    (from to text : List ℕ)
    → map copied (message_of from to text).arguments ≡ (message_of from to text).arguments
unfolding copied without_raw
message_of-copied [] [] text = refl
message_of-copied [] (b ∷ bs) text = refl
message_of-copied (a ∷ front) [] text = refl
message_of-copied (a ∷ front) (b ∷ bs) text = refl

pub message_of_sound :
    (from to text : List ℕ)
    → IsText from
    → IsText to
    → IsText text
    → All (λ (d : Datum). Wire.IsValid d.value) (message_of from to text).arguments
message_of_sound [] [] text f t h = (text_value-IsValid text h, tt)
message_of_sound [] (b ∷ bs) text f t h =
    (text_value-IsValid (b ∷ bs) t, (text_value-IsValid text h, tt))
message_of_sound (a ∷ front) [] text f t h =
    (text_value-IsValid (a ∷ front) f, (text_value-IsValid text h, tt))
message_of_sound (a ∷ front) (b ∷ bs) text f t h = (
  text_value-IsValid (a ∷ front) f,
  (text_value-IsValid (b ∷ bs) t, (text_value-IsValid text h, tt)),
)

pub message_of-Distinct : (from to text : List ℕ) → Distinct (message_of from to text).arguments
unfolding Request.find bytes_eq
message_of-Distinct [] [] text = (tt, tt)
message_of-Distinct [] (b ∷ bs) text = ((refl, tt), (tt, tt))
message_of-Distinct (a ∷ front) [] text = ((refl, tt), (tt, tt))
message_of-Distinct (a ∷ front) (b ∷ bs) text = ((refl, (refl, tt)), ((refl, tt), (tt, tt)))

-- A connection after the push of a request, which is dropped where it is not connected or disconnecting.
abbrev pub pushed : Request → Connection → Connection
pushed r conn =
    if not (is_connected conn) || is_disconnecting_now conn then conn else enqueue conn r true

-- A request that is its own copy is pushed without a fault.
pub push_reference_lem :
    (r : Request) (conn : Connection)
    → All (λ (d : Datum). Wire.IsValid d.value) r.arguments
    → Distinct r.arguments
    → map copied r.arguments ≡ r.arguments
    → push_reference conn r true ≡ done (pushed r conn)
unfolding push_reference push
push_reference_lem r conn s d same =
    let copy = copy_from-Distinct [] r s d in
    elim (Bool-cases (not (is_connected conn) || is_disconnecting_now conn)) [
      | inl dropped ↦ rw (copy, same, dropped) refl
      | inr taken ↦ rw (copy, same, taken) refl
    ]

abbrev pub told : List ℕ → List ℕ → List ℕ → Connection → Connection
told from to text = pushed (message_of from to text)

push_message_lem :
    (from to text : List ℕ) (conn : Connection)
    → IsText from
    → IsText to
    → IsText text
    → push_message from to text conn ≡ done (told from to text conn)
unfolding push_message
push_message_lem from to text conn f t h = rw (generate_message_lem from to text f t h) (
    push_reference_lem (message_of from to text) conn (message_of_sound from to text f t h)
      (message_of-Distinct from to text) (message_of-copied from to text))

-- The first connection of the id gets it, under a reference that is given back.
unfoldable pub tell : ℕ → (Connection → Connection) → List Accepted → List Accepted
tell id change [] = []
tell id change (c ∷ cs) =
    let others = tell id change cs in
    if c.id == id
    then record c { connection = decrease_refs (change (increase_refs c.connection)) } ∷ cs
    else c ∷ others

with_connection_lem :
    (id : ℕ) (use_it : Connection → Outcome Connection) (change : Connection → Connection)
    (cs : List Accepted)
    → ((conn : Connection) → use_it conn ≡ done (change conn))
    → with_connection id use_it cs ≡ done (tell id change cs)
unfolding with_connection tell
with_connection_lem id use_it change [] h = refl
with_connection_lem id use_it change (c ∷ cs) h = elim (Bool-cases (c.id == id)) [
  | inl here ↦ rw (tell, with_connection, here, h (increase_refs c.connection)) refl
  | inr there ↦ rw (tell, with_connection, there, with_connection_lem id use_it change cs h) refl
]

-- Each participant's connection in turn.
unfoldable pub tell_all : List Participant → List ℕ → List ℕ → List Accepted → List Accepted
tell_all [] from text cs = cs
tell_all (i ∷ rest) from text cs =
    tell_all rest from text (tell i.id (told from i.username text) cs)

issue_to_all_lem :
    (ps : List Participant) (from text : List ℕ) (cs : List Accepted)
    → All (λ (p : Participant). IsText p.username) ps
    → IsText from
    → IsText text
    → issue_to_all ps from text cs ≡ done (tell_all ps from text cs)
unfolding issue_to_all tell_all
issue_to_all_lem [] from text cs names f h = refl
issue_to_all_lem (i ∷ rest) from text cs names f h =
    rw
      (with_connection_lem i.id (push_message from i.username text) (told from i.username text) cs
        (λ conn. push_message_lem from i.username text conn f names.0 h))
      (issue_to_all_lem rest from text (tell i.id (told from i.username text) cs) names.1 f h)

-- A message to all ends, and is pushed to the connection of each participant that the server has, with
-- the sender, that participant's own name and the text; where the sender, the names and the text fit
-- the values. Nothing else of the server changes.
pub issue_message_broadcast :
    (ps : List Participant) (from text : List ℕ) (server : Server)
    → All (λ (p : Participant). IsText p.username) ps
    → IsText from
    → IsText text
    → issue_message ps from [] text server
      ≡ done (record server { connections = tell_all ps from text server.connections })
unfolding issue_message
issue_message_broadcast ps from text server names f h =
    rw (issue_to_all_lem ps from text server.connections names f h) refl

found_name :
    (ps : List Participant) (name : List ℕ) {p : Participant}
    → get_participant_name ps name ≡ some p
    → p.username ≡ name
unfolding get_participant_name
found_name [] name e = cc
found_name (q ∷ ps) name {p} e = elim (Bool-cases (bytes_eq q.username name)) [
  | inl same ↦ ground (arith, (bytes_eq_iff q.username name).0 same)
  | inr other ↦ found_name ps name {p = p} (ground (arith, other))
]

issue_to_one_lem :
    (ps : List Participant) (from to text : List ℕ) (p : Participant) (cs : List Accepted)
    → get_participant_name ps to ≡ some p
    → IsText from
    → IsText to
    → issue_to_one ps from to text cs ≡ done (tell p.id (told from to to) cs)
unfolding issue_to_one
issue_to_one_lem ps from to text p cs found f t =
    rw (issue_to_one, found, found_name ps to {p = p} found)
      (with_connection_lem p.id (push_message from to to) (told from to to) cs
        (λ conn. push_message_lem from to to conn f t t))

-- A message to one participant, which has a name, ends, whatever its text is: pushed to the connection
-- of the participant is a message from the sender to the name, whose text is that name again; where the
-- sender and the name fit the values. The text that was to be sent is in no request.
pub issue_message-one :
    (ps : List Participant) (from to text : List ℕ) (p : Participant) (server : Server)
    → to ≢ []
    → get_participant_name ps to ≡ some p
    → IsText from
    → IsText to
    → issue_message ps from to text server
      ≡ done (record server { connections = tell p.id (told from to to) server.connections })
unfolding issue_message
issue_message-one ps from [] text p server some_name found f t = absurd (some_name refl)
issue_message-one ps from (b ∷ bs) text p server some_name found f t =
    rw (issue_to_one_lem ps from (b ∷ bs) text p server.connections found f t) refl
