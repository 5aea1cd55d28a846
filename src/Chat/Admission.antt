-- ===== src/Chat/Admission.antt =====
-- examples/ChatServer.cpp: HandlerAuth ends, and who is let in.
use dowow_network.Prelude.{
  ℕ, zero, suc, ◌≤◌, ◌≡◌, refl, sym, subst, ap, ◌∙◌, Bool-cases, Option-cases, inl, inr, Bool, true,
  false, ◌||◌, none, some, List, [], ◌∷◌, ◌++◌, All, All-append, length, length-append, ltb, arith,
  if◌then◌else◌, Outcome, done, Ends, Ends->>=,
}
use dowow_network.Prelude.Bytes.{bytes_eq, bytes_eq_iff}
use dowow_network.Prelude.Text.{codes, to_string, decimal, length-decimal}
use dowow_network.Value.ValueStr
use dowow_network.Value.ValueStr.Laws
use dowow_network.Value.ValueStr.Laws.{get-IsValid}
use dowow_network.Request
use dowow_network.Request.{Request}
use dowow_network.Request.Templates.{get_as, as_str}
use dowow_network.Connection.State.{Connection}
use dowow_network.Connection.Api.{push_reference}
use dowow_network.Server.{Server, Accepted}
use dowow_network.Chat.{Participant, Chat, get_participant_name, generate_message}
use dowow_network.Chat.Handlers.{
  the_server, connection_at, use_at, on_connection, reply, complain, with_server, authorize,
  auth_as, handler_auth,
}
use dowow_network.Chat.Messages.{IsText, message_of, generate_message_lem}
use dowow_network.Chat.Delivery.{
  push_reference_lem, message_of_sound, message_of-Distinct, message_of-copied,
  issue_message_broadcast, issue_message-one,
}
use dowow_network.Chat.Roster.{IsRoster}

abbrev Connected : ℕ → List Accepted → Type 0
Connected c cs = (conn : Accepted) × (connection_at c cs ≡ done conn)

use_at-Ends :
    (c : ℕ) (use_it : Connection → Outcome Connection) (cs : List Accepted)
    → Connected c cs
    → ((conn : Connection) → Ends (use_it conn))
    → Ends (use_at c use_it cs)
unfolding use_at connection_at
use_at-Ends c use_it [] (conn, e) h = absurd (cc)
use_at-Ends zero use_it (k ∷ rest) at h =
    Ends->>= (use_it k.connection) _ (h k.connection) (λ used ran. (_, refl))
use_at-Ends (suc c) use_it (k ∷ rest) at h =
    Ends->>= (use_at c use_it rest) _ (use_at-Ends c use_it rest at h) (λ others ran. (_, refl))

-- A reply of a request that is made ends.
reply-Ends :
    (c : ℕ) (made : Outcome Request) (server : Server)
    → Connected c server.connections
    → Ends made
    → ((r : Request) → made ≡ done r → (conn : Connection) → Ends (push_reference conn r true))
    → Ends (reply c made server)
unfolding reply on_connection
reply-Ends c made server at m h = Ends->>= made _ m (λ r ran.
    Ends->>= (use_at c (λ conn. push_reference conn r true) server.connections) _
      (use_at-Ends c (λ conn. push_reference conn r true) server.connections at (h r ran))
      (λ cs used. (_, refl)))

success-Ends :
    (conn : Connection) → Ends (push_reference conn (Request.init (codes "auth_success")) true)
unfolding Request.init
success-Ends conn = (_, push_reference_lem (Request.init (codes "auth_success")) conn tt tt refl)

complain-Ends :
    (c : ℕ) (text : List ℕ) (server : Server)
    → Connected c server.connections
    → IsText text
    → Ends (complain c [] text server)
unfolding complain
complain-Ends c text server at h =
    let from : IsText the_server = omega arith in
    let to : IsText [] = omega arith in
    let made = generate_message_lem the_server [] text from to h in
    reply-Ends c (generate_message the_server [] text) server at (_, made)
      (λ r ran conn.
        subst (λ (q : Request). Ends (push_reference conn q true)) (done_inj (sym made ∙ ran))
          (
            _,
            push_reference_lem (message_of the_server [] text) conn
                (message_of_sound the_server [] text from to h)
                (message_of-Distinct the_server [] text) (message_of-copied the_server [] text),
          ))
  where
    done_inj : {q r : Request} → done q ≡ done r → q ≡ r
    done_inj e = cc

roster-texts :
    (ps : List Participant) → IsRoster ps → All (λ (p : Participant). IsText p.username) ps
roster-texts [] h = tt
roster-texts (p ∷ ps) h = (omega (arith, h.1), roster-texts ps h.3)

-- Who was let in is found.
find-snoc :
    (ps : List Participant) (p : Participant)
    → get_participant_name ps p.username ≡ none
    → get_participant_name (ps ++ p ∷ []) p.username ≡ some p
unfolding get_participant_name
find-snoc [] p e = rw ((bytes_eq_iff p.username p.username).1 refl) refl
find-snoc (q ∷ qs) p e = elim (Bool-cases (bytes_eq q.username p.username)) [
  | inl same ↦ absurd (ground arith)
  | inr other ↦ rw (get_participant_name, other) (find-snoc qs p (ground arith))
]

-- What a call that leaves these participants gives.
abbrev Leaves : List Participant → Outcome Chat → Type 0
Leaves ps o = (e : Chat) × (o ≡ done e) × (e.participants ≡ ps)

with_server-Leaves :
    (d : Chat) (called : Outcome Server)
    → Ends called
    → Leaves d.participants (with_server d called)
unfolding with_server
with_server-Leaves d called (s, ran) = (record d { server = s }, rw ran refl, refl)

welcome-IsText :
    (name : List ℕ) (n : ℕ)
    → length name ≤ 16
    → IsText (
        codes "Let's welcome "
        ++ (name ++ (codes " to our server! People online: " ++ to_string n)))
unfolding to_string
welcome-IsText name n h = omega (
  arith,
  length-decimal 20 n,
  length-append name (codes " to our server! People online: " ++ decimal 20 n),
)

authorize-Leaves :
    (c : ℕ) (name : List ℕ) (d : Chat) (conn : Accepted)
    → connection_at c d.server.connections ≡ done conn
    → IsRoster d.participants
    → 2 ≤ length name
    → length name ≤ 16
    → get_participant_name d.participants name ≡ none
    → Leaves (d.participants ++ record { username = name; id = conn.id } ∷ []) (authorize c name d)
unfolding authorize
authorize-Leaves c name d conn at h lo hi new =
    let joined : List Participant =
      d.participants ++ record { username = name; id = conn.id } ∷ [] in
    let texts : All (λ (p : Participant). IsText p.username) joined =
      All-append (λ (p : Participant). IsText p.username) d.participants
        (record { username = name; id = conn.id } ∷ []) (roster-texts d.participants h)
        (omega arith, tt) in
    let from : IsText the_server = omega arith in
    rw at (
      with_server-Leaves (record d { participants = joined }) _
        (Ends->>= (reply c (done (Request.init (codes "auth_success"))) d.server) _
          (reply-Ends c (done (Request.init (codes "auth_success"))) d.server (conn, at) (_, refl)
            (λ r ran k.
              subst (λ (q : Request). Ends (push_reference k q true)) (done_inj ran)
                (success-Ends k)))
          (λ told ran.
            Ends->>= _ _
              (
                _,
                issue_message_broadcast joined the_server _ told texts from
                    (welcome-IsText name (length joined) hi),
              )
              (λ welcomed more. (
                _,
                issue_message-one joined the_server name _ _ welcomed
                    (λ e. omega (arith, ap (λ xs. length xs) e))
                    (find-snoc d.participants (record { username = name; id = conn.id }) new) from
                    (omega arith),
              )))))
  where
    done_inj : {q r : Request} → done q ≡ done r → q ≡ r
    done_inj e = cc

-- Whether `HandlerAuth` turns a name down.
abbrev pub refuses : List Participant → List ℕ → Bool
refuses ps name =
    (ltb (length name) 2 || ltb 16 (length name))
    || (elim (get_participant_name ps name) [ none ↦ false | some p ↦ true ])

auth_as-Leaves :
    (c : ℕ) (name : List ℕ) (d : Chat) (conn : Accepted)
    → connection_at c d.server.connections ≡ done conn
    → IsRoster d.participants
    → Leaves
        (if refuses d.participants name
          then d.participants
          else d.participants ++ record { username = name; id = conn.id } ∷ [])
        (auth_as c name d)
unfolding auth_as
auth_as-Leaves c name d conn at h =
    elim (Bool-cases (ltb (length name) 2 || ltb 16 (length name))) [
      | inl wrong ↦
          rw wrong (with_server-Leaves d _ (complain-Ends c _ d.server (conn, at) (omega arith)))
      | inr right ↦ elim (Option-cases (get_participant_name d.participants name)) [
        | inl new ↦
            rw (right, new) (authorize-Leaves c name d conn at h (ground arith) (ground arith) new)
        | inr (p, old) ↦
            rw (right, old)
              (with_server-Leaves d _ (complain-Ends c _ d.server (conn, at) (omega arith)))
      ]
    ]

handler_auth_lem :
    (c : ℕ) (r : Request) (d : Chat) (v : ValueStr.ValueStr)
    → get_as as_str r (codes "username") ≡ some v
    → Laws.IsValid v
    → handler_auth c r d ≡ auth_as c v.str_data d
unfolding handler_auth
handler_auth_lem c r d v found valid = rw (handler_auth, found, get-IsValid v valid) refl

-- Of a connection that the server has and a request whose argument of the name is a sound text: where
-- the participants' names have two to sixteen bytes and are all different, the call of `HandlerAuth`
-- ends, and the participants are the same where the name has less than two bytes or more than sixteen,
-- or is taken, and else these with the name, under the connection's id, behind them. No other name is
-- refused: "SERVER", which ChatProtocol.txt reserves, is let in like the rest.
pub handler_auth-admits :
    (c : ℕ) (r : Request) (d : Chat) (conn : Accepted) (v : ValueStr.ValueStr)
    → connection_at c d.server.connections ≡ done conn
    → get_as as_str r (codes "username") ≡ some v
    → Laws.IsValid v
    → IsRoster d.participants
    → (e : Chat) × (handler_auth c r d ≡ done e)
      × (e.participants ≡ (
          if refuses d.participants v.str_data
          then d.participants
          else d.participants ++ record { username = v.str_data; id = conn.id } ∷ []))
handler_auth-admits c r d conn v at found valid h =
    let (e, ran, left) = auth_as-Leaves c v.str_data d conn at h in
    (e, handler_auth_lem c r d v found valid ∙ ran, left)
