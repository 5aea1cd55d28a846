-- ===== src/Chat/Roster.antt =====
-- examples/ChatServer.cpp: who takes part, over the handlers' calls in any order.
use dowow_network.Prelude.{ℕ, ◌≤◌, ◌≡◌, ◌≢◌, List, [], ◌∷◌, All, length, done}
use dowow_network.Value.ValueStr
use dowow_network.Request.{Request}
use dowow_network.Server.{Server}
use dowow_network.Chat.{Participant, Chat}
use dowow_network.Chat.Handlers.{
  handler_auth, handler_message, handler_status, handler_bye, handler_disconnected,
}

-- No one in the list has the name.
abbrev pub Absent : List ℕ → List Participant → Type 0
Absent name ps = All (λ (q : Participant). q.username ≢ name) ps

-- The names have two bytes at least and sixteen at most, and no two are the same.
abbrev pub IsRoster : List Participant → Type 0
IsRoster [] = Unit
IsRoster (p ∷ ps) =
    (2 ≤ length p.username) × (length p.username ≤ 16) × Absent p.username ps × IsRoster ps

abbrev Keeps : Chat → Type 0
Keeps d = IsRoster d.participants

-- The way from one state of the chat to another: calls of the handlers, each to its end, and whatever
-- the library does to the server between them.
pub data Serves : Chat → Chat → Type 0 where
  begins : (d : Chat) → Serves d d
  library : {d e : Chat} → Serves d e → (s : Server) → Serves d (record e { server = s })
  auth :
      {d e f : Chat} → Serves d e → (c : ℕ) (r : Request) → handler_auth c r e ≡ done f → Serves d f
  message :
      {d e f : Chat}
      → Serves d e
      → (c : ℕ) (r : Request) → handler_message c r e ≡ done f
      → Serves d f
  status :
      {d e f : Chat}
      → Serves d e
      → (c : ℕ) (r : Request) → handler_status c r e ≡ done f
      → Serves d f
  bye :
      {d e f : Chat} → Serves d e → (c : ℕ) (r : Request) → handler_bye c r e ≡ done f → Serves d f
  leaves : {d e f : Chat} → Serves d e → (c : ℕ) → handler_disconnected c e ≡ done f → Serves d f
