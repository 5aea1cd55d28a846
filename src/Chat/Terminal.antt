-- ===== src/Chat/Terminal.antt =====
-- examples/ChatClient.cpp: the chat client, between the keys that are read and the history that is shown.
pub mod Typing
pub mod Screen
use dowow_network.Prelude.{
  ℕ, ◌+◌, ◌-◌, ◌%◌, ◌^◌, Bool, true, false, not, ◌&&◌, ◌||◌, Option, none, some, List, [], ◌∷◌,
  ◌++◌, length, take, drop, ltb, ◌==◌, if◌then◌else◌, Outcome, done, fault, ◌>>=◌,
}
use dowow_network.Prelude.Text.{codes, to_string}
use dowow_network.Value.Data.{str}
use dowow_network.Value.ValueStr
use dowow_network.Value.ValueStr.{ValueStr}
use dowow_network.Request
use dowow_network.Request.{Request}
use dowow_network.Request.Templates.{emplace, get_as, as_str}
use dowow_network.Connection.State.{Connection}
use dowow_network.Connection.Api.{push_reference, disconnect}

-- The global variables; of the client, its connection.
pub record Terminal : Type 0 where
  pub rows : ℕ
  pub cols : ℕ
  pub history : List (List ℕ × List ℕ)
  pub input_field : List ℕ
  pub client : Connection
  pub is_login : Bool

-- `rows - 1` is compared as a 64-bit number.
unfoldable pub add_to_history : Terminal → List ℕ → List ℕ → Terminal
add_to_history this from text =
    let longer : List (List ℕ × List ℕ) = this.history ++ (from, text) ∷ [] in
    record this {
      history =
          if ltb ((this.rows + (2 ^ 64 - 1)) % 2 ^ 64) (length longer)
          then drop 1 longer
          else longer;
    }

unfoldable pub handler_auth : Terminal → Request → Terminal
handler_auth this r = record this { is_login = true }

unfoldable pub handler_auth_success : Terminal → Request → Terminal
handler_auth_success this r = record this { is_login = false }

-- A message without a text is a null pointer.
unfoldable pub handler_message : Terminal → Request → Outcome Terminal
unfolding get_as as_str add_to_history
handler_message this r =
    let sender : Outcome (List ℕ) = elim (get_as as_str r (codes "from")) [
      | none ↦ done (codes "THE WIND")
      | some from_v ↦ ValueStr.get from_v
    ] in
    elim (get_as as_str r (codes "text")) [
      | none ↦ fault
      | some text_v ↦
          sender >>= λ from. ValueStr.get text_v >>= λ text. done (add_to_history this from text)
    ]

unfoldable pub handler_bye : Terminal → Request → Outcome Terminal
handler_bye this r = disconnect this.client true >>= λ c. done (record this { client = c })

-- The test of a key that is put into the input field.
unfoldable pub is_typed : ℕ → Bool
is_typed ch =
    (not (ltb ch b' ') && not (ltb b'~' ch))
    || ((not (ltb ch b'A') && not (ltb b'Z' ch))
        || ((not (ltb ch b'0') && not (ltb b'9' ch)) || ((ch == b' ') || (ch == b'/'))))

-- The key `enter`: a message, or a name where the server asked for one.
unfoldable pub send_input : Terminal → Outcome Terminal
unfolding emplace ValueStr.init
send_input this =
    let made : Outcome Request =
      if not this.is_login
      then emplace (Request.init (codes "message")) (codes "text")
          (str (ValueStr.init this.input_field))
      else emplace (Request.init (codes "auth")) (codes "username")
          (str (ValueStr.init this.input_field)) in
    made >>= λ r.
    push_reference this.client r true >>= λ c. done (record this { client = c; input_field = [] })

-- A pass of the loop of `main` with a key.
unfoldable pub on_key : Terminal → ℕ → Outcome Terminal
unfolding is_typed send_input
on_key this ch =
    let sent = send_input this in
    if is_typed ch
    then done (record this { input_field = this.input_field ++ ch ∷ [] })
    else if ch == 127
    then done (record this { input_field = take (length this.input_field - 1) this.input_field })
    else if ch == 10
    then sent
    else done (record this { input_field = this.input_field ++ to_string ch })
