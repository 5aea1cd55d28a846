-- ===== src/Chat/Messages.antt =====
-- examples/ChatServer.cpp: what the messages hold, and that they are sent.
use dowow_network.Prelude.{
  ℕ, ◌+◌, ◌%◌, ◌<◌, ◌≡◌, refl, true, none, some, List, [], ◌∷◌, ◌++◌, length, arith, take-length,
  done,
}
use dowow_network.Prelude.Bytes.{u32_mod, bytes_eq}
use dowow_network.Prelude.Text.{codes}
use dowow_network.Value.Data.{Value, str}
use dowow_network.Value.ValueStr
use dowow_network.Value.Copy.{without_raw}
use dowow_network.Value.Wire
use dowow_network.Datum.{Datum}
use dowow_network.Request
use dowow_network.Request.{Request}
use dowow_network.Request.Templates.{emplace}
use dowow_network.Request.Arguments.{put-new, set_arguments-put}
use dowow_network.Chat.{emplace_if_any, generate_message}

-- A text that a value can hold and that has a format.
abbrev pub IsText : List ℕ → Type 0
IsText text = length text + 4 < u32_mod

abbrev pub text_value : List ℕ → Value
text_value text = str (record { str_data = text; str_length = length text })

pub init-text :
    (text : List ℕ)
    → IsText text
    → ValueStr.init text ≡ record { str_data = text; str_length = length text }
unfolding ValueStr.init ValueStr.set
init-text text h =
    let small : length text % u32_mod ≡ length text = omega arith in
    rw (small, take-length text) refl

pub text_value-IsValid : (text : List ℕ) → IsText text → Wire.IsValid (text_value text)
unfolding Wire.IsValid
text_value-IsValid text h = record { sized = refl; fits = h }

-- The argument of a name that the request does not have.
pub emplace_new :
    (r : Request) (name : List ℕ) (v : Value)
    → Wire.IsValid v
    → Request.find name r.arguments ≡ none
    → emplace r name v
      ≡ done (record r {
        arguments = r.arguments ++ record { name = name; value = without_raw v } ∷ [];
      })
unfolding emplace Request.set
emplace_new r name v h new =
    rw
      (
        set_arguments-put r.arguments name (some v) true h,
        put-new name (without_raw v) r.arguments new,
      )
      refl

pub emplace_text :
    (r : Request) (name text : List ℕ)
    → IsText text
    → Request.find name r.arguments ≡ none
    → emplace r name (str (ValueStr.init text))
      ≡ done (record r {
        arguments = r.arguments ++ record { name = name; value = text_value text } ∷ [];
      })
unfolding without_raw
emplace_text r name text h new =
    rw (init-text text h) (emplace_new r name (text_value text) (text_value-IsValid text h) new)

-- The arguments of a text that is not empty.
abbrev pub any_text : List ℕ → List ℕ → List Datum
any_text name [] = []
any_text name (b ∷ bs) = record { name = name; value = text_value (b ∷ bs) } ∷ []

-- The message as it is meant: the sender and the receiver where there are any, and the text.
abbrev pub message_of : List ℕ → List ℕ → List ℕ → Request
message_of from to text = record {
  name = codes "message";
  id = 0;
  arguments =
      any_text (codes "from") from
      ++ (any_text (codes "to") to ++ record { name = codes "text"; value = text_value text } ∷ []);
}

pub generate_message_lem :
    (from to text : List ℕ)
    → IsText from
    → IsText to
    → IsText text
    → generate_message from to text ≡ done (message_of from to text)
unfolding generate_message emplace_if_any Request.init Request.find bytes_eq
generate_message_lem [] [] text f t h =
    emplace_text (Request.init (codes "message")) (codes "text") text h refl
generate_message_lem [] (b ∷ bs) text f t h =
    let to = emplace_text (Request.init (codes "message")) (codes "to") (b ∷ bs) t refl in
    rw to (
      emplace_text
        (record { name = codes "message"; id = 0; arguments = any_text (codes "to") (b ∷ bs) })
        (codes "text") text h refl)
generate_message_lem (a ∷ front) [] text f t h =
    let from = emplace_text (Request.init (codes "message")) (codes "from") (a ∷ front) f refl in
    rw from (
      emplace_text
        (record { name = codes "message"; id = 0; arguments = any_text (codes "from") (a ∷ front) })
        (codes "text") text h refl)
generate_message_lem (a ∷ front) (b ∷ bs) text f t h =
    let from = emplace_text (Request.init (codes "message")) (codes "from") (a ∷ front) f refl in
    let sent : Request = record {
      name = codes "message";
      id = 0;
      arguments = any_text (codes "from") (a ∷ front);
    } in
    let to = emplace_text sent (codes "to") (b ∷ bs) t refl in
    rw (from, to)
      (emplace_text (record sent { arguments = sent.arguments ++ any_text (codes "to") (b ∷ bs) })
        (codes "text") text h refl)
