-- ===== src/Request/Templates.antt =====
-- Request.hpp: the member templates that set and find an argument of a class.
use dowow_network.Prelude.{ℕ, true, Option, none, some, List, Outcome}
use dowow_network.Value.Data.{Value, str}
use dowow_network.Value.ValueStr.{ValueStr}
use dowow_network.Request.{Request, get, set}

-- `Emplace`: the value is copied.
unfoldable pub emplace : Request → List ℕ → Value → Outcome Request
emplace this name value = set this name (some value) true

-- `Get<T>`, where `cast` is `dynamic_cast<T*>`.
unfoldable pub get_as {ℓ} : {A : Type ℓ} → (Value → Option A) → Request → List ℕ → Option A
get_as cast this name = elim (get this name) [ none ↦ none | some res ↦ cast res ]

-- `dynamic_cast<ValueStr*>`.
unfoldable pub as_str : Value → Option ValueStr
as_str (str s) = some s
as_str _ = none
