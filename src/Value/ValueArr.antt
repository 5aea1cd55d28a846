-- ===== src/Value/ValueArr.antt =====
-- values/ValueArr.cpp and values/ValueArr.hpp: an array of values of any class. What the class does
-- with an element, a virtual call, is an argument here; `Codec` supplies it.
use dowow_network.Prelude.{
  ℕ, zero, suc, ◌+◌, ◌-◌, ◌%◌, Bool, true, false, Option, none, some, List, [], drop, ltb, ◌==◌,
  if◌then◌else◌, Outcome, done, ◌>>=◌,
}
use dowow_network.Prelude.Bytes.{u32_mod, read_byte, read_le}
use dowow_network.Value.Data.{Value, Values, nil, cons, undefined, create_value}

-- `array.size()`.
unfoldable pub count : Values → ℕ
count nil = 0
count (cons v vs) = suc (count vs)

unfoldable pub get_count : Values → ℕ
get_count array = count array % u32_mod

unfoldable pub append : Values → Values → Values
append nil ws = ws
append (cons v vs) ws = cons v (append vs ws)

unfoldable pub push_back : Values → Value → Values
unfolding append
push_back array v = append array (cons v nil)

-- `none` out of bounds.
unfoldable pub get : Values → ℕ → Option Value
get nil i = none
get (cons v vs) zero = some v
get (cons v vs) (suc i) = get vs i

-- `array[index] = v`, within the bounds.
unfoldable pub put : Values → ℕ → Value → Values
put nil i v = nil
put (cons w vs) zero v = cons v vs
put (cons w vs) (suc i) v = cons w (put vs i v)

unfoldable pub clear : Values → Values
clear array = nil

unfoldable pub new_loop : ℕ → Values
new_loop zero = nil
new_loop (suc n) = cons (undefined []) (new_loop n)

-- So many undefined values, in place of the old elements.
unfoldable pub new : Values → ℕ → Values
unfolding new_loop
new array n = new_loop n

-- The loop of `DeserializeInternal`: `i` rounds are left, and `deserialize` is the call of an
-- element's `Deserialize`. The byte at the offset is read after the offset is compared with `len`.
module _ (deserialize : Value → List ℕ → ℕ → Outcome (ℕ × Value)) where
  unfoldable pub deserialize_loop : ℕ → List ℕ → ℕ → ℕ → Values → Outcome (ℕ × Values)
  deserialize_loop zero buf len read_offset array = done (read_offset, array)
  deserialize_loop (suc i) buf len read_offset array =
      let element = read_byte buf read_offset >>= λ type.
      deserialize (create_value type) (drop read_offset buf) (len - read_offset) in
      let rest = element >>= λ r.
      let more = deserialize_loop i buf len ((read_offset + r.0) % u32_mod) (push_back array r.1) in
      if r.0 == 0 then done (0, nil) else more in
      if ltb len read_offset then done (0, nil) else rest

  -- The bytes used, 0 for a failure, and the elements after the call. The amount is read whatever
  -- the length is.
  unfoldable pub deserialize_internal : Values → List ℕ → ℕ → Outcome (ℕ × Values)
  unfolding deserialize_loop
  deserialize_internal array buf len = do
    elements_amount ← read_le 4 buf
    deserialize_loop elements_amount buf len 4 nil

module _ (copy : Value → Outcome Value) where
  -- A copy of the value is stored; `false` out of bounds and for the null pointer.
  unfoldable pub set : Values → ℕ → Option Value → Outcome (Bool × Values)
  set array index none = done (false, array)
  set array index (some val) =
      let stored = copy val >>= λ v. done (true, put array index v) in
      if ltb index (count array) then stored else done (false, array)

  unfoldable pub push : Values → Value → Outcome Values
  push array val = copy val >>= λ v. done (push_back array v)
