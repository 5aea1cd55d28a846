-- ===== src/Value/Data.antt =====
-- Value.hpp, ValueType.hpp and values/CreateValue.hpp: the objects of the value classes.
use dowow_network.Prelude.{ℕ, ◌==◌, if◌then◌else◌, List, []}
use dowow_network.Prelude.Int.{ℤ, pos}
use dowow_network.Value.ValueStr
use dowow_network.Value.ValueStr.{ValueStr}

-- A constructor for each class, over the state of its object; the elements of an array are a
-- `std::vector` of owned objects.
mutual
  pub data Value : Type 0 where
    undefined : List ℕ → Value
    v64s v32s v16s v8s : ℤ → Value
    v64u v32u v16u v8u : ℕ → Value
    str : ValueStr → Value
    arr : Values → Value

  pub data Values : Type 0 where
    nil : Values
    cons : Value → Values → Values

-- The field `type`, which each class's constructor sets from `enum ValueType`.
unfoldable pub get_type : Value → ℕ
get_type (undefined bs) = 0
get_type (v64s z) = 1
get_type (v64u n) = 2
get_type (v32s z) = 3
get_type (v32u n) = 4
get_type (v16s z) = 5
get_type (v16u n) = 6
get_type (v8u n) = 7
get_type (v8s z) = 8
get_type (str s) = 9
get_type (arr vs) = 10

-- A new object of the class with this type; any other type is undefined.
unfoldable pub create_value : ℕ → Value
create_value type =
    if type == 1
    then v64s (pos 0)
    else if type == 2
    then v64u 0
    else if type == 3
    then v32s (pos 0)
    else if type == 4
    then v32u 0
    else if type == 5
    then v16s (pos 0)
    else if type == 6
    then v16u 0
    else if type == 7
    then v8u 0
    else if type == 8
    then v8s (pos 0)
    else if type == 9
    then str ValueStr.empty
    else if type == 10
    then arr nil
    else undefined []
