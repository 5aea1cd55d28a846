-- ===== src/Value/Codec.antt =====
-- Value.cpp, and the virtual calls that it makes on the classes under values/.
use dowow_network.Prelude.{
  ℕ, zero, suc, ◌+◌, ◌%◌, Option, none, some, List, [], ◌∷◌, ◌++◌, length, drop, ltb, ◌==◌,
  if◌then◌else◌, Outcome, done, fault, stuck, ◌>>=◌,
}
use dowow_network.Prelude.Bytes.{u32_mod, read_bytes, read_byte, read_le, le_bytes, fill}
use dowow_network.Value.Data.{
  Value, Values, undefined, v64s, v32s, v16s, v8s, v64u, v32u, v16u, v8u, str, arr, nil, cons,
  get_type, create_value,
}
use dowow_network.Value.ValueUndefined
use dowow_network.Value.ValueStr
use dowow_network.Value.ValueArr
use dowow_network.Value.Value8S
use dowow_network.Value.Value8U
use dowow_network.Value.Value16S
use dowow_network.Value.Value16U
use dowow_network.Value.Value32S
use dowow_network.Value.Value32U
use dowow_network.Value.Value64S
use dowow_network.Value.Value64U

-- `GetSizeInternal` of the classes; the sum of the arrays is 32 bits wide.
unfoldable mutual
  pub get_size_internal : Value → ℕ
  get_size_internal (undefined bs) = ValueUndefined.get_size_internal bs
  get_size_internal (v64s z) = Value64S.get_size_internal z
  get_size_internal (v64u n) = Value64U.get_size_internal n
  get_size_internal (v32s z) = Value32S.get_size_internal z
  get_size_internal (v32u n) = Value32U.get_size_internal n
  get_size_internal (v16s z) = Value16S.get_size_internal z
  get_size_internal (v16u n) = Value16U.get_size_internal n
  get_size_internal (v8u n) = Value8U.get_size_internal n
  get_size_internal (v8s z) = Value8S.get_size_internal z
  get_size_internal (str s) = ValueStr.get_size_internal s
  get_size_internal (arr vs) = get_size_elements 4 vs

  -- The loop of `ValueArr::GetSizeInternal`, from the sum so far.
  pub get_size_elements : ℕ → Values → ℕ
  get_size_elements sum nil = sum
  get_size_elements sum (cons v vs) =
      get_size_elements ((sum + (get_size_internal v + 5) % u32_mod) % u32_mod) vs

unfoldable pub get_size : Value → ℕ
get_size v = (get_size_internal v + 5) % u32_mod

-- The buffer of `Value::Serialize`, from the type, the size of the content and the content.
unfoldable pub with_metadata : ℕ → ℕ → Outcome (List ℕ) → Outcome (List ℕ)
with_metadata type size content = do
  buf ← content
  bs ← read_bytes buf size
  fill ((5 + size) % u32_mod) (type ∷ (le_bytes 4 size ++ bs))

-- `SerializeInternal` of the classes.
unfoldable mutual
  pub serialize_internal : Value → Outcome (List ℕ)
  serialize_internal (undefined bs) = done (ValueUndefined.serialize_internal bs)
  serialize_internal (v64s z) = done (Value64S.serialize_internal z)
  serialize_internal (v64u n) = done (Value64U.serialize_internal n)
  serialize_internal (v32s z) = done (Value32S.serialize_internal z)
  serialize_internal (v32u n) = done (Value32U.serialize_internal n)
  serialize_internal (v16s z) = done (Value16S.serialize_internal z)
  serialize_internal (v16u n) = done (Value16U.serialize_internal n)
  serialize_internal (v8u n) = done (Value8U.serialize_internal n)
  serialize_internal (v8s z) = done (Value8S.serialize_internal z)
  serialize_internal (str s) = ValueStr.serialize_internal s
  serialize_internal (arr vs) = serialize_elements vs >>= λ bs.
      fill (get_size_elements 4 vs) (le_bytes 4 (ValueArr.get_count vs) ++ bs)

  -- The loop of `ValueArr::SerializeInternal`: each element's `Serialize`, one behind the other.
  pub serialize_elements : Values → Outcome (List ℕ)
  serialize_elements nil = done []
  serialize_elements (cons v vs) =
      with_metadata (get_type v) (get_size_internal v) (serialize_internal v) >>= λ buf.
      read_bytes buf (get_size v) >>= λ bs. serialize_elements vs >>= λ more. done (bs ++ more)

unfoldable pub serialize : Value → Outcome (List ℕ)
unfolding with_metadata serialize_internal
serialize v = with_metadata (get_type v) (get_size_internal v) (serialize_internal v)

-- The first component stays, the second goes under the class's constructor.
abbrev pub as_value {ℓ} : {A : Type ℓ} → (A → Value) → Outcome (ℕ × A) → Outcome (ℕ × Value)
as_value c r = r >>= λ p. done (p.0, c p.1)

-- `DeserializeInternal` of the classes, with `Deserialize` for the elements of an array.
unfoldable pub deserialize_internal :
    (Value → List ℕ → ℕ → Outcome (ℕ × Value)) → Value → List ℕ → ℕ → Outcome (ℕ × Value)
deserialize_internal rec (undefined bs) buf len =
    as_value undefined (ValueUndefined.deserialize_internal bs buf len)
deserialize_internal rec (v64s z) buf len = as_value v64s (Value64S.deserialize_internal z buf len)
deserialize_internal rec (v64u n) buf len = as_value v64u (Value64U.deserialize_internal n buf len)
deserialize_internal rec (v32s z) buf len = as_value v32s (Value32S.deserialize_internal z buf len)
deserialize_internal rec (v32u n) buf len = as_value v32u (Value32U.deserialize_internal n buf len)
deserialize_internal rec (v16s z) buf len = as_value v16s (Value16S.deserialize_internal z buf len)
deserialize_internal rec (v16u n) buf len = as_value v16u (Value16U.deserialize_internal n buf len)
deserialize_internal rec (v8u n) buf len = as_value v8u (Value8U.deserialize_internal n buf len)
deserialize_internal rec (v8s z) buf len = as_value v8s (Value8S.deserialize_internal z buf len)
deserialize_internal rec (str s) buf len = as_value str (ValueStr.deserialize_internal s buf len)
deserialize_internal rec (arr vs) buf len =
    as_value arr (ValueArr.deserialize_internal rec vs buf len)

-- `Value::Deserialize` at a pointer that is not null. `fuel` bounds how deep arrays are nested.
-- What `DeserializeInternal` returns for a failure, 0, is returned as 5.
unfoldable pub deserialize_at : ℕ → Value → List ℕ → ℕ → Outcome (ℕ × Value)
deserialize_at zero this buf len = stuck
deserialize_at (suc fuel) this buf len =
    let content = read_le 4 (drop 1 buf) >>= λ size.
    if ltb len ((size + 5) % u32_mod)
    then done (0, this)
    else (deserialize_internal (deserialize_at fuel) this (drop 5 buf) size >>= λ r.
        done ((r.0 + 5) % u32_mod, r.1)) in
    let typed =
      read_byte buf 0 >>= λ type. if type == get_type this then content else done (0, this) in
    if ltb len 5 then done (0, this) else typed

-- `none` is the null pointer. Each nested array is five bytes into its parent, so that the bytes
-- of the buffer are fuel enough.
unfoldable pub deserialize : Value → Option (List ℕ) → ℕ → Outcome (ℕ × Value)
deserialize this none len = done (0, this)
deserialize this (some buf) len = deserialize_at (suc (length buf)) this buf len

-- `CopyFrom` of the classes: the original is of the object's own class. An array is made anew, and
-- `Set` stores a copy of each element.
unfoldable mutual
  pub copy_from : Value → Value → Outcome Value
  copy_from (undefined bs) (undefined cs) =
      ValueUndefined.copy_from bs cs >>= λ r. done (undefined r)
  copy_from (v64s z) (v64s y) = done (v64s (Value64S.copy_from z y))
  copy_from (v64u n) (v64u m) = done (v64u (Value64U.copy_from n m))
  copy_from (v32s z) (v32s y) = done (v32s (Value32S.copy_from z y))
  copy_from (v32u n) (v32u m) = done (v32u (Value32U.copy_from n m))
  copy_from (v16s z) (v16s y) = done (v16s (Value16S.copy_from z y))
  copy_from (v16u n) (v16u m) = done (v16u (Value16U.copy_from n m))
  copy_from (v8u n) (v8u m) = done (v8u (Value8U.copy_from n m))
  copy_from (v8s z) (v8s y) = done (v8s (Value8S.copy_from z y))
  copy_from (str s) (str t) = ValueStr.copy_from s t >>= λ r. done (str r)
  copy_from (arr vs) (arr ws) =
      copy_elements (ValueArr.new vs (ValueArr.count ws)) 0 ws >>= λ r. done (arr r)
  copy_from _ _ = fault

  pub copy_elements : Values → ℕ → Values → Outcome Values
  copy_elements array i nil = done array
  copy_elements array i (cons w ws) = copy_from (create_value (get_type w)) w >>= λ v.
      copy_elements (ValueArr.put array i v) (suc i) ws

-- A new object of the value's class, with the value copied into it.
unfoldable pub copy : Value → Outcome Value
copy v = copy_from (create_value (get_type v)) v
