-- ===== src/Value/Total.antt =====
-- Value.cpp and values/ValueArr.cpp: reading a value ends on every input.
use dowow_network.Prelude.{
  ℕ, zero, suc, ◌+◌, ◌-◌, ◌%◌, ◌<◌, ◌≤◌, ◌≢◌, List, length, drop, length-drop, Option, none, some,
  arith, Outcome, stuck, >>=-ne-stuck, if-ne-stuck, done-ne-stuck, ltb, ◌==◌,
}
use dowow_network.Prelude.Bytes.{
  u32_mod, read_byte, read_le, read_byte-ne-stuck, read_le-ne-stuck, read_le-length,
}
use dowow_network.Value.Data.{
  Value, Values, undefined, v64s, v32s, v16s, v8s, v64u, v32u, v16u, v8u, str, arr, nil,
  create_value, get_type,
}
use dowow_network.Value.ValueUndefined
use dowow_network.Value.ValueStr.Laws
use dowow_network.Value.ValueArr
use dowow_network.Value.ValueArr.{deserialize_loop, push_back}
use dowow_network.Value.Integers.{
  v64s-IsInteger, v64u-IsInteger, v32s-IsInteger, v32u-IsInteger, v16s-IsInteger, v16u-IsInteger,
  v8u-IsInteger, v8s-IsInteger,
}
use dowow_network.Value.Codec.{as_value, deserialize_internal, deserialize_at, deserialize}

as_value-ne-stuck :
    {A : Type 0} (c : A → Value) (r : Outcome (ℕ × A)) → r ≢ stuck → as_value c r ≢ stuck
as_value-ne-stuck c r h = >>=-ne-stuck r _ h (λ p _ e. cc)

-- What the calls for the elements need: they end on buffers of at most `room` bytes.
abbrev Ends : ℕ → (Value → List ℕ → ℕ → Outcome (ℕ × Value)) → Type 0
Ends room rec = (v : Value) (buf : List ℕ) (len : ℕ) → length buf ≤ room → rec v buf len ≢ stuck

deserialize_loop-ne-stuck :
    (rec : Value → List ℕ → ℕ → Outcome (ℕ × Value)) (i : ℕ) (buf : List ℕ) (len off : ℕ)
    (array : Values)
    → Ends (length buf) rec
    → deserialize_loop rec i buf len off array ≢ stuck
unfolding deserialize_loop
deserialize_loop-ne-stuck rec zero buf len off array ends = done-ne-stuck _
deserialize_loop-ne-stuck rec (suc i) buf len off array ends =
    if-ne-stuck (ltb len off) _ _ (done-ne-stuck _) (
      >>=-ne-stuck _ _
        (>>=-ne-stuck (read_byte buf off) _ (read_byte-ne-stuck buf off) (λ type _.
          ends (create_value type) (drop off buf) (len - off)
            (omega (arith, length-drop {0} off buf))))
        (λ r _. if-ne-stuck (r.0 == 0) _ _ (done-ne-stuck _) (
          deserialize_loop-ne-stuck rec i buf len ((off + r.0) % u32_mod) (push_back array r.1)
            ends)))

deserialize_internal-ne-stuck :
    (rec : Value → List ℕ → ℕ → Outcome (ℕ × Value)) (v : Value) (buf : List ℕ) (len : ℕ)
    → Ends (length buf) rec
    → deserialize_internal rec v buf len ≢ stuck
unfolding deserialize_internal ValueArr.deserialize_internal
deserialize_internal-ne-stuck rec (undefined bs) buf len ends =
    as_value-ne-stuck undefined _ (ValueUndefined.deserialize_internal-ne-stuck bs buf len)
deserialize_internal-ne-stuck rec (v64s z) buf len ends =
    as_value-ne-stuck v64s _ (v64s-IsInteger.ends z buf len)
deserialize_internal-ne-stuck rec (v64u n) buf len ends =
    as_value-ne-stuck v64u _ (v64u-IsInteger.ends n buf len)
deserialize_internal-ne-stuck rec (v32s z) buf len ends =
    as_value-ne-stuck v32s _ (v32s-IsInteger.ends z buf len)
deserialize_internal-ne-stuck rec (v32u n) buf len ends =
    as_value-ne-stuck v32u _ (v32u-IsInteger.ends n buf len)
deserialize_internal-ne-stuck rec (v16s z) buf len ends =
    as_value-ne-stuck v16s _ (v16s-IsInteger.ends z buf len)
deserialize_internal-ne-stuck rec (v16u n) buf len ends =
    as_value-ne-stuck v16u _ (v16u-IsInteger.ends n buf len)
deserialize_internal-ne-stuck rec (v8u n) buf len ends =
    as_value-ne-stuck v8u _ (v8u-IsInteger.ends n buf len)
deserialize_internal-ne-stuck rec (v8s z) buf len ends =
    as_value-ne-stuck v8s _ (v8s-IsInteger.ends z buf len)
deserialize_internal-ne-stuck rec (str s) buf len ends =
    as_value-ne-stuck str _ (Laws.deserialize_internal-ne-stuck s buf len)
deserialize_internal-ne-stuck rec (arr vs) buf len ends = as_value-ne-stuck arr _ (
    >>=-ne-stuck (read_le 4 buf) _ (read_le-ne-stuck 4 buf)
      (λ n _. deserialize_loop-ne-stuck rec n buf len 4 nil ends))

deserialize_at-ne-stuck :
    (fuel : ℕ) (v : Value) (buf : List ℕ) (len : ℕ)
    → length buf < fuel
    → deserialize_at fuel v buf len ≢ stuck
unfolding deserialize_at
deserialize_at-ne-stuck zero v buf len h = absurd (omega arith)
deserialize_at-ne-stuck (suc fuel) v buf len h = if-ne-stuck (ltb len 5) _ _ (done-ne-stuck _) (
    >>=-ne-stuck (read_byte buf 0) _ (read_byte-ne-stuck buf 0) (λ type _.
      if-ne-stuck (type == get_type v) _ _
        (>>=-ne-stuck (read_le 4 (drop 1 buf)) _ (read_le-ne-stuck 4 (drop 1 buf)) (λ size read.
          if-ne-stuck (ltb len ((size + 5) % u32_mod)) _ _ (done-ne-stuck _) (
            >>=-ne-stuck _ _
              (deserialize_internal-ne-stuck (deserialize_at fuel) v (drop 5 buf) size
                (λ w b l short. deserialize_at-ne-stuck fuel w b l (
                  omega (
                    arith,
                    length-drop {0} 5 buf,
                    length-drop {0} 1 buf,
                    read_le-length 4 (drop 1 buf) read,
                  ))))
              (λ r _. done-ne-stuck _))))
        (done-ne-stuck _)))

-- Whatever the object, the bytes and the length, the call returns or faults: the nesting that the
-- bytes of the buffer allow is all that is ever used.
pub deserialize-ne-stuck :
    (v : Value) (buf : Option (List ℕ)) (len : ℕ) → deserialize v buf len ≢ stuck
unfolding deserialize
deserialize-ne-stuck v none len = done-ne-stuck _
deserialize-ne-stuck v (some buf) len =
    deserialize_at-ne-stuck (suc (length buf)) v buf len (omega arith)
