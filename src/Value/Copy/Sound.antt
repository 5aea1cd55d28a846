-- ===== src/Value/Copy/Sound.antt =====
-- `CopyFrom` of the classes under values/: what holds of a copy.
use dowow_network.Prelude.{◌≤◌, length, arith}
use dowow_network.Value.Data.{
  Value, Values, undefined, v64s, v32s, v16s, v8s, v64u, v32u, v16u, v8u, str, arr, nil, cons,
}
use dowow_network.Value.Copy.{without_raw, all_without_raw}
use dowow_network.Value.Wire.{
  IsValid, AllValid, body, bodies, encode, length-encode, length-bodies-cons, length-body-arr,
}

-- A copy of a sound value is sound.
mutual
  unfolding IsValid without_raw

  pub without_raw-IsValid : (v : Value) → IsValid v → IsValid (without_raw v)
  without_raw-IsValid (undefined bs) h = tt
  without_raw-IsValid (arr vs) h = all_without_raw-AllValid vs h
  without_raw-IsValid (v64s z) h = h
  without_raw-IsValid (v64u n) h = h
  without_raw-IsValid (v32s z) h = h
  without_raw-IsValid (v32u n) h = h
  without_raw-IsValid (v16s z) h = h
  without_raw-IsValid (v16u n) h = h
  without_raw-IsValid (v8u n) h = h
  without_raw-IsValid (v8s z) h = h
  without_raw-IsValid (str s) h = h

  all_without_raw-AllValid : (vs : Values) → AllValid vs → AllValid (all_without_raw vs)
  all_without_raw-AllValid nil h = tt
  all_without_raw-AllValid (cons v vs) h =
      (without_raw-IsValid v h.0, all_without_raw-AllValid vs h.1)

-- The content of a copy is no longer than that of the value.
mutual
  unfolding body without_raw

  length-body-without_raw : (v : Value) → length (body (without_raw v)) ≤ length (body v)
  length-body-without_raw (undefined bs) = omega arith
  length-body-without_raw (arr vs) = omega (
    arith,
    length-body-arr vs,
    length-body-arr (all_without_raw vs),
    length-bodies-all_without_raw vs,
  )
  length-body-without_raw (v64s z) = omega arith
  length-body-without_raw (v64u n) = omega arith
  length-body-without_raw (v32s z) = omega arith
  length-body-without_raw (v32u n) = omega arith
  length-body-without_raw (v16s z) = omega arith
  length-body-without_raw (v16u n) = omega arith
  length-body-without_raw (v8u n) = omega arith
  length-body-without_raw (v8s z) = omega arith
  length-body-without_raw (str s) = omega arith

  length-bodies-all_without_raw :
      (vs : Values) → length (bodies (all_without_raw vs)) ≤ length (bodies vs)
  length-bodies-all_without_raw nil = omega arith
  length-bodies-all_without_raw (cons v vs) = omega (
    arith,
    length-bodies-cons v vs,
    length-bodies-cons (without_raw v) (all_without_raw vs),
    length-body-without_raw v,
    length-bodies-all_without_raw vs,
  )

pub length-encode-without_raw : (v : Value) → length (encode (without_raw v)) ≤ length (encode v)
length-encode-without_raw v =
    omega (arith, length-encode v, length-encode (without_raw v), length-body-without_raw v)
