-- ===== src/Value/Copy.antt =====
-- `CopyFrom` of the classes under values/, into a new object of the value's class.
pub mod Sound
use dowow_network.Prelude.{ℕ, suc, ◌≡◌, refl, ap, List, [], arith, done}
use dowow_network.Value.Data.{
  Value, Values, undefined, v64s, v32s, v16s, v8s, v64u, v32u, v16u, v8u, str, arr, nil, cons,
  get_type, create_value,
}
use dowow_network.Value.ValueUndefined
use dowow_network.Value.ValueStr
use dowow_network.Value.ValueStr.Laws
use dowow_network.Value.ValueArr.{count, append, put, new, new_loop}
use dowow_network.Value.Value8S
use dowow_network.Value.Value8U
use dowow_network.Value.Value16S
use dowow_network.Value.Value16U
use dowow_network.Value.Value32S
use dowow_network.Value.Value32U
use dowow_network.Value.Value64S
use dowow_network.Value.Value64U
use dowow_network.Value.Codec.{copy_from, copy_elements, copy}
use dowow_network.Value.Wire.{IsValid, AllValid}

-- The value with the data of each undefined value in it taken away.
unfoldable mutual
  pub without_raw : Value → Value
  without_raw (undefined bs) = undefined []
  without_raw (arr vs) = arr (all_without_raw vs)
  without_raw (v64s z) = v64s z
  without_raw (v64u n) = v64u n
  without_raw (v32s z) = v32s z
  without_raw (v32u n) = v32u n
  without_raw (v16s z) = v16s z
  without_raw (v16u n) = v16u n
  without_raw (v8u n) = v8u n
  without_raw (v8s z) = v8s z
  without_raw (str s) = str s

  pub all_without_raw : Values → Values
  all_without_raw nil = nil
  all_without_raw (cons v vs) = cons (without_raw v) (all_without_raw vs)

-- The elements that are copied already, and those that `New` made and are still to be replaced.
put-append :
    (front : Values) (u v : Value) (us : Values)
    → put (append front (cons u us)) (count front) v ≡ append (append front (cons v nil)) us
unfolding put append count
put-append nil u v us = refl
put-append (cons w front) u v us = ap (cons w) (put-append front u v us)

count-append : (front : Values) (v : Value) → count (append front (cons v nil)) ≡ suc (count front)
unfolding count append
count-append nil v = refl
count-append (cons w front) v = ap suc (count-append front v)

append_assoc :
    (us : Values) (v : Value) (ws : Values)
    → append (append us (cons v nil)) ws ≡ append us (cons v ws)
unfolding append
append_assoc nil v ws = refl
append_assoc (cons u us) v ws = ap (cons u) (append_assoc us v ws)

copy_elements-cons :
    (front : Values) (w : Value) (ws : Values)
    → copy_from (create_value (get_type w)) w ≡ done (without_raw w)
    → copy_elements
        (append (append front (cons (without_raw w) nil)) (new_loop (count ws)))
        (count (append front (cons (without_raw w) nil)))
        ws
      ≡ done (append (append front (cons (without_raw w) nil)) (all_without_raw ws))
    → copy_elements (append front (new_loop (count (cons w ws)))) (count front) (cons w ws)
      ≡ done (append front (all_without_raw (cons w ws)))
unfolding copy_from without_raw count new_loop
copy_elements-cons front w ws one more =
    let rest = rw (count-append front (without_raw w)) at more in
    rw
      (
        one,
        put-append front (undefined []) (without_raw w) (new_loop (count ws)),
        rest,
        append_assoc front (without_raw w) (all_without_raw ws),
      )
      refl

copy_undefined : (bs : List ℕ) → ValueUndefined.copy_from [] bs ≡ done []
unfolding ValueUndefined.copy_from
copy_undefined bs = ground arith

copy_arr :
    (vs : Values)
    → copy_elements (append nil (new_loop (count vs))) (count nil) vs
      ≡ done (append nil (all_without_raw vs))
    → copy_from (arr nil) (arr vs) ≡ done (arr (all_without_raw vs))
unfolding copy_from append count new
copy_arr vs e = rw e refl

copy_nil :
    (front : Values)
    → copy_elements (append front (new_loop (count nil))) (count front) nil
      ≡ done (append front nil)
unfolding copy_from new_loop count
copy_nil front = refl

mutual
  unfolding copy_from without_raw create_value get_type IsValid ValueUndefined.copy_from
      Value8S.copy_from Value8U.copy_from Value16S.copy_from Value16U.copy_from Value32S.copy_from
      Value32U.copy_from Value64S.copy_from Value64U.copy_from

  copy_from-new :
      (v : Value) → IsValid v → copy_from (create_value (get_type v)) v ≡ done (without_raw v)
  copy_from-new (undefined bs) h = rw (copy_undefined bs)
  copy_from-new (v64s z) h = refl
  copy_from-new (v64u n) h = refl
  copy_from-new (v32s z) h = refl
  copy_from-new (v32u n) h = refl
  copy_from-new (v16s z) h = refl
  copy_from-new (v16u n) h = refl
  copy_from-new (v8u n) h = refl
  copy_from-new (v8s z) h = refl
  copy_from-new (str s) h = rw (Laws.copy_from-IsValid ValueStr.empty s h)
  copy_from-new (arr vs) h = copy_arr vs (copy_elements-new nil vs h)

  copy_elements-new :
      (front : Values) (ws : Values)
      → AllValid ws
      → copy_elements (append front (new_loop (count ws))) (count front) ws
        ≡ done (append front (all_without_raw ws))
  copy_elements-new front nil h = copy_nil front
  copy_elements-new front (cons w ws) h =
      copy_elements-cons front w ws (copy_from-new w h.0)
        (copy_elements-new (append front (cons (without_raw w) nil)) ws h.1)

-- A copy of a sound value is made without a fault; it is the value, but for the data of undefined
-- values, which is lost.
pub copy-without_raw : (v : Value) → IsValid v → copy v ≡ done (without_raw v)
unfolding copy
copy-without_raw v h = copy_from-new v h
