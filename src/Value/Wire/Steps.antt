-- ===== src/Value/Wire/Steps.antt =====
-- One step of `Deserialize` over a value's format: its metadata, and an element of an array.
use dowow_network.Prelude.{
  ℕ, suc, ◌+◌, ◌-◌, ◌%◌, ◌<◌, ◌≤◌, ◌≡◌, refl, ◌∙◌, List, ◌∷◌, ◌++◌, length, drop, arith, Outcome,
  done, append_assoc, drop-append, ltb, le→ltb, ◌==◌, false, ==_refl,
}
use dowow_network.Prelude.Bytes.{
  u32_mod, le_bytes, length-le_bytes, read_byte-drop, read_byte, read_le, read_le-le_bytes,
}
use dowow_network.Value.Data.{
  Value, Values, undefined, v64s, v32s, v16s, v8s, v64u, v32u, v16u, v8u, str, arr, nil, cons,
  get_type, create_value,
}
use dowow_network.Value.ValueArr.{count, append, push_back, deserialize_loop}
use dowow_network.Value.Codec.{deserialize_internal, deserialize_at}
use dowow_network.Value.Wire.{body, bodies, encode, length-encode, length-bodies-cons}

create_value-get_type : (v : Value) → get_type (create_value (get_type v)) ≡ get_type v
unfolding create_value get_type
create_value-get_type (undefined bs) = refl
create_value-get_type (v64s z) = refl
create_value-get_type (v64u n) = refl
create_value-get_type (v32s z) = refl
create_value-get_type (v32u n) = refl
create_value-get_type (v16s z) = refl
create_value-get_type (v16u n) = refl
create_value-get_type (v8u n) = refl
create_value-get_type (v8s z) = refl
create_value-get_type (str s) = refl
create_value-get_type (arr vs) = refl

pub append-nil_right : (vs : Values) → append vs nil ≡ vs
unfolding append
append-nil_right nil = refl
append-nil_right (cons v vs) = rw (append-nil_right vs)

pub append-push_back :
    (vs : Values) (w : Value) (ws : Values) → append (push_back vs w) ws ≡ append vs (cons w ws)
unfolding push_back append
append-push_back nil w ws = refl
append-push_back (cons v vs) w ws = rw (append-push_back vs w ws)

-- One round of the loop over the elements.
loop_step :
    (rec : Value → List ℕ → ℕ → Outcome (ℕ × Value)) (i : ℕ) (buf : List ℕ) (len off n : ℕ)
    (acc : Values) (v : Value) (bs : List ℕ)
    → drop off buf ≡ get_type v ∷ bs
    → off ≤ len
    → rec (create_value (get_type v)) (get_type v ∷ bs) (len - off) ≡ done (n, v)
    → 0 < n
    → off + n < u32_mod
    → deserialize_loop rec (suc i) buf len off acc
      ≡ deserialize_loop rec i buf len (off + n) (push_back acc v)
unfolding deserialize_loop
loop_step rec i buf len off n acc v bs at_v inside element some_bytes fits =
    let nonzero : (n == 0) ≡ false = ground arith in
    let next : (off + n) % u32_mod ≡ off + n = omega arith in
    rw
      (
        le→ltb len off inside,
        read_byte-drop buf off (get_type v) bs at_v,
        at_v,
        element,
        nonzero,
        next,
      )
      refl

drop_metadata : (v : Value) (rest : List ℕ) → drop 5 (encode v ++ rest) ≡ body v ++ rest
unfolding encode
drop_metadata v rest =
    let front : List ℕ = le_bytes 4 (length (body v)) in
    let back : drop (length front) (front ++ (body v ++ rest)) ≡ body v ++ rest =
      drop-append front (body v ++ rest) in
    rw append_assoc (rw (length-le_bytes 4 (length (body v))) at back)

read_size :
    (v : Value) (rest : List ℕ)
    → length (encode v) < u32_mod
    → read_le 4 (drop 1 (encode v ++ rest)) ≡ done (length (body v))
unfolding encode
read_size v rest fits =
    rw append_assoc
      (read_le-le_bytes 4 (length (body v)) (body v ++ rest) (omega (arith, length-encode v)))

-- `Value::Deserialize` once the content is known to be read back.
pub deserialize_at_step :
    (fuel : ℕ) (v : Value) (rest : List ℕ) (len : ℕ)
    → deserialize_internal
        (deserialize_at fuel)
        (create_value (get_type v))
        (body v ++ rest)
        (length (body v))
      ≡ done (length (body v), v)
    → length (encode v) ≤ len
    → len < u32_mod
    → deserialize_at (suc fuel) (create_value (get_type v)) (encode v ++ rest) len
      ≡ done (length (encode v), v)
unfolding deserialize_at
deserialize_at_step fuel v rest len content fits wide =
    let long : ltb len 5 ≡ false = le→ltb len 5 (omega (arith, length-encode v)) in
    let room : ltb len ((length (body v) + 5) % u32_mod) ≡ false =
      le→ltb len _ (omega (arith, length-encode v)) in
    let used : (length (body v) + 5) % u32_mod ≡ length (encode v) =
      omega (arith, length-encode v) in
    rw
      (
        long,
        read_type,
        create_value-get_type v,
        ==_refl (get_type v),
        read_size v rest (omega arith),
        room,
        drop_metadata v rest,
        content,
        used,
      )
      refl
  where
    read_type : read_byte (encode v ++ rest) 0 ≡ done (get_type v)
    read_type = unfold encode read_byte in refl

-- The loop over the elements, once the content of the first is known to be read back.
pub loop-cons :
    (fuel : ℕ) (v : Value) (vs : Values) (rest buf : List ℕ) (len off : ℕ) (acc : Values)
    → drop off buf ≡ encode v ++ (bodies vs ++ rest)
    → off + length (bodies (cons v vs)) ≤ len
    → len < u32_mod
    → deserialize_internal
        (deserialize_at fuel)
        (create_value (get_type v))
        (body v ++ (bodies vs ++ rest))
        (length (body v))
      ≡ done (length (body v), v)
    → deserialize_loop (deserialize_at (suc fuel)) (suc (count vs)) buf len off acc
      ≡ deserialize_loop
          (deserialize_at (suc fuel))
          (count vs)
          buf
          len
          (off + length (encode v))
          (push_back acc v)
loop-cons fuel v vs rest buf len off acc at_v fits wide content =
    loop_step (deserialize_at (suc fuel)) (count vs) buf len off (length (encode v)) acc v
      (tail_of v ++ (bodies vs ++ rest)) (at_v ∙ split) (omega arith)
      (rw (← split) (
        deserialize_at_step fuel v (bodies vs ++ rest) (len - off) content
          (omega (arith, length-bodies-cons v vs, length-encode v)) (omega arith)))
      (omega (arith, length-encode v)) (omega (arith, length-bodies-cons v vs, length-encode v))
  where
    tail_of : Value → List ℕ
    tail_of v = le_bytes 4 (length (body v)) ++ body v

    split : encode v ++ (bodies vs ++ rest) ≡ get_type v ∷ (tail_of v ++ (bodies vs ++ rest))
    split = unfold encode in refl
