-- ===== src/Request/Wire.antt =====
-- Request.cpp: the format of a request, what `Serialize` writes and what `Deserialize` reads back.
use dowow_network.Prelude.{
  ℕ, zero, suc, ◌+◌, ◌-◌, ◌%◌, ◌<◌, ◌≡◌, refl, sym, ap, ◌∙◌, List, [], ◌∷◌, ◌++◌, All, length, drop,
  arith, done, length-append, append_assoc, append-nil, drop-append_of_length, drop-append,
  drop-add, le→ltb, lt→ltb, ltb, ◌==◌, false, true,
}
use dowow_network.Prelude.Bytes.{
  u16_mod, u32_mod, le_bytes, length-le_bytes, read_le, read_le-le_bytes, read_bytes-append,
  read_bytes_self, fill,
}
use dowow_network.Datum
use dowow_network.Datum.{Datum}
use dowow_network.Datum.Wire
use dowow_network.Datum.Wire.{length-datum, get_size-datum, serialize-datum, deserialize-datum}
use dowow_network.Request.{
  Request, get_size_loop, get_size, serialize_loop, serialize, deserialize_loop, deserialize_body,
  deserialize,
}

unfoldable pub encode_arguments : List Datum → List ℕ
encode_arguments [] = []
encode_arguments (d ∷ ds) = Wire.encode d ++ encode_arguments ds

-- The total length, the id, the name with its length, and the data.
unfoldable pub encode : Request → List ℕ
encode r =
    le_bytes 4 (10 + length r.name + length (encode_arguments r.arguments))
    ++ (le_bytes 4 r.id ++ (le_bytes 2 (length r.name) ++ (r.name ++ encode_arguments r.arguments)))

-- The id and the total length have 32 bits and the name's length 16.
pub record IsValid (r : Request) : Type 0 where
  pub named : length r.name < u16_mod
  pub numbered : r.id < u32_mod
  pub fits : 10 + length r.name + length (encode_arguments r.arguments) < u32_mod
  pub sound : All Wire.IsValid r.arguments

pub length-request :
    (r : Request) → length (encode r) ≡ 10 + length r.name + length (encode_arguments r.arguments)
unfolding encode
length-request r =
    let args = encode_arguments r.arguments in
    let total = 10 + length r.name + length args in
    omega (
      arith,
      length-append (le_bytes 4 total)
          (le_bytes 4 r.id ++ (le_bytes 2 (length r.name) ++ (r.name ++ args))),
      length-append (le_bytes 4 r.id) (le_bytes 2 (length r.name) ++ (r.name ++ args)),
      length-append (le_bytes 2 (length r.name)) (r.name ++ args),
      length-append r.name args,
      length-le_bytes 4 total,
      length-le_bytes 4 r.id,
      length-le_bytes 2 (length r.name),
    )

-- The format begins with its own length.
pub encode_total :
    (r : Request)
    → le_bytes 4 (length (encode r))
        ++ (le_bytes 4 r.id
            ++ (le_bytes 2 (length r.name) ++ (r.name ++ encode_arguments r.arguments)))
      ≡ encode r
encode_total r = rw (length-request r) (unfold encode in refl)

pub length-encode_arguments :
    (d : Datum) (ds : List Datum)
    → length (encode_arguments (d ∷ ds)) ≡ length (Wire.encode d) + length (encode_arguments ds)
unfolding encode_arguments
length-encode_arguments d ds = length-append (Wire.encode d) (encode_arguments ds)

get_size_loop-encode :
    (sum : ℕ) (ds : List Datum)
    → All Wire.IsValid ds
    → sum + length (encode_arguments ds) < u32_mod
    → get_size_loop sum ds ≡ sum + length (encode_arguments ds)
unfolding get_size_loop
get_size_loop-encode sum [] h fits = unfold encode_arguments in omega arith
get_size_loop-encode sum (d ∷ ds) h fits =
    let step : (sum + Datum.get_size d) % u32_mod ≡ sum + length (Wire.encode d) =
      omega (arith, get_size-datum d h.0, length-encode_arguments d ds) in
    rw step (
      get_size_loop-encode (sum + length (Wire.encode d)) ds h.1
        (omega (arith, length-encode_arguments d ds))
      ∙ omega (arith, length-encode_arguments d ds))

pub get_size-request : (r : Request) → IsValid r → get_size r ≡ length (encode r)
unfolding get_size
get_size-request r h =
    let start : (10 + length r.name) % u32_mod ≡ 10 + length r.name = omega arith in
    rw start (
      get_size_loop-encode (10 + length r.name) r.arguments h.sound h.fits ∙ sym (length-request r))

serialize_loop-encode :
    (ds : List Datum) → All Wire.IsValid ds → serialize_loop ds ≡ done (encode_arguments ds)
unfolding serialize_loop encode_arguments
serialize_loop-encode [] h = refl
serialize_loop-encode (d ∷ ds) h =
    rw
      (
        serialize-datum d h.0,
        get_size-datum d h.0,
        read_bytes_self (Wire.encode d),
        serialize_loop-encode ds h.1,
      )
      refl

-- A sound request, its name of less than 2^16 bytes, its id and the length of its format below
-- 2^32, is written in the format.
pub serialize-request : (r : Request) → IsValid r → serialize r ≡ done (encode r)
unfolding serialize
serialize-request r h =
    rw (serialize_loop-encode r.arguments h.sound, get_size-request r h, name_size) filled
  where
    name_size : length r.name % u16_mod ≡ length r.name
    name_size = omega arith

    filled :
        fill (length (encode r)) (
          le_bytes 4 (length (encode r))
          ++ (le_bytes 4 r.id
              ++ (le_bytes 2 (length r.name) ++ (r.name ++ encode_arguments r.arguments))))
        ≡ done (encode r)
    filled =
        unfold fill in
        rw (encode_total r) (rw (le→ltb (length (encode r)) (length (encode r)) (omega arith)) refl)

deserialize_loop-encode :
    (fuel : ℕ) (ds acc : List Datum) (rest buf : List ℕ) (data_size i : ℕ)
    → All Wire.IsValid ds
    → drop i buf ≡ encode_arguments ds ++ rest
    → i + length (encode_arguments ds) ≡ data_size
    → data_size < u32_mod
    → length (encode_arguments ds) < fuel
    → deserialize_loop fuel buf data_size i acc ≡ done (data_size, acc ++ ds)
unfolding deserialize_loop
deserialize_loop-encode zero ds acc rest buf data_size i h at size wide enough =
    absurd (omega arith)
deserialize_loop-encode (suc fuel) [] acc rest buf data_size i h at size wide enough =
    let over : i ≡ data_size = unfold encode_arguments in omega arith in
    rw (le→ltb i data_size (omega arith), over, append-nil) refl
deserialize_loop-encode (suc fuel) (d ∷ ds) acc rest buf data_size i h at size wide enough =
    let sized = length-encode_arguments d ds in
    let nonempty = length-datum d in
    let inside : ltb i data_size ≡ true = lt→ltb i data_size (omega arith) in
    let used : (length (Wire.encode d) == 0) ≡ false = ground arith in
    let next : (i + length (Wire.encode d)) % u32_mod ≡ i + length (Wire.encode d) = omega arith in
    let front : drop i buf ≡ Wire.encode d ++ (encode_arguments ds ++ rest) =
      at ∙ (unfold encode_arguments in append_assoc (Wire.encode d) (encode_arguments ds) rest) in
    let datum =
      deserialize-datum d (encode_arguments ds ++ rest) h.0 Datum.init (data_size - i)
        (omega arith) in
    let behind : drop (i + length (Wire.encode d)) buf ≡ encode_arguments ds ++ rest =
      drop-add i (length (Wire.encode d)) buf
      ∙ rw front (drop-append (Wire.encode d) (encode_arguments ds ++ rest)) in
    rw (inside, front, datum, used, next)
      (deserialize_loop-encode fuel ds (acc ++ d ∷ []) rest buf data_size
          (i + length (Wire.encode d)) h.1 behind (omega arith) wide (omega arith)
        ∙ ap (λ es. done (data_size, es)) (append_assoc acc (d ∷ []) ds))

-- The fields of the header, and where the parts stand.
module _ (r : Request) (rest : List ℕ) (h : IsValid r) where
  shape :
      encode r ++ rest
      ≡ le_bytes 4 (length (encode r))
        ++ (le_bytes 4 r.id
            ++ (le_bytes 2 (length r.name) ++ (r.name ++ (encode_arguments r.arguments ++ rest))))
  shape = ap (λ bs. bs ++ rest) (sym (encode_total r)) ∙ simp append_assoc

  drop_total :
      drop 4 (encode r ++ rest)
      ≡ le_bytes 4 r.id
        ++ (le_bytes 2 (length r.name) ++ (r.name ++ (encode_arguments r.arguments ++ rest)))
  drop_total = rw shape (drop-append_of_length 4 (le_bytes 4 _) _ (length-le_bytes 4 _))

  drop_id :
      drop 8 (encode r ++ rest)
      ≡ le_bytes 2 (length r.name) ++ (r.name ++ (encode_arguments r.arguments ++ rest))
  drop_id =
      drop-add 4 4 (encode r ++ rest)
      ∙ rw drop_total (drop-append_of_length 4 (le_bytes 4 _) _ (length-le_bytes 4 _))

  drop_header : drop 10 (encode r ++ rest) ≡ r.name ++ (encode_arguments r.arguments ++ rest)
  drop_header =
      drop-add 8 2 (encode r ++ rest)
      ∙ rw drop_id (drop-append_of_length 2 (le_bytes 2 _) _ (length-le_bytes 2 _))

  drop_name : drop (10 + length r.name) (encode r ++ rest) ≡ encode_arguments r.arguments ++ rest
  drop_name = drop-add 10 (length r.name) (encode r ++ rest) ∙ rw drop_header (drop-append r.name _)

  read_total : read_le 4 (encode r ++ rest) ≡ done (length (encode r))
  read_total = rw shape (read_le-le_bytes 4 (length (encode r)) _ (omega (arith, length-request r)))

  read_id : read_le 4 (drop 4 (encode r ++ rest)) ≡ done r.id
  read_id = rw drop_total (read_le-le_bytes 4 r.id _ (omega arith))

  read_name_length : read_le 2 (drop 8 (encode r ++ rest)) ≡ done (length r.name)
  read_name_length = rw drop_id (read_le-le_bytes 2 (length r.name) _ (omega arith))

  body_read :
      deserialize_body (encode r ++ rest) (length (encode r)) r.id (length r.name)
      ≡ done (length (encode r), r)
  unfolding deserialize_body
  body_read =
      let args =
        deserialize_loop-encode (suc (length (encode r))) r.arguments [] rest (encode r ++ rest)
          (length (encode r)) (10 + length r.name) h.sound drop_name (sym (length-request r))
          (omega (arith, length-request r)) (omega (arith, length-request r)) in
      rw (drop_header, read_bytes-append r.name (encode_arguments r.arguments ++ rest), args) refl

  -- The bytes of a sound request, its name of less than 2^16 bytes, its id and the length of its
  -- format below 2^32, are read back into any request, whatever follows them.
  pub deserialize-request :
      (old : Request)
      → deserialize old (encode r ++ rest) (length (encode r)) ≡ done (length (encode r), r)
  unfolding deserialize
  deserialize-request old =
      let size = length-request r in
      let long : ltb (length (encode r)) 10 ≡ false = le→ltb _ 10 (omega arith) in
      let total : ltb (length (encode r)) (length (encode r)) ≡ false = le→ltb _ _ (omega arith) in
      let name : ltb (length (encode r)) (length r.name) ≡ false = le→ltb _ _ (omega arith) in
      rw (long, read_total, read_id, read_name_length, total, name) body_read
