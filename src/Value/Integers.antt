-- ===== src/Value/Integers.antt =====
-- values/Value8S.cpp to values/Value64U.cpp: what the eight classes of numbers promise to Value.cpp.
use dowow_network.Prelude.{
  ℕ, zero, suc, [], ap, IfDone->>=, IfDone-done, ◌*◌, ◌^◌, ◌<◌, ◌≡◌, ◌≢◌, refl, subst, List, ◌∷◌,
  ◌++◌, All, length, arith, ltb, lt→ltb, if◌then◌else◌, Outcome, done, stuck, ◌>>=◌, IfDone,
  IfDone-if, IfDone-then,
}
use dowow_network.Prelude.Int.{ℤ, IsSigned, to_signed, to_signed-IsSigned}
use dowow_network.Prelude.Bytes.{IsByte, read_bytes, read_byte, read_le, from_le, from_le-lt}
use dowow_network.Value.Value8S
use dowow_network.Value.Value8U
use dowow_network.Value.Value16S
use dowow_network.Value.Value16U
use dowow_network.Value.Value32S
use dowow_network.Value.Value32U
use dowow_network.Value.Value64S
use dowow_network.Value.Value64U

-- The contract of a class of so many bytes, over its range and its functions.
pub record IsInteger {A : Type 0} (size : ℕ) (in_range : A → Type 0) (init : A)
    (deserialize : A → List ℕ → ℕ → Outcome (ℕ × A)) (serialize : A → List ℕ) (get_size : A → ℕ)
    : Type 0 where
  -- A new object is in range.
  pub begins : in_range init
  -- What is written has the size that is told.
  pub told : (v : A) → get_size v ≡ size
  pub written : (v : A) → length (serialize v) ≡ size
  -- It reads back, into any object and whatever follows it.
  pub back :
      (old v : A) (rest : List ℕ)
      → in_range v
      → deserialize old (serialize v ++ rest) size ≡ done (size, v)
  -- Too short a length leaves the object as it was.
  pub short :
      (old : A) (buf : List ℕ) (len : ℕ) → len < size → deserialize old buf len ≡ done (0, old)
  -- Whatever the bytes are, the number that is read is in range.
  pub kept :
      (old : A) (buf : List ℕ) (len : ℕ)
      → in_range old
      → All IsByte buf
      → IfDone (λ (r : ℕ × A). in_range r.1) (deserialize old buf len)
  pub ends : (old : A) (buf : List ℕ) (len : ℕ) → deserialize old buf len ≢ stuck

pub read_bytes-IsByte :
    (buf : List ℕ) (n : ℕ)
    → All IsByte buf
    → IfDone (λ bs. All IsByte bs × (length bs ≡ n)) (read_bytes buf n)
unfolding read_bytes
read_bytes-IsByte buf zero h = (tt, refl)
read_bytes-IsByte [] (suc n) h = tt
read_bytes-IsByte (b ∷ buf) (suc n) h = IfDone->>= _ (read_bytes buf n) _ (λ bs ran.
    let (bytes, size) = IfDone-done _ _ (read_bytes-IsByte buf n h.1) ran in
    ((h.0, bytes), ap suc size))

pub read_le-lt : (n : ℕ) (buf : List ℕ) → All IsByte buf → IfDone (λ v. v < 256 ^ n) (read_le n buf)
unfolding read_le
read_le-lt n buf h =
    IfDone->>= (λ v. v < 256 ^ n) (read_bytes buf n) _
      (λ bs ran.
        let (bytes, size) = IfDone-done _ _ (read_bytes-IsByte buf n h) ran in
        subst (λ k. from_le bs < 256 ^ k) size (from_le-lt bs bytes))

read_byte-IsByte : (i : ℕ) (buf : List ℕ) → All IsByte buf → IfDone IsByte (read_byte buf i)
unfolding read_byte
read_byte-IsByte zero [] h = tt
read_byte-IsByte zero (b ∷ buf) h = h.0
read_byte-IsByte (suc i) [] h = tt
read_byte-IsByte (suc i) (b ∷ buf) h = read_byte-IsByte i buf h.1

number_read :
    {A : Type 0} (P : A → Type 0) (old : A) (f : ℕ → A) (k len bound used : ℕ) (m : Outcome ℕ)
    → P old
    → IfDone (λ v. v < bound) m
    → ((v : ℕ) → v < bound → P (f v))
    → IfDone
        (λ (r : ℕ × A). P r.1)
        (if ltb len k then done (0, old) else (m >>= λ temp. done (used, f temp)))
number_read P old f k len bound used m h low each =
    IfDone-if _ (ltb len k) _ _ (λ short. h) (λ enough. IfDone-then (λ v. v < bound) _ m _ low each)

number_read-lt :
    (k used w old : ℕ) (buf : List ℕ) (len : ℕ)
    → 256 ^ k ≡ 2 ^ w
    → old < 2 ^ w
    → All IsByte buf
    → IfDone
        (λ (r : ℕ × ℕ). r.1 < 2 ^ w)
        (if ltb len k then done (0, old) else (read_le k buf >>= λ temp. done (used, temp)))
number_read-lt k used w old buf len e h bytes =
    number_read (λ n. n < 2 ^ w) old (λ v. v) k len (256 ^ k) used (read_le k buf) h
      (read_le-lt k buf bytes) (λ v low. subst (λ m. v < m) e low)

number_read-IsSigned :
    (k used half : ℕ) (old : ℤ) (buf : List ℕ) (len : ℕ)
    → 256 ^ k ≡ 2 * half
    → IsSigned half old
    → All IsByte buf
    → IfDone
        (λ (r : ℕ × ℤ). IsSigned half r.1)
        (if ltb len k
          then done (0, old)
          else (read_le k buf >>= λ temp. done (used, to_signed half temp)))
number_read-IsSigned k used half old buf len e h bytes =
    number_read (IsSigned half) old (to_signed half) k len (256 ^ k) used (read_le k buf) h
      (read_le-lt k buf bytes) (λ v low. to_signed-IsSigned half v (subst (λ m. v < m) e low))

pub v64s-IsInteger :
    IsInteger 8 Value64S.InRange Value64S.init Value64S.deserialize_internal
      Value64S.serialize_internal Value64S.get_size_internal
unfolding Value64S.deserialize_internal Value64S.get_size_internal
v64s-IsInteger = record {
  begins = omega arith;
  told = λ v. refl;
  written = Value64S.length-serialize_internal;
  back = Value64S.deserialize_internal-serialize_internal;
  short = λ old buf len h. rw (lt→ltb len 8 h) refl;
  kept = λ old buf len h bytes. number_read-IsSigned 8 8 (2 ^ 63) old buf len (omega arith) h bytes;
  ends = Value64S.deserialize_internal-ne-stuck;
}

pub v64u-IsInteger :
    IsInteger 8 Value64U.InRange Value64U.init Value64U.deserialize_internal
      Value64U.serialize_internal Value64U.get_size_internal
unfolding Value64U.deserialize_internal Value64U.get_size_internal
v64u-IsInteger = record {
  begins = omega arith;
  told = λ v. refl;
  written = Value64U.length-serialize_internal;
  back = Value64U.deserialize_internal-serialize_internal;
  short = λ old buf len h. rw (lt→ltb len 8 h) refl;
  kept = λ old buf len h bytes. number_read-lt 8 8 64 old buf len (omega arith) h bytes;
  ends = Value64U.deserialize_internal-ne-stuck;
}

pub v32s-IsInteger :
    IsInteger 4 Value32S.InRange Value32S.init Value32S.deserialize_internal
      Value32S.serialize_internal Value32S.get_size_internal
unfolding Value32S.deserialize_internal Value32S.get_size_internal
v32s-IsInteger = record {
  begins = omega arith;
  told = λ v. refl;
  written = Value32S.length-serialize_internal;
  back = Value32S.deserialize_internal-serialize_internal;
  short = λ old buf len h. rw (lt→ltb len 4 h) refl;
  kept = λ old buf len h bytes. number_read-IsSigned 4 4 (2 ^ 31) old buf len (omega arith) h bytes;
  ends = Value32S.deserialize_internal-ne-stuck;
}

pub v32u-IsInteger :
    IsInteger 4 Value32U.InRange Value32U.init Value32U.deserialize_internal
      Value32U.serialize_internal Value32U.get_size_internal
unfolding Value32U.deserialize_internal Value32U.get_size_internal
v32u-IsInteger = record {
  begins = omega arith;
  told = λ v. refl;
  written = Value32U.length-serialize_internal;
  back = Value32U.deserialize_internal-serialize_internal;
  short = λ old buf len h. rw (lt→ltb len 4 h) refl;
  kept = λ old buf len h bytes. number_read-lt 4 4 32 old buf len (omega arith) h bytes;
  ends = Value32U.deserialize_internal-ne-stuck;
}

pub v16s-IsInteger :
    IsInteger 2 Value16S.InRange Value16S.init Value16S.deserialize_internal
      Value16S.serialize_internal Value16S.get_size_internal
unfolding Value16S.deserialize_internal Value16S.get_size_internal
v16s-IsInteger = record {
  begins = omega arith;
  told = λ v. refl;
  written = Value16S.length-serialize_internal;
  back = Value16S.deserialize_internal-serialize_internal;
  short = λ old buf len h. rw (lt→ltb len 2 h) refl;
  kept = λ old buf len h bytes. number_read-IsSigned 2 2 (2 ^ 15) old buf len (omega arith) h bytes;
  ends = Value16S.deserialize_internal-ne-stuck;
}

pub v16u-IsInteger :
    IsInteger 2 Value16U.InRange Value16U.init Value16U.deserialize_internal
      Value16U.serialize_internal Value16U.get_size_internal
unfolding Value16U.deserialize_internal Value16U.get_size_internal
v16u-IsInteger = record {
  begins = omega arith;
  told = λ v. refl;
  written = Value16U.length-serialize_internal;
  back = Value16U.deserialize_internal-serialize_internal;
  short = λ old buf len h. rw (lt→ltb len 2 h) refl;
  kept = λ old buf len h bytes. number_read-lt 2 2 16 old buf len (omega arith) h bytes;
  ends = Value16U.deserialize_internal-ne-stuck;
}

pub v8s-IsInteger :
    IsInteger 1 Value8S.InRange Value8S.init Value8S.deserialize_internal Value8S.serialize_internal
      Value8S.get_size_internal
unfolding Value8S.deserialize_internal Value8S.get_size_internal
v8s-IsInteger = record {
  begins = omega arith;
  told = λ v. refl;
  written = Value8S.length-serialize_internal;
  back = Value8S.deserialize_internal-serialize_internal;
  short = λ old buf len h. rw (lt→ltb len 1 h) refl;
  kept = λ old buf len h bytes.
      number_read (IsSigned 128) old (to_signed 128) 1 len 256 1 _ h (read_byte-IsByte 0 buf bytes)
        (λ v low. to_signed-IsSigned 128 v low);
  ends = Value8S.deserialize_internal-ne-stuck;
}

pub v8u-IsInteger :
    IsInteger 1 Value8U.InRange Value8U.init Value8U.deserialize_internal Value8U.serialize_internal
      Value8U.get_size_internal
unfolding Value8U.deserialize_internal Value8U.get_size_internal
v8u-IsInteger = record {
  begins = omega arith;
  told = λ v. refl;
  written = Value8U.length-serialize_internal;
  back = Value8U.deserialize_internal-serialize_internal;
  short = λ old buf len h. rw (lt→ltb len 1 h) refl;
  kept = λ old buf len h bytes.
      number_read (λ b. b < 2 ^ 8) old (λ b. b) 1 len 256 1 _ h (read_byte-IsByte 0 buf bytes)
        (λ v low. omega arith);
  ends = Value8U.deserialize_internal-ne-stuck;
}

-- Each of the eight classes of numbers keeps one contract, for its number of bytes and the range of its
-- type. A new object is in range; what is written has the size that is told, and reads back as the same
-- number into any object and whatever follows it; too short a length leaves the object as it was; whatever
-- the bytes are, the number that is read is in range; and a read ends.
pub classes-IsInteger :
    IsInteger 8 Value64S.InRange Value64S.init Value64S.deserialize_internal
      Value64S.serialize_internal Value64S.get_size_internal
    × IsInteger 8 Value64U.InRange Value64U.init Value64U.deserialize_internal
        Value64U.serialize_internal Value64U.get_size_internal
    × IsInteger 4 Value32S.InRange Value32S.init Value32S.deserialize_internal
        Value32S.serialize_internal Value32S.get_size_internal
    × IsInteger 4 Value32U.InRange Value32U.init Value32U.deserialize_internal
        Value32U.serialize_internal Value32U.get_size_internal
    × IsInteger 2 Value16S.InRange Value16S.init Value16S.deserialize_internal
        Value16S.serialize_internal Value16S.get_size_internal
    × IsInteger 2 Value16U.InRange Value16U.init Value16U.deserialize_internal
        Value16U.serialize_internal Value16U.get_size_internal
    × IsInteger 1 Value8U.InRange Value8U.init Value8U.deserialize_internal
        Value8U.serialize_internal Value8U.get_size_internal
    × IsInteger 1 Value8S.InRange Value8S.init Value8S.deserialize_internal
        Value8S.serialize_internal Value8S.get_size_internal
classes-IsInteger = (
  v64s-IsInteger, v64u-IsInteger, v32s-IsInteger, v32u-IsInteger, v16s-IsInteger, v16u-IsInteger,
  v8u-IsInteger, v8s-IsInteger,
)
