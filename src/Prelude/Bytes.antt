-- ===== src/Prelude/Bytes.antt =====
-- Bytes in memory. A pointer is the list of bytes from where it points to the end of the
-- allocation, so that a read past the end is a fault; a host word is little-endian.
use dowow_network.Prelude.Tests.{ltb, ◌==◌, if◌then◌else◌}
use dowow_network.Prelude.Lists.{length, take, drop, All, length-take_le}
use dowow_network.Prelude.Outcomes.{Outcome, done, fault, stuck, ◌>>=◌}
use Prim.Native.Nat.{ℕ, zero, suc, ◌+◌, ◌*◌, ◌/◌, ◌%◌, ◌^◌, ◌≤◌, ◌<◌}
use mathlib.Core.Path.{◌≡◌, refl, ap}
use mathlib.Core.Logic.{◌≢◌, ◌↔◌}
use mathlib.Core.Bool.{Bool, true, false, ◌&&◌}
use mathlib.Core.List.{List, [], ◌∷◌, ◌++◌}
use native.Mathlib.Omega.{arith}
use native.Mathlib.Decide.{dec_lt}
use native.Mathlib.Nat.{pow-suc}

abbrev pub u16_mod : ℕ
u16_mod = 2 ^ 16

abbrev pub u32_mod : ℕ
u32_mod = 2 ^ 32

abbrev pub IsByte : ℕ → Type 0
IsByte b = b < 256

-- Copy `n` bytes from the pointer.
unfoldable pub read_bytes : List ℕ → ℕ → Outcome (List ℕ)
read_bytes buf zero = done []
read_bytes [] (suc n) = fault
read_bytes (b ∷ buf) (suc n) = read_bytes buf n >>= λ bs. done (b ∷ bs)

-- `buf[i]`.
unfoldable pub read_byte : List ℕ → ℕ → Outcome ℕ
read_byte buf i = elim (drop i buf) [ [] ↦ fault | b ∷ rest ↦ done b ]

-- The bytes of an `n`-byte word in little-endian order, `htole`, and the word that they make.
unfoldable pub le_bytes : ℕ → ℕ → List ℕ
le_bytes zero v = []
le_bytes (suc n) v = (v % 256) ∷ le_bytes n (v / 256)

unfoldable pub from_le : List ℕ → ℕ
from_le [] = 0
from_le (b ∷ bs) = b + 256 * from_le bs

-- `letoh` of the `n`-byte word at the pointer.
unfoldable pub read_le : ℕ → List ℕ → Outcome ℕ
read_le n buf = read_bytes buf n >>= λ bs. done (from_le bs)

-- `==` of two strings.
unfoldable pub bytes_eq : List ℕ → List ℕ → Bool
bytes_eq [] [] = true
bytes_eq (a ∷ as') (b ∷ bs) = a == b && bytes_eq as' bs
bytes_eq _ _ = false

pub read_bytes-append : (xs ys : List ℕ) → read_bytes (xs ++ ys) (length xs) ≡ done xs
unfolding read_bytes
read_bytes-append [] ys = refl
read_bytes-append (x ∷ xs) ys = rw (read_bytes-append xs ys)

pub read_bytes_self : (xs : List ℕ) → read_bytes xs (length xs) ≡ done xs
unfolding read_bytes
read_bytes_self [] = refl
read_bytes_self (x ∷ xs) = rw (read_bytes_self xs)

pub read_bytes-take : (buf : List ℕ) (n : ℕ) → n ≤ length buf → read_bytes buf n ≡ done (take n buf)
unfolding read_bytes
read_bytes-take buf zero h = refl
read_bytes-take [] (suc n) h = absurd (omega arith)
read_bytes-take (b ∷ buf) (suc n) h = rw (read_bytes-take buf n (omega arith))

pub read_bytes-fault : (buf : List ℕ) (n : ℕ) → length buf < n → read_bytes buf n ≡ fault
unfolding read_bytes
read_bytes-fault buf zero h = absurd (omega arith)
read_bytes-fault [] (suc n) h = refl
read_bytes-fault (b ∷ buf) (suc n) h = rw (read_bytes-fault buf n (omega arith))

pub read_bytes-ne-stuck : (buf : List ℕ) (n : ℕ) → read_bytes buf n ≢ stuck
unfolding read_bytes
read_bytes-ne-stuck buf zero e = cc
read_bytes-ne-stuck [] (suc n) e = cc
read_bytes-ne-stuck (b ∷ buf) (suc n) e = ground (arith, read_bytes-ne-stuck buf n)

pub read_byte-drop :
    (buf : List ℕ) (i b : ℕ) (bs : List ℕ) → drop i buf ≡ b ∷ bs → read_byte buf i ≡ done b
unfolding read_byte
read_byte-drop buf i b bs e = ground arith

pub read_byte-ne-stuck : (buf : List ℕ) (i : ℕ) → read_byte buf i ≢ stuck
unfolding read_byte
read_byte-ne-stuck buf i e = ground arith

pub read_le-ne-stuck : (n : ℕ) (buf : List ℕ) → read_le n buf ≢ stuck
unfolding read_le
read_le-ne-stuck n buf e = ground (arith, read_bytes-ne-stuck buf n)

-- A read that succeeds lies within the buffer.
pub read_bytes-length :
    (buf : List ℕ) (n : ℕ) {bs : List ℕ}
    → read_bytes buf n ≡ done bs
    → (n ≤ length buf) × (length bs ≡ n)
unfolding read_bytes
read_bytes-length buf n e = elim (dec_lt (length buf) n) [
  | yes short ↦ cc (read_bytes-fault buf n short)
  | no fits ↦
      ground (arith, read_bytes-take buf n (omega arith), length-take_le n buf (omega arith))
]

pub read_le-length : (n : ℕ) (buf : List ℕ) {v : ℕ} → read_le n buf ≡ done v → n ≤ length buf
unfolding read_le
read_le-length n buf e = elim (dec_lt (length buf) n) [
  | yes short ↦ cc (ap (λ r. r >>= λ bs. done (from_le bs)) (read_bytes-fault buf n short))
  | no fits ↦ omega arith
]

pub length-le_bytes : (n v : ℕ) → length (le_bytes n v) ≡ n
unfolding le_bytes
length-le_bytes zero v = refl
length-le_bytes (suc n) v = ap suc (length-le_bytes n (v / 256))

pub le_bytes-IsByte : (n v : ℕ) → All IsByte (le_bytes n v)
unfolding le_bytes
le_bytes-IsByte zero v = tt
le_bytes-IsByte (suc n) v = (omega arith, le_bytes-IsByte n (v / 256))

pub from_le-le_bytes : (n v : ℕ) → v < 256 ^ n → from_le (le_bytes n v) ≡ v
unfolding le_bytes from_le
from_le-le_bytes zero v h = omega arith
from_le-le_bytes (suc n) v h = omega (arith, from_le-le_bytes n (v / 256) (omega arith))

pub from_le-lt : (bs : List ℕ) → All IsByte bs → from_le bs < 256 ^ length bs
unfolding from_le
from_le-lt [] h = omega arith
from_le-lt (b ∷ bs) h = rw pow-suc (omega (arith, from_le-lt bs h.1))

-- A word that was written reads back, whatever follows it.
pub read_le-le_bytes :
    (n v : ℕ) (rest : List ℕ) → v < 256 ^ n → read_le n (le_bytes n v ++ rest) ≡ done v
unfolding read_le
read_le-le_bytes n v rest h =
    let word : read_bytes (le_bytes n v ++ rest) n ≡ done (le_bytes n v) =
      rw (length-le_bytes n v) at (read_bytes-append (le_bytes n v) rest) in
    rw word (ap done (from_le-le_bytes n v h))

pub bytes_eq_iff : (xs ys : List ℕ) → (bytes_eq xs ys ≡ true) ↔ (xs ≡ ys)
unfolding bytes_eq
bytes_eq_iff [] [] = ground arith
bytes_eq_iff (x ∷ xs) (y ∷ ys) = ground (arith, bytes_eq_iff xs ys)
bytes_eq_iff [] (y ∷ ys) = ground arith
bytes_eq_iff (x ∷ xs) [] = ground arith

-- A new buffer of `size` bytes, filled from its start by consecutive copies: a copy past its end is
-- a fault. (Where fewer bytes are written the rest of the buffer is not initialised, and is left out.)
unfoldable pub fill : ℕ → List ℕ → Outcome (List ℕ)
fill size bs = if ltb size (length bs) then fault else done bs
