-- ===== src/Prelude/Text.antt =====
-- Texts as the bytes that `std::string` holds, and `std::to_string`.
use dowow_network.Prelude.Tests.{ltb, if◌then◌else◌, Bool-cases}
use dowow_network.Prelude.Lists.{length, length-append}
use dowow_network.Prelude.Int.{ℤ, pos, negsuc}
use Prim.Native.Nat.{ℕ, zero, suc, ◌+◌, ◌/◌, ◌%◌, ◌≤◌}
use Prim.Native.Char.{code}
use Prim.Native.String.{String}
use mathlib.Core.Logic.{inl, inr}
use native.Mathlib.Omega.{arith}
use mathlib.Core.List.{List, [], ◌∷◌, ◌++◌}

-- The bytes of an ASCII text.
abbrev pub codes : String → List ℕ
codes String.[] = []
codes (String.◌∷◌ c s) = code c ∷ codes s

-- The decimal digits of a number of at most `fuel` digits.
unfoldable pub decimal : ℕ → ℕ → List ℕ
decimal zero n = []
decimal (suc fuel) n =
    let front = decimal fuel (n / 10) in
    if ltb n 10 then (b'0' + n) ∷ [] else front ++ ((b'0' + n % 10) ∷ [])

-- `std::to_string`: 20 digits are enough for 64 bits.
unfoldable pub to_string : ℕ → List ℕ
to_string n = decimal 20 n

pub length-decimal : (fuel n : ℕ) → length (decimal fuel n) ≤ fuel
unfolding decimal
length-decimal zero n = omega arith
length-decimal (suc fuel) n = elim (Bool-cases (ltb n 10)) [
  | inl last ↦ rw last (omega arith)
  | inr more ↦ rw more (
      omega (
        arith,
        length-append (decimal fuel (n / 10)) ((b'0' + n % 10) ∷ []),
        length-decimal fuel (n / 10),
      ))
]

unfoldable pub to_string_signed : ℤ → List ℕ
to_string_signed (pos n) = to_string n
to_string_signed (negsuc n) = b'-' ∷ to_string (n + 1)
