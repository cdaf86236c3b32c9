-- ===== src/Base/Decimal.antt =====
-- strconv.FormatUint in base 10.
use Prim.Native.String.{String, ◌++◌ as joined}
use Prim.Native.Nat.{ℕ, zero, suc, ◌/◌, ◌%◌}
use mathlib.Core.Path.{◌≡◌, refl}
use mathlib.Core.List.{List, [], ◌∷◌}
use garmd.Base.Tests.{ltb, if◌then◌else◌}

abbrev nth_text : ℕ → List String → String
nth_text n [] = ""
nth_text zero (s ∷ ss) = s
nth_text (suc n) (s ∷ ss) = nth_text n ss

abbrev digit : ℕ → String
digit n = nth_text n ("0" ∷ "1" ∷ "2" ∷ "3" ∷ "4" ∷ "5" ∷ "6" ∷ "7" ∷ "8" ∷ "9" ∷ [])

-- One digit for each round and for the last.
unfoldable pub decimal_in : ℕ → ℕ → String
decimal_in zero n = digit (n % 10)
decimal_in (suc rounds) n =
    let high = decimal_in rounds (n / 10) in
    if ltb n 10 then digit n else joined high (digit (n % 10))

-- A 64-bit number has at most 20 digits.
abbrev pub decimal : ℕ → String
unfolding decimal_in
decimal n = decimal_in 19 n

decimal_of_three_digits : decimal 405 ≡ "405"
unfolding decimal_in
decimal_of_three_digits = refl
