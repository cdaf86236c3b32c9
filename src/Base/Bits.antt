-- ===== src/Base/Bits.antt =====
-- Single bits of a number, and how the native `bit_and` and `bit_or` act on them.
use Prim.Native.Nat.{
  ℕ, zero, suc, ◌+◌, ◌*◌, ◌/◌, ◌%◌, ◌^◌, ◌≤◌, min, max, bit_and, bit_or, digits, bit_and-bitwise,
  bit_or-bitwise,
}
use Prim.Native.Nat.pow
use mathlib.Core.Path.{◌≡◌, refl, ap, ◌∙◌}
use mathlib.Core.Bool.{false, ◌&&◌, ◌||◌, Bool}
use native.Mathlib.Omega.{arith}
use garmd.Base.Tests.{◌==◌, if◌then◌else◌}

-- Bit `v` of `a`.
abbrev pub test_bit : ℕ → ℕ → Bool
test_bit a zero = a % 2 == 1
test_bit a (suc v) = test_bit (a / 2) v

-- `bit_and` stands for a recursion on fuel; any fuel from the first argument up gives one value.
and_fuel :
    (n m a b : ℕ) → a ≤ n → a ≤ m → digits (λ b. zero) min n a b ≡ digits (λ b. zero) min m a b
and_fuel zero zero a b p q = refl
and_fuel zero (suc m) zero b p q = refl
and_fuel zero (suc m) (suc a) b p q = absurd (omega arith)
and_fuel (suc n) zero zero b p q = refl
and_fuel (suc n) zero (suc a) b p q = absurd (omega arith)
and_fuel (suc n) (suc m) zero b p q = refl
and_fuel (suc n) (suc m) (suc a) b p q =
    omega (arith, and_fuel n m (suc a / 2) (b / 2) (omega arith) (omega arith))

bit_and_zero_left : (b : ℕ) → bit_and 0 b ≡ 0
bit_and_zero_left b = bit_and-bitwise 0 b

bit_and-halves : (x y : ℕ) → bit_and x y ≡ min (x % 2) (y % 2) + 2 * bit_and (x / 2) (y / 2)
bit_and-halves zero y = omega (bit_and_zero_left (y / 2), bit_and_zero_left y, arith)
bit_and-halves (suc x) y = omega (
  and_fuel x (suc x / 2) (suc x / 2) (y / 2) (omega arith) (omega arith),
  bit_and-bitwise (suc x / 2) (y / 2),
  bit_and-bitwise (suc x) y,
  arith,
)

or_fuel : (n m a b : ℕ) → a ≤ n → a ≤ m → digits (λ b. b) max n a b ≡ digits (λ b. b) max m a b
or_fuel zero zero a b p q = refl
or_fuel zero (suc m) zero b p q = refl
or_fuel zero (suc m) (suc a) b p q = absurd (omega arith)
or_fuel (suc n) zero zero b p q = refl
or_fuel (suc n) zero (suc a) b p q = absurd (omega arith)
or_fuel (suc n) (suc m) zero b p q = refl
or_fuel (suc n) (suc m) (suc a) b p q =
    omega (arith, or_fuel n m (suc a / 2) (b / 2) (omega arith) (omega arith))

bit_or_zero_left : (b : ℕ) → bit_or 0 b ≡ b
bit_or_zero_left b = bit_or-bitwise 0 b

bit_or-halves : (a b : ℕ) → bit_or a b ≡ bit_or (a / 2) (b / 2) * 2 + max (a % 2) (b % 2)
bit_or-halves zero b = omega (arith, bit_or_zero_left b, bit_or_zero_left (b / 2))
bit_or-halves (suc a) b = omega (
  arith,
  bit_or-bitwise (suc a) b,
  bit_or-bitwise (suc a / 2) (b / 2),
  or_fuel a (suc a / 2) (suc a / 2) (b / 2) (omega arith) (omega arith),
)

-- `a & b` has the bits that both have.
pub test_bit-bit_and : (v a b : ℕ) → test_bit (bit_and a b) v ≡ (test_bit a v && test_bit b v)
test_bit-bit_and zero a b = ground (arith, bit_and-halves a b)
test_bit-bit_and (suc v) a b =
    ap (λ x. test_bit x v) (omega (arith, bit_and-halves a b)) ∙ test_bit-bit_and v (a / 2) (b / 2)

-- `a | b` has the bits that either has.
pub test_bit-bit_or : (v a b : ℕ) → test_bit (bit_or a b) v ≡ (test_bit a v || test_bit b v)
test_bit-bit_or zero a b = ground (arith, bit_or-halves a b)
test_bit-bit_or (suc v) a b =
    ap (λ x. test_bit x v) (omega (arith, bit_or-halves a b)) ∙ test_bit-bit_or v (a / 2) (b / 2)

pub bit_and_zero_right : (v a : ℕ) → a ≤ v → bit_and a 0 ≡ 0
bit_and_zero_right v zero h = bit_and_zero_left 0
bit_and_zero_right zero (suc a) h = absurd (omega arith)
bit_and_zero_right (suc v) (suc a) h =
    omega (arith, bit_and-halves (suc a) 0, bit_and_zero_right v (suc a / 2) (omega arith))

-- A mask of one bit leaves that bit.
pub bit_and-pow : (v a : ℕ) → bit_and a (2 ^ v) ≡ (if test_bit a v then 2 ^ v else 0)
bit_and-pow zero a =
    ground (arith, bit_and-halves a 1, bit_and_zero_right (a / 2) (a / 2) (omega arith))
bit_and-pow (suc v) a =
    ground (arith, bit_and-halves a (2 ^ suc v), bit_and-pow v (a / 2), pow.suc 2 v)

pub test_bit_zero : (w : ℕ) → test_bit 0 w ≡ false
test_bit_zero zero = refl
test_bit_zero (suc w) = test_bit_zero w

pub test_bit-pow : (v w : ℕ) → test_bit (2 ^ v) w ≡ (v == w)
test_bit-pow zero zero = refl
test_bit-pow zero (suc w) = ground (arith, test_bit_zero w)
test_bit-pow (suc v) zero = ground (arith, pow.suc 2 v)
test_bit-pow (suc v) (suc w) =
    ap (λ x. test_bit x w) (omega (arith, pow.suc 2 v)) ∙ test_bit-pow v w ∙ ground arith
