-- ===== src/Base/Result.antt =====
-- A Go call that gives a value or an error, and the checks that end a function early.
use mathlib.Core.Path.{◌≡◌, refl}
use mathlib.Core.Bool.{Bool, true, false}
use mathlib.Core.Option.{Option, none, some}
use native.Mathlib.Omega.{arith}

pub data Result (E A : Type 0) : Type 0 where
  err : E → Result E A
  ok : A → Result E A

module _ {E : Type 0} where
  infixl 1 ◌>>=◌
  abbrev pub ◌>>=◌ : {A B : Type 0} → Result E A → (A → Result E B) → Result E B
  err failure >>= later = err failure
  ok value >>= later = later value

  abbrev pub or_fail : {A : Type 0} → Option A → E → Result E A
  or_fail none failure = err failure
  or_fail (some value) failure = ok value

  abbrev pub ensure : Bool → E → Result E (Unit {0})
  ensure false failure = err failure
  ensure true failure = ok tt

  -- A function that succeeds has passed its first call, and succeeds from there.
  pub passed :
      {Value Final : Type 0} (later : Value → Result E Final) (first : Result E Value)
      {final : Final}
      → (first >>= later) ≡ ok final
      → (value : Value) × (later value ≡ ok final) × (first ≡ ok value)
  passed later (err failure) success = absurd (ground arith)
  passed later (ok value) success = (value, success, refl)

  pub passed_or_fail :
      {Value : Type 0} (found : Option Value) (failure : E) {value : Value}
      → or_fail found failure ≡ ok value
      → found ≡ some value
  passed_or_fail none failure success = absurd (ground arith)
  passed_or_fail (some value) failure success = ground arith

  pub passed_ensure :
      (test : Bool) (failure : E) {done : Unit {0}} → ensure test failure ≡ ok done → test ≡ true
  passed_ensure true failure success = refl
  passed_ensure false failure success = absurd (ground arith)

  pub ok-inj : {A : Type 0} {a b : A} → ◌≡◌ {A = Result E A} (ok a) (ok b) → a ≡ b
  ok-inj e = ground arith
