-- ===== src/Base/Refines.antt =====
-- A call that keeps a state, against one that describes its answer without the state.
use mathlib.Core.Path.{◌≡◌, refl, subst}
use garmd.Base.Result.{Result, ok, err, ◌>>=◌}

-- The same answer or the same error, and a state that is well-formed after an answer.
abbrev pub Refines : {E X S : Type 0} → (S → Type 0) → Result E (X × S) → Result E X → Type 0
Refines Ok (err e) (err f) = e ≡ f
Refines Ok (err e) (ok x) = ⊥
Refines Ok (ok (y, s)) (err f) = ⊥
Refines Ok (ok (y, s)) (ok x) = (y ≡ x) × Ok s

module _ {E X S : Type 0} (Ok : S → Type 0) where
  -- After a call that both make.
  pub Refines-bind :
      {A : Type 0} (first : Result E A) (f : A → Result E (X × S)) (g : A → Result E X)
      → ((a : A) → first ≡ ok a → Refines Ok (f a) (g a))
      → Refines Ok (first >>= f) (first >>= g)
  Refines-bind (err e) f g each = refl
  Refines-bind (ok a) f g each = each a refl

  -- After a call that refines what the other makes.
  pub Refines-then :
      {Y : Type 0} (r : Result E (Y × S)) (s : Result E Y) (f : Y × S → Result E (X × S))
      (g : Y → Result E X)
      → Refines Ok r s
      → ((y : Y) (now : S) → Ok now → Refines Ok (f (y, now)) (g y))
      → Refines Ok (r >>= f) (s >>= g)
  Refines-then (err e) (err e') f g h each = h
  Refines-then (err e) (ok x) f g h each = absurd h
  Refines-then (ok y) (err e) f g h each = absurd h
  Refines-then (ok (y, now)) (ok x) f g h each =
      subst (λ z. Refines Ok (f (y, now)) (g z)) (h.0) (each y now (h.1))
