-- ===== src/Base/Dict.antt =====
-- Go's `map[string]V` as an association list with one entry for each key.
use Prim.Native.String.{String}
use mathlib.Core.Path.{◌≡◌, refl}
use mathlib.Core.Bool.{Bool, true, false}
use mathlib.Core.Option.{Option, none, some}
use mathlib.Core.List.{List, [], ◌∷◌}
use native.Mathlib.Omega.{arith}
use text.Mathlib.Text.{◌==◌ as str_eq}
use text.Mathlib.TextEquality.{eq_iff}
use garmd.Base.Tests.{if◌then◌else◌}

abbrev pub Dict {ℓ} : Type ℓ → Type ℓ
Dict V = List (String × V)

module _ {ℓ} {V : Type ℓ} where
  unfoldable pub lookup : String → Dict V → Option V
  lookup k [] = none
  lookup k ((j, v) ∷ m) = if str_eq j k then some v else lookup k m

  unfoldable pub insert : String → V → Dict V → Dict V
  insert key new [] = (key, new) ∷ []
  insert key new ((old_key, old) ∷ entries) =
      if str_eq old_key key then (key, new) ∷ entries else (old_key, old) ∷ insert key new entries

  abbrev pub has_key : String → Dict V → Bool
  has_key k m = elim (lookup k m) [ none ↦ false | some v ↦ true ]

  -- A write shows at its key, and nowhere else.
  pub lookup-insert :
      (written read : String) (new : V) (entries : Dict V)
      → lookup read (insert written new entries)
        ≡ (if str_eq written read then some new else lookup read entries)
  unfolding insert lookup
  lookup-insert written read new ((key, old) ∷ entries) = ground (
    lookup-insert written read new entries,
    eq_iff key read,
    eq_iff key written,
    eq_iff written read,
    arith,
  )
  lookup-insert written read new [] = refl
