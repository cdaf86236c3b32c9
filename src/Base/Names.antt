-- ===== src/Base/Names.antt =====
-- Lists of names read as sets, the way the code's `contains` loops read them.
use Prim.Native.String.{String}
use mathlib.Core.Path.{◌≡◌, refl}
use mathlib.Core.Bool.{Bool, true, false, ◌&&◌, ◌||◌}
use mathlib.Core.List.{List, [], ◌∷◌, ◌++◌}
use native.Mathlib.Omega.{arith}
use text.Mathlib.Text.{◌==◌ as str_eq}
use text.Mathlib.TextEquality.{eq_iff}

abbrev pub contains : List String → String → Bool
contains [] s = false
contains (v ∷ ss) s = str_eq v s || contains ss s

-- Every name of the second list is in the first.
abbrev pub covers_names : List String → List String → Bool
covers_names have [] = true
covers_names have (n ∷ need) = contains have n && covers_names have need

pub covers_names→contains :
    (have need : List String) (s : String)
    → covers_names have need ≡ true
    → contains need s ≡ true
    → contains have s ≡ true
covers_names→contains have [] s c m = ground arith
covers_names→contains have (n ∷ need) s c m =
    ground (arith, eq_iff n s, covers_names→contains have need s)

pub covers_names-cons :
    (have need : List String) (v : String)
    → covers_names have need ≡ true
    → covers_names (v ∷ have) need ≡ true
covers_names-cons have [] v c = refl
covers_names-cons have (n ∷ need) v c = ground (arith, eq_iff v n, covers_names-cons have need v)

pub covers_names_refl : (ss : List String) → covers_names ss ss ≡ true
covers_names_refl [] = refl
covers_names_refl (v ∷ ss) =
    ground (arith, eq_iff v v, covers_names-cons ss ss v (covers_names_refl ss))

pub covers_names_trans :
    (a b c : List String)
    → covers_names a b ≡ true
    → covers_names b c ≡ true
    → covers_names a c ≡ true
covers_names_trans a b [] p q = refl
covers_names_trans a b (n ∷ c) p q =
    ground (arith, covers_names→contains a b n, covers_names_trans a b c)

pub contains-append :
    (xs ys : List String) (s : String) → contains (xs ++ ys) s ≡ (contains xs s || contains ys s)
contains-append [] ys s = refl
contains-append (x ∷ xs) ys s = ground (arith, contains-append xs ys s)
