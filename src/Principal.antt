-- ===== src/Principal.antt =====
-- internal/toolplane/principal.go: verb sets and principals.
pub mod Verbs
use Prim.Native.Nat.{bit_and, bit_or}
use garmd.Base.{
  ℕ, ◌%◌, ◌^◌, String, Bool, true, false, not, Option, List, [], ◌∷◌, ◌==◌, if◌then◌else◌,
}

-- `1 << uint(v)` as a uint8: it wraps to 0 from bit 8 up.
abbrev pub verb_bit : ℕ → ℕ
verb_bit v = 2 ^ v % 256

-- The loop of NewVerbSet over its accumulator.
unfoldable pub add_verbs : ℕ → List ℕ → ℕ
add_verbs out [] = out
add_verbs out (v ∷ vs) = add_verbs (if v == 0 then out else bit_or out (verb_bit v)) vs

unfoldable pub new_verb_set : List ℕ → ℕ
unfolding add_verbs
new_verb_set vs = add_verbs 0 vs

unfoldable pub has : ℕ → ℕ → Bool
has s v = if v == 0 then false else not (bit_and s (verb_bit v) == 0)

abbrev pub intersect : ℕ → ℕ → ℕ
intersect s o = bit_and s o

pub record ChainEntry : Type 0 where
  pub subject : String
  pub kind : ℕ

-- `tool_sets` is `none` for a nil slice: the session is not scoped.
pub record Principal (C : Type 0) : Type 0 where
  pub subject : String
  pub actor : String
  pub kind : ℕ
  pub chain : List ChainEntry
  pub tenant : String
  pub clearance : ℕ
  pub compartments : C
  pub verbs : ℕ
  pub token_id : String
  pub execution : String
  pub tool_sets : Option (List String)
