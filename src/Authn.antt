-- ===== src/Authn.antt =====
-- internal/authn: the claims of a token (claims.go), as one level for each identity of the chain.
pub mod Fold
pub mod KeySet
pub mod Parse
pub mod Verify
use garmd.Base.{ℕ, suc, String, Option, none, some, List, [], ◌∷◌}

-- The generated enum maps `Clearance_value`, `Verb_value` and `PrincipalKind_value`.
pub record Enums : Type 0 where
  pub clearance_value : String → Option ℕ
  pub verb_value : String → Option ℕ
  pub kind_value : String → Option ℕ

pub record GarmClaims : Type 0 where
  pub clearance : String
  pub compartments : List String
  pub verbs : List String
  pub tool_sets : List String
  pub kind : String

pub record ExecClaim : Type 0 where
  pub subject : String
  pub issuer : String

-- The fields of a Claims node but `Act`. Times are seconds; `none` is the zero time.
pub record Level : Type 0 where
  pub issuer : String
  pub subject : String
  pub tenant : String
  pub id : String
  pub audience : List String
  pub expires_at : Option ℕ
  pub issued_at : Option ℕ
  pub garm : GarmClaims
  pub exec : Option ExecClaim

-- A node with a nil `Act`, or with the claims of the party that acts.
pub data Claims : Type 0 where
  direct : Level → Claims
  acted : Level → Claims → Claims

abbrev pub outermost : Claims → Level
outermost (direct l) = l
outermost (acted l act) = l

abbrev pub levels : Claims → List Level
levels (direct l) = l ∷ []
levels (acted l act) = l ∷ levels act

-- Depth: the subject and every actor.
unfoldable pub depth : Claims → ℕ
depth (direct l) = 1
depth (acted l act) = suc (depth act)
