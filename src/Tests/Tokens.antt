-- ===== src/Tests/Tokens.antt =====
-- A delegated token, folded, and previews of the principal.
use garmd.Base.{◌≡◌, refl, Bool, true, false, String, none, some, [], ◌∷◌, All}
use garmd.Principal.{Principal, has, new_verb_set}
use garmd.Authn.{Enums, Claims, direct, acted, Level, outermost, levels, depth}
use garmd.Authn.Fold.{fold, entry, actor_of, execution_of}
use garmd.Authn.Fold.Narrows.{alone, fold-sees}
use garmd.Authn.Fold.Exact.{HoldsExactly, fold-HoldsExactly}
use garmd.Toolplane.{Core, sees}
use garmd.Base.Result.{ok}
use garmd.Toolplane.Narrow.{ShapeRequest, narrow}
use garmd.Toolplane.Narrow.Only.{narrow-sees}
use garmd.Tests.Toy.{toy, toy-IsLattice, pay, alice}

abbrev enums : Enums
enums = record { clearance_value = λ n. some 3; verb_value = λ n. some 3; kind_value = λ n. some 1 }

abbrev level : String → Level
level subject = record {
  issuer = "idp";
  subject = subject;
  tenant = "acme";
  id = "t1";
  audience = "garmd" ∷ [];
  expires_at = some 100;
  issued_at = some 0;
  garm = record {
    clearance = "SECRET";
    compartments = "finance" ∷ [];
    verbs = "WRITE" ∷ [];
    tool_sets = "payments" ∷ [];
    kind = "AGENT";
  };
  exec = none;
}

abbrev token : Claims
token = acted (level "alice") (direct (level "agent"))

abbrev folded : Principal Bool
folded = record {
  subject = "alice";
  actor = "agent";
  kind = 1;
  chain = record { subject = "alice"; kind = 1 } ∷ record { subject = "agent"; kind = 1 } ∷ [];
  tenant = "acme";
  clearance = 3;
  compartments = true;
  verbs = 8;
  token_id = "t1";
  execution = "";
  tool_sets = some ("payments" ∷ []);
}

abbrev core : Core Bool String
core = record {
  reg = "finance";
  plans = [];
  cards = [];
  need = (pay.full_method, true) ∷ [];
  tools = (pay.full_method, pay) ∷ [];
  has_fga = true;
  has_grants = true;
  has_notifier = false;
  audit_retention = some 0;
}

token_folds : fold toy enums "finance" token ≡ some (folded, [])
unfolding fold garmd.Authn.Fold.principal_of garmd.Authn.Fold.fold_chain garmd.Authn.Fold.fold_rest
    garmd.Authn.Fold.narrow_by garmd.Authn.Fold.enter garmd.Authn.Fold.verb_set_from_names
    new_verb_set
token_folds = refl

folded-sees : sees toy core folded pay ≡ true
unfolding sees has
folded-sees = refl

fold-sees_example :
    All (λ l. sees toy core (alone toy toy-IsLattice enums "finance" l) pay ≡ true) (levels token)
fold-sees_example =
    fold-sees toy toy-IsLattice enums "finance" core token folded [] pay token_folds folded-sees

fold-HoldsExactly_example : HoldsExactly toy toy-IsLattice enums "finance" folded (levels token)
fold-HoldsExactly_example =
    fold-HoldsExactly toy toy-IsLattice enums "finance" token folded [] token_folds

abbrev smaller_view : ShapeRequest
smaller_view = record {
  clearance = 2;
  has_clearance = true;
  compartments = [];
  verbs = [];
  tool_sets = "payments" ∷ [];
}

abbrev smaller : Principal Bool
smaller = record alice { clearance = 2; tool_sets = some ("payments" ∷ []) }

smaller_granted : narrow toy core (some alice) smaller_view ≡ ok smaller
unfolding narrow
smaller_granted = refl

smaller-sees : sees toy core smaller pay ≡ true
unfolding sees has
smaller-sees = refl

narrow-sees_example : sees toy core alice pay ≡ true
narrow-sees_example =
    narrow-sees toy toy-IsLattice core alice smaller smaller_view pay smaller_granted smaller-sees
