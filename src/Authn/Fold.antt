-- ===== src/Authn/Fold.antt =====
-- internal/authn/principal.go: a delegation chain folded into the one authority that it carries.
pub mod Sets
pub mod Narrows
pub mod Exact
use garmd.Base.{
  ℕ, String, Bool, true, false, Option, none, some, List, [], ◌∷◌, ◌++◌, ltb, str_eq, if◌then◌else◌,
  contains,
}
use Prim.Native.String as Text
use garmd.Policy.{Policy}
use garmd.Principal.{Principal, ChainEntry, new_verb_set, intersect}
use garmd.Authn.{Enums, Claims, direct, acted, Level, ExecClaim, depth, outermost}

abbrev pub max_delegation_depth : ℕ
max_delegation_depth = 4

-- The loop of intersectSets: what of `have` is also in `add`.
unfoldable pub keep_common : List String → List String → List String
keep_common [] add = []
keep_common (h ∷ have) add =
    let rest = keep_common have add in if contains add h then h ∷ rest else rest

-- A nil scope, and an added one with no names, set no limit.
unfoldable pub intersect_sets : Option (List String) → List String → Option (List String)
unfolding keep_common
intersect_sets have [] = have
intersect_sets none (a ∷ add) = some (a ∷ add)
intersect_sets (some have) (a ∷ add) = some (keep_common have (a ∷ add))

-- A map read with comma-ok, or its zero value.
abbrev pub or_zero : Option ℕ → ℕ
or_zero none = 0
or_zero (some v) = v

module _ (enums : Enums) where
  abbrev pub kind_from_name : String → ℕ
  kind_from_name name = if str_eq name "" then 0 else or_zero (enums.kind_value name)

  -- One verb name: as it stands, or with the `VERB_` prefix.
  abbrev pub verb_from_name : String → Option ℕ
  verb_from_name n = elim (enums.verb_value n) [
    | none ↦ enums.verb_value (Text.◌++◌ "VERB_" n)
    | some v ↦ some v
  ]

  abbrev pub known_verbs : List String → List ℕ
  known_verbs [] = []
  known_verbs (n ∷ names) =
      let rest = known_verbs names in elim (verb_from_name n) [ none ↦ rest | some v ↦ v ∷ rest ]

  unfoldable pub verb_set_from_names : List String → ℕ
  verb_set_from_names names = new_verb_set (known_verbs names)

-- The variables of the loop.
pub record Folding (C : Type 0) : Type 0 where
  pub clearance : ℕ
  pub compartments : C
  pub verbs : ℕ
  pub chain : List ChainEntry
  pub dropped : List String
  pub tool_sets : Option (List String)

abbrev pub last_subject : List ChainEntry → String
last_subject [] = ""
last_subject (e ∷ []) = e.subject
last_subject (e ∷ f ∷ es) = last_subject (f ∷ es)

-- The innermost actor, empty for a direct token.
abbrev pub actor_of : List ChainEntry → String
actor_of [] = ""
actor_of (e ∷ []) = ""
actor_of (e ∷ f ∷ es) = last_subject (f ∷ es)

abbrev pub execution_of : Option ExecClaim → String
execution_of none = ""
execution_of (some x) = x.subject

module _ {C R D : Type 0} (pol : Policy C R D) (enums : Enums) (reg : R) where
  abbrev pub entry : Level → ChainEntry
  entry l = record { subject = l.subject; kind = kind_from_name enums l.garm.kind }

  abbrev lvl_clearance : Level → ℕ
  lvl_clearance l = or_zero (enums.clearance_value l.garm.clearance)

  abbrev lvl_compartments : Level → C
  lvl_compartments l = (pol.set_lenient reg l.garm.compartments).0

  abbrev lvl_dropped : Level → List String
  lvl_dropped l = (pol.set_lenient reg l.garm.compartments).1

  abbrev lvl_verbs : Level → ℕ
  lvl_verbs l = verb_set_from_names enums l.garm.verbs

  -- The first round of the loop.
  unfoldable pub enter : Level → Folding C
  unfolding intersect_sets
  enter l = record {
    clearance = lvl_clearance l;
    compartments = lvl_compartments l;
    verbs = lvl_verbs l;
    chain = entry l ∷ [];
    dropped = lvl_dropped l;
    tool_sets = intersect_sets none l.garm.tool_sets;
  }

  -- Every later round.
  unfoldable pub narrow_by : Folding C → Level → Folding C
  unfolding intersect_sets
  narrow_by f l = record {
    clearance = if ltb (lvl_clearance l) f.clearance then lvl_clearance l else f.clearance;
    compartments = pol.meet f.compartments (lvl_compartments l);
    verbs = intersect f.verbs (lvl_verbs l);
    chain = f.chain ++ entry l ∷ [];
    dropped = f.dropped ++ lvl_dropped l;
    tool_sets = intersect_sets f.tool_sets l.garm.tool_sets;
  }

  unfoldable pub fold_rest : Folding C → Claims → Folding C
  fold_rest f (direct l) = narrow_by f l
  fold_rest f (acted l act) = fold_rest (narrow_by f l) act

  unfoldable pub fold_chain : Claims → Folding C
  fold_chain (direct l) = enter l
  fold_chain (acted l act) = fold_rest (enter l) act

  unfoldable pub principal_of : Level → Folding C → Principal C
  principal_of l f = record {
    subject = l.subject;
    actor = actor_of f.chain;
    kind = kind_from_name enums l.garm.kind;
    chain = f.chain;
    tenant = l.tenant;
    clearance = f.clearance;
    compartments = f.compartments;
    verbs = f.verbs;
    token_id = l.id;
    execution = execution_of l.exec;
    tool_sets = f.tool_sets;
  }

  -- Fold: `none` for a chain that is too deep, else the principal and the names that were dropped.
  unfoldable pub fold : Claims → Option (Principal C × List String)
  unfolding depth
  fold c =
      if ltb max_delegation_depth (depth c)
      then none
      else some (principal_of (outermost c) (fold_chain c), (fold_chain c).dropped)
