-- ===== src/Toolplane.antt =====
-- internal/toolplane/core.go: the tables of a Core, and step 2 of the chain.
pub mod Cards
pub mod Visible
pub mod Narrow
pub mod Message
pub mod Refusal
pub mod Ledger
pub mod Chain
pub mod Mount
pub mod Schema
pub mod Violations
pub mod Discovery
use garmd.Base.{
  ℕ, String, Bool, true, false, ◌&&◌, ◌||◌, Option, none, some, List, [], ◌∷◌, ◌==◌, if◌then◌else◌,
  length, contains,
}
use garmd.Base.Dict.{Dict, lookup}
use garmd.Policy.{Policy}
use garmd.Principal.{Principal, has}
use garmd.ToolDef.{Def, Descriptor}

-- policy.Plan: what the contract's compiler says of one message type.
pub record Action (C : Type 0) : Type 0 where
  pub name : String
  pub path : List ℕ
  pub read : ℕ
  pub write : ℕ
  pub need : C
  pub is_subtree : Bool

pub record Plan (C : Type 0) : Type 0 where
  pub actions : List (Action C)
  pub hash : String

-- The tables of a Core. `plans` and `cards` are keyed by descriptor identity, `need` and `tools`
-- by route. Of the pluggable steps the mount check reads only whether they are there; an audit
-- sink also has a retention, in nanoseconds, 0 for one that keeps everything.
pub record Core (C R : Type 0) : Type 0 where
  pub reg : R
  pub plans : List (ℕ × Plan C)
  pub cards : List (ℕ × Bool)
  pub need : Dict C
  pub tools : Dict Def
  pub has_fga : Bool
  pub has_grants : Bool
  pub has_notifier : Bool
  pub audit_retention : Option ℕ

unfoldable pub at_id {ℓ} : {V : Type ℓ} → ℕ → List (ℕ × V) → Option V
at_id i [] = none
at_id i ((j, v) ∷ m) = if j == i then some v else at_id i m

-- The loops of inScope: some set of the scope is one of the tool's.
unfoldable pub overlaps : List String → List String → Bool
overlaps [] tool_sets = false
overlaps (s ∷ scope) tool_sets = contains tool_sets s || overlaps scope tool_sets

unfoldable pub in_scope : Option (List String) → List String → Bool
unfolding overlaps
in_scope none tool_sets = true
in_scope (some scope) tool_sets = overlaps scope tool_sets

module _ {C R D : Type 0} (pol : Policy C R D) where
  -- PlanFor: the plan compiled for this very descriptor.
  unfoldable pub plan_for : Core C R → Descriptor → Option (Plan C)
  unfolding at_id
  plan_for c md = at_id md.id c.plans

  -- `c.need[t.FullMethod]`: a missing route reads as the empty set.
  abbrev pub need_of : Core C R → Def → C
  need_of c t = elim (lookup t.full_method c.need) [ none ↦ pol.no_compartments | some n ↦ n ]

  -- visibleLocked, for a principal that is there.
  unfoldable pub sees : Core C R → Principal C → Def → Bool
  unfolding in_scope
  sees c p t =
      has p.verbs t.verb
      && pol.allows p.clearance t.min_clearance
      && pol.covers p.compartments (need_of c t)
      && in_scope p.tool_sets t.sets

  unfoldable pub visible : Core C R → Option (Principal C) → Def → Bool
  unfolding sees
  visible c none t = false
  visible c (some p) t = sees c p t
