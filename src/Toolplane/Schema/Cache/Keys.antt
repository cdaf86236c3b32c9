-- ===== src/Toolplane/Schema/Cache/Keys.antt =====
-- What a key of the cache of internal/toolplane/schema_cache.go stands for.
use garmd.Base.{
  ℕ, suc, length, ◌≡◌, refl, sym, ap, ◌∙◌, String, Bool, true, false, Option, none, some, List, [],
  ◌∷◌, if◌then◌else◌, All,
}
use garmd.Base.Dict.{Dict}
use garmd.Policy.{Policy}
use garmd.Principal.{Principal}
use garmd.ToolDef.{Descriptor}
use garmd.Toolplane.{Action, Core, Plan, plan_for, at_id}
use garmd.Toolplane.Schema.{
  Pool, Schema, project_input, project_output, denied_by, project, schema_for, reaches_action, deny,
}
use garmd.Toolplane.Schema.Cache.{Key, Cache, key_for}

-- A descriptor whose name is that of its identity.
abbrev pub IsNamed : (ℕ → String) → Option Descriptor → Type 0
IsNamed name_of none = Unit
IsNamed name_of (some md) = md.full_name ≡ name_of md.id

module _ {C R D : Type 0} (pol : Policy C R D) where
  -- A principal of the key's shape.
  abbrev of_shape : ℕ → C → Principal C
  of_shape clearance compartments = record {
    subject = "";
    actor = "";
    kind = 0;
    chain = [];
    tenant = "";
    clearance = clearance;
    compartments = compartments;
    verbs = 0;
    token_id = "";
    execution = "";
    tool_sets = none;
  }

  denied_by-of_shape :
      (p : Principal C) (need : Action C → ℕ) (acts : List (Action C))
      → denied_by pol (of_shape p.clearance p.compartments) need acts ≡ denied_by pol p need acts
  unfolding denied_by
  denied_by-of_shape p need [] = refl
  denied_by-of_shape p need (a ∷ acts) =
      ap (λ rest. if reaches_action pol p (need a) a then rest else deny pol p a rest)
        (denied_by-of_shape p need acts)

  unfoldable pub project_side :
      Bool → Principal C → Pool → Dict String → Plan C → String → Option Schema
  unfolding project_input project_output
  project_side false p pool docs plan root = project_input pol p pool docs plan root
  project_side true p pool docs plan root = project_output pol p pool docs plan root

  project_side-of_shape :
      (output : Bool) (p : Principal C) (pool : Pool) (docs : Dict String) (plan : Plan C)
      (root : String)
      → project_side output (of_shape p.clearance p.compartments) pool docs plan root
        ≡ project_side output p pool docs plan root
  unfolding project_side project_input project_output project
  project_side-of_shape false p pool docs plan root =
      ap (λ d. schema_for d docs (suc (length pool)) pool [] "" root)
        (denied_by-of_shape p (λ a. a.write) plan.actions)
  project_side-of_shape true p pool docs plan root =
      ap (λ d. schema_for d docs (suc (length pool)) pool [] "" root)
        (denied_by-of_shape p (λ a. a.read) plan.actions)

  module _ (c : Core C R) (pool : Pool) (docs : Dict String) (name_of : ℕ → String) where
    -- What a key stands for.
    project_planned : Key C → Option (Plan C) → Option Schema
    unfolding project_side
    project_planned k none = none
    project_planned k (some plan) =
        project_side k.output (of_shape k.clearance k.compartments) pool docs plan (name_of k.desc)

    unfoldable pub project_key : Key C → Option Schema
    unfolding project_planned at_id
    project_key k = project_planned k (at_id k.desc c.plans)

    -- Every schema that is kept is the projection that its key stands for.
    unfoldable pub IsCoherent : Cache C → Type 0
    unfolding project_key
    IsCoherent cache = All (λ entry. project_key (entry.0) ≡ some (entry.1)) cache

    pub empty-IsCoherent : IsCoherent []
    unfolding IsCoherent
    empty-IsCoherent = tt

    pub project_key-key_for :
        (same : C → C → Bool) (output : Bool) (p : Principal C) (md : Descriptor) (plan : Plan C)
        → plan_for pol c md ≡ some plan
        → md.full_name ≡ name_of md.id
        → project_key (key_for pol same output md p)
          ≡ project_side output p pool docs plan md.full_name
    unfolding project_key project_planned plan_for
    project_key-key_for same output p md plan has named =
        ap (project_planned (key_for pol same output md p)) has
        ∙ project_side-of_shape output p pool docs plan (name_of md.id)
        ∙ ap (project_side output p pool docs plan) (sym named)
