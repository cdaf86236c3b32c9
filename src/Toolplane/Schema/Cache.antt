-- ===== src/Toolplane/Schema/Cache.antt =====
-- internal/toolplane/schema_cache.go: the projections that a Core has made.
pub mod Keys
pub mod Coherent
use garmd.Base.{
  ℕ, String, Bool, true, false, ◌&&◌, Option, none, some, List, [], ◌∷◌, ◌==◌, if◌then◌else◌,
}
use garmd.Base.Dict.{Dict}
use garmd.Base.Result.{Result, ok, err, ◌>>=◌, or_fail}
use garmd.Policy.{Policy}
use garmd.Principal.{Principal}
use garmd.ToolDef.{Def, Descriptor}
use garmd.Toolplane.{Core, Plan, plan_for}
use garmd.Toolplane.Schema.{Pool, Schema, project_input, project_output}

-- schemaKey, with the descriptor's identity and the two parts of a policy.Shape.
pub record Key (C : Type 0) : Type 0 where
  pub desc : ℕ
  pub clearance : ℕ
  pub compartments : C
  pub output : Bool

abbrev pub Cache : Type 0 → Type 0
Cache C = List (Key C × Schema)

pub data SchemaError : Type 0 where
  no_principal no_descriptor no_input_plan no_output_plan : SchemaError

abbrev pub same_flag : Bool → Bool → Bool
same_flag true b = b
same_flag false true = false
same_flag false false = true

-- `same` is Go's `==` on compartment sets.
module _ {C R D : Type 0} (pol : Policy C R D) (same : C → C → Bool) where
  abbrev pub same_key : Key C → Key C → Bool
  same_key a b =
      a.desc == b.desc
      && a.clearance == b.clearance
      && same a.compartments b.compartments
      && same_flag a.output b.output

  unfoldable pub cached : Key C → Cache C → Option Schema
  cached k [] = none
  cached k ((j, s) ∷ cache) = if same_key j k then some s else cached k cache

  -- The second critical section of get: another caller may have built the schema first.
  unfoldable pub keep_first : Key C → Option Schema → Cache C → Option Schema × Cache C
  unfolding cached
  keep_first k none cache = (none, cache)
  keep_first k (some s) cache = elim (cached k cache) [
    | some existing ↦ (some existing, cache)
    | none ↦ (some s, (k, s) ∷ cache)
  ]

  -- get: the cache as the first critical section finds it, and as the second does. A schema that is
  -- not built is the projection's running out of fuel.
  unfoldable pub get : Key C → Option Schema → Cache C → Cache C → Option Schema × Cache C
  unfolding cached keep_first
  get k built early late = elim (cached k early) [
    | some s ↦ (some s, late)
    | none ↦ keep_first k built late
  ]

  abbrev pub key_for : Bool → Descriptor → Principal C → Key C
  key_for output md p = record {
    desc = md.id;
    clearance = p.clearance;
    compartments = p.compartments;
    output = output;
  }

  -- The part of SchemaFor after its errors.
  unfoldable pub get_both :
      Pool
      → Dict String
      → Principal C
      → Descriptor
      → Plan C
      → Descriptor
      → Plan C
      → Cache C
      → (Option Schema × Option Schema) × Cache C
  unfolding get
  get_both pool docs p input in_plan output out_plan cache =
      let (in_schema, then_cache) =
        get (key_for false input p) (project_input pol p pool docs in_plan input.full_name) cache
          cache in
      let (out_schema, last_cache) =
        get (key_for true output p) (project_output pol p pool docs out_plan output.full_name)
          then_cache then_cache in
      ((in_schema, out_schema), last_cache)

  -- SchemaFor: the input and the output schema, and the cache then.
  unfoldable pub schema_for_tool :
      Core C R
      → Pool
      → Def
      → Option (Principal C)
      → Cache C
      → Result SchemaError ((Option Schema × Option Schema) × Cache C)
  unfolding get_both
  schema_for_tool c pool t who cache = do
    p ← or_fail who no_principal
    input ← or_fail t.input no_descriptor
    output ← or_fail t.output no_descriptor
    in_plan ← or_fail (plan_for pol c input) no_input_plan
    out_plan ← or_fail (plan_for pol c output) no_output_plan
    ok (get_both pool t.field_docs p input in_plan output out_plan cache)
