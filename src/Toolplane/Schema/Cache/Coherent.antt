-- ===== src/Toolplane/Schema/Cache/Coherent.antt =====
-- The cache of internal/toolplane/schema_cache.go does not change what a caller is shown.
use garmd.Base.{
  ℕ, ◌≡◌, refl, sym, ap, ◌∙◌, String, Bool, true, false, Option, none, some, [], ◌∷◌, ==_iff, arith,
  Bool-cases, Option-cases, inl, inr, both, subst,
}
use garmd.Base.Dict.{Dict}
use garmd.Base.Result.{Result, ok, ◌>>=◌, or_fail, passed_or_fail}
use garmd.Base.Refines.{Refines, Refines-bind}
use garmd.Policy.{Policy}
use garmd.Principal.{Principal}
use garmd.ToolDef.{Def, Descriptor}
use garmd.Toolplane.{Core, Plan, plan_for}
use garmd.Toolplane.Schema.{Pool, Schema, project_input, project_output}
use garmd.Toolplane.Schema.Cache.{
  Key, Cache, SchemaError, no_principal, no_descriptor, no_input_plan, no_output_plan, same_flag,
  same_key, cached, keep_first, get, key_for, get_both, schema_for_tool,
}
use garmd.Toolplane.Schema.Cache.Keys.{
  IsNamed, IsCoherent, project_key, project_side, project_key-key_for,
}

same_flag-eq : (a b : Bool) → same_flag a b ≡ true → a ≡ b
same_flag-eq true true h = refl
same_flag-eq true false h = absurd (ground arith)
same_flag-eq false true h = absurd (ground arith)
same_flag-eq false false h = refl

module _ {C R D : Type 0} (pol : Policy C R D) (c : Core C R) (pool : Pool) (docs : Dict String)
    (name_of : ℕ → String) (same : C → C → Bool)
    (same-eq : (a b : C) → same a b ≡ true → a ≡ b) where
  key-eq : (j k : Key C) → same_key pol same j k ≡ true → j ≡ k
  key-eq j k h =
      let (rest, output) = both _ _ h in
      let (more, compartments) = both _ _ rest in
      let (desc, clearance) = both _ _ more in
      λ i. record {
        desc = (==_iff j.desc k.desc).0 desc i;
        clearance = (==_iff j.clearance k.clearance).0 clearance i;
        compartments = same-eq j.compartments k.compartments compartments i;
        output = same_flag-eq j.output k.output output i;
      }

  cached-project_key :
      (k : Key C) (cache : Cache C) (s : Schema)
      → IsCoherent pol c pool docs name_of cache
      → cached pol same k cache ≡ some s
      → project_key pol c pool docs name_of k ≡ some s
  unfolding cached IsCoherent
  cached-project_key k [] s kept h = absurd (ground arith)
  cached-project_key k ((j, t) ∷ cache) s kept h = elim (Bool-cases (same_key pol same j k)) [
    | inl here ↦
        ap (project_key pol c pool docs name_of) (sym (key-eq j k here)) ∙ kept.0 ∙ rw here at h
    | inr later ↦ cached-project_key k cache s (kept.1) (rw later at h)
  ]

  keep_first-IsCoherent :
      (k : Key C) (built : Option Schema) (cache : Cache C)
      → project_key pol c pool docs name_of k ≡ built
      → IsCoherent pol c pool docs name_of cache
      → ((keep_first pol same k built cache).0 ≡ built)
        × IsCoherent pol c pool docs name_of ((keep_first pol same k built cache).1)
  unfolding keep_first IsCoherent
  keep_first-IsCoherent k none cache means kept = (refl, kept)
  keep_first-IsCoherent k (some s) cache means kept =
      elim (Option-cases (cached pol same k cache)) [
        | inl missing ↦ rw (missing, keep_first) (refl, (means, kept))
        | inr (t, found) ↦
            rw (found, keep_first) (sym (cached-project_key k cache t kept found) ∙ means, kept)
      ]

  -- Whoever builds a schema first, its key's projection is given.
  get-IsCoherent :
      (k : Key C) (built : Option Schema) (early late : Cache C)
      → project_key pol c pool docs name_of k ≡ built
      → IsCoherent pol c pool docs name_of early
      → IsCoherent pol c pool docs name_of late
      → ((get pol same k built early late).0 ≡ built)
        × IsCoherent pol c pool docs name_of ((get pol same k built early late).1)
  unfolding get
  get-IsCoherent k built early late means kept still =
      elim (Option-cases (cached pol same k early)) [
        | inl missing ↦ rw (missing, get) (keep_first-IsCoherent k built late means still)
        | inr (t, found) ↦
            rw (found, get) (sym (cached-project_key k early t kept found) ∙ means, still)
      ]

  get_both-IsCoherent :
      (p : Principal C) (input output : Descriptor) (in_plan out_plan : Plan C) (cache : Cache C)
      → plan_for pol c input ≡ some in_plan
      → plan_for pol c output ≡ some out_plan
      → input.full_name ≡ name_of input.id
      → output.full_name ≡ name_of output.id
      → IsCoherent pol c pool docs name_of cache
      → ((get_both pol same pool docs p input in_plan output out_plan cache).0 ≡ (
        project_input pol p pool docs in_plan input.full_name,
        project_output pol p pool docs out_plan output.full_name,
      ))
        × IsCoherent pol c pool docs name_of
            ((get_both pol same pool docs p input in_plan output out_plan cache).1)
  unfolding get_both project_side
  get_both-IsCoherent p input output in_plan out_plan cache has_in has_out in_name out_name kept =
      let (first, then_kept) =
        get-IsCoherent (key_for pol same false input p)
          (project_input pol p pool docs in_plan input.full_name) cache cache
          (project_key-key_for pol c pool docs name_of same false p input in_plan has_in in_name)
          kept kept in
      let (second, last_kept) =
        get-IsCoherent (key_for pol same true output p)
          (project_output pol p pool docs out_plan output.full_name) _ _
          (project_key-key_for pol c pool docs name_of same true p output out_plan has_out out_name)
          then_kept then_kept in
      (λ i. (first i, second i), last_kept)

-- SchemaFor without a cache: what a caller is to be shown.
module _ {C R D : Type 0} (pol : Policy C R D) where
  unfoldable pub shown :
      Core C R
      → Pool
      → Def
      → Option (Principal C)
      → Result SchemaError (Option Schema × Option Schema)
  unfolding plan_for project_input project_output
  shown c pool t who = do
    p ← or_fail who no_principal
    input ← or_fail t.input no_descriptor
    output ← or_fail t.output no_descriptor
    in_plan ← or_fail (plan_for pol c input) no_input_plan
    out_plan ← or_fail (plan_for pol c output) no_output_plan
    ok (
      project_input pol p pool t.field_docs in_plan input.full_name,
      project_output pol p pool t.field_docs out_plan output.full_name,
    )

module _ {C R D : Type 0} (pol : Policy C R D) (same : C → C → Bool)
    (same-eq : (a b : C) → same a b ≡ true → a ≡ b) where
  -- The cache is no part of the answer: SchemaFor gives what it would give without one, errors included, and
  -- leaves a cache that does so again, where the tool's docs are those of the cache and its descriptors have
  -- the names that their identities stand for.
  pub schema_for_tool-Refines :
      (c : Core C R) (pool : Pool) (name_of : ℕ → String) (t : Def) (who : Option (Principal C))
      (cache : Cache C)
      → IsNamed name_of t.input
      → IsNamed name_of t.output
      → IsCoherent pol c pool t.field_docs name_of cache
      → Refines
          (IsCoherent pol c pool t.field_docs name_of)
          (schema_for_tool pol same c pool t who cache)
          (shown pol c pool t who)
  unfolding schema_for_tool shown
  schema_for_tool-Refines c pool name_of t who cache in_named out_named kept =
      Refines-bind _ (or_fail who no_principal) _ _ λ p has_p.
        Refines-bind _ (or_fail t.input no_descriptor) _ _ λ input has_input.
          Refines-bind _ (or_fail t.output no_descriptor) _ _ λ output has_output.
            Refines-bind _ (or_fail (plan_for pol c input) no_input_plan) _ _ λ in_plan has_in.
              Refines-bind _ (or_fail (plan_for pol c output) no_output_plan) _ _
                λ out_plan has_out.
                  get_both-IsCoherent pol c pool t.field_docs name_of same same-eq p input output
                    in_plan out_plan cache (passed_or_fail _ no_input_plan has_in)
                    (passed_or_fail _ no_output_plan has_out)
                    (subst (IsNamed name_of) (passed_or_fail t.input no_descriptor has_input)
                      in_named)
                    (subst (IsNamed name_of) (passed_or_fail t.output no_descriptor has_output)
                      out_named)
                    kept
