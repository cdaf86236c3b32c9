-- ===== src/Toolplane/Schema/Admits.antt =====
-- A projected schema admits only what its reader may use (internal/toolplane/schema.go with admittedPath of
-- internal/toolplane/violations.go).
use garmd.Base.{
  ℕ, zero, suc, ◌≡◌, refl, sym, ap, ◌∙◌, String, Bool, true, not, ◌&&◌, ◌||◌, Option, none, some,
  List, [], ◌∷◌, arith, str_eq, if◌then◌else◌, contains, length, both_intro, Bool-cases,
  Option-cases, some-injective, inl, inr,
}
use garmd.Base.Dict.{Dict, lookup}
use Prim.Native.String.{◌++◌ as joined}
use text.Mathlib.Text.{starts_with}
use garmd.Policy.{Policy}
use garmd.Principal.{Principal}
use garmd.Toolplane.{Action, Plan}
use garmd.Toolplane.Schema.{
  Field, Pool, Schema, Properties, dotted, Denied, is_denied, under_denied_subtree, reaches_action,
  denied_by, project, scalar_or_message, field_schema, required, schema_for, Kind, scalar, message,
  leaf, date_time, closed, object, no_property, fields_of,
}
use garmd.Toolplane.Schema.Path.{
  look_through, find_property, properties_of, admitted_path, every_prefix,
}
use garmd.Toolplane.Schema.Rendered.{find-properties, object_of-some, shaped_as-some}

module _ (denied : Denied) (docs : Dict String) where
  abbrev shown : String → Bool
  shown name = not (is_denied denied name)

  -- A node without properties admits itself alone.
  bare-shown :
      (s : Schema) (path : String) (names : List String)
      → properties_of s ≡ no_property
      → admitted_path s names ≡ true
      → every_prefix shown path names ≡ true
  unfolding admitted_path find_property
  bare-shown s path [] bare ok = refl
  bare-shown s path (name ∷ names) bare ok = absurd (ground arith)

  field_schema-shown :
      (nested : String → Option Schema) (fd : Field) (t : Schema) (path : String)
      (names : List String)
      → field_schema denied docs nested fd ≡ some t
      → ((md : String) (s : Schema)
          → nested md ≡ some s
          → admitted_path (look_through s) names ≡ true
          → every_prefix shown path names ≡ true)
      → admitted_path (look_through t) names ≡ true
      → every_prefix shown path names ≡ true
  unfolding field_schema look_through
  field_schema-shown nested fd t path names built below ok =
      let (s, (its, same)) = shaped_as-some denied docs fd.shape _ t built in
      go fd.kind s its (rw same at ok)
    where
      go :
          (k : Kind) (s : Schema)
          → scalar_or_message denied docs nested k ≡ some s
          → admitted_path (look_through s) names ≡ true
          → every_prefix shown path names ≡ true
      go (scalar k) s its ok =
          bare-shown (leaf k) path names refl (rw (some-injective _ _ (sym its)) at ok)
      go (message md) s its ok = elim (Bool-cases (str_eq md "google.protobuf.Timestamp")) [
        | inl time ↦
            bare-shown date_time path names refl
              (rw (ap look_through (some-injective _ _ (sym (rw time at its)))) at ok)
        | inr other ↦ below md s (rw other at its) ok
      ]

  step :
      (ps : Properties) (s t : Schema) (name : String) (names required : List String)
      → s ≡ object ps required
      → find_property name ps ≡ some t
      → admitted_path (look_through s) (name ∷ names) ≡ true
      → admitted_path (look_through t) names ≡ true
  unfolding admitted_path look_through
  step ps s t name names required shape found ok = rw found at (rw shape at ok)

  no_step :
      (ps : Properties) (s : Schema) (name : String) (names required : List String)
      → s ≡ object ps required
      → find_property name ps ≡ none
      → admitted_path (look_through s) (name ∷ names) ≡ true
      → ⊥
  unfolding admitted_path look_through
  no_step ps s name names required shape missing ok = ground (arith, rw missing at (rw shape at ok))

  admitted_path-shown_lem :
      (n : ℕ) (pool : Pool) (seen : List String) (path md : String) (s : Schema)
      (names : List String)
      → schema_for denied docs n pool seen path md ≡ some s
      → admitted_path (look_through s) names ≡ true
      → every_prefix shown path names ≡ true
  unfolding schema_for look_through admitted_path
  admitted_path-shown_lem zero pool seen path md s names built ok = absurd (ground arith)
  admitted_path-shown_lem (suc n) pool seen path md s [] built ok = refl
  admitted_path-shown_lem (suc n) pool seen path md s (name ∷ names) built ok =
      elim (Bool-cases (contains seen md)) [
        | inl again ↦
            bare-shown closed path (name ∷ names) refl
              (rw (ap look_through (some-injective _ _ (sym (rw again at built)))) at ok)
        | inr new ↦
            let (ps, (made, shape)) = object_of-some denied docs _ _ s (rw new at built) in
            elim (Option-cases (find_property name ps)) [
              | inl missing ↦ absurd (no_step ps s name names _ shape missing ok)
              | inr (t, found) ↦
                  let r =
                    find-properties denied docs
                      (λ full name. schema_for denied docs n pool (md ∷ seen) full name) path name
                      (fields_of (lookup md pool)) ps t made found in
                  both_intro _ _ (ap not r.is_shown) (
                    field_schema-shown
                      (schema_for denied docs n pool (md ∷ seen) (dotted path name)) r.field t
                      (dotted path name) names r.its_schema
                      (λ md' s' made' ok'.
                        admitted_path-shown_lem n pool (md ∷ seen) (dotted path name) md' s' names
                          made' ok')
                      (step ps s t name names _ shape found ok))
            ]
      ]

  -- A message's schema is not a collection's.
  look_through-schema_for :
      (n : ℕ) (pool : Pool) (seen : List String) (path md : String) (s : Schema)
      → schema_for denied docs n pool seen path md ≡ some s
      → look_through s ≡ s
  unfolding schema_for look_through
  look_through-schema_for zero pool seen path md s built = absurd (ground arith)
  look_through-schema_for (suc n) pool seen path md s built = elim (Bool-cases (contains seen md)) [
    | inl again ↦ rw (some-injective _ _ (sym (rw again at built))) refl
    | inr new ↦
        let (ps, (made, shape)) = object_of-some denied docs _ _ s (rw new at built) in
        rw shape refl
  ]

module _ {C R D : Type 0} (pol : Policy C R D) (p : Principal C) (need : Action C → ℕ) where
  -- An action speaks of a field by its name or, for a subtree, of all that is beneath it.
  abbrev concerns : String → Action C → Bool
  concerns name a = str_eq a.name name || a.is_subtree && starts_with name (joined a.name ".")

  -- The principal reaches every action that speaks of the field.
  unfoldable pub may_use : List (Action C) → String → Bool
  may_use [] name = true
  may_use (a ∷ acts) name =
      let rest = may_use acts name in
      if concerns name a then reaches_action pol p (need a) a && rest else rest

  is_denied-denied_by :
      (acts : List (Action C)) (name : String)
      → not (is_denied (denied_by pol p need acts) name) ≡ may_use acts name
  unfolding denied_by may_use under_denied_subtree
  is_denied-denied_by [] name = refl
  is_denied-denied_by (a ∷ acts) name = ground (arith, is_denied-denied_by acts name)

  every_prefix-same :
      (f g : String → Bool) (path : String) (names : List String)
      → ((name : String) → f name ≡ g name)
      → every_prefix f path names ≡ every_prefix g path names
  every_prefix-same f g path [] same = refl
  every_prefix-same f g path (name ∷ names) same =
      rw (same (dotted path name)) (rw (every_prefix-same f g (dotted path name) names same) refl)

  -- A path is admitted by a projected schema only where the principal reaches every action that speaks of
  -- the field it ends on or of one it goes through.
  pub admitted_path-may_use :
      (pool : Pool) (docs : Dict String) (plan : Plan C) (root : String) (s : Schema)
      (names : List String)
      → project pol p need pool docs plan root ≡ some s
      → admitted_path s names ≡ true
      → every_prefix (may_use plan.actions) "" names ≡ true
  unfolding project
  admitted_path-may_use pool docs plan root s names built ok =
      sym (every_prefix-same _ _ "" names (is_denied-denied_by plan.actions))
      ∙ admitted_path-shown_lem (denied_by pol p need plan.actions) docs (suc (length pool)) pool []
          "" root s names built
          (rw
            (← look_through-schema_for (denied_by pol p need plan.actions) docs (suc (length pool))
              pool [] "" root s built)
            at ok)
