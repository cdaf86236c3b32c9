-- ===== src/Toolplane/Schema/Fuel.antt =====
-- A schema is always built (schemaFor of internal/toolplane/schema.go): the recursion ends.
use garmd.Base.{
  ℕ, zero, suc, ◌+◌, ◌≤◌, ◌<◌, ◌≡◌, refl, ap, String, false, Option, some, List, [], ◌∷◌, arith,
  str_eq, eq_iff, if◌then◌else◌, contains, length, Bool-cases, Option-cases, inl, inr,
}
use garmd.Base.Dict.{Dict, lookup}
use garmd.Policy.{Policy}
use garmd.Principal.{Principal}
use garmd.Toolplane.{Action, Plan}
use garmd.Toolplane.Schema.{
  Field, Pool, fields_of, Schema, closed, Properties, dotted, Denied, is_denied, scalar_or_message,
  shaped_as, field_schema, properties, object_of, schema_for, denied_by, project, Kind, scalar,
  message,
}

abbrev IsBuilt : {A : Type 0} → Option A → Type 0
IsBuilt {A = A} o = (a : A) × (o ≡ some a)

-- The entries of the pool whose type does not enclose the place yet.
unseen : Pool → List String → ℕ
unseen [] seen = 0
unseen ((name, fs) ∷ pool) seen = (if contains seen name then 0 else 1) + unseen pool seen

unseen-le-length : (pool : Pool) (seen : List String) → unseen pool seen ≤ length pool
unfolding unseen
unseen-le-length [] seen = omega arith
unseen-le-length ((name, fs) ∷ pool) seen = ground (arith, unseen-le-length pool seen)

unseen_more :
    (pool : Pool) (md : String) (seen : List String) → unseen pool (md ∷ seen) ≤ unseen pool seen
unfolding unseen
unseen_more [] md seen = omega arith
unseen_more ((name, fs) ∷ pool) md seen = ground (arith, unseen_more pool md seen)

unseen_fewer :
    (pool : Pool) (md : String) (seen : List String) (fs : List Field)
    → lookup md pool ≡ some fs
    → contains seen md ≡ false
    → unseen pool (md ∷ seen) < unseen pool seen
unfolding unseen lookup
unseen_fewer [] md seen fs at new = absurd (ground arith)
unseen_fewer ((name, gs) ∷ pool) md seen fs at new = elim (Bool-cases (str_eq name md)) [
  | inl here ↦ ground (
    arith,
    here,
    eq_iff md name,
    eq_iff name md,
    ap (contains seen) ((eq_iff name md).0 here),
    unseen_more pool md seen,
  )
  | inr later ↦ ground (arith, unseen_fewer pool md seen fs (ground arith) new)
]

module _ (denied : Denied) (docs : Dict String) where
  field_schema-IsBuilt :
      (nested : String → Option Schema) (fd : Field)
      → ((name : String) → IsBuilt (nested name))
      → IsBuilt (field_schema denied docs nested fd)
  unfolding field_schema
  field_schema-IsBuilt nested fd all = go fd.kind
    where
      go :
          (k : Kind)
          → IsBuilt (shaped_as denied docs fd.shape (scalar_or_message denied docs nested k))
      go (scalar s) = (_, refl)
      go (message name) = elim (Bool-cases (str_eq name "google.protobuf.Timestamp")) [
        | inl time ↦ rw time (_, refl)
        | inr other ↦ let (s, e) = all name in rw other (rw e (_, refl))
      ]

  properties-IsBuilt :
      (nested : String → String → Option Schema) (path : String) (fds : List Field)
      → ((full name : String) → IsBuilt (nested full name))
      → IsBuilt (properties denied docs nested path fds)
  unfolding properties
  properties-IsBuilt nested path [] all = (_, refl)
  properties-IsBuilt nested path (fd ∷ fds) all =
      let (ps, rest) = properties-IsBuilt nested path fds all in
      let (s, here) =
        field_schema-IsBuilt (nested (dotted path fd.name)) fd (all (dotted path fd.name)) in
      elim (Bool-cases (is_denied denied (dotted path fd.name))) [
        | inl hidden ↦ rw hidden (ps, rest)
        | inr shown ↦ rw shown (rw here (rw rest (_, refl)))
      ]

  properties-IsBuilt_none :
      (nested : String → String → Option Schema) (path : String)
      → IsBuilt (properties denied docs nested path [])
  unfolding properties
  properties-IsBuilt_none nested path = (_, refl)

  object_of-IsBuilt :
      (names : List String) (o : Option Properties)
      → IsBuilt o
      → IsBuilt (object_of denied docs names o)
  object_of-IsBuilt names o (ps, e) = rw e (_, refl)

  schema_for-IsBuilt :
      (n : ℕ) (pool : Pool) (seen : List String) (path md : String)
      → unseen pool seen < n
      → IsBuilt (schema_for denied docs n pool seen path md)
  unfolding schema_for
  schema_for-IsBuilt zero pool seen path md fuel = absurd (omega arith)
  schema_for-IsBuilt (suc n) pool seen path md fuel = elim (Bool-cases (contains seen md)) [
    | inl again ↦ rw again (closed, refl)
    | inr new ↦ rw new (
        object_of-IsBuilt _ _ (elim (Option-cases (lookup md pool)) [
          | inl none_there ↦ rw none_there (
              properties-IsBuilt_none
                (λ full name. schema_for denied docs n pool (md ∷ seen) full name) path)
          | inr entry ↦
              properties-IsBuilt (λ full name. schema_for denied docs n pool (md ∷ seen) full name)
                path (fields_of (lookup md pool))
                λ full name.
                  schema_for-IsBuilt n pool (md ∷ seen) full name
                    (omega (arith, unseen_fewer pool md seen (entry.0) (entry.1) new, fuel))
        ]))
  ]

-- A projection always gives a schema, however the message types refer to each other: a round for each
-- type and one more is enough for the recursion to end by itself.
pub project-IsBuilt :
    {C R D : Type 0} (pol : Policy C R D) (p : Principal C) (need : Action C → ℕ) (pool : Pool)
    (docs : Dict String) (plan : Plan C) (root : String)
    → (s : Schema) × (project pol p need pool docs plan root ≡ some s)
unfolding project
project-IsBuilt pol p need pool docs plan root =
    schema_for-IsBuilt (denied_by pol p need plan.actions) docs (suc (length pool)) pool [] "" root
      (omega (arith, unseen-le-length pool []))
