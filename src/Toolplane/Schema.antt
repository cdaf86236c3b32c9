-- ===== src/Toolplane/Schema.antt =====
-- internal/toolplane/schema.go: the JSON schema of a message, as one principal is shown it.
pub mod Fuel
pub mod Path
pub mod Cache
pub mod Rendered
pub mod Admits
use Prim.Native.String.{◌++◌ as joined}
use text.Mathlib.Text.{starts_with}
use garmd.Base.{
  ℕ, zero, suc, String, Bool, true, false, not, ◌&&◌, ◌||◌, Option, none, some, List, [], ◌∷◌,
  str_eq, if◌then◌else◌, contains, length,
}
use garmd.Base.Dict.{Dict, lookup}
use garmd.Policy.{Policy}
use garmd.Principal.{Principal}
use garmd.Toolplane.{Action, Plan}

pub data Scalar : Type 0 where
  boolean integer int64 number string bytes : Scalar
  enum : List String → Scalar

-- A field's own type; `message` has the full name of the message type.
pub data Kind : Type 0 where
  scalar : Scalar → Kind
  message : String → Kind

pub data Shape : Type 0 where
  single listed mapped : Shape

-- For a map the kind is that of its values.
pub record Field : Type 0 where
  pub name : String
  pub full_name : String
  pub shape : Shape
  pub kind : Kind
  pub has_presence : Bool

-- The message types by full name, a type without an entry having no fields.
abbrev pub Pool : Type 0
Pool = Dict (List Field)

abbrev pub fields_of : Option (List Field) → List Field
fields_of none = []
fields_of (some fs) = fs

-- `closed` is an object of which nothing more is said. A property has its description, if any.
mutual
  pub data Schema : Type 0 where
    leaf : Scalar → Schema
    date_time : Schema
    array : Schema → Schema
    dictionary : Schema → Schema
    closed : Schema
    object : Properties → List String → Schema

  pub data Properties : Type 0 where
    no_property : Properties
    property : String → Option String → Schema → Properties → Properties

abbrev pub dotted : String → String → String
dotted path name = if str_eq path "" then name else joined path (joined "." name)

-- underDeniedSubtree
unfoldable pub under_denied_subtree : String → List String → Bool
under_denied_subtree name [] = false
under_denied_subtree name (s ∷ ss) = starts_with name (joined s ".") || under_denied_subtree name ss

-- What a principal is not shown: the fields, and the messages with all that is in them.
pub record Denied : Type 0 where
  pub names : List String
  pub subtrees : List String

abbrev pub is_denied : Denied → String → Bool
unfolding under_denied_subtree
is_denied d full = contains d.names full || under_denied_subtree full d.subtrees

abbrev pub doc_of : Option String → Option String
doc_of none = none
doc_of (some doc) = if str_eq doc "" then none else some doc

abbrev pub shaped : Shape → Schema → Schema
shaped single s = s
shaped listed s = array s
shaped mapped s = dictionary s

abbrev pub is_required : Shape → Bool → Bool
is_required single has_presence = not has_presence
is_required listed has_presence = false
is_required mapped has_presence = false

module _ (denied : Denied) (docs : Dict String) where
  -- scalarOrMessage, with the call for a message type.
  abbrev pub scalar_or_message : (String → Option Schema) → Kind → Option Schema
  scalar_or_message nested (scalar s) = some (leaf s)
  scalar_or_message nested (message name) =
      if str_eq name "google.protobuf.Timestamp" then some date_time else nested name

  abbrev pub shaped_as : Shape → Option Schema → Option Schema
  shaped_as shape none = none
  shaped_as shape (some s) = some (shaped shape s)

  -- fieldSchema, but its description.
  unfoldable pub field_schema : (String → Option Schema) → Field → Option Schema
  field_schema nested fd = shaped_as fd.shape (scalar_or_message nested fd.kind)

  abbrev pub with_property : Field → Option Schema → Option Properties → Option Properties
  with_property fd none rest = none
  with_property fd (some s) none = none
  with_property fd (some s) (some ps) =
      some (property fd.name (doc_of (lookup fd.full_name docs)) s ps)

  -- The loop over the fields; `nested` takes the path and the name of a message type.
  unfoldable pub properties :
      (String → String → Option Schema) → String → List Field → Option Properties
  unfolding field_schema under_denied_subtree
  properties nested path [] = some no_property
  properties nested path (fd ∷ fds) =
      let rest = properties nested path fds in
      if is_denied denied (dotted path fd.name)
      then rest
      else with_property fd (field_schema (nested (dotted path fd.name)) fd) rest

  unfoldable pub required : String → List Field → List String
  unfolding under_denied_subtree
  required path [] = []
  required path (fd ∷ fds) =
      let rest = required path fds in
      if is_denied denied (dotted path fd.name)
      then rest
      else if is_required fd.shape fd.has_presence
      then fd.name ∷ rest
      else rest

  abbrev pub object_of : List String → Option Properties → Option Schema
  object_of names none = none
  object_of names (some ps) = some (object ps names)

  -- schemaFor, on fuel: `none` where it runs out. `seen` has the types that enclose this one, and the
  -- sort of the required names is left out.
  unfoldable pub schema_for : ℕ → Pool → List String → String → String → Option Schema
  unfolding properties required
  schema_for zero pool seen path md = none
  schema_for (suc n) pool seen path md =
      if contains seen md
      then some closed
      else object_of (required path (fields_of (lookup md pool))) (
          properties (λ full name. schema_for n pool (md ∷ seen) full name) path
            (fields_of (lookup md pool)))

module _ {C R D : Type 0} (pol : Policy C R D) (p : Principal C) where
  abbrev pub reaches_action : ℕ → Action C → Bool
  reaches_action level a = pol.allows p.clearance level && pol.covers p.compartments a.need

  abbrev pub deny : Action C → Denied → Denied
  deny a d = record {
    names = a.name ∷ d.names;
    subtrees = if a.is_subtree then a.name ∷ d.subtrees else d.subtrees;
  }

  unfoldable pub denied_by : (Action C → ℕ) → List (Action C) → Denied
  denied_by need [] = record { names = []; subtrees = [] }
  denied_by need (a ∷ acts) =
      let rest = denied_by need acts in if reaches_action (need a) a then rest else deny a rest

  -- ProjectInput and ProjectOutput: one round of fuel for each message type, and one more.
  unfoldable pub project : (Action C → ℕ) → Pool → Dict String → Plan C → String → Option Schema
  unfolding denied_by schema_for
  project need pool docs plan root =
      schema_for (denied_by need plan.actions) docs (suc (length pool)) pool [] "" root

  unfoldable pub project_input : Pool → Dict String → Plan C → String → Option Schema
  unfolding project
  project_input pool docs plan root = project (λ a. a.write) pool docs plan root

  unfoldable pub project_output : Pool → Dict String → Plan C → String → Option Schema
  unfolding project
  project_output pool docs plan root = project (λ a. a.read) pool docs plan root
