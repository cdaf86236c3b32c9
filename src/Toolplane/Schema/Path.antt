-- ===== src/Toolplane/Schema/Path.antt =====
-- internal/toolplane/violations.go, admittedPath: whether a path is in a projected schema.
use garmd.Base.{
  String, Bool, true, false, ◌&&◌, Option, none, some, List, [], ◌∷◌, str_eq, if◌then◌else◌,
}
use garmd.Toolplane.Schema.{
  Schema, Properties, dotted, leaf, date_time, array, dictionary, closed, object, no_property,
  property,
}

-- lookThrough
unfoldable pub look_through : Schema → Schema
look_through (array s) = look_through s
look_through (dictionary s) = look_through s
look_through (leaf k) = leaf k
look_through date_time = date_time
look_through closed = closed
look_through (object ps names) = object ps names

unfoldable pub find_property : String → Properties → Option Schema
find_property name no_property = none
find_property name (property n doc s ps) = if str_eq n name then some s else find_property name ps

-- asMap of the node's "properties", which only an object has.
abbrev pub properties_of : Schema → Properties
properties_of (object ps names) = ps
properties_of (array s) = no_property
properties_of (dictionary s) = no_property
properties_of (leaf k) = no_property
properties_of date_time = no_property
properties_of closed = no_property

-- admittedPath
unfoldable pub admitted_path : Schema → List String → Bool
unfolding look_through find_property
admitted_path s [] = true
admitted_path s (name ∷ path) = elim (find_property name (properties_of s)) [
  | none ↦ false
  | some next ↦ admitted_path (look_through next) path
]

-- A test of every dotted prefix of a path.
abbrev pub every_prefix : (String → Bool) → String → List String → Bool
every_prefix test path [] = true
every_prefix test path (name ∷ names) =
    test (dotted path name) && every_prefix test (dotted path name) names
