-- ===== src/Toolplane/Violations/Rules.antt =====
-- celRuleFor of internal/toolplane/violations.go: the rule behind a violation, as its author declared it.
use garmd.Base.{
  ℕ, zero, suc, String, ◌&&◌, Option, none, some, List, [], ◌∷◌, str_eq, ◌==◌, if◌then◌else◌,
}
use garmd.Base.Dict.{lookup}
use garmd.Toolplane.Schema.{Field, Pool, Kind, scalar, message, fields_of}
use garmd.Toolplane.Violations.{Element, Report, index}

-- validate.Rule
pub record Rule : Type 0 where
  pub id : String
  pub declared : String
  pub expression : String

-- What protovalidate resolves: the CEL rules of a message type, and those of a field by its full name;
-- `none` where it gives an error.
pub record Resolver : Type 0 where
  pub message_rules : String → Option (List Rule)
  pub field_rules : String → Option (List Rule)

-- Fields().ByName
unfoldable pub field_named : String → List Field → Option Field
field_named name [] = none
field_named name (fd ∷ fds) = if str_eq fd.name name then some fd else field_named name fds

-- The message type of a field, for a map that of its values.
abbrev pub type_of_kind : Kind → Option String
type_of_kind (scalar s) = none
type_of_kind (message name) = some name

abbrev pub type_of_field : Option Field → Option String
type_of_field none = none
type_of_field (some fd) = type_of_kind fd.kind

-- descriptorAt, a message type being its full name.
unfoldable pub descriptor_at : Pool → Option String → List Element → Option String
unfolding field_named
descriptor_at pool none path = none
descriptor_at pool (some md) [] = some md
descriptor_at pool (some md) (el ∷ path) =
    descriptor_at pool (type_of_field (field_named el.field_name (fields_of (lookup md pool)))) path

abbrev pub last_element : Element → List Element → Element
last_element el [] = el
last_element el (next ∷ path) = last_element next path

abbrev pub but_last : Element → List Element → List Element
but_last el [] = []
but_last el (next ∷ path) = el ∷ but_last next path

unfoldable pub field_in : Pool → String → Option String → Option Field
unfolding field_named
field_in pool name none = none
field_in pool name (some md) = field_named name (fields_of (lookup md pool))

-- fieldAt
unfoldable pub field_at : Pool → Option String → List Element → Option Field
unfolding field_named descriptor_at field_in
field_at pool root [] = none
field_at pool root (el ∷ path) =
    field_in pool (last_element el path).field_name (descriptor_at pool root (but_last el path))

-- The loop over a message's rules: the one with the id, unless two have it.
abbrev pub with_id : String → Option Rule → List Rule → Option Rule
with_id id found [] = found
with_id id none (r ∷ rules) = with_id id (if str_eq r.id id then some r else none) rules
with_id id (some was) (r ∷ rules) = if str_eq r.id id then none else with_id id (some was) rules

abbrev pub nth_rule : ℕ → List Rule → Option Rule
nth_rule i [] = none
nth_rule zero (r ∷ rules) = some r
nth_rule (suc i) (r ∷ rules) = nth_rule i rules

abbrev pub if_named : String → Option Rule → Option Rule
if_named id none = none
if_named id (some r) = if str_eq r.id id then some r else none

-- What celRuleFor says: no CEL rule, a CEL rule that cannot be found, or the rule.
pub data Found : Type 0 where
  standard : Found
  unknown_rule : Found
  cel_rule : Rule → Found

abbrev pub found_rule : Option Rule → Found
found_rule none = unknown_rule
found_rule (some r) = cel_rule r

-- The position `cel[i]` of a rule path's last element.
abbrev pub cel_index : Element → Option ℕ
cel_index el = elim el.subscript [
  | index i ↦ if str_eq el.field_name "cel" && el.field_number == 23 then some i else none
  | _ ↦ none
]

module _ (res : Resolver) (pool : Pool) where
  abbrev pub message_rule : String → Option String → Option Rule
  message_rule id none = none
  message_rule id (some md) = elim (res.message_rules md) [
    | none ↦ none
    | some rules ↦ with_id id none rules
  ]

  abbrev pub field_rule : String → ℕ → Option Field → Option Rule
  field_rule id i none = none
  field_rule id i (some fd) = elim (res.field_rules fd.full_name) [
    | none ↦ none
    | some rules ↦ if_named id (nth_rule i rules)
  ]

  unfoldable pub rule_at : Option String → Report → Option ℕ → Found
  unfolding field_at
  rule_at root v none = standard
  rule_at root v (some i) = found_rule (field_rule v.rule_id i (field_at pool root v.field))

  -- celRuleFor
  unfoldable pub cel_rule_for : Option String → Report → Found
  unfolding descriptor_at rule_at
  cel_rule_for root v = elim v.rule [
    | [] ↦ found_rule (message_rule v.rule_id (descriptor_at pool root v.field))
    | el ∷ path ↦ rule_at root v (cel_index (last_element el path))
  ]
