-- ===== src/Toolplane/Violations/Listed.antt =====
-- admittedViolations of internal/toolplane/violations.go.
use garmd.Base.{
  String, Bool, false, not, ◌&&◌, Option, none, some, List, [], ◌∷◌, str_eq, if◌then◌else◌,
}
use garmd.Toolplane.Schema.{Pool, Schema}
use garmd.Toolplane.Schema.Path.{admitted_path}
use garmd.Toolplane.Violations.{
  Report, Violation, names_of, path_string, echoes_value, all_admitted,
}
use garmd.Toolplane.Violations.Rules.{
  Rule, Resolver, Found, standard, unknown_rule, cel_rule, cel_rule_for,
}
use garmd.Toolplane.Violations.Refs.{Expr, cel_field_refs}

-- The declared message, where it is the one reported.
abbrev pub declared_message : Rule → Report → String
declared_message r v =
    if not (str_eq r.declared "") && str_eq r.declared v.reported then r.declared else ""

unfoldable pub standard_message : Report → String
unfolding echoes_value
standard_message v = if echoes_value v.value v.reported then "" else v.reported

unfoldable pub admits_refs : Schema → List String → Option (List (List String)) → Bool
unfolding all_admitted
admits_refs s path none = false
admits_refs s path (some refs) = all_admitted s path refs

unfoldable pub listed_as : Report → Option String → Option Violation
unfolding path_string
listed_as v none = none
listed_as v (some msg) =
    some (record { field = path_string v.field; rule = v.rule_id; message = msg })

abbrev pub with_violation : Option Violation → List Violation → List Violation
with_violation none rest = rest
with_violation (some l) rest = l ∷ rest

-- `parse` is the CEL parser, `none` where it gives issues.
module _ (res : Resolver) (parse : String → Option Expr) (pool : Pool) (root : Option String) where
  -- The message that goes with a violation, `none` where it is not listed.
  unfoldable pub message_for : Schema → Report → Found → Option String
  unfolding cel_field_refs admits_refs standard_message
  message_for s v standard = some (standard_message v)
  message_for s v unknown_rule = none
  message_for s v (cel_rule r) =
      if admits_refs s (names_of v.field) (cel_field_refs (parse r.expression))
      then some (declared_message r v)
      else none

  -- One round of the loop.
  unfoldable pub list_one : Schema → Report → Option Violation
  unfolding admitted_path cel_rule_for message_for listed_as
  list_one s v =
      if admitted_path s (names_of v.field)
      then listed_as v (message_for s v (cel_rule_for res pool root v))
      else none

  unfoldable pub list_all : Schema → List Report → List Violation
  unfolding list_one
  list_all s [] = []
  list_all s (v ∷ vs) = with_violation (list_one s v) (list_all s vs)

  -- The input schema is that of SchemaFor, `none` for its error.
  unfoldable pub admitted_violations : Option Schema → List Report → List Violation
  unfolding list_all
  admitted_violations none vs = []
  admitted_violations (some s) vs = list_all s vs
