-- ===== src/Toolplane/Violations/Safe.antt =====
-- What a listed violation gives away (internal/toolplane/violations.go).
use mathlib.Core.List.{Memᴰ}
use text.Mathlib.Text.{find?}
use garmd.Base.{◌≡◌, ◌≢◌, String, Bool, true, Option, none, some, List, ◌++◌, ◌⊎◌, All}
use garmd.Base.Dict.{Dict}
use garmd.Policy.{Policy}
use garmd.Principal.{Principal}
use garmd.Toolplane.Schema.{Pool, Schema}
use garmd.Toolplane.Violations.{
  Value, invalid, text_value, bytes_value, other_value, Report, Violation, names_of, path_string,
}
use garmd.Toolplane.Violations.Rules.{
  Resolver, Found, standard, unknown_rule, cel_rule, cel_rule_for,
}
use garmd.Toolplane.Violations.Refs.{Expr, reads}

-- Every path that the rule's expression reads is one that the caller may use.
abbrev pub ReadsOnly : (List String → Bool) → (String → Option Expr) → List String → Found → Type 0
unfolding reads
ReadsOnly usable parse path standard = Unit
ReadsOnly usable parse path unknown_rule = ⊥
ReadsOnly usable parse path (cel_rule r) =
    (e : Expr) × ((parse r.expression ≡ some e)
      × All (λ ref. usable (path ++ ref) ≡ true) (reads e))

-- The message does not have a refused text or a refused run of bytes in it. A refused number is not
-- looked for, and an empty text is in every message.
abbrev pub IsUnsaid : Value → String → Type 0
IsUnsaid (text_value val) msg = val ≢ "" → find? msg val ≡ none
IsUnsaid (bytes_value val) msg = val ≢ "" → find? msg val ≡ none
IsUnsaid invalid msg = Unit
IsUnsaid other_value msg = Unit

-- A sentence that may be passed on: none at all, a standard one without the refused text or bytes, or
-- the one its author declared.
abbrev pub IsTellable : Report → Found → Type 0
IsTellable v standard = IsUnsaid v.value v.reported
IsTellable v unknown_rule = ⊥
IsTellable v (cel_rule r) = r.declared ≡ v.reported

abbrev pub Tells : Report → Found → String → Type 0
Tells v found msg = (msg ≡ "") ⊎ ((msg ≡ v.reported) × IsTellable v found)

module _ (usable : List String → Bool) (res : Resolver) (parse : String → Option Expr) (pool : Pool)
    (root : Option String) where
  -- What a listed violation comes from, and what it names.
  pub record IsSafe (reports : List Report) (l : Violation) : Type 0 where
    pub report : Report
    pub is_reported : Memᴰ report reports
    pub field_is_usable : usable (names_of report.field) ≡ true
    pub rule_is_known :
        ReadsOnly usable parse (names_of report.field) (cel_rule_for res pool root report)
    pub is_spelled : l.field ≡ path_string report.field
    pub has_rule : l.rule ≡ report.rule_id
    pub tells : Tells report (cel_rule_for res pool root report) l.message
