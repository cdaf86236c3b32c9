-- ===== src/ToolDef.antt =====
-- internal/tool/tool.go: a tool declaration, and what audience it is for.
pub mod Same
use garmd.Base.{
  ℕ, String, Bool, true, false, ◌&&◌, ◌||◌, Option, none, some, List, [], ◌∷◌, str_eq, ◌==◌,
  if◌then◌else◌,
}
use garmd.Base.Dict.{Dict, lookup}

-- A protoreflect message descriptor: its identity (a pointer in Go) and its full name.
pub record Descriptor : Type 0 where
  pub id : ℕ
  pub full_name : String

-- Enums are their numbers, durations are nanoseconds; a nil descriptor is `none`.
pub record Def : Type 0 where
  pub full_method : String
  pub fqn : String
  pub name : String
  pub client_name : String
  pub title : String
  pub description : String
  pub verb : ℕ
  pub min_clearance : ℕ
  pub compartments : List String
  pub sets : List String
  pub audience : List String
  pub input : Option Descriptor
  pub output : Option Descriptor
  pub approval_mode : ℕ
  pub approver_min_clearance : ℕ
  pub approver_compartments : List String
  pub max_grant_age : ℕ
  pub material_fields : List String
  pub audit_level : ℕ
  pub audit_record_request : Bool
  pub audit_record_response : Bool
  pub audit_retain_days : ℕ
  pub audit_fail_closed : Bool
  pub has_authorization : Bool
  pub idempotent : Bool
  pub reversibility : ℕ
  pub external : Bool
  pub when_to_use : String
  pub when_not_to_use : String
  pub on_error : String
  pub field_docs : Dict String

-- The loop of AudienceAdmits over the declared names.
unfoldable pub any_admits : List String → String → Bool
any_admits [] want = false
any_admits (d ∷ declared) want =
    str_eq d want || (str_eq d "UNSPECIFIED" && str_eq want "AGENT") || any_admits declared want

-- An absent or unspecified request asks for AGENT.
abbrev pub asked_for : String → String
asked_for want = if str_eq want "" || str_eq want "UNSPECIFIED" then "AGENT" else want

abbrev pub admits_or_agent : List String → String → Bool
admits_or_agent [] want = str_eq want "AGENT"
admits_or_agent (d ∷ declared) want = any_admits (d ∷ declared) want

unfoldable pub audience_admits : List String → String → Bool
unfolding any_admits
audience_admits declared want = admits_or_agent declared (asked_for want)
