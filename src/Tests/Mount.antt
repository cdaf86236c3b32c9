-- ===== src/Tests/Mount.antt =====
-- A mount of a tool, and what is checked of it.
use garmd.Base.{◌≡◌, refl, Bool, true, false, String, some, [], ◌∷◌}
use garmd.ToolDef.{Def}
use garmd.ToolDef.Same.{same_declaration_as}
use garmd.Toolplane.{Core}
use garmd.Toolplane.Mount.{Levels, Compiler, unimplemented_governance, add_tools}
use garmd.Toolplane.Mount.Plans.{core_of}
use garmd.Toolplane.Mount.Holds.{HasKept, add_tools-HasKept}
use garmd.Toolplane.Mount.Retention.{IsHonoured, unimplemented_governance-IsHonoured}
use garmd.Tests.Toy.{toy, pay}

abbrev levels : Levels
levels = record {
  mode_unspecified = 0;
  mode_none = 1;
  mode_notify = 2;
  mode_grant = 4;
  level_unspecified = 0;
  level_ledger = 1;
  level_audit = 2;
}

abbrev compiler : Compiler Bool String
compiler = record {
  compile = λ reg d. some (record { actions = []; hash = d.full_name });
  contains_card = λ d. false;
}

abbrev empty : Core Bool String
empty = record {
  reg = "finance";
  plans = [];
  cards = [];
  need = [];
  tools = [];
  has_fga = true;
  has_grants = true;
  has_notifier = false;
  audit_retention = some 8640000000000000;
}

add_tools-HasKept_example :
    HasKept toy levels compiler empty (core_of (add_tools toy levels compiler empty (pay ∷ [])))
add_tools-HasKept_example = add_tools-HasKept toy levels compiler empty (pay ∷ [])

pay_governed : unimplemented_governance levels empty pay ≡ []
unfolding unimplemented_governance
pay_governed = refl

unimplemented_governance-IsHonoured_example : IsHonoured levels empty pay
unimplemented_governance-IsHonoured_example =
    unimplemented_governance-IsHonoured levels empty pay pay_governed

-- The same declaration, read from another catalogue that shows it under another client name.
abbrev renamed : Def
renamed = record pay { client_name = "bank_pay" }

renamed_same : same_declaration_as pay renamed ≡ true
unfolding same_declaration_as
renamed_same = refl
