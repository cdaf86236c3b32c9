-- ===== src/Tests/Schemas.antt =====
-- A payment's schema as a caller is shown it, the violations listed to her, and her tools.
use mathlib.Core.List.{Memᴰ}
use garmd.Base.{
  ◌≡◌, refl, ◌↔◌, ℕ, Bool, true, false, String, Option, none, some, List, [], ◌∷◌, str_eq, arith,
  ◌==◌, if◌then◌else◌,
}
use garmd.Base.Refines.{Refines}
use garmd.Toolplane.{Action, Plan, Core, visible}
use garmd.Toolplane.Schema.{
  Field, Pool, Schema, int64, string, scalar, message, single, listed, leaf, closed, array, object,
  property, no_property, project, project_input,
}
use garmd.Toolplane.Schema.Fuel.{project-IsBuilt}
use garmd.Toolplane.Schema.Cache.Keys.{IsCoherent, empty-IsCoherent}
use garmd.Toolplane.Schema.Cache.Coherent.{}
use garmd.Toolplane.Discovery.{catalog, matches}
use garmd.Toolplane.Discovery.Listing.{catalog-lists}
use garmd.Toolplane.Violations.{Element, Report, unsubscripted, text_value, other_value, index}
use garmd.Toolplane.Violations.Rules.{Resolver}
use garmd.Toolplane.Violations.Refs.{Expr, ident, select}
use garmd.Toolplane.Violations.Listed.{admitted_violations}
use garmd.Serve.ListTools.{Spelling, list_tools, asking_for}
use garmd.Serve.ListTools.Projected.{described, list_tools-Refines}
use garmd.Tests.Toy.{toy, pay, alice}

abbrev amount : Field
amount = record {
  name = "amount";
  full_name = "bank.PayRequest.amount";
  shape = single;
  kind = scalar int64;
  has_presence = false;
}

abbrev accounts : Field
accounts = record {
  name = "accounts";
  full_name = "bank.PayRequest.accounts";
  shape = listed;
  kind = message "bank.Account";
  has_presence = false;
}

abbrev iban : Field
iban = record {
  name = "iban";
  full_name = "bank.Account.iban";
  shape = single;
  kind = scalar string;
  has_presence = false;
}

abbrev parent : Field
parent = record {
  name = "parent";
  full_name = "bank.Account.parent";
  shape = single;
  kind = message "bank.Account";
  has_presence = true;
}

abbrev pool : Pool
pool =
    ("bank.PayRequest", amount ∷ accounts ∷ [])
    ∷ ("bank.Account", iban ∷ parent ∷ [])
    ∷ ("bank.PayReply", [])
    ∷ []

abbrev action : String → ℕ → Action Bool
action name write = record {
  name = name;
  path = [];
  read = 1;
  write = write;
  need = false;
  is_subtree = false;
}

-- An account number is beyond the caller's clearance.
abbrev plan : Plan Bool
plan = record {
  actions = action "amount" 2 ∷ action "accounts" 2 ∷ action "accounts.iban" 5 ∷ [];
  hash = "plan";
}

abbrev reply_plan : Plan Bool
reply_plan = record { actions = []; hash = "reply" }

abbrev core : Core Bool String
core = record {
  reg = "finance";
  plans = (1, plan) ∷ (2, reply_plan) ∷ [];
  cards = [];
  need = ("/bank.Payments/Pay", true) ∷ [];
  tools = ("/bank.Payments/Pay", pay) ∷ [];
  has_fga = true;
  has_grants = true;
  has_notifier = false;
  audit_retention = none;
}

abbrev account_schema : Schema
account_schema = object (property "parent" none closed no_property) []

shown_to_alice :
    project_input toy alice pool [] plan "bank.PayRequest"
    ≡ some (
        object
          (property "amount"
            (none)
            (leaf int64)
            (property "accounts" none (array account_schema) no_property))
          ("amount" ∷ []))
unfolding project_input garmd.Base.Dict.lookup
shown_to_alice = refl

project-IsBuilt_example :
    (s : Schema) × (project toy alice (λ a. a.write) pool [] plan "bank.PayRequest" ≡ some s)
project-IsBuilt_example = project-IsBuilt toy alice (λ a. a.write) pool [] plan "bank.PayRequest"

abbrev at : String → Element
at name = record { field_name = name; field_number = 1; subscript = unsubscripted }

abbrev standard_rule : List Element
standard_rule = at "int64" ∷ at "gt" ∷ []

-- Reports on the amount, on an account's number, and of a rule on the request that reads the number.
abbrev reports : List Report
reports =
    record {
      field = at "amount" ∷ [];
      rule = standard_rule;
      rule_id = "int64.gt";
      reported = "must be greater than 0";
      value = other_value;
    }
    ∷ record {
      field =
          record { field_name = "accounts"; field_number = 2; subscript = index 3 }
          ∷ at "iban"
          ∷ [];
      rule = standard_rule;
      rule_id = "string.pattern";
      reported = "does not match";
      value = text_value "DE89";
    }
    ∷ record {
      field = [];
      rule = [];
      rule_id = "named";
      reported = "needs an account";
      value = other_value;
    }
    ∷ record {
      field = [];
      rule = [];
      rule_id = "covered";
      reported = "needs an amount";
      value = other_value;
    }
    ∷ []

abbrev resolver : Resolver
resolver = record {
  message_rules = λ md. some (
      record { id = "named"; declared = "needs an account"; expression = "this.accounts.iban" }
      ∷ record { id = "covered"; declared = "needs an amount"; expression = "this.amount" }
      ∷ []);
  field_rules = λ name. none;
}

abbrev parse : String → Option Expr
parse text =
    if str_eq text "this.amount"
    then some (select (ident "this") "amount")
    else some (select (select (ident "this") "accounts") "iban")

listed_to_alice :
    admitted_violations resolver parse pool
      (some "bank.PayRequest")
      (project_input toy alice pool [] plan "bank.PayRequest")
      reports
    ≡ record { field = "amount"; rule = "int64.gt"; message = "must be greater than 0" }
      ∷ record { field = ""; rule = "covered"; message = "needs an amount" }
      ∷ []
unfolding admitted_violations project_input garmd.Base.Dict.lookup
listed_to_alice = refl

abbrev same : Bool → Bool → Bool
same true b = b
same false true = false
same false false = true

same-eq : (a b : Bool) → same a b ≡ true → a ≡ b
same-eq true true h = refl
same-eq false false h = refl
same-eq true false h = absurd (ground arith)
same-eq false true h = absurd (ground arith)

abbrev name_of : ℕ → String
name_of id = if id == 1 then "bank.PayRequest" else "bank.PayReply"

catalog-lists_example :
    Memᴰ pay (catalog toy core (some alice) (asking_for "AGENT"))
    ↔ Memᴰ pay (pay ∷ [])
      × (visible toy core (some alice) pay ≡ true)
      × (matches (asking_for "AGENT") pay ≡ true)
catalog-lists_example = catalog-lists toy core alice (asking_for "AGENT") pay

abbrev spelling : Spelling String
spelling = record {
  unmarshal = λ body. some body;
  shout = λ s. s;
  verb_name = λ v. "VERB_WRITE";
  mode_name = λ m. "MODE_GRANT";
}

list_tools-Refines_example :
    Refines
      (IsCoherent toy core pool [] name_of)
      (list_tools toy same spelling pool core "sha256:1" alice (some "AUDIENCE_AGENT") [])
      (described toy same spelling pool core "sha256:1" alice (some "AUDIENCE_AGENT"))
list_tools-Refines_example =
    list_tools-Refines toy same spelling pool core same-eq name_of [] "sha256:1" alice
      (some "AUDIENCE_AGENT") [] ((refl, refl, refl), tt)
      (empty-IsCoherent toy core pool [] name_of)
