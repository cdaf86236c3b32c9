-- ===== src/Tests/Toy.antt =====
-- A policy of one compartment, and a catalogue's tool under it.
use garmd.Base.{
  Bool, true, false, not, ◌&&◌, ◌||◌, String, Option, none, some, List, [], ◌∷◌, leb, str_eq,
  if◌then◌else◌, contains, arith,
}
use garmd.Policy.{Policy, IsLattice}
use garmd.Principal.{Principal}
use garmd.ToolDef.{Def, Descriptor}

abbrev set_of : String → List String → Option Bool
set_of declared [] = some false
set_of declared (n ∷ ns) = if str_eq n declared then known (set_of declared ns) else none
  where
    known : Option Bool → Option Bool
    known none = none
    known (some b) = some true

abbrev pub toy : Policy Bool String String
toy = record {
  allows = λ held need. leb need held;
  covers = λ held need. held || not need;
  no_compartments = false;
  meet = λ a b. a && b;
  set = set_of;
  set_lenient = λ declared names. (contains names declared, []);
  names = λ declared c. if c then declared ∷ [] else [];
  new_registry = λ decls. elim decls [ [] ↦ some "" | d ∷ ds ↦ some d ];
}

pub toy-IsLattice : IsLattice toy
toy-IsLattice = record {
  allows_mono = λ low high need h a. ground arith;
  allows_trans = λ high low need h a. ground arith;
  covers_trans = λ a b need h k. ground arith;
  covers-meet = λ a b need. ground arith;
}

abbrev pub input_type : Descriptor
input_type = record { id = 1; full_name = "bank.PayRequest" }

abbrev pub output_type : Descriptor
output_type = record { id = 2; full_name = "bank.PayReply" }

-- An approval-gated, audited tool in one compartment, whose audit fails closed.
abbrev pub pay : Def
pay = record {
  full_method = "/bank.Payments/Pay";
  fqn = "bank.pay";
  name = "pay";
  client_name = "pay";
  title = "Pay";
  description = "pays";
  verb = 3;
  min_clearance = 2;
  compartments = "finance" ∷ [];
  sets = "payments" ∷ [];
  audience = [];
  input = some input_type;
  output = some output_type;
  approval_mode = 4;
  approver_min_clearance = 3;
  approver_compartments = [];
  max_grant_age = 900;
  material_fields = "amount" ∷ [];
  audit_level = 2;
  audit_record_request = false;
  audit_record_response = false;
  audit_retain_days = 30;
  audit_fail_closed = true;
  has_authorization = true;
  idempotent = false;
  reversibility = 1;
  external = true;
  when_to_use = "";
  when_not_to_use = "";
  on_error = "";
  field_docs = [];
}

abbrev pub alice : Principal Bool
alice = record {
  subject = "alice";
  actor = "";
  kind = 1;
  chain = record { subject = "alice"; kind = 1 } ∷ [];
  tenant = "acme";
  clearance = 3;
  compartments = true;
  verbs = 8;
  token_id = "t1";
  execution = "";
  tool_sets = none;
}
