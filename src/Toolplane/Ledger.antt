-- ===== src/Toolplane/Ledger.antt =====
-- The ledger row that internal/toolplane/core.go opens for a call, and the traces a call leaves.
use garmd.Base.{ℕ, String, Bool, Option, none, some, List, [], ◌∷◌, length}
use garmd.Policy.{Policy}
use garmd.Principal.{ChainEntry, Principal}

pub data Recorded : Type 0 where
  denied ok error intent : Recorded

-- The sentence in ErrorDetail, with what it says of the call.
pub data Detail : Type 0 where
  empty : Detail
  no_principal : Detail
  invisible : Bool → Bool → Bool → Detail
  not_a_message no_request_plan : Detail
  sets_field : String → Detail
  invalid_input : Detail
  pre_refused grant_refused unavailable audit_failed : String → Detail
  tool_refused : String → String → Detail
  resolver_failed resolver_panicked post_refused : String → Detail
  aborted post_nothing post_replaced no_response_plan card_withheld : Detail
  card_invalid : String → Detail

-- The attribution of a row, in names and counts.
pub record Attribution : Type 0 where
  pub tenant : String
  pub subject : String
  pub kind : ℕ
  pub actor : String
  pub chain_depth : ℕ
  pub clearance : ℕ
  pub compartments : List String
  pub execution : String

pub record Event : Type 0 where
  pub id : String
  pub tool : String
  pub outcome : Recorded
  pub attribution : Option Attribution
  pub error_kind : String
  pub detail : Detail
  pub task_id : String
  pub redaction_plan : String
  pub redaction_count : ℕ
  pub disclosed_count : ℕ

-- What a resolver finds on its context.
pub record InvocationContext : Type 0 where
  pub tenant : String
  pub correlation_id : String
  pub subject : String
  pub kind : ℕ
  pub agent : String
  pub call_id : String
  pub act : List ChainEntry

-- The traces of a call, in the order they are left: the steps that ask something outside, the
-- resolver, and the rows.
pub data Trace : Type 0 where
  noted_event_id : String → Trace
  asked_pre asked_grant asked_availability asked_post : Trace
  wrote_intent : Event → Trace
  resolved : InvocationContext → Trace
  noted_redactions : List String → String → Trace
  recorded notified wrote_outcome : Event → Trace

module _ {C R D : Type 0} (pol : Policy C R D) where
  abbrev pub attribution_of : R → Option (Principal C) → Option Attribution
  attribution_of reg none = none
  attribution_of reg (some p) = some (record {
    tenant = p.tenant;
    subject = p.subject;
    kind = p.kind;
    actor = p.actor;
    chain_depth = length p.chain;
    clearance = p.clearance;
    compartments = pol.names reg p.compartments;
    execution = p.execution;
  })

  -- newEvent; the id is minted by the caller.
  unfoldable pub new_event : R → String → Option (Principal C) → String → Event
  new_event reg id p procedure = record {
    id = id;
    tool = procedure;
    outcome = Recorded.denied;
    attribution = attribution_of reg p;
    error_kind = "";
    detail = Detail.empty;
    task_id = "";
    redaction_plan = "";
    redaction_count = 0;
    disclosed_count = 0;
  }

-- `p.Chain[1:]`, and nothing for a chain of one or none.
abbrev pub behind_subject : List ChainEntry → List ChainEntry
behind_subject [] = []
behind_subject (subject ∷ actors) = actors

-- withInvocationContext; the correlation id that is on the context already is preferred.
unfoldable pub invocation_context :
    {C : Type 0} → Principal C → String → String → Option String → InvocationContext
invocation_context p call_id fresh existing = record {
  tenant = p.tenant;
  correlation_id = elim existing [ none ↦ fresh | some id ↦ id ];
  subject = p.subject;
  kind = p.kind;
  agent = p.actor;
  call_id = call_id;
  act = behind_subject p.chain;
}
