-- ===== src/Tests/Chain.antt =====
-- A call of the chain: it runs, it is answered, and it leaves its row.
use garmd.Base.{
  ℕ, ◌≡◌, refl, ◌≢◌, ◌↔◌, ◌⊎◌, Bool, true, false, String, Option, none, some, List, [], ◌∷◌, arith,
}
use garmd.Principal.{Principal}
use garmd.Toolplane.{Core, Plan, Action, sees, visible}
use garmd.Toolplane.Visible.{Within}
use garmd.Toolplane.Message.{Msg, msg, no_field, field, scalar, repeated, end, and, field_is_set}
use garmd.Toolplane.Message.Reach.{IsPopulated, field_is_set-IsPopulated}
use garmd.Toolplane.Refusal.{Code, Fault, tool_refusal, foreign}
use garmd.Toolplane.Chain.{
  Answer, replied, Validity, valid, Verdict, PostAnswer, filtered, CardsAnswer, Sanitized, Seams,
}
use garmd.Toolplane.Chain.Passes.{ran}
use garmd.Toolplane.Chain.Invoke.{Request, answered, invoke}
use garmd.Toolplane.Chain.Invoke.Rows.{HasOneRow, invoke-HasOneRow}
use garmd.Toolplane.Chain.Invoke.Gates.{HasRun, invoke-HasRun}
use garmd.Toolplane.Chain.Invoke.Clean.{IsClean, invoke-IsClean}
use garmd.Tests.Toy.{toy, pay, alice, input_type, output_type}

abbrev core : Core Bool String
core = record {
  reg = "finance";
  plans =
      (
        1,
        record {
          actions =
              record {
                name = "amount";
                path = 1 ∷ [];
                read = 1;
                write = 3;
                need = true;
                is_subtree = false;
              }
              ∷ [];
          hash = "h1";
        },
      )
      ∷ (2, record { actions = []; hash = "h2" })
      ∷ [];
  cards = [];
  need = (pay.full_method, true) ∷ [];
  tools = (pay.full_method, pay) ∷ [];
  has_fga = true;
  has_grants = true;
  has_notifier = false;
  audit_retention = some 0;
}

abbrev request_message : Msg
request_message = msg input_type (field 1 scalar no_field)

abbrev reply_message : Msg
reply_message = msg output_type no_field

abbrev seams : Seams Bool String
seams = record {
  validate = λ m. valid;
  admitted = λ tool p vs. vs;
  pre = some (λ p tool m. none);
  verify = some (λ p tool m. record { task_id = "task-1"; refusal = none; text = "" });
  availability = some (λ fqn. none);
  audit = some (λ ev. none);
  post = some (λ p tool m. filtered m);
  sanitize = λ plan p m. record { message = m; paths = []; hash = plan.hash; disclosed = 0 };
  has_cards = λ m. false;
  project_cards = λ p tool m. CardsAnswer.gone;
  notifies = true;
  level_audit = 2;
}

abbrev request : Request
request = record {
  procedure = pay.full_method;
  message = some request_message;
  resolver = some (λ ic m. replied (some reply_message));
  event_id = "ev-1";
  fresh_correlation = "corr_1";
  correlation = none;
}

request-ran : ran (invoke toy core seams request (some alice)).1 ≡ true
unfolding invoke garmd.Base.Dict.lookup visible garmd.Principal.has
    garmd.Toolplane.Chain.Steps.check_input_writes garmd.Toolplane.plan_for
    garmd.Toolplane.Chain.Steps.validate_input garmd.Toolplane.Chain.Steps.fga_pre
    garmd.Toolplane.Chain.Steps.verify_grant garmd.Toolplane.Chain.Steps.check_availability
    garmd.Toolplane.Chain.Steps.audit_intent garmd.Toolplane.Chain.Steps.resolve
    garmd.Toolplane.Chain.Steps.fga_post garmd.Toolplane.Chain.Steps.sanitize
request-ran = refl

request_answered : (invoke toy core seams request (some alice)).0 ≡ answered (some reply_message)
unfolding invoke garmd.Base.Dict.lookup visible garmd.Principal.has
    garmd.Toolplane.Chain.Steps.check_input_writes garmd.Toolplane.plan_for
    garmd.Toolplane.Chain.Steps.validate_input garmd.Toolplane.Chain.Steps.fga_pre
    garmd.Toolplane.Chain.Steps.verify_grant garmd.Toolplane.Chain.Steps.check_availability
    garmd.Toolplane.Chain.Steps.audit_intent garmd.Toolplane.Chain.Steps.resolve
    garmd.Toolplane.Chain.Steps.fga_post garmd.Toolplane.Chain.Steps.sanitize
request_answered = refl

invoke-HasRun_example :
    HasRun toy core seams request (some alice) (invoke toy core seams request (some alice)).1
invoke-HasRun_example = invoke-HasRun toy core seams request (some alice) request-ran

invoke-HasOneRow_example :
    HasOneRow toy core seams request (some alice) (invoke toy core seams request (some alice))
invoke-HasOneRow_example = invoke-HasOneRow toy core seams request (some alice)

invoke-IsClean_example : IsClean toy core seams alice (some pay) reply_message
unfolding garmd.Base.Dict.lookup
invoke-IsClean_example = invoke-IsClean toy core seams request alice reply_message request_answered

-- Carol has less than alice, and enough.
abbrev carol : Principal Bool
carol = record alice { subject = "carol"; clearance = 2; tool_sets = some ("payments" ∷ []) }

carol-Within : Within toy carol alice
carol-Within = record {
  verbs = λ v h. h;
  clearance = λ need h. ground arith;
  compartments = λ need h. h;
  scope = tt;
}

carol-sees : sees toy core carol pay ≡ true
unfolding sees garmd.Principal.has
carol-sees = refl

not_foreign :
    (code : Code) (text : String) → ◌≢◌ {A = Fault String} (tool_refusal "404") (foreign code text)
not_foreign code text e = ground arith

-- Two payments in a list, the second with its amount.
abbrev batch : Msg
batch = msg input_type (
    field 4
      (repeated
        (and (msg input_type no_field) (and (msg input_type (field 1 scalar no_field)) end)))
      no_field)

field_is_set-IsPopulated_example :
    (field_is_set batch (4 ∷ 1 ∷ []) ≡ true) ↔ IsPopulated (4 ∷ 1 ∷ []) batch
field_is_set-IsPopulated_example = field_is_set-IsPopulated batch (4 ∷ 1 ∷ [])
