-- ===== src/Toolplane/Chain/Steps.antt =====
-- The steps of internal/toolplane/core.go, one by one.
use garmd.Base.{
  String, Bool, false, ◌&&◌, Option, none, some, List, [], ◌∷◌, ◌++◌, length, str_eq, ◌==◌,
  if◌then◌else◌,
}
use garmd.Policy.{Policy}
use garmd.Principal.{Principal}
use garmd.ToolDef.{Def}
use garmd.Toolplane.{Action, Core, plan_for}
use garmd.Toolplane.Message.{Msg, descriptor, field_is_set}
use garmd.Toolplane.Refusal.{Code, Fault, is_tool_code}
use garmd.Toolplane.Ledger.{
  Recorded, Detail, Event, InvocationContext, asked_pre, asked_grant, asked_availability,
  asked_post, wrote_intent, resolved, noted_redactions,
}
use garmd.Toolplane.Chain.{
  Answer, replied, answered_code, failed, panicked, aborted, Validity, valid, violates, broken,
  PostAnswer, refused_by, nothing, replaced, filtered, CardsAnswer, invalid_at, gone, projected,
  Sanitized, Seams, done, Chain, ◌>>=◌, leave, refuse, fail, give, on_option, pass, panics, aborts,
  of_kind,
}

module _ {C R D V : Type 0} (pol : Policy C R D) (core : Core C R) (steps : Seams C V) where
  -- The loop of checkInputWrites.
  unfoldable pub unwritable : Principal C → Msg → List (Action C) → Option String
  unwritable p req [] = none
  unwritable p req (a ∷ actions) =
      if pol.allows p.clearance a.write && pol.covers p.compartments a.need
      then unwritable p req actions
      else if field_is_set req a.path
      then some a.name
      else unwritable p req actions

  unfoldable pub check_input_writes : Principal C → Msg → Chain V Unit
  unfolding unwritable
  check_input_writes p req =
      on_option (plan_for pol core (descriptor req))
        (refuse Detail.no_request_plan Fault.err_internal)
        λ plan.
          on_option (unwritable p req plan.actions) pass
            λ name. refuse (Detail.sets_field name) Fault.err_permission_denied

  abbrev pub validated : Principal C → Option Def → Validity V → Chain V Unit
  validated p tool valid = pass
  validated p tool (violates vs) =
      refuse Detail.invalid_input (Fault.validation_refusal (steps.admitted tool p vs))
  validated p tool broken = refuse Detail.invalid_input Fault.err_invalid_argument

  unfoldable pub validate_input : Principal C → Option Def → Msg → Chain V Unit
  validate_input p tool req = validated p tool (steps.validate req)

  unfoldable pub fga_pre : Principal C → Option Def → Msg → Chain V Unit
  fga_pre p tool req = on_option steps.pre pass λ pre. do
    asked ← leave asked_pre
    on_option (pre p tool req) pass
        λ text. refuse (Detail.pre_refused text) Fault.err_permission_denied

  -- The task that the verifier noted goes on the row, whatever it answered.
  abbrev pub tag_task : String → Chain V Unit
  tag_task task c = (
    done tt,
    if str_eq task "" then c else record c { event = record c.event { task_id = task } },
  )

  unfoldable pub verify_grant : Principal C → Option Def → Msg → Chain V Unit
  verify_grant p tool req = on_option steps.verify pass λ verify. do
    asked ← leave asked_grant
    tagged ← tag_task (verify p tool req).task_id
    on_option (verify p tool req).refusal pass
        λ fault. refuse (Detail.grant_refused (verify p tool req).text) fault

  unfoldable pub check_availability : Option Def → Chain V Unit
  check_availability tool = on_option tool pass λ t.
      on_option steps.availability pass λ availability. do
        asked ← leave asked_availability
        on_option (availability t.fqn) pass
            λ reason. fail Recorded.error (Detail.unavailable reason) Fault.err_unavailable

  abbrev pub fails_closed : Option Def → Bool
  fails_closed none = false
  fails_closed (some t) = t.audit_fail_closed

  abbrev pub is_audited : Option Def → Bool
  is_audited none = false
  is_audited (some t) = t.audit_level == steps.level_audit

  -- The row as an intent; the row of the call keeps its outcome.
  abbrev pub as_intent : Event → Event
  as_intent ev = record ev { outcome = Recorded.intent }

  abbrev pub intent_written : Option Def → Option String → Chain V Unit
  intent_written tool failure = on_option failure pass λ text.
      if fails_closed tool
      then fail Recorded.denied (Detail.audit_failed text) Fault.err_unavailable
      else pass

  unfoldable pub write_intent : Option Def → (Event → Option String) → Chain V Unit
  write_intent tool write c =
      intent_written tool (write (as_intent c.event))
        (record c { traces = wrote_intent (as_intent c.event) ∷ c.traces })

  -- auditIntent, and what invoke makes of its error.
  unfoldable pub audit_intent : Option Def → Chain V Unit
  unfolding write_intent
  audit_intent tool =
      on_option steps.audit pass λ write. if is_audited tool then write_intent tool write else pass

  -- invoke's reading of what the resolver answered.
  unfoldable pub answer : Answer → Chain V (Option Msg)
  answer (replied m) = give m
  answer (answered_code code text) =
      if is_tool_code code
      then of_kind "tool_refused"
          (fail Recorded.denied (Detail.tool_refused code text) (Fault.tool_refusal code))
      else fail Recorded.error (Detail.resolver_failed text) (Fault.foreign Code.unknown text)
  answer (failed code text) =
      fail Recorded.error (Detail.resolver_failed text) (Fault.foreign code text)
  answer (panicked text) = panics text
  answer aborted = aborts

  -- resolve: with no resolver the procedure is refused, as an error of the call.
  unfoldable pub resolve :
      Option (InvocationContext → Msg → Answer) → InvocationContext → Msg → Chain V (Option Msg)
  unfolding answer
  resolve none ic req =
      fail Recorded.error (Detail.resolver_failed "no resolver registered") Fault.err_unimplemented
  resolve (some fn) ic req = do ran ← leave (resolved ic); answer (fn ic req)

  unfoldable pub post_answered : Msg → PostAnswer → Chain V Msg
  post_answered resp (refused_by text) =
      fail Recorded.error (Detail.post_refused text) Fault.err_permission_denied
  post_answered resp nothing = fail Recorded.error Detail.post_nothing Fault.err_internal
  post_answered resp replaced = fail Recorded.error Detail.post_replaced Fault.err_internal
  post_answered resp (filtered out) = give out

  unfoldable pub fga_post : Principal C → Option Def → Msg → Chain V Msg
  unfolding post_answered
  fga_post p tool resp =
      on_option steps.post (give resp)
        λ post. do asked ← leave asked_post; post_answered resp (post p tool resp)

  -- The redactions go on the context and the row, as paths and counts.
  unfoldable pub note_redactions : Msg → List String → Sanitized → Chain V Msg
  note_redactions m paths s c = (
    done m,
    record {
      event = record c.event {
        redaction_plan = s.hash;
        redaction_count = length paths;
        disclosed_count = s.disclosed;
      };
      traces = noted_redactions paths s.hash ∷ c.traces;
    },
  )

  unfoldable pub cards_projected : Sanitized → CardsAnswer → Chain V Msg
  unfolding note_redactions
  cards_projected s (invalid_at path) =
      of_kind "card_invalid" (fail Recorded.error (Detail.card_invalid path) Fault.err_internal)
  cards_projected s gone = refuse Detail.card_withheld Fault.err_not_found
  cards_projected s (projected m withheld) = note_redactions m (s.paths ++ withheld) s

  unfoldable pub sanitize_with : Principal C → Option Def → Sanitized → Chain V Msg
  unfolding cards_projected
  sanitize_with p tool s =
      if steps.has_cards s.message
      then cards_projected s (steps.project_cards p tool s.message)
      else note_redactions s.message s.paths s

  -- sanitize, by the plan of the live message.
  unfoldable pub sanitize : Principal C → Option Def → Msg → Chain V Msg
  unfolding sanitize_with
  sanitize p tool resp =
      on_option (plan_for pol core (descriptor resp))
        (fail Recorded.error Detail.no_response_plan Fault.err_internal)
        λ plan. sanitize_with p tool (steps.sanitize plan p resp)
