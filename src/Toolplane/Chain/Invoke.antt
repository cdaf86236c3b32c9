-- ===== src/Toolplane/Chain/Invoke.antt =====
-- invoke of internal/toolplane/core.go: the order of the steps, and the rows that end every call.
pub mod Rows
pub mod Intent
pub mod Closed
pub mod Gates
pub mod Clean
use garmd.Base.{String, Bool, true, false, not, Option, none, some, List, [], ◌∷◌, if◌then◌else◌}
use garmd.Base.Dict.{lookup}
use garmd.Policy.{Policy}
use garmd.Principal.{Principal, has}
use garmd.ToolDef.{Def}
use garmd.Toolplane.{Core, plan_for, need_of, visible}
use garmd.Toolplane.Message.{Msg, descriptor}
use garmd.Toolplane.Refusal.{Fault}
use garmd.Toolplane.Ledger.{
  Recorded, Detail, Event, InvocationContext, Trace, noted_event_id, recorded, notified,
  wrote_outcome, new_event, invocation_context,
}
use garmd.Toolplane.Chain.{
  Answer, Seams, Call, End, done, stop, panic, abort, Chain, continue, ◌>>=◌, refuse, fail, named,
  give, on_option, pass,
}
use garmd.Toolplane.Chain.Steps.{
  check_input_writes, validate_input, fga_pre, verify_grant, check_availability, audit_intent,
  resolve, fga_post, sanitize, is_audited,
}

-- One call: the procedure, the request (`none` for a payload that is no message), the resolver,
-- and the ids of the row and of the correlation.
pub record Request : Type 0 where
  pub procedure : String
  pub message : Option Msg
  pub resolver : Option (InvocationContext → Msg → Answer)
  pub event_id : String
  pub fresh_correlation : String
  pub correlation : Option String

-- What the caller of Invoke meets: a message or none, an error, or the abort that is raised again.
pub data Reply (V : Type 0) : Type 0 where
  answered : Option Msg → Reply V
  errored : Fault V → Reply V
  raised : Reply V

module _ {C R D V : Type 0} (pol : Policy C R D) (core : Core C R) (steps : Seams C V) where
  -- The row of a success.
  abbrev pub succeed : Option Msg → Chain V (Option Msg)
  succeed m c = (done m, record c { event = record c.event { outcome = Recorded.ok } })

  -- Behind the resolver.
  unfoldable pub after_resolver : Principal C → Option Def → Option Msg → Chain V (Option Msg)
  after_resolver p tool none = succeed none
  after_resolver p tool (some resp) = do
    kept ← fga_post pol core steps p tool resp
    clean ← sanitize pol core steps p tool kept
    succeed (some clean)

  -- From the write check to the end of the call.
  unfoldable pub governed : Request → Principal C → Option Def → Msg → Chain V (Option Msg)
  unfolding after_resolver
  governed r p tool req = do
    writable ← check_input_writes pol core steps p req
    well_formed ← validate_input pol core steps p tool req
    permitted ← fga_pre pol core steps p tool req
    approved ← verify_grant pol core steps p tool req
    reachable ← check_availability pol core steps tool
    intended ← audit_intent pol core steps tool
    resp ←
        resolve pol core steps r.resolver
          (invocation_context p r.event_id r.fresh_correlation r.correlation) req
    after_resolver p tool resp

  -- An unknown procedure is no passthrough: its request needs a plan.
  unfoldable pub planned : Request → Principal C → Option Def → Msg → Chain V (Option Msg)
  unfolding governed
  planned r p none req =
      on_option (plan_for pol core (descriptor req))
        (refuse Detail.no_request_plan Fault.err_unimplemented) λ plan. governed r p none req
  planned r p (some t) req = governed r p (some t) req

  unfoldable pub with_message :
      Request → Principal C → Option Def → Option Msg → Chain V (Option Msg)
  unfolding planned
  with_message r p tool none = fail Recorded.error Detail.not_a_message Fault.err_internal
  with_message r p tool (some req) = planned r p tool req

  abbrev pub failed_gates : Principal C → Def → Detail
  failed_gates p t =
      Detail.invisible (has p.verbs t.verb) (pol.allows p.clearance t.min_clearance)
        (pol.covers p.compartments (need_of pol core t))

  -- Step 2: a tool that the principal cannot use is reported as absent.
  unfoldable pub found : Request → Principal C → Option Def → Chain V (Option Msg)
  unfolding with_message
  found r p none = with_message r p none r.message
  found r p (some t) = named t.name (
      if not (visible pol core (some p) t)
      then refuse (failed_gates p t) Fault.err_not_found
      else with_message r p (some t) r.message)

  unfoldable pub body : Request → Option (Principal C) → Chain V (Option Msg)
  unfolding found
  body r none = refuse Detail.no_principal Fault.err_unauthenticated
  body r (some p) = found r p (lookup r.procedure core.tools)

  -- The recover of the deferred function.
  unfoldable pub recovered : End V (Option Msg) × Call → Reply V × Event × List Trace
  recovered (done m, c) = (answered m, c.event, c.traces)
  recovered (stop f, c) = (errored f, c.event, c.traces)
  recovered (panic text, c) = (
    errored Fault.err_internal,
    record c.event { outcome = Recorded.error; detail = Detail.resolver_panicked text },
    c.traces,
  )
  recovered (abort, c) =
      (raised, record c.event { outcome = Recorded.error; detail = Detail.aborted }, c.traces)

  -- The tool that invoke had looked up when it returned: none without a principal.
  abbrev pub tool_of : Request → Option (Principal C) → Option Def
  tool_of r none = none
  tool_of r (some p) = lookup r.procedure core.tools

  abbrev pub with_outcome : Option Def → Event → List Trace → List Trace
  with_outcome tool ev traces = elim steps.audit [
    | none ↦ traces
    | some write ↦ if is_audited pol core steps tool then wrote_outcome ev ∷ traces else traces
  ]

  abbrev pub with_notice : Event → List Trace → List Trace
  with_notice ev traces = if steps.notifies then notified ev ∷ traces else traces

  -- The rest of the deferred function: the row, the notice, the outcome of an audited call.
  unfoldable pub closed : Option Def → Reply V × Event × List Trace → Reply V × List Trace
  closed tool (reply, ev, traces) =
      (reply, with_outcome tool ev (with_notice ev (recorded ev ∷ traces)))

  abbrev pub opened : Request → Option (Principal C) → Call
  opened r p = record {
    event = new_event pol core.reg r.event_id p r.procedure;
    traces = noted_event_id r.event_id ∷ [];
  }

  -- Invoke, with the traces that the call leaves, the latest first.
  unfoldable pub invoke : Request → Option (Principal C) → Reply V × List Trace
  unfolding body recovered closed
  invoke r p = closed (tool_of r p) (recovered (body r p (opened r p)))
