-- ===== src/Toolplane/Chain/Invoke/Rows.antt =====
-- The rows of a call of invoke (internal/toolplane/core.go).
use garmd.Base.{
  ◌≡◌, refl, ap, ◌∙◌, ◌≢◌, ◌↔◌, Bool, true, false, not, Option, none, some, List, [], ◌∷◌, arith,
  if◌then◌else◌, Bool-cases, Option-cases, inl, inr,
}
use garmd.Base.Dict.{lookup}
use garmd.Policy.{Policy}
use garmd.Principal.{Principal}
use garmd.ToolDef.{Def}
use garmd.Toolplane.{Core, plan_for, visible}
use garmd.Toolplane.Message.{Msg, descriptor}
use garmd.Toolplane.Refusal.{Fault}
use garmd.Toolplane.Ledger.{
  Recorded, Detail, Event, attribution_of, Trace, new_event, invocation_context,
}
use garmd.Toolplane.Chain.{Seams, Call, End, done, stop, panic, abort}
use garmd.Toolplane.Chain.Steps.{is_audited}
use garmd.Toolplane.Chain.Leaves.{
  Leaves, Ends, rows, outcomes, refuse-Leaves, fail-Leaves, named-Leaves, on_option-Leaves,
  if-Leaves, >>=-Leaves,
}
use garmd.Toolplane.Chain.Leaves.Each.{
  check_input_writes-Leaves, validate_input-Leaves, fga_pre-Leaves, verify_grant-Leaves,
  check_availability-Leaves, audit_intent-Leaves, resolve-Leaves, fga_post-Leaves, sanitize-Leaves,
}
use garmd.Toolplane.Chain.Invoke.{
  Request, Reply, answered, errored, raised, succeed, after_resolver, governed, planned,
  with_message, found, body, recovered, closed, with_notice, with_outcome, tool_of, opened, invoke,
  failed_gates,
}

module _ {C R D V : Type 0} (pol : Policy C R D) (core : Core C R) (steps : Seams C V) where
  succeed-Leaves : (m : Option Msg) → Leaves Recorded.ok (succeed pol core steps m)
  succeed-Leaves m c d = record {
    rows_kept = refl;
    outcomes_kept = refl;
    id_kept = refl;
    attribution_kept = refl;
    grown = ([], refl);
    outcome = refl;
  }

  pub after_resolver-Leaves :
      (p : Principal C) (tool : Option Def) (m : Option Msg)
      → Leaves Recorded.ok (after_resolver pol core steps p tool m)
  unfolding after_resolver
  after_resolver-Leaves p tool none = succeed-Leaves none
  after_resolver-Leaves p tool (some resp) =
      >>=-Leaves Recorded.ok _ _ (fga_post-Leaves pol core steps p tool resp) λ kept.
        >>=-Leaves Recorded.ok _ _ (sanitize-Leaves pol core steps p tool kept)
          λ clean. succeed-Leaves (some clean)

  governed-Leaves :
      (r : Request) (p : Principal C) (tool : Option Def) (req : Msg)
      → Leaves Recorded.ok (governed pol core steps r p tool req)
  unfolding governed
  governed-Leaves r p tool req =
      >>=-Leaves Recorded.ok _ _ (check_input_writes-Leaves pol core steps p req) λ writable.
        >>=-Leaves Recorded.ok _ _ (validate_input-Leaves pol core steps p tool req) λ well_formed.
          >>=-Leaves Recorded.ok _ _ (fga_pre-Leaves pol core steps p tool req) λ permitted.
            >>=-Leaves Recorded.ok _ _ (verify_grant-Leaves pol core steps p tool req) λ approved.
              >>=-Leaves Recorded.ok _ _ (check_availability-Leaves pol core steps tool)
                λ reachable.
                  >>=-Leaves Recorded.ok _ _ (audit_intent-Leaves pol core steps tool) λ intended.
                    >>=-Leaves Recorded.ok _ _
                      (resolve-Leaves pol core steps r.resolver
                        (invocation_context p r.event_id r.fresh_correlation r.correlation) req)
                      λ resp. after_resolver-Leaves p tool resp

  planned-Leaves :
      (r : Request) (p : Principal C) (tool : Option Def) (req : Msg)
      → Leaves Recorded.ok (planned pol core steps r p tool req)
  unfolding planned
  planned-Leaves r p none req =
      on_option-Leaves Recorded.ok (plan_for pol core (descriptor req)) _ _
        (refuse-Leaves Recorded.ok Detail.no_request_plan Fault.err_unimplemented)
        λ plan. governed-Leaves r p none req
  planned-Leaves r p (some t) req = governed-Leaves r p (some t) req

  error-ne-ok : Recorded.error ≢ Recorded.ok
  error-ne-ok e = ground arith

  with_message-Leaves :
      (r : Request) (p : Principal C) (tool : Option Def) (m : Option Msg)
      → Leaves Recorded.ok (with_message pol core steps r p tool m)
  unfolding with_message
  with_message-Leaves r p tool none =
      fail-Leaves Recorded.ok Recorded.error Detail.not_a_message Fault.err_internal error-ne-ok
  with_message-Leaves r p tool (some req) = planned-Leaves r p tool req

  found-Leaves :
      (r : Request) (p : Principal C) (tool : Option Def)
      → Leaves Recorded.ok (found pol core steps r p tool)
  unfolding found
  found-Leaves r p none = with_message-Leaves r p none r.message
  found-Leaves r p (some t) = named-Leaves Recorded.ok t.name _ (
      if-Leaves Recorded.ok (not (visible pol core (some p) t)) _ _
        (refuse-Leaves Recorded.ok (failed_gates pol core steps p t) Fault.err_not_found)
        (with_message-Leaves r p (some t) r.message))

  body-Leaves :
      (r : Request) (p : Option (Principal C)) → Leaves Recorded.ok (body pol core steps r p)
  unfolding body
  body-Leaves r none = refuse-Leaves Recorded.ok Detail.no_principal Fault.err_unauthenticated
  body-Leaves r (some p) = found-Leaves r p (lookup r.procedure core.tools)

  abbrev pub is_answered : Reply V → Bool
  is_answered (answered m) = true
  is_answered (errored f) = false
  is_answered raised = false

  -- The call is of a tool that declares an audit, and a sink is configured.
  abbrev pub owes_outcome : Option Def → Bool
  owes_outcome tool = elim steps.audit [
    | none ↦ false
    | some write ↦ is_audited pol core steps tool
  ]

  -- What the traces of a whole call say of its row.
  pub record HasOneRow (r : Request) (p : Option (Principal C)) (e : Reply V × List Trace)
      : Type 0 where
    pub row : Event
    pub only : rows e.1 ≡ row ∷ []
    pub id : row.id ≡ r.event_id
    pub attribution : row.attribution ≡ attribution_of pol core.reg p
    pub outcome : (row.outcome ≡ Recorded.ok) ↔ (is_answered e.0 ≡ true)
    pub audited :
        outcomes e.1 ≡ (if owes_outcome (tool_of pol core steps r p) then row ∷ [] else [])

  -- A row is that of the call, and says ok where the call is answered only.
  record IsRow (r : Request) (p : Option (Principal C)) (x : Reply V × Event × List Trace)
      : Type 0 where
    no_rows : rows x.2 ≡ []
    no_outcomes : outcomes x.2 ≡ []
    id : x.1.id ≡ r.event_id
    attribution : x.1.attribution ≡ attribution_of pol core.reg p
    outcome : (x.1.outcome ≡ Recorded.ok) ↔ (is_answered x.0 ≡ true)

  recovered-IsRow :
      (r : Request) (p : Option (Principal C)) (e : End V (Option Msg) × Call)
      → Ends Recorded.ok (opened pol core steps r p) e
      → IsRow r p (recovered pol core steps e)
  unfolding recovered new_event
  recovered-IsRow r p (done m, c) is = record {
    no_rows = is.rows_kept;
    no_outcomes = is.outcomes_kept;
    id = is.id_kept;
    attribution = is.attribution_kept;
    outcome = (λ e. refl, λ e. is.outcome);
  }
  recovered-IsRow r p (stop f, c) is = record {
    no_rows = is.rows_kept;
    no_outcomes = is.outcomes_kept;
    id = is.id_kept;
    attribution = is.attribution_kept;
    outcome = (λ e. absurd (is.outcome e), λ e. absurd (ground arith));
  }
  recovered-IsRow r p (panic t, c) is = record {
    no_rows = is.rows_kept;
    no_outcomes = is.outcomes_kept;
    id = is.id_kept;
    attribution = is.attribution_kept;
    outcome = (λ e. absurd (ground arith), λ e. absurd (ground arith));
  }
  recovered-IsRow r p (abort, c) is = record {
    no_rows = is.rows_kept;
    no_outcomes = is.outcomes_kept;
    id = is.id_kept;
    attribution = is.attribution_kept;
    outcome = (λ e. absurd (ground arith), λ e. absurd (ground arith));
  }

  rows-with_notice :
      (ev : Event) (ts : List Trace) → rows (with_notice pol core steps ev ts) ≡ rows ts
  rows-with_notice ev ts = elim (Bool-cases steps.notifies) [
    | inl e ↦ rw e refl
    | inr e ↦ rw e refl
  ]

  outcomes-with_notice :
      (ev : Event) (ts : List Trace) → outcomes (with_notice pol core steps ev ts) ≡ outcomes ts
  outcomes-with_notice ev ts = elim (Bool-cases steps.notifies) [
    | inl e ↦ rw e refl
    | inr e ↦ rw e refl
  ]

  rows-with_outcome :
      (tool : Option Def) (ev : Event) (ts : List Trace)
      → rows (with_outcome pol core steps tool ev ts) ≡ rows ts
  rows-with_outcome tool ev ts = elim (Option-cases steps.audit) [
    | inl e ↦ rw e refl
    | inr (w, e) ↦ rw e (elim (Bool-cases (is_audited pol core steps tool)) [
      | inl f ↦ rw f refl
      | inr f ↦ rw f refl
    ])
  ]

  outcomes-with_outcome :
      (tool : Option Def) (ev : Event) (ts : List Trace)
      → outcomes ts ≡ []
      → outcomes (with_outcome pol core steps tool ev ts)
        ≡ (if owes_outcome tool then ev ∷ [] else [])
  outcomes-with_outcome tool ev ts quiet = elim (Option-cases steps.audit) [
    | inl e ↦ rw e quiet
    | inr (w, e) ↦ rw e (elim (Bool-cases (is_audited pol core steps tool)) [
      | inl f ↦ rw f (ap (λ l. ev ∷ l) quiet)
      | inr f ↦ rw f quiet
    ])
  ]

  closed-HasOneRow :
      (r : Request) (p : Option (Principal C)) (x : Reply V × Event × List Trace)
      → IsRow r p x
      → HasOneRow r p (closed pol core steps (tool_of pol core steps r p) x)
  unfolding closed
  closed-HasOneRow r p (reply, ev, ts) is = record {
    row = ev;
    only =
        rows-with_outcome (tool_of pol core steps r p) ev _
        ∙ rows-with_notice ev _
        ∙ ap (λ l. ev ∷ l) is.no_rows;
    id = is.id;
    attribution = is.attribution;
    outcome = is.outcome;
    audited =
        outcomes-with_outcome (tool_of pol core steps r p) ev _
          (outcomes-with_notice ev _ ∙ is.no_outcomes);
  }

  -- Every call, however it ends, leaves exactly one row in the ledger. It carries the id and the
  -- attribution of the call, it says ok exactly where the caller is answered, and the audit
  -- stream has the same row once where a sink is configured and the tool is audited, and no other.
  pub invoke-HasOneRow :
      (r : Request) (p : Option (Principal C)) → HasOneRow r p (invoke pol core steps r p)
  unfolding invoke
  invoke-HasOneRow r p =
      closed-HasOneRow r p
        (recovered pol core steps (body pol core steps r p (opened pol core steps r p)))
        (recovered-IsRow r p _
          (body-Leaves r p (opened pol core steps r p) (unfold new_event in refl)))
