-- ===== src/Toolplane/Chain/Invoke/Gates.antt =====
-- What holds where a resolver of internal/toolplane/core.go ran.
use garmd.Base.{
  ◌≡◌, refl, sym, subst, ap, ◌∙◌, true, Option, none, some, List, arith, Bool-cases, Option-cases,
  inl, inr,
}
use garmd.Base.Dict.{lookup}
use garmd.Policy.{Policy}
use garmd.Principal.{Principal}
use garmd.ToolDef.{Def}
use garmd.Toolplane.{Plan, Core, plan_for, visible}
use garmd.Toolplane.Message.{Msg, descriptor}
use garmd.Toolplane.Ledger.{Trace, new_event}
use garmd.Toolplane.Chain.{valid, Seams}
use garmd.Toolplane.Chain.Steps.{audit_intent}
use garmd.Toolplane.Chain.Invoke.{
  Request, governed, planned, with_message, found, body, recovered, tool_of, opened, invoke,
}
use garmd.Toolplane.Chain.Passes.{some-inj, ran, Needs, >>=-Needs, never-Needs}
use garmd.Toolplane.Chain.Leaves.{IsGrown}
use garmd.Toolplane.Chain.Invoke.Closed.{traces-recovered, closed-IsClosed}
use garmd.Toolplane.Chain.Invoke.Intent.{OnRecord, OnRecord-grown, row_of, intent_then}
use garmd.Toolplane.Chain.Passes.Intent.{audit_intent-IntendedOr}
use garmd.Toolplane.Chain.Passes.Each.{
  Writable, Permitted, Approved, Reachable, check_input_writes-Passes, validate_input-Passes,
  fga_pre-Passes, verify_grant-Passes, check_availability-Passes,
}

module _ {C R D V : Type 0} (pol : Policy C R D) (core : Core C R) (steps : Seams C V) where
  -- All that a request has passed where its resolver runs.
  pub record HasPassed (p : Principal C) (tool : Option Def) (req : Msg) : Type 0 where
    pub plan : Plan C
    pub classified : plan_for pol core (descriptor req) ≡ some plan
    pub writable : Writable pol core steps p req plan.actions
    pub in_order : steps.validate req ≡ valid
    pub permitted : Permitted pol core steps p tool req
    pub approved : Approved pol core steps p tool req
    pub reachable : Reachable pol core steps tool
    pub visible : (t : Def) → tool ≡ some t → visible pol core (some p) t ≡ true

  abbrev Governed : Request → Principal C → Option Def → Msg → List Trace → Type 0
  Governed r p tool req ts = HasPassed p tool req × OnRecord pol core steps r p tool ts

  governed-Needs :
      (r : Request) (p : Principal C) (tool : Option Def) (req : Msg)
      → ((t : Def) → tool ≡ some t → visible pol core (some p) t ≡ true)
      → Needs
          (row_of pol core steps r p tool)
          (Governed r p tool req)
          (governed pol core steps r p tool req)
  unfolding governed
  governed-Needs r p tool req seen =
      let who = row_of pol core steps r p tool in
      >>=-Needs _ _ (check_input_writes-Passes pol core steps who p req) λ may_write writable.
        >>=-Needs _ _ (validate_input-Passes pol core steps who p tool req) λ in_order well_formed.
          >>=-Needs _ _ (fga_pre-Passes pol core steps who p tool req) λ permitted u.
            >>=-Needs _ _ (verify_grant-Passes pol core steps who p tool req) λ approved v.
              >>=-Needs _ _ (check_availability-Passes pol core steps who tool) λ reachable w.
                record {
                  from = λ c own ran. (
                    record {
                      plan = may_write.0;
                      classified = may_write.1;
                      writable = may_write.2;
                      in_order = in_order;
                      permitted = permitted;
                      approved = approved;
                      reachable = reachable;
                      visible = seen;
                    },
                    intent_then pol core steps r p tool req (audit_intent pol core steps tool c)
                        (audit_intent-IntendedOr pol core steps who tool c own) ran,
                  );
                }

  planned-Needs :
      (r : Request) (p : Principal C) (tool : Option Def) (req : Msg)
      → ((t : Def) → tool ≡ some t → visible pol core (some p) t ≡ true)
      → Needs
          (row_of pol core steps r p tool)
          (Governed r p tool req)
          (planned pol core steps r p tool req)
  unfolding planned
  planned-Needs r p none req seen = elim (Option-cases (plan_for pol core (descriptor req))) [
    | inl e ↦ rw (e, planned) (never-Needs (Governed r p none req) _ (λ c. refl))
    | inr (plan, e) ↦ rw (e, planned) (governed-Needs r p none req seen)
  ]
  planned-Needs r p (some t) req seen = governed-Needs r p (some t) req seen

  -- What a call has where its resolver runs.
  pub record HasRun (r : Request) (p : Option (Principal C)) (ts : List Trace) : Type 0 where
    pub principal : Principal C
    pub is_principal : p ≡ some principal
    pub req : Msg
    pub is_message : r.message ≡ some req
    pub passed : HasPassed principal (lookup r.procedure core.tools) req
    pub on_record : OnRecord pol core steps r principal (lookup r.procedure core.tools) ts

  with_message-Needs :
      (r : Request) (p : Principal C) (tool : Option Def) (m : Option Msg)
      → r.message ≡ m
      → lookup r.procedure core.tools ≡ tool
      → ((t : Def) → tool ≡ some t → visible pol core (some p) t ≡ true)
      → Needs
          (row_of pol core steps r p tool)
          (HasRun r (some p))
          (with_message pol core steps r p tool m)
  unfolding with_message
  with_message-Needs r p tool none e f seen = never-Needs (HasRun r (some p)) _ (λ c. refl)
  with_message-Needs r p tool (some req) e f seen = record {
    from = λ c own ran.
        let (passed, on_record) = (planned-Needs r p tool req seen).from c own ran in
        record {
          principal = p;
          is_principal = refl;
          req = req;
          is_message = e;
          passed = subst (λ t. HasPassed p t req) (sym f) passed;
          on_record =
              subst
                (λ t.
                  OnRecord pol core steps r p t
                    (with_message pol core steps r p tool (some req) c).1.traces)
                (sym f) on_record;
        };
  }

  found-Needs :
      (r : Request) (p : Principal C) (tool : Option Def)
      → lookup r.procedure core.tools ≡ tool
      → Needs (row_of pol core steps r p none) (HasRun r (some p)) (found pol core steps r p tool)
  unfolding found row_of
  found-Needs r p none f =
      with_message-Needs r p none r.message refl f (λ t e. absurd (ground arith))
  found-Needs r p (some t) f = elim (Bool-cases (visible pol core (some p) t)) [
    | inl seen ↦
        let go =
          with_message-Needs r p (some t) r.message refl f
            (λ u e. subst (λ d. visible pol core (some p) d ≡ true) (some-inj e) seen) in
        rw (seen, found)
          (record {
            from = λ c (quiet, own) ran.
                go.from (record c { event = record c.event { tool = t.name } })
                  (
                    quiet,
                    record {
                      same_id = own.same_id;
                      same_tool = refl;
                      same_attribution = own.same_attribution;
                      is_open = own.is_open;
                    },
                  )
                  ran;
          })
    | inr hidden ↦ rw (hidden, found) (never-Needs (HasRun r (some p)) _ (λ c. refl))
  ]

  body-Needs :
      (r : Request) (p : Option (Principal C))
      → Needs
          (new_event pol core.reg r.event_id p r.procedure)
          (HasRun r p)
          (body pol core steps r p)
  unfolding body row_of new_event
  body-Needs r none = never-Needs (HasRun r none) _ (λ c. refl)
  body-Needs r (some p) = found-Needs r p (lookup r.procedure core.tools) refl

  HasRun-grown :
      (r : Request) (p : Option (Principal C)) (ts us : List Trace)
      → IsGrown ts us
      → HasRun r p ts
      → HasRun r p us
  HasRun-grown r p ts us more h = record {
    principal = h.principal;
    is_principal = h.is_principal;
    req = h.req;
    is_message = h.is_message;
    passed = h.passed;
    on_record =
        OnRecord-grown pol core steps r h.principal (lookup r.procedure core.tools) ts us more
          h.on_record;
  }

  -- Where the resolver of a call ran, there is a principal and a message with a compiled plan; the
  -- tool, if there is one, is visible to the principal and reachable; every field that the message
  -- sets is one the principal may write; the message is in order; and no declared check of the
  -- instance or of the grant refused. Where the tool is audited and fails closed and there is a sink,
  -- the sink took the intent of this very call (its id, tool and caller), and the resolver ran right
  -- after that.
  pub invoke-HasRun :
      (r : Request) (p : Option (Principal C))
      → ran (invoke pol core steps r p).1 ≡ true
      → HasRun r p (invoke pol core steps r p).1
  unfolding invoke new_event
  invoke-HasRun r p h =
      let e = body pol core steps r p (opened pol core steps r p) in
      let end =
        closed-IsClosed pol core steps (tool_of pol core steps r p) (recovered pol core steps e) in
      let same = traces-recovered pol core steps e in
      HasRun-grown r p (recovered pol core steps e).2 _ end.grown (
        subst (HasRun r p) (sym same) (
          (body-Needs r p).from (opened pol core steps r p)
            (
              refl,
              record { same_id = refl; same_tool = refl; same_attribution = refl; is_open = refl },
            )
            (ap ran (sym same) ∙ sym end.same_run ∙ h)))
