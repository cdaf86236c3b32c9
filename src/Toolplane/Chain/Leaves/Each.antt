-- ===== src/Toolplane/Chain/Leaves/Each.antt =====
-- That each step of internal/toolplane/core.go leaves the row of the call alone.
use garmd.Base.{
  [], String, refl, ◌≢◌, inl, inr, Option, none, some, List, ◌∷◌, ◌++◌, arith, Bool-cases, str_eq,
}
use garmd.Policy.{Policy}
use garmd.Principal.{Principal}
use garmd.ToolDef.{Def}
use garmd.Toolplane.{Core, plan_for}
use garmd.Toolplane.Message.{Msg, descriptor}
use garmd.Toolplane.Refusal.{Code, Fault, is_tool_code}
use garmd.Toolplane.Ledger.{
  Recorded, Detail, InvocationContext, asked_pre, asked_grant, asked_availability, asked_post,
  wrote_intent, resolved, noted_redactions,
}
use garmd.Toolplane.Chain.{
  Answer, replied, answered_code, failed, panicked, aborted, Validity, valid, violates, broken,
  PostAnswer, refused_by, nothing, replaced, filtered, CardsAnswer, invalid_at, gone, projected,
  Sanitized, Seams, End, done, stop, panic, abort,
}
use garmd.Toolplane.Chain.Steps.{
  unwritable, check_input_writes, validated, validate_input, fga_pre, tag_task, verify_grant,
  check_availability, intent_written, write_intent, audit_intent, as_intent, answer, resolve,
  post_answered, fga_post, note_redactions, cards_projected, sanitize_with, sanitize, is_audited,
  fails_closed,
}
use garmd.Toolplane.Chain.Leaves.{
  Leaves, IsGrown-further, give-Leaves, refuse-Leaves, fail-Leaves, of_kind-Leaves,
  on_option-Leaves, if-Leaves, asks-Leaves, >>=-Leaves,
}

module _ {C R D V : Type 0} (pol : Policy C R D) (core : Core C R) (steps : Seams C V) where
  pub check_input_writes-Leaves :
      (p : Principal C) (req : Msg)
      → Leaves Recorded.denied (check_input_writes pol core steps p req)
  unfolding check_input_writes
  check_input_writes-Leaves p req =
      on_option-Leaves Recorded.denied (plan_for pol core (descriptor req)) _ _
        (refuse-Leaves Recorded.denied Detail.no_request_plan Fault.err_internal)
        λ plan.
          on_option-Leaves Recorded.denied (unwritable pol core steps p req plan.actions) _ _
            (give-Leaves tt)
            λ name.
              refuse-Leaves Recorded.denied (Detail.sets_field name) Fault.err_permission_denied

  pub validate_input-Leaves :
      (p : Principal C) (tool : Option Def) (req : Msg)
      → Leaves Recorded.denied (validate_input pol core steps p tool req)
  unfolding validate_input
  validate_input-Leaves p tool req = go (steps.validate req)
    where
      go : (v : Validity V) → Leaves Recorded.denied (validated pol core steps p tool v)
      go valid = give-Leaves tt
      go (violates vs) =
          refuse-Leaves Recorded.denied Detail.invalid_input
            (Fault.validation_refusal (steps.admitted tool p vs))
      go broken = refuse-Leaves Recorded.denied Detail.invalid_input Fault.err_invalid_argument

  pub fga_pre-Leaves :
      (p : Principal C) (tool : Option Def) (req : Msg)
      → Leaves Recorded.denied (fga_pre pol core steps p tool req)
  unfolding fga_pre
  fga_pre-Leaves p tool req = on_option-Leaves Recorded.denied steps.pre _ _ (give-Leaves tt) λ pre.
      asks-Leaves asked_pre _ Recorded.denied refl refl (
        on_option-Leaves Recorded.denied (pre p tool req) _ _ (give-Leaves tt) λ text.
          refuse-Leaves Recorded.denied (Detail.pre_refused text) Fault.err_permission_denied)

  tag_task-Leaves : (task : String) → Leaves {V = V} Recorded.denied (tag_task pol core steps task)
  tag_task-Leaves task c d = elim (Bool-cases (str_eq task "")) [
    | inl e ↦ rw e (record {
      rows_kept = refl;
      outcomes_kept = refl;
      id_kept = refl;
      attribution_kept = refl;
      grown = ([], refl);
      outcome = d;
    })
    | inr e ↦ rw e (record {
      rows_kept = refl;
      outcomes_kept = refl;
      id_kept = refl;
      attribution_kept = refl;
      grown = ([], refl);
      outcome = d;
    })
  ]

  pub verify_grant-Leaves :
      (p : Principal C) (tool : Option Def) (req : Msg)
      → Leaves Recorded.denied (verify_grant pol core steps p tool req)
  unfolding verify_grant
  verify_grant-Leaves p tool req =
      on_option-Leaves Recorded.denied steps.verify _ _ (give-Leaves tt) λ verify.
        asks-Leaves asked_grant _ Recorded.denied refl refl (
          >>=-Leaves Recorded.denied (tag_task pol core steps (verify p tool req).task_id) _
            (tag_task-Leaves (verify p tool req).task_id)
            λ u.
              on_option-Leaves Recorded.denied (verify p tool req).refusal _ _ (give-Leaves tt)
                λ fault.
                  refuse-Leaves Recorded.denied (Detail.grant_refused (verify p tool req).text)
                    fault)

  error-ne-ok : Recorded.error ≢ Recorded.ok
  error-ne-ok e = ground arith

  denied-ne-ok : Recorded.denied ≢ Recorded.ok
  denied-ne-ok e = ground arith

  pub check_availability-Leaves :
      (tool : Option Def) → Leaves Recorded.denied (check_availability pol core steps tool)
  unfolding check_availability
  check_availability-Leaves tool = on_option-Leaves Recorded.denied tool _ _ (give-Leaves tt) λ t.
      on_option-Leaves Recorded.denied steps.availability _ _ (give-Leaves tt) λ availability.
        asks-Leaves asked_availability _ Recorded.denied refl refl (
          on_option-Leaves Recorded.denied (availability t.fqn) _ _ (give-Leaves tt) λ reason.
            fail-Leaves Recorded.denied Recorded.error (Detail.unavailable reason)
              Fault.err_unavailable error-ne-ok)

  intent_written-Leaves :
      (tool : Option Def) (failure : Option String)
      → Leaves {V = V} Recorded.denied (intent_written pol core steps tool failure)
  intent_written-Leaves tool failure =
      on_option-Leaves Recorded.denied failure _ _ (give-Leaves tt) λ text.
        if-Leaves Recorded.denied (fails_closed pol core steps tool) _ _
          (fail-Leaves Recorded.denied Recorded.denied (Detail.audit_failed text)
            Fault.err_unavailable denied-ne-ok)
          (give-Leaves tt)

  pub audit_intent-Leaves :
      (tool : Option Def) → Leaves Recorded.denied (audit_intent pol core steps tool)
  unfolding audit_intent write_intent
  audit_intent-Leaves tool =
      on_option-Leaves Recorded.denied steps.audit _ _ (give-Leaves tt) λ write.
        if-Leaves Recorded.denied (is_audited pol core steps tool) _ _
          (λ c d.
            let is =
              intent_written-Leaves tool (write (as_intent pol core steps c.event))
                (record c { traces = wrote_intent (as_intent pol core steps c.event) ∷ c.traces })
                d in
            record {
              rows_kept = is.rows_kept;
              outcomes_kept = is.outcomes_kept;
              id_kept = is.id_kept;
              attribution_kept = is.attribution_kept;
              grown =
                  IsGrown-further c.traces _ _
                    (wrote_intent (as_intent pol core steps c.event) ∷ [], refl) is.grown;
              outcome = is.outcome;
            })
          (give-Leaves tt)

  stops-Leaves :
      {A : Type 0} (e : End V A) → ((a : A) → e ≢ done a) → Leaves Recorded.denied (λ c. (e, c))
  stops-Leaves (done a) ne c d = absurd (ne a refl)
  stops-Leaves (stop f) ne c d = record {
    rows_kept = refl;
    outcomes_kept = refl;
    id_kept = refl;
    attribution_kept = refl;
    grown = ([], refl);
    outcome = λ e. ground arith;
  }
  stops-Leaves (panic t) ne c d = record {
    rows_kept = refl;
    outcomes_kept = refl;
    id_kept = refl;
    attribution_kept = refl;
    grown = ([], refl);
    outcome = λ e. ground arith;
  }
  stops-Leaves abort ne c d = record {
    rows_kept = refl;
    outcomes_kept = refl;
    id_kept = refl;
    attribution_kept = refl;
    grown = ([], refl);
    outcome = λ e. ground arith;
  }

  pub answer-Leaves : (a : Answer) → Leaves Recorded.denied (answer pol core steps a)
  unfolding answer
  answer-Leaves (replied m) = give-Leaves m
  answer-Leaves (answered_code code text) =
      if-Leaves Recorded.denied (is_tool_code code) _ _
        (of_kind-Leaves Recorded.denied "tool_refused" _ (
          fail-Leaves Recorded.denied Recorded.denied (Detail.tool_refused code text)
            (Fault.tool_refusal code) denied-ne-ok))
        (fail-Leaves Recorded.denied Recorded.error (Detail.resolver_failed text)
          (Fault.foreign Code.unknown text) error-ne-ok)
  answer-Leaves (failed code text) =
      fail-Leaves Recorded.denied Recorded.error (Detail.resolver_failed text)
        (Fault.foreign code text) error-ne-ok
  answer-Leaves (panicked text) = stops-Leaves (panic text) (λ a e. ground arith)
  answer-Leaves aborted = stops-Leaves abort (λ a e. ground arith)

  pub resolve-Leaves :
      (fn : Option (InvocationContext → Msg → Answer)) (ic : InvocationContext) (req : Msg)
      → Leaves Recorded.denied (resolve pol core steps fn ic req)
  unfolding resolve
  resolve-Leaves none ic req =
      fail-Leaves Recorded.denied Recorded.error (Detail.resolver_failed "no resolver registered")
        Fault.err_unimplemented error-ne-ok
  resolve-Leaves (some fn) ic req =
      asks-Leaves (resolved ic) _ Recorded.denied refl refl (answer-Leaves (fn ic req))

  pub fga_post-Leaves :
      (p : Principal C) (tool : Option Def) (resp : Msg)
      → Leaves Recorded.denied (fga_post pol core steps p tool resp)
  unfolding fga_post post_answered
  fga_post-Leaves p tool resp =
      on_option-Leaves Recorded.denied steps.post _ _ (give-Leaves resp)
        λ post. asks-Leaves asked_post _ Recorded.denied refl refl (go (post p tool resp))
    where
      go : (a : PostAnswer) → Leaves Recorded.denied (post_answered pol core steps resp a)
      go (refused_by text) =
          fail-Leaves Recorded.denied Recorded.error (Detail.post_refused text)
            Fault.err_permission_denied error-ne-ok
      go nothing =
          fail-Leaves Recorded.denied Recorded.error Detail.post_nothing Fault.err_internal
            error-ne-ok
      go replaced =
          fail-Leaves Recorded.denied Recorded.error Detail.post_replaced Fault.err_internal
            error-ne-ok
      go (filtered out) = give-Leaves out

  note_redactions-Leaves :
      (m : Msg) (paths : List String) (s : Sanitized)
      → Leaves {V = V} Recorded.denied (note_redactions pol core steps m paths s)
  unfolding note_redactions
  note_redactions-Leaves m paths s c d = record {
    rows_kept = refl;
    outcomes_kept = refl;
    id_kept = refl;
    attribution_kept = refl;
    grown = (noted_redactions paths s.hash ∷ [], refl);
    outcome = d;
  }

  cards_projected-Leaves :
      (s : Sanitized) (a : CardsAnswer)
      → Leaves {V = V} Recorded.denied (cards_projected pol core steps s a)
  unfolding cards_projected
  cards_projected-Leaves s (invalid_at path) = of_kind-Leaves Recorded.denied "card_invalid" _ (
      fail-Leaves Recorded.denied Recorded.error (Detail.card_invalid path) Fault.err_internal
        error-ne-ok)
  cards_projected-Leaves s gone =
      refuse-Leaves Recorded.denied Detail.card_withheld Fault.err_not_found
  cards_projected-Leaves s (projected m withheld) = note_redactions-Leaves m (s.paths ++ withheld) s

  pub sanitize-Leaves :
      (p : Principal C) (tool : Option Def) (resp : Msg)
      → Leaves Recorded.denied (sanitize pol core steps p tool resp)
  unfolding sanitize sanitize_with
  sanitize-Leaves p tool resp =
      on_option-Leaves Recorded.denied (plan_for pol core (descriptor resp)) _ _
        (fail-Leaves Recorded.denied Recorded.error Detail.no_response_plan Fault.err_internal
          error-ne-ok)
        λ plan.
          let s = steps.sanitize plan p resp in
          if-Leaves Recorded.denied (steps.has_cards s.message) _ _
            (cards_projected-Leaves s (steps.project_cards p tool s.message))
            (note_redactions-Leaves s.message s.paths s)
