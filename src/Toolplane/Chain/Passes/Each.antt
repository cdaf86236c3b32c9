-- ===== src/Toolplane/Chain/Passes/Each.antt =====
-- What each step of internal/toolplane/core.go lets through.
use garmd.Base.{
  String, ◌≡◌, refl, sym, ap, ◌∙◌, true, ◌&&◌, Option, none, some, List, [], ◌∷◌, arith, str_eq,
  All, Bool-cases, inl, inr,
}
use garmd.Policy.{Policy}
use garmd.Principal.{Principal}
use garmd.ToolDef.{Def}
use garmd.Toolplane.{Action, Plan, Core, plan_for}
use garmd.Toolplane.Message.{Msg, descriptor, field_is_set}
use garmd.Toolplane.Refusal.{Fault}
use garmd.Toolplane.Ledger.{Recorded, Detail, Event, asked_pre, asked_grant, asked_availability}
use garmd.Toolplane.Chain.{Verdict, Validity, valid, violates, broken, Seams, Chain, ◌>>=◌, Call}
use garmd.Toolplane.Chain.Steps.{
  unwritable, check_input_writes, validated, validate_input, fga_pre, tag_task, verify_grant,
  check_availability,
}
use garmd.Toolplane.Chain.Passes.{
  IsBefore, some-inj, Passes, on_option-Passes, give-Passes, refuse-Passes, fail-Passes,
  check-Passes, asked-Passes,
}

module _ {C R D V : Type 0} (pol : Policy C R D) (core : Core C R) (steps : Seams C V) where
  -- Every field of the plan that the request sets is one that the principal may write.
  abbrev pub Writable : Principal C → Msg → List (Action C) → Type 0
  Writable p req = All (λ a.
      field_is_set req a.path ≡ true
      → (pol.allows p.clearance a.write ≡ true) × (pol.covers p.compartments a.need ≡ true))

  unwritable-Writable :
      (p : Principal C) (req : Msg) (actions : List (Action C))
      → unwritable pol core steps p req actions ≡ none
      → Writable p req actions
  unfolding unwritable
  unwritable-Writable p req [] h = tt
  unwritable-Writable p req (a ∷ actions) h =
      elim (Bool-cases (pol.allows p.clearance a.write && pol.covers p.compartments a.need)) [
        | inl may ↦ (λ set. ground arith, unwritable-Writable p req actions (ground arith))
        | inr may_not ↦ elim (Bool-cases (field_is_set req a.path)) [
          | inl set ↦ absurd (ground arith)
          | inr unset ↦
              (λ set. absurd (ground arith), unwritable-Writable p req actions (ground arith))
        ]
      ]

  abbrev pub MayWrite : Principal C → Msg → Type 0
  MayWrite p req =
      (plan : Plan C) × (plan_for pol core (descriptor req) ≡ some plan)
      × Writable p req plan.actions

  abbrev pub Permitted : Principal C → Option Def → Msg → Type 0
  Permitted p tool req =
      (pre : Principal C → Option Def → Msg → Option String)
      → steps.pre ≡ some pre
      → pre p tool req ≡ none

  abbrev pub Approved : Principal C → Option Def → Msg → Type 0
  Approved p tool req =
      (verify : Principal C → Option Def → Msg → Verdict V)
      → steps.verify ≡ some verify
      → (verify p tool req).refusal ≡ none

  abbrev pub Reachable : Option Def → Type 0
  Reachable tool =
      (t : Def)
      → tool ≡ some t
      → (availability : String → Option String) → steps.availability ≡ some availability
      → availability t.fqn ≡ none

  module _ (who : Event) where
    pub check_input_writes-Passes :
        (p : Principal C) (req : Msg)
        → Passes who (MayWrite p req) (check_input_writes pol core steps p req)
    unfolding check_input_writes
    check_input_writes-Passes p req =
        on_option-Passes (MayWrite p req) (plan_for pol core (descriptor req)) _ _
          (λ e. refuse-Passes (MayWrite p req) Detail.no_request_plan Fault.err_internal)
          λ plan e.
            check-Passes (MayWrite p req) (unwritable pol core steps p req plan.actions)
              Detail.sets_field (λ n. Fault.err_permission_denied)
              (λ h. (plan, e, unwritable-Writable p req plan.actions h))

    pub validate_input-Passes :
        (p : Principal C) (tool : Option Def) (req : Msg)
        → Passes who (steps.validate req ≡ valid) (validate_input pol core steps p tool req)
    unfolding validate_input
    validate_input-Passes p tool req = go (steps.validate req) refl
      where
        go :
            (v : Validity V)
            → steps.validate req ≡ v
            → Passes who (steps.validate req ≡ valid) (validated pol core steps p tool v)
        go valid e = give-Passes (steps.validate req ≡ valid) tt e
        go (violates vs) e =
            refuse-Passes (steps.validate req ≡ valid) Detail.invalid_input
              (Fault.validation_refusal (steps.admitted tool p vs))
        go broken e =
            refuse-Passes (steps.validate req ≡ valid) Detail.invalid_input
              Fault.err_invalid_argument

    pub fga_pre-Passes :
        (p : Principal C) (tool : Option Def) (req : Msg)
        → Passes who (Permitted p tool req) (fga_pre pol core steps p tool req)
    unfolding fga_pre
    fga_pre-Passes p tool req =
        on_option-Passes (Permitted p tool req) steps.pre _ _
          (λ e. give-Passes (Permitted p tool req) tt (λ pre f. absurd (ground arith)))
          λ pre e. asked-Passes (Permitted p tool req) asked_pre _ refl (
            check-Passes (Permitted p tool req) (pre p tool req) Detail.pre_refused
              (λ t. Fault.err_permission_denied)
              (λ h other f. ap (λ g. g p tool req) (some-inj (sym f ∙ e)) ∙ h))

    tagged :
        (task : String) (c : Call)
        → IsBefore who c
        → IsBefore who (record c { event = record c.event { task_id = task } })
    tagged task c (quiet, own) = (
      quiet,
      record {
        same_id = own.same_id;
        same_tool = own.same_tool;
        same_attribution = own.same_attribution;
        is_open = own.is_open;
      },
    )

    tag_task-Passes :
        {A : Type 0} (P : Type 0) (task : String) (m : Chain V A)
        → Passes who P m
        → Passes who P (tag_task pol core steps task >>= λ u. m)
    tag_task-Passes P task m h = record {
      run = λ c quiet. elim (Bool-cases (str_eq task "")) [
        | inl e ↦ rw e (h.run c quiet)
        | inr e ↦
            rw e
              (h.run (record c { event = record c.event { task_id = task } }) (tagged task c quiet))
      ];
    }

    pub verify_grant-Passes :
        (p : Principal C) (tool : Option Def) (req : Msg)
        → Passes who (Approved p tool req) (verify_grant pol core steps p tool req)
    unfolding verify_grant
    verify_grant-Passes p tool req =
        on_option-Passes (Approved p tool req) steps.verify _ _
          (λ e. give-Passes (Approved p tool req) tt (λ verify f. absurd (ground arith)))
          λ verify e. asked-Passes (Approved p tool req) asked_grant _ refl (
            tag_task-Passes (Approved p tool req) (verify p tool req).task_id _ (
              check-Passes (Approved p tool req) (verify p tool req).refusal
                (λ x. Detail.grant_refused (verify p tool req).text) (λ fault. fault)
                (λ h other f.
                  ap (λ (g : Principal C → Option Def → Msg → Verdict V). (g p tool req).refusal)
                    (some-inj (sym f ∙ e))
                  ∙ h)))

    pub check_availability-Passes :
        (tool : Option Def) → Passes who (Reachable tool) (check_availability pol core steps tool)
    unfolding check_availability
    check_availability-Passes tool =
        on_option-Passes (Reachable tool) tool _ _
          (λ e. give-Passes (Reachable tool) tt (λ t f. absurd (ground arith)))
          λ t e.
            on_option-Passes (Reachable tool) steps.availability _ _
              (λ g. give-Passes (Reachable tool) tt (λ u f a k. absurd (ground arith)))
              λ availability g. asked-Passes (Reachable tool) asked_availability _ refl (
                on_option-Passes (Reachable tool) (availability t.fqn) _ _
                  (λ h. give-Passes (Reachable tool) tt (λ u f a k.
                    ap a (ap (λ (d : Def). d.fqn) (some-inj (sym f ∙ e)))
                    ∙ ap (λ x. x t.fqn) (some-inj (sym k ∙ g))
                    ∙ h))
                  λ reason h.
                    fail-Passes (Reachable tool) Recorded.error (Detail.unavailable reason)
                      Fault.err_unavailable)
