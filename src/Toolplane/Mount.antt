-- ===== src/Toolplane/Mount.antt =====
-- NewCore, AddTools and unimplementedGovernance of internal/toolplane.
pub mod Plans
pub mod Holds
pub mod Retention
use garmd.Base.{
  ℕ, ◌+◌, ◌*◌, ◌%◌, ◌^◌, String, Bool, true, false, not, ◌&&◌, ◌||◌, Option, none, some, List, [],
  ◌∷◌, ◌++◌, length, ltb, ◌==◌, if◌then◌else◌,
}
use garmd.Base.Dict.{Dict, lookup, insert}
use garmd.Policy.{Policy}
use garmd.ToolDef.{Def, Descriptor}
use garmd.ToolDef.Same.{same_declaration_as}
use garmd.Toolplane.{Plan, Core, at_id}

-- The numbers of the contract's enums for approval modes and audit levels.
pub record Levels : Type 0 where
  pub mode_unspecified : ℕ
  pub mode_none : ℕ
  pub mode_notify : ℕ
  pub mode_grant : ℕ
  pub level_unspecified : ℕ
  pub level_ledger : ℕ
  pub level_audit : ℕ

pub data Missing : Type 0 where
  no_notifier no_grant_verifier unknown_mode : Missing
  no_audit_sink unknown_level fail_closed_without_audit fail_closed_without_sink : Missing
  retention_without_sink retention_too_short payload_recording no_fga_checker : Missing

-- `time.Duration(days) * 24 * time.Hour`, an int64 of nanoseconds.
abbrev pub duration_of_days : ℕ → ℕ
duration_of_days days = days * 86400000000000 % 2 ^ 64

-- `kept < want` for such an int64: one from 2^63 up is negative.
abbrev pub shorter_than : ℕ → ℕ → Bool
shorter_than kept want = ltb want (2 ^ 63) && ltb kept want

abbrev pub is_set : {A : Type 0} → Option A → Bool
is_set none = false
is_set (some a) = true

abbrev pub when : Bool → Missing → List Missing
when b m = if b then m ∷ [] else []

module _ {C R : Type 0} (levels : Levels) (c : Core C R) where
  missing_approval : Def → List Missing
  missing_approval t =
      if t.approval_mode == levels.mode_unspecified || t.approval_mode == levels.mode_none
      then []
      else if t.approval_mode == levels.mode_notify
      then when (not c.has_notifier) no_notifier
      else if t.approval_mode == levels.mode_grant
      then when (not c.has_grants) no_grant_verifier
      else unknown_mode ∷ []

  missing_level : Def → List Missing
  missing_level t =
      if t.audit_level == levels.level_unspecified || t.audit_level == levels.level_ledger
      then []
      else if t.audit_level == levels.level_audit
      then when (not (is_set c.audit_retention)) no_audit_sink
      else unknown_level ∷ []

  missing_fail_closed : Def → List Missing
  missing_fail_closed t =
      if not t.audit_fail_closed
      then []
      else if not (t.audit_level == levels.level_audit)
      then fail_closed_without_audit ∷ []
      else when (not (is_set c.audit_retention)) fail_closed_without_sink

  -- Retention: a sink that keeps everything answers 0.
  abbrev pub retained : ℕ → Option ℕ → List Missing
  retained want none = retention_without_sink ∷ []
  retained want (some kept) = when (not (kept == 0) && shorter_than kept want) retention_too_short

  missing_retention : Def → List Missing
  missing_retention t =
      if ltb 0 t.audit_retain_days
      then retained (duration_of_days t.audit_retain_days) c.audit_retention
      else []

  -- unimplementedGovernance: what the declaration asks for and this Core cannot honour.
  unfoldable pub unimplemented_governance : Def → List Missing
  unfolding missing_approval missing_level missing_fail_closed missing_retention
  unimplemented_governance t =
      missing_approval t
      ++ missing_level t
      ++ missing_fail_closed t
      ++ missing_retention t
      ++ when (t.audit_record_request || t.audit_record_response) payload_recording
      ++ when (t.has_authorization && not c.has_fga) no_fga_checker

pub data MountError : Type 0 where
  ungoverned : List Missing → MountError
  already_declared nil_descriptor uncompiled undeclared_compartment : MountError

-- What the mount calls outside core.go: policy.Compile, and containsCard of sanitise.go.
pub record Compiler (C R : Type 0) : Type 0 where
  pub compile : R → Descriptor → Option (Plan C)
  pub contains_card : Descriptor → Bool

-- A step of the mount: the tables as they are then, with the error where it stopped.
pub data Mounted (A : Type 0) : Type 0 where
  mounted : A → Mounted A
  stopped : MountError → A → Mounted A

module _ {C R D : Type 0} (pol : Policy C R D) (levels : Levels) (comp : Compiler C R) where
  abbrev pub put_plan : Core C R → Descriptor → Option (Plan C) → Mounted (Core C R)
  put_plan c md none = stopped uncompiled c
  put_plan c md (some plan) = mounted (record c {
    plans = (md.id, plan) ∷ c.plans;
    cards = (md.id, comp.contains_card md) ∷ c.cards;
  })

  -- A descriptor that has a plan keeps it.
  abbrev pub add_plan : Core C R → Option Descriptor → Mounted (Core C R)
  add_plan c none = stopped nil_descriptor c
  add_plan c (some md) =
      if is_set (at_id md.id c.plans) then mounted c else put_plan c md (comp.compile c.reg md)

  abbrev pub put_tool : Core C R → Def → Option C → Mounted (Core C R)
  put_tool c t none = stopped undeclared_compartment c
  put_tool c t (some need) =
      mounted (record c {
        need = insert t.full_method need c.need;
        tools = insert t.full_method t c.tools;
      })

  abbrev pub and_then : Mounted (Core C R) → (Core C R → Mounted (Core C R)) → Mounted (Core C R)
  and_then (mounted c) f = f c
  and_then (stopped e c) f = stopped e c

  abbrev pub conflicts : Option Def → Def → Bool
  conflicts none t = false
  conflicts (some prev) t = not (same_declaration_as prev t)

  abbrev pub govern : List Missing → Core C R → Mounted (Core C R) → Mounted (Core C R)
  govern [] c m = m
  govern (x ∷ xs) c m = stopped (ungoverned (x ∷ xs)) c

  -- Both plans, then the compartments.
  abbrev pub compile_and_put : Core C R → Def → Mounted (Core C R)
  compile_and_put c t =
      and_then (add_plan c t.input)
        λ c1. and_then (add_plan c1 t.output) λ c2. put_tool c2 t (pol.set c2.reg t.compartments)

  -- One round of the loop of AddTools.
  pub add_tool : Core C R → Def → Mounted (Core C R)
  add_tool c t = govern (unimplemented_governance levels c t) c (
      if conflicts (lookup t.full_method c.tools) t
      then stopped already_declared c
      else compile_and_put c t)

  -- AddTools: the tables keep what was mounted before the error.
  pub add_tools : Core C R → List Def → Mounted (Core C R)
  unfolding add_tool
  add_tools c [] = mounted c
  add_tools c (t ∷ ts) = and_then (add_tool c t) λ next. add_tools next ts
