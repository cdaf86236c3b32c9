-- ===== src/Toolplane/Mount/Holds.antt =====
-- What is mounted, whatever the outcome of AddTools (internal/toolplane/core.go).
use garmd.Base.{
  String, ◌≡◌, refl, sym, subst, ap, ◌∙◌, false, Option, none, some, List, [], ◌∷◌, arith, str_eq,
  eq_iff, eq_refl, if◌then◌else◌, Bool-cases, inl, inr,
}
use garmd.Base.Dict.{lookup, insert, lookup-insert}
use garmd.Policy.{Policy}
use garmd.ToolDef.{Def}
use garmd.ToolDef.Same.{SameGate, same_declaration_as→SameGate}
use garmd.Toolplane.{Core}
use garmd.Toolplane.Mount.{
  Levels, Missing, unimplemented_governance, missing_approval, missing_level, missing_fail_closed,
  missing_retention, already_declared, Compiler, Mounted, mounted, stopped, add_plan, put_tool,
  and_then, conflicts, govern, compile_and_put, add_tool, add_tools,
}
use garmd.Toolplane.Mount.Plans.{
  core_of, HasPlan, IsMounted, IsWellMounted, Grows, Added, HasPlan-Grows, governance-Grows,
  IsWellMounted-Grows, add_plan-Added,
}

module _ {C R D : Type 0} (pol : Policy C R D) (levels : Levels) (comp : Compiler C R) where
  -- What holds of the tables after any part of a mount.
  pub record HasKept (c d : Core C R) : Type 0 where
    pub well : IsWellMounted pol levels comp c → IsWellMounted pol levels comp d
    pub gates :
        (m : String) (t : Def)
        → lookup m c.tools ≡ some t
        → (u : Def) × (lookup m d.tools ≡ some u) × SameGate t u

  SameGate-refl : (t : Def) → SameGate t t
  SameGate-refl t = record {
    full_method = refl;
    verb = refl;
    min_clearance = refl;
    compartments = refl;
    sets = refl;
    approval_mode = refl;
    audit_level = refl;
    audit_fail_closed = refl;
    has_authorization = refl;
  }

  SameGate-trans : (t u v : Def) → SameGate t u → SameGate u v → SameGate t v
  SameGate-trans t u v a b = record {
    full_method = a.full_method ∙ b.full_method;
    verb = a.verb ∙ b.verb;
    min_clearance = a.min_clearance ∙ b.min_clearance;
    compartments = a.compartments ∙ b.compartments;
    sets = a.sets ∙ b.sets;
    approval_mode = a.approval_mode ∙ b.approval_mode;
    audit_level = a.audit_level ∙ b.audit_level;
    audit_fail_closed = a.audit_fail_closed ∙ b.audit_fail_closed;
    has_authorization = a.has_authorization ∙ b.has_authorization;
  }

  HasKept-refl : (c : Core C R) → HasKept c c
  HasKept-refl c = record { well = λ w. w; gates = λ m t at. (t, at, SameGate-refl t) }

  HasKept-trans : (a b c : Core C R) → HasKept a b → HasKept b c → HasKept a c
  HasKept-trans a b c f g = record {
    well = λ w. g.well (f.well w);
    gates = λ m t at.
        let (u, bt, s) = f.gates m t at in
        let (v, ct, r) = g.gates m u bt in (v, ct, SameGate-trans t u v s r);
  }

  Grows-HasKept : (c d : Core C R) → Grows pol levels comp c d → HasKept c d
  Grows-HasKept c d g = record {
    well = IsWellMounted-Grows pol levels comp c d g;
    gates = λ m t at. (t, ap (λ (x : Core C R). lookup m x.tools) g.rest ∙ at, SameGate-refl t);
  }

  some-inj : {A : Type 0} {a b : A} → some a ≡ some b → a ≡ b
  some-inj e = ground arith

  conflicts-SameGate :
      (o : Option Def) (t u : Def)
      → conflicts pol levels comp o t ≡ false
      → o ≡ some u
      → SameGate u t
  conflicts-SameGate none t u h e = absurd (ground arith)
  conflicts-SameGate (some prev) t u h e =
      subst (λ x. SameGate x t) (some-inj e) (same_declaration_as→SameGate prev t (ground arith))

  abbrev with_tool : Core C R → Def → C → Core C R
  with_tool c t need = record c {
    need = insert t.full_method need c.need;
    tools = insert t.full_method t c.tools;
  }

  governance-with_tool :
      (c : Core C R) (t u : Def) (need : C)
      → unimplemented_governance levels (with_tool c t need) u ≡ unimplemented_governance levels c u
  unfolding unimplemented_governance missing_approval missing_level missing_fail_closed
      missing_retention
  governance-with_tool c t u need = refl

  put_tool-well :
      (c : Core C R) (t : Def) (need : C)
      → unimplemented_governance levels c t ≡ []
      → pol.set c.reg t.compartments ≡ some need
      → HasPlan pol levels comp c t.input
      → HasPlan pol levels comp c t.output
      → IsWellMounted pol levels comp c
      → IsWellMounted pol levels comp (with_tool c t need)
  unfolding IsWellMounted
  put_tool-well c t need gov set input output well m u at =
      let there : (if str_eq t.full_method m then some t else lookup m c.tools) ≡ some u =
        sym (lookup-insert t.full_method m t c.tools) ∙ at in
      elim (Bool-cases (str_eq t.full_method m)) [
        | inl e ↦
            let eq : t ≡ u =
              some-inj (ap (λ b. if b then some t else lookup m c.tools) (sym e) ∙ there) in
            subst (λ x. (x.full_method ≡ m) × IsMounted pol levels comp (with_tool c t need) x) eq
              (
                (eq_iff t.full_method m).0 e,
                record {
                  governed = governance-with_tool c t t need ∙ gov;
                  need = need;
                  set = set;
                  at_route =
                      lookup-insert t.full_method t.full_method need c.need
                      ∙ ap (λ b. if b then some need else lookup t.full_method c.need)
                          (eq_refl t.full_method);
                  input = input;
                  output = output;
                },
              )
        | inr e ↦
            let was = well m u (ap (λ b. if b then some t else lookup m c.tools) (sym e) ∙ there) in
            let is = was.1 in
            let other : str_eq t.full_method u.full_method ≡ false =
              ap (str_eq t.full_method) was.0 ∙ e in
            (
              was.0,
              record {
                governed = governance-with_tool c t u need ∙ is.governed;
                need = is.need;
                set = is.set;
                at_route =
                    lookup-insert t.full_method u.full_method need c.need
                    ∙ ap (λ b. if b then some need else lookup u.full_method c.need) other
                    ∙ is.at_route;
                input = is.input;
                output = is.output;
              },
            )
      ]

  put_tool-HasKept :
      (c : Core C R) (t : Def) (o : Option C)
      → unimplemented_governance levels c t ≡ []
      → conflicts pol levels comp (lookup t.full_method c.tools) t ≡ false
      → pol.set c.reg t.compartments ≡ o
      → HasPlan pol levels comp c t.input
      → HasPlan pol levels comp c t.output
      → HasKept c (core_of (put_tool pol levels comp c t o))
  put_tool-HasKept c t none gov same set input output = HasKept-refl c
  put_tool-HasKept c t (some need) gov same set input output = record {
    well = put_tool-well c t need gov set input output;
    gates = λ m u at. elim (Bool-cases (str_eq t.full_method m)) [
      | inl e ↦ (
        t,
        lookup-insert t.full_method m t c.tools
            ∙ ap (λ b. if b then some t else lookup m c.tools) e,
        conflicts-SameGate (lookup t.full_method c.tools) t u same
            (ap (λ k. lookup k c.tools) ((eq_iff t.full_method m).0 e) ∙ at),
      )
      | inr e ↦ (
        u,
        lookup-insert t.full_method m t c.tools
            ∙ ap (λ b. if b then some t else lookup m c.tools) e
            ∙ at,
        SameGate-refl u,
      )
    ];
  }

  governed_still :
      (c d : Core C R) (t : Def)
      → Grows pol levels comp c d
      → unimplemented_governance levels c t ≡ []
      → unimplemented_governance levels d t ≡ []
  governed_still c d t g h = governance-Grows pol levels comp c d t g ∙ h

  output_then_put :
      (c : Core C R) (t : Def) (m : Mounted (Core C R))
      → unimplemented_governance levels c t ≡ []
      → conflicts pol levels comp (lookup t.full_method c.tools) t ≡ false
      → HasPlan pol levels comp c t.input
      → Added pol levels comp c t.output m
      → HasKept c (
          core_of (
            and_then pol levels comp m
              λ d. put_tool pol levels comp d t (pol.set d.reg t.compartments)))
  output_then_put c t (stopped e d) gov same input added = Grows-HasKept c d added.grows
  output_then_put c t (mounted d) gov same input added =
      HasKept-trans c d _ (Grows-HasKept c d added.grows) (
        put_tool-HasKept d t (pol.set d.reg t.compartments) (governed_still c d t added.grows gov)
          (ap (λ (x : Core C R). conflicts pol levels comp (lookup t.full_method x.tools) t)
              added.grows.rest
            ∙ same)
          refl (HasPlan-Grows pol levels comp c d t.input added.grows input) (added.has d refl))

  input_then_output :
      (c : Core C R) (t : Def) (m : Mounted (Core C R))
      → unimplemented_governance levels c t ≡ []
      → conflicts pol levels comp (lookup t.full_method c.tools) t ≡ false
      → Added pol levels comp c t.input m
      → HasKept c (
          core_of (
            and_then pol levels comp m λ c1.
              and_then pol levels comp
                (add_plan pol levels comp c1 t.output)
                λ d. put_tool pol levels comp d t (pol.set d.reg t.compartments)))
  input_then_output c t (stopped e d) gov same added = Grows-HasKept c d added.grows
  input_then_output c t (mounted d) gov same added =
      HasKept-trans c d _ (Grows-HasKept c d added.grows) (
        output_then_put d t (add_plan pol levels comp d t.output)
          (governed_still c d t added.grows gov)
          (ap (λ (x : Core C R). conflicts pol levels comp (lookup t.full_method x.tools) t)
              added.grows.rest
            ∙ same)
          (added.has d refl) (add_plan-Added pol levels comp d t.output))

  add_tool-HasKept : (c : Core C R) (t : Def) → HasKept c (core_of (add_tool pol levels comp c t))
  unfolding add_tool
  add_tool-HasKept c t = go (unimplemented_governance levels c t) refl
    where
      go :
          (missing : List Missing)
          → unimplemented_governance levels c t ≡ missing
          → HasKept c (
              core_of (
                govern pol levels comp missing c (
                  if conflicts pol levels comp (lookup t.full_method c.tools) t
                  then stopped already_declared c
                  else compile_and_put pol levels comp c t)))
      go (m ∷ ms) e = HasKept-refl c
      go [] e = elim (Bool-cases (conflicts pol levels comp (lookup t.full_method c.tools) t)) [
        | inl bad ↦ rw bad (HasKept-refl c)
        | inr fine ↦ rw fine (
            input_then_output c t (add_plan pol levels comp c t.input) e fine
              (add_plan-Added pol levels comp c t.input))
      ]

  -- Whatever AddTools answers, each tool that it leaves mounted is governed in full, has the
  -- compartments its names resolve to and a plan for both of its messages, where that held before.
  -- A tool that was mounted is still mounted at its route, with the same gates.
  pub add_tools-HasKept :
      (c : Core C R) (ts : List Def) → HasKept c (core_of (add_tools pol levels comp c ts))
  unfolding add_tools
  add_tools-HasKept c [] = HasKept-refl c
  add_tools-HasKept c (t ∷ ts) =
      go (λ d. add_tools-HasKept d ts) (add_tool pol levels comp c t) (add_tool-HasKept c t)
    where
      go :
          ((d : Core C R) → HasKept d (core_of (add_tools pol levels comp d ts)))
          → (m : Mounted (Core C R)) → HasKept c (core_of m)
          → HasKept c
              (core_of (and_then pol levels comp m λ next. add_tools pol levels comp next ts))
      go rest (stopped e d) k = k
      go rest (mounted d) k = HasKept-trans c d _ k (rest d)
