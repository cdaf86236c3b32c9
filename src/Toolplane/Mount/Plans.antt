-- ===== src/Toolplane/Mount/Plans.antt =====
-- What a mount needs of the plans (internal/toolplane/core.go).
use garmd.Base.{
  ℕ, String, ◌≡◌, refl, sym, subst, ap, ◌∙◌, false, Option, none, some, [], arith, ◌==◌, Bool-cases,
  Option-cases, inl, inr,
}
use garmd.Base.Dict.{lookup}
use garmd.Policy.{Policy}
use garmd.ToolDef.{Def, Descriptor}
use garmd.Toolplane.{Plan, Core, at_id}
use garmd.Toolplane.Mount.{
  Levels, unimplemented_governance, missing_approval, missing_level, missing_fail_closed,
  missing_retention, Compiler, Mounted, mounted, stopped, is_set, put_plan, add_plan,
}

abbrev pub core_of : {A : Type 0} → Mounted A → A
core_of (mounted a) = a
core_of (stopped e a) = a

module _ {C R D : Type 0} (pol : Policy C R D) (levels : Levels) (comp : Compiler C R) where
  -- Only plans and cards may differ, and no plan is lost.
  pub record Grows (c d : Core C R) : Type 0 where
    pub rest : d ≡ record c { plans = d.plans; cards = d.cards }
    pub plans : (i : ℕ) (plan : Plan C) → at_id i c.plans ≡ some plan → at_id i d.plans ≡ some plan

  abbrev pub HasPlan : Core C R → Option Descriptor → Type 0
  HasPlan c md =
      (d : Descriptor) × (plan : Plan C) × (md ≡ some d) × (at_id d.id c.plans ≡ some plan)

  pub record IsMounted (c : Core C R) (t : Def) : Type 0 where
    pub governed : unimplemented_governance levels c t ≡ []
    pub need : C
    pub set : pol.set c.reg t.compartments ≡ some need
    pub at_route : lookup t.full_method c.need ≡ some need
    pub input : HasPlan c t.input
    pub output : HasPlan c t.output

  unfoldable pub IsWellMounted : Core C R → Type 0
  IsWellMounted c =
      (m : String) (t : Def) → lookup m c.tools ≡ some t → (t.full_method ≡ m) × IsMounted c t

  pub Grows-refl : (c : Core C R) → Grows c c
  Grows-refl c = record { rest = refl; plans = λ i plan h. h }

  Grows-trans : (a b c : Core C R) → Grows a b → Grows b c → Grows a c
  Grows-trans a b c f g = record {
    rest = g.rest ∙ ap (λ (x : Core C R). record x { plans = c.plans; cards = c.cards }) f.rest;
    plans = λ i plan h. g.plans i plan (f.plans i plan h);
  }

  pub HasPlan-Grows :
      (c d : Core C R) (md : Option Descriptor) → Grows c d → HasPlan c md → HasPlan d md
  HasPlan-Grows c d md g (x, plan, is, at) = (x, plan, is, g.plans x.id plan at)

  pub governance-Grows :
      (c d : Core C R) (t : Def)
      → Grows c d
      → unimplemented_governance levels d t ≡ unimplemented_governance levels c t
  unfolding unimplemented_governance missing_approval missing_level missing_fail_closed
      missing_retention
  governance-Grows c d t g = ap (λ (x : Core C R). unimplemented_governance levels x t) g.rest

  IsMounted-Grows : (c d : Core C R) (t : Def) → Grows c d → IsMounted c t → IsMounted d t
  IsMounted-Grows c d t g is = record {
    governed = governance-Grows c d t g ∙ is.governed;
    need = is.need;
    set = ap (λ (x : Core C R). pol.set x.reg t.compartments) g.rest ∙ is.set;
    at_route = ap (λ (x : Core C R). lookup t.full_method x.need) g.rest ∙ is.at_route;
    input = HasPlan-Grows c d t.input g is.input;
    output = HasPlan-Grows c d t.output g is.output;
  }

  pub IsWellMounted-Grows : (c d : Core C R) → Grows c d → IsWellMounted c → IsWellMounted d
  unfolding IsWellMounted
  IsWellMounted-Grows c d g well m t at =
      let was = well m t (sym (ap (λ (x : Core C R). lookup m x.tools) g.rest) ∙ at) in
      (was.0, IsMounted-Grows c d t g was.1)

  put_plan-Grows :
      (c : Core C R) (md : Descriptor) (p : Option (Plan C))
      → is_set (at_id md.id c.plans) ≡ false
      → Grows c (core_of (put_plan pol levels comp c md p))
  unfolding at_id
  put_plan-Grows c md none new = Grows-refl c
  put_plan-Grows c md (some plan) new = record {
    rest = refl;
    plans =
        λ i q h. elim (Bool-cases (md.id == i)) [ inl e ↦ absurd (ground arith) | inr e ↦ rw e h ];
  }

  -- A successful step has the plan, and any step only adds plans.
  pub record Added (c : Core C R) (md : Option Descriptor) (m : Mounted (Core C R)) : Type 0 where
    pub grows : Grows c (core_of m)
    pub has : (d : Core C R) → m ≡ mounted d → HasPlan d md

  put_plan-Added :
      (c : Core C R) (md : Descriptor) (p : Option (Plan C))
      → is_set (at_id md.id c.plans) ≡ false
      → Added c (some md) (put_plan pol levels comp c md p)
  put_plan-Added c md none new = record {
    grows = put_plan-Grows c md none new;
    has = λ d e. absurd (ground arith);
  }
  put_plan-Added c md (some plan) new = record {
    grows = put_plan-Grows c md (some plan) new;
    has = λ d e.
        subst (λ x. HasPlan x (some md)) (mounted-inj e)
          (md, plan, refl, unfold at_id in (ground arith));
  }
    where
      mounted-inj : {d : Core C R} {c : Core C R} → mounted c ≡ mounted d → c ≡ d
      mounted-inj e = ground arith

  pub add_plan-Added :
      (c : Core C R) (md : Option Descriptor) → Added c md (add_plan pol levels comp c md)
  add_plan-Added c none = record { grows = Grows-refl c; has = λ d e. absurd (ground arith) }
  add_plan-Added c (some md) = elim (Option-cases (at_id md.id c.plans)) [
    | inl e ↦ rw e (put_plan-Added c md (comp.compile c.reg md) (rw e refl))
    | inr (plan, e) ↦
        rw e (record { grows = Grows-refl c; has = λ d f. (md, plan, refl, ground arith) })
  ]
