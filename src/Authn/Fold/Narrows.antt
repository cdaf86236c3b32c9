-- ===== src/Authn/Fold/Narrows.antt =====
-- Delegation (internal/authn/principal.go) only narrows: a hop never adds authority.
use garmd.Base.{ℕ, ◌≡◌, String, true, some, List, [], ◌∷◌, arith, All, if◌then◌else◌, ltb}
use garmd.Policy.{Policy, IsLattice}
use garmd.Principal.{Principal}
use garmd.Principal.Verbs.{has-intersect}
use garmd.ToolDef.{Def}
use garmd.Toolplane.{Core, sees}
use garmd.Toolplane.Visible.{ScopeWithin-refl, Within, sees_mono}
use garmd.Authn.{Enums, Claims, direct, acted, Level, levels, outermost}
use garmd.Authn.Fold.{
  Folding, enter, narrow_by, fold_rest, fold_chain, principal_of, lvl_clearance, fold,
  verb_set_from_names,
}
use garmd.Authn.Fold.Sets.{intersect_sets-left, intersect_sets-right, ScopeWithin-trans}

module _ {C R D : Type 0} (pol : Policy C R D) (law : IsLattice pol) (enums : Enums) (reg : R) where
  -- A level taken as a direct token.
  abbrev pub alone : Level → Principal C
  alone l = principal_of pol enums reg l (enter pol enums reg l)

  abbrev as_principal : Level → Folding C → Principal C
  as_principal = principal_of pol enums reg

  Within-trans : (p q r : Principal C) → Within pol p q → Within pol q r → Within pol p r
  Within-trans p q r u w = record {
    verbs = λ v h. w.verbs v (u.verbs v h);
    clearance = λ need h. w.clearance need (u.clearance need h);
    compartments = λ need h. w.compartments need (u.compartments need h);
    scope = ScopeWithin-trans p.tool_sets q.tool_sets r.tool_sets u.scope w.scope;
  }

  allows-lower :
      (a b need : ℕ)
      → pol.allows (if ltb a b then a else b) need ≡ true
      → (pol.allows a need ≡ true) × (pol.allows b need ≡ true)
  allows-lower a b need h = ground (arith, law.allows_mono a b need, law.allows_mono b a need)

  module _ (x y : Level) (f : Folding C) (l : Level) where
    abbrev cl : ℕ
    cl = lvl_clearance pol enums reg l

    abbrev verbs_of : ℕ
    verbs_of = verb_set_from_names enums l.garm.verbs

    abbrev set_of : C
    set_of = (pol.set_lenient reg l.garm.compartments).0

    -- A round of the loop leaves no more than there was,
    narrow_by-left : Within pol (as_principal x (narrow_by pol enums reg f l)) (as_principal y f)
    unfolding narrow_by principal_of
    narrow_by-left = record {
      verbs = λ v. ground (arith, has-intersect f.verbs verbs_of v);
      clearance = λ need h. (allows-lower cl f.clearance need h).1;
      compartments = λ need. ground (arith, law.covers-meet f.compartments set_of need);
      scope = intersect_sets-left f.tool_sets l.garm.tool_sets;
    }

    -- and no more than the level asserts.
    narrow_by-right : Within pol (as_principal x (narrow_by pol enums reg f l)) (alone l)
    unfolding narrow_by principal_of enter
    narrow_by-right = record {
      verbs = λ v. ground (arith, has-intersect f.verbs verbs_of v);
      clearance = λ need h. (allows-lower cl f.clearance need h).0;
      compartments = λ need. ground (arith, law.covers-meet f.compartments set_of need);
      scope = intersect_sets-right f.tool_sets l.garm.tool_sets;
    }

  Within-same : (x y : Level) (f : Folding C) → Within pol (as_principal x f) (as_principal y f)
  unfolding principal_of
  Within-same x y f = record {
    verbs = λ v h. h;
    clearance = λ need h. h;
    compartments = λ need h. h;
    scope = ScopeWithin-refl f.tool_sets;
  }

  fold_rest-start :
      (x : Level) (f : Folding C) (c : Claims)
      → Within pol (as_principal x (fold_rest pol enums reg f c)) (as_principal x f)
  unfolding fold_rest
  fold_rest-start x f (direct l) = narrow_by-left x x f l
  fold_rest-start x f (acted l act) =
      Within-trans _ (as_principal x (narrow_by pol enums reg f l)) _
        (fold_rest-start x (narrow_by pol enums reg f l) act) (narrow_by-left x x f l)

  -- Holds of a principal and of every level below it.
  abbrev pub WithinAll : Principal C → List Level → Type 0
  WithinAll p = All (λ l. Within pol p (alone l))

  fold_rest-levels :
      (x : Level) (f : Folding C) (c : Claims)
      → WithinAll (as_principal x (fold_rest pol enums reg f c)) (levels c)
  unfolding fold_rest
  fold_rest-levels x f (direct l) = (narrow_by-right x x f l, tt)
  fold_rest-levels x f (acted l act) = (
    Within-trans _ (as_principal x (narrow_by pol enums reg f l)) _
        (fold_rest-start x (narrow_by pol enums reg f l) act) (narrow_by-right x x f l),
    fold_rest-levels x (narrow_by pol enums reg f l) act,
  )

  fold_chain-levels :
      (x : Level) (c : Claims) → WithinAll (as_principal x (fold_chain pol enums reg c)) (levels c)
  unfolding fold_chain
  fold_chain-levels x (direct l) = (Within-same x l (enter pol enums reg l), tt)
  fold_chain-levels x (acted l act) = (
    Within-trans _ (as_principal x (enter pol enums reg l)) _
        (fold_rest-start x (enter pol enums reg l) act) (Within-same x l (enter pol enums reg l)),
    fold_rest-levels x (enter pol enums reg l) act,
  )

  sees_each :
      (core : Core C R) (p : Principal C) (t : Def) (ls : List Level)
      → WithinAll p ls
      → sees pol core p t ≡ true
      → All (λ l. sees pol core (alone l) t ≡ true) ls
  sees_each core p t [] w h = tt
  sees_each core p t (l ∷ ls) w h =
      (sees_mono pol core p (alone l) t w.0 h, sees_each core p t ls w.1 h)

  -- A tool that the folded principal of a chain sees is a tool that every identity of the chain
  -- sees with its own token: the hop that is added, and whatever it claims, widens nothing.
  pub fold-sees :
      (core : Core C R) (c : Claims) (p : Principal C) (dropped : List String) (t : Def)
      → fold pol enums reg c ≡ some (p, dropped)
      → sees pol core p t ≡ true
      → All (λ l. sees pol core (alone l) t ≡ true) (levels c)
  unfolding fold
  fold-sees core c p dropped t h v =
      sees_each core (as_principal (outermost c) (fold_chain pol enums reg c)) t (levels c)
        (fold_chain-levels (outermost c) c) (ground arith)
