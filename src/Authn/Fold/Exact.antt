-- ===== src/Authn/Fold/Exact.antt =====
-- What a folded principal is, exactly (internal/authn/principal.go): the authority that all
-- identities of the chain share, under the attribution of each.
use garmd.Base.{
  ℕ, ◌≡◌, refl, ap, ◌∙◌, String, Bool, true, ◌&&◌, none, some, List, [], ◌∷◌, ◌++◌, map, arith,
  if◌then◌else◌, ltb, ◌<◌, ◌≤◌, subst, ◌⊎◌, inl, inr, Bool-cases,
}
use mathlib.Core.List.{append_assoc}
use garmd.Policy.{Policy, IsLattice}
use garmd.Principal.{Principal, has}
use garmd.Principal.Verbs.{has-intersect}
use garmd.Authn.{Enums, Claims, direct, acted, Level, levels, outermost, depth}
use garmd.Authn.Fold.{
  Folding, enter, narrow_by, fold_rest, fold_chain, principal_of, fold, lvl_clearance, lvl_verbs,
  lvl_compartments, entry, max_delegation_depth, actor_of, execution_of,
}

-- A test that every level passes.
abbrev pub every : (Level → Bool) → List Level → Bool
every f [] = true
every f (l ∷ ls) = f l && every f ls

module _ {C R D : Type 0} (pol : Policy C R D) (law : IsLattice pol) (enums : Enums) (reg : R) where
  abbrev pub holds_verb : ℕ → Level → Bool
  holds_verb v l = has (lvl_verbs pol enums reg l) v

  abbrev pub holds_clearance : ℕ → Level → Bool
  holds_clearance need l = pol.allows (lvl_clearance pol enums reg l) need

  abbrev pub holds_set : C → Level → Bool
  holds_set need l = pol.covers (lvl_compartments pol enums reg l) need

  verbs-fold_rest :
      (f : Folding C) (c : Claims) (v : ℕ)
      → has (fold_rest pol enums reg f c).verbs v
        ≡ (has f.verbs v && every (holds_verb v) (levels c))
  unfolding fold_rest narrow_by
  verbs-fold_rest f (direct l) v =
      ground (arith, has-intersect f.verbs (lvl_verbs pol enums reg l) v)
  verbs-fold_rest f (acted l act) v =
      verbs-fold_rest (narrow_by pol enums reg f l) act v
      ∙ ground (arith, has-intersect f.verbs (lvl_verbs pol enums reg l) v)

  compartments-fold_rest :
      (f : Folding C) (c : Claims) (need : C)
      → pol.covers (fold_rest pol enums reg f c).compartments need
        ≡ (pol.covers f.compartments need && every (holds_set need) (levels c))
  unfolding fold_rest narrow_by
  compartments-fold_rest f (direct l) need =
      ground (arith, law.covers-meet f.compartments (lvl_compartments pol enums reg l) need)
  compartments-fold_rest f (acted l act) need =
      compartments-fold_rest (narrow_by pol enums reg f l) act need
      ∙ ground (arith, law.covers-meet f.compartments (lvl_compartments pol enums reg l) need)

  allows-lower :
      (a b need : ℕ)
      → pol.allows (if ltb a b then a else b) need ≡ (pol.allows b need && pol.allows a need)
  allows-lower a b need = ground (arith, law.allows_mono a b need, law.allows_mono b a need)

  clearance-fold_rest :
      (f : Folding C) (c : Claims) (need : ℕ)
      → pol.allows (fold_rest pol enums reg f c).clearance need
        ≡ (pol.allows f.clearance need && every (holds_clearance need) (levels c))
  unfolding fold_rest narrow_by
  clearance-fold_rest f (direct l) need =
      ground (arith, allows-lower (lvl_clearance pol enums reg l) f.clearance need)
  clearance-fold_rest f (acted l act) need =
      clearance-fold_rest (narrow_by pol enums reg f l) act need
      ∙ ground (arith, allows-lower (lvl_clearance pol enums reg l) f.clearance need)

  chain-fold_rest :
      (f : Folding C) (c : Claims)
      → (fold_rest pol enums reg f c).chain ≡ f.chain ++ map (entry pol enums reg) (levels c)
  unfolding fold_rest narrow_by
  chain-fold_rest f (direct l) = refl
  chain-fold_rest f (acted l act) =
      chain-fold_rest (narrow_by pol enums reg f l) act
      ∙ append_assoc f.chain (entry pol enums reg l ∷ []) _

  -- What one principal holds, as three families of tests.
  pub record HoldsExactly (p : Principal C) (ls : List Level) : Type 0 where
    pub verbs : (v : ℕ) → has p.verbs v ≡ every (holds_verb v) ls
    pub clearance : (need : ℕ) → pol.allows p.clearance need ≡ every (holds_clearance need) ls
    pub compartments : (need : C) → pol.covers p.compartments need ≡ every (holds_set need) ls

  fold_chain-HoldsExactly :
      (x : Level) (c : Claims)
      → HoldsExactly (principal_of pol enums reg x (fold_chain pol enums reg c)) (levels c)
  unfolding fold_chain enter principal_of
  fold_chain-HoldsExactly x (direct l) = record {
    verbs = λ v. ground arith;
    clearance = λ need. ground arith;
    compartments = λ need. ground arith;
  }
  fold_chain-HoldsExactly x (acted l act) = record {
    verbs = λ v. verbs-fold_rest (enter pol enums reg l) act v;
    clearance = λ need. clearance-fold_rest (enter pol enums reg l) act need;
    compartments = λ need. compartments-fold_rest (enter pol enums reg l) act need;
  }

  -- A folded principal holds a verb, reaches a clearance or covers a compartment set exactly when
  -- every identity of the delegation chain does.
  pub fold-HoldsExactly :
      (c : Claims) (p : Principal C) (dropped : List String)
      → fold pol enums reg c ≡ some (p, dropped)
      → HoldsExactly p (levels c)
  unfolding fold
  fold-HoldsExactly c p dropped h =
      subst (λ q. HoldsExactly q (levels c)) (ground arith)
        (fold_chain-HoldsExactly (outermost c) c)

  chain-fold_chain :
      (c : Claims) → (fold_chain pol enums reg c).chain ≡ map (entry pol enums reg) (levels c)
  unfolding fold_chain enter
  chain-fold_chain (direct l) = refl
  chain-fold_chain (acted l act) = chain-fold_rest (enter pol enums reg l) act

  -- A chain is refused exactly when it is more than four identities deep. Otherwise the principal
  -- is the subject's, its chain lists every identity in the order of the token, its actor is the
  -- innermost one (none for a direct token), and its execution is that of the outermost claims.
  pub fold-attribution :
      (c : Claims)
      → ((fold pol enums reg c ≡ none) × (4 < depth c))
        ⊎ ((p : Principal C) × (dropped : List String) × (fold pol enums reg c ≡ some (p, dropped))
            × (depth c ≤ 4)
            × (p.subject ≡ (outermost c).subject)
            × (p.chain ≡ map (entry pol enums reg) (levels c))
            × (p.actor ≡ actor_of (map (entry pol enums reg) (levels c)))
            × (p.execution ≡ execution_of (outermost c).exec))
  unfolding fold principal_of
  fold-attribution c = elim (Bool-cases (ltb max_delegation_depth (depth c))) [
    | inl deep ↦ inl (rw deep, ground arith)
    | inr fits ↦ inr (
      principal_of pol enums reg (outermost c) (fold_chain pol enums reg c),
      (fold_chain pol enums reg c).dropped,
      rw fits,
      ground arith,
      refl,
      chain-fold_chain c,
      ap actor_of (chain-fold_chain c),
      refl,
    )
  ]
