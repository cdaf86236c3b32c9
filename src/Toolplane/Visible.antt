-- ===== src/Toolplane/Visible.antt =====
-- Step 2: who sees more.
use garmd.Base.{
  ℕ, ◌≡◌, refl, String, true, Option, none, some, List, [], ◌∷◌, arith, eq_iff, contains,
  Bool-cases, inl, inr, eq_refl,
}
use garmd.Policy.{Policy}
use garmd.Principal.{Principal, has}
use garmd.ToolDef.{Def}
use garmd.Toolplane.{Core, overlaps, in_scope, need_of, sees}

-- Every set of `narrow` is one of `wide`.
abbrev pub ScopeWithin : Option (List String) → Option (List String) → Type 0
ScopeWithin narrow none = Unit {0}
ScopeWithin none (some wide) = ⊥
ScopeWithin (some narrow) (some wide) =
    (s : String) → contains narrow s ≡ true → contains wide s ≡ true

overlaps_sound :
    (scope sets : List String)
    → overlaps scope sets ≡ true
    → (s : String) × (contains scope s ≡ true) × (contains sets s ≡ true)
unfolding overlaps
overlaps_sound [] sets h = absurd (ground arith)
overlaps_sound (x ∷ scope) sets h = elim (Bool-cases (contains sets x)) [
  | inl hit ↦ (x, ground (arith, eq_refl x), hit)
  | inr miss ↦ let (s, p, q) = overlaps_sound scope sets (ground arith) in (s, ground arith, q)
]

overlaps_complete :
    (scope sets : List String) (s : String)
    → contains scope s ≡ true
    → contains sets s ≡ true
    → overlaps scope sets ≡ true
unfolding overlaps
overlaps_complete [] sets s p q = ground arith
overlaps_complete (x ∷ scope) sets s p q =
    ground (arith, eq_iff x s, overlaps_complete scope sets s)

pub in_scope_mono :
    (narrow wide : Option (List String)) (sets : List String)
    → ScopeWithin narrow wide
    → in_scope narrow sets ≡ true
    → in_scope wide sets ≡ true
unfolding in_scope
in_scope_mono narrow none sets w h = refl
in_scope_mono none (some wide) sets w h = absurd w
in_scope_mono (some narrow) (some wide) sets w h =
    let (s, p, q) = overlaps_sound narrow sets h in overlaps_complete wide sets s (w s p) q

pub ScopeWithin-refl : (s : Option (List String)) → ScopeWithin s s
ScopeWithin-refl none = tt
ScopeWithin-refl (some ss) = λ s h. h

-- The authority of `p` is part of the authority of `q`: verb by verb, and for every clearance,
-- compartment set and tool set that a tool may ask for.
pub record Within {C R D : Type 0} (pol : Policy C R D) (p q : Principal C) : Type 0 where
  pub verbs : (v : ℕ) → has p.verbs v ≡ true → has q.verbs v ≡ true
  pub clearance :
      (need : ℕ) → pol.allows p.clearance need ≡ true → pol.allows q.clearance need ≡ true
  pub compartments :
      (need : C) → pol.covers p.compartments need ≡ true → pol.covers q.compartments need ≡ true
  pub scope : ScopeWithin p.tool_sets q.tool_sets

module _ {C R D : Type 0} (pol : Policy C R D) where
  -- A tool that a principal sees is seen by every principal who holds at least its verbs, clearance,
  -- compartments and tool sets.
  pub sees_mono :
      (c : Core C R) (p q : Principal C) (t : Def)
      → Within pol p q
      → sees pol c p t ≡ true
      → sees pol c q t ≡ true
  unfolding sees
  sees_mono c p q t w h = ground (
    arith,
    w.verbs t.verb,
    w.clearance t.min_clearance,
    w.compartments (need_of pol c t),
    in_scope_mono p.tool_sets q.tool_sets t.sets w.scope,
  )
