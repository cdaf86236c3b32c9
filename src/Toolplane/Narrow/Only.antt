-- ===== src/Toolplane/Narrow/Only.antt =====
-- A preview (internal/toolplane/narrow.go) only ever narrows.
use garmd.Base.{
  ℕ, ◌≡◌, String, true, Option, none, some, List, [], ◌∷◌, arith, contains, eq_iff, subst, sym,
  ==_iff,
}
use garmd.Base.Result.{ok, passed}
use garmd.Policy.{Policy, IsLattice}
use garmd.Principal.{Principal, has}
use garmd.Principal.Verbs.{has-new_verb_set, elem}
use garmd.ToolDef.{Def}
use garmd.Toolplane.{Core, sees}
use garmd.Toolplane.Visible.{ScopeWithin, ScopeWithin-refl, Within, sees_mono}
use garmd.Toolplane.Narrow.{
  ShapeRequest, first_unheld, keep_held, narrow_clearance, narrow_compartments, take_bits,
  narrow_verbs, scope_within, narrow_tool_sets, narrow_some, narrow,
}

contains-keep_held :
    (held want : List String) (s : String)
    → contains (keep_held held want) s ≡ true
    → contains held s ≡ true
unfolding keep_held
contains-keep_held held [] s h = ground arith
contains-keep_held held (w ∷ want) s h = ground (arith, eq_iff w s, contains-keep_held held want s)

held-first_unheld :
    (held : ℕ) (vs : List ℕ) (v : ℕ)
    → first_unheld held vs ≡ none
    → elem vs v ≡ true
    → has held v ≡ true
unfolding first_unheld
held-first_unheld held [] v h e = ground arith
held-first_unheld held (w ∷ vs) v h e = ground (arith, ==_iff w v, held-first_unheld held vs v)

move_scope :
    {a b : Option (List String)} (w : Option (List String))
    → a ≡ b
    → ScopeWithin b w
    → ScopeWithin a w
move_scope w e h = subst (λ s. ScopeWithin s w) (sym e) h

ScopeWithin-keep :
    (held : Option (List String)) (want : List String) → ScopeWithin (scope_within held want) held
unfolding scope_within
ScopeWithin-keep none want = tt
ScopeWithin-keep (some held) want = contains-keep_held held want

module _ {C R D : Type 0} (pol : Policy C R D) (law : IsLattice pol) where
  Within-refl : (p : Principal C) → Within pol p p
  Within-refl p = record {
    verbs = λ v h. h;
    clearance = λ need h. h;
    compartments = λ need h. h;
    scope = ScopeWithin-refl p.tool_sets;
  }

  module _ (p out q : Principal C) (w : Within pol out p) where
    clearance_step : (want : ShapeRequest) → narrow_clearance pol p want out ≡ ok q → Within pol q p
    unfolding narrow_clearance
    clearance_step want h = record {
      verbs = λ v. ground (arith, w.verbs v);
      clearance = λ need.
          ground (arith, w.clearance need, law.allows_trans p.clearance want.clearance need);
      compartments = λ need. ground (arith, w.compartments need);
      scope = move_scope p.tool_sets (ground arith) w.scope;
    }

    take_bits_step : (bits : Option C) → take_bits pol p bits out ≡ ok q → Within pol q p
    unfolding take_bits
    take_bits_step none h = absurd (ground arith)
    take_bits_step (some bits) h = record {
      verbs = λ v. ground (arith, w.verbs v);
      clearance = λ need. ground (arith, w.clearance need);
      compartments =
          λ need. ground (arith, w.compartments need, law.covers_trans p.compartments bits need);
      scope = move_scope p.tool_sets (ground arith) w.scope;
    }

    compartments_step :
        (c : Core C R) (names : List String)
        → narrow_compartments pol c p names out ≡ ok q
        → Within pol q p
    unfolding narrow_compartments
    compartments_step c [] h = subst (λ x. Within pol x p) (ground arith) w
    compartments_step c (n ∷ names) h = take_bits_step (pol.set c.reg (n ∷ names)) h

    verbs_step : (vs : List ℕ) → narrow_verbs pol p vs out ≡ ok q → Within pol q p
    unfolding narrow_verbs
    verbs_step [] h = subst (λ x. Within pol x p) (ground arith) w
    verbs_step (v ∷ vs) h = record {
      verbs = λ u.
          ground
            (arith, has-new_verb_set (v ∷ vs) u, held-first_unheld p.verbs (v ∷ vs) u, w.verbs u);
      clearance = λ need. ground (arith, w.clearance need);
      compartments = λ need. ground (arith, w.compartments need);
      scope = move_scope p.tool_sets (ground arith) w.scope;
    }

  tool_sets_step :
      (p out : Principal C) (want : List String)
      → Within pol out p
      → Within pol (narrow_tool_sets p want out) p
  unfolding narrow_tool_sets
  tool_sets_step p out [] w = w
  tool_sets_step p out (s ∷ want) w = record {
    verbs = w.verbs;
    clearance = w.clearance;
    compartments = w.compartments;
    scope = ScopeWithin-keep p.tool_sets (s ∷ want);
  }

  narrow_some-Within :
      (c : Core C R) (p q : Principal C) (want : ShapeRequest)
      → narrow_some pol c p want ≡ ok q
      → Within pol q p
  unfolding narrow_some
  narrow_some-Within c p q want h =
      let (a, ra, ha) = passed _ (narrow_clearance pol p want p) h in
      let (b, rb, hb) = passed _ (narrow_compartments pol c p want.compartments a) ra in
      let (d, rd, hd) = passed _ (narrow_verbs pol p want.verbs b) rb in
      let wa : Within pol a p = clearance_step p p a (Within-refl p) want ha in
      let wb : Within pol b p = compartments_step p a b wa c want.compartments hb in
      let wd : Within pol d p = verbs_step p b d wb want.verbs hd in
      subst (λ x. Within pol x p) (ground arith) (tool_sets_step p d want.tool_sets wd)

  -- Whatever view a caller asks for, a preview that is granted sees only tools that the caller sees.
  pub narrow-sees :
      (c : Core C R) (p q : Principal C) (want : ShapeRequest) (t : Def)
      → narrow pol c (some p) want ≡ ok q
      → sees pol c q t ≡ true
      → sees pol c p t ≡ true
  unfolding narrow
  narrow-sees c p q want t h = sees_mono pol c q p t (narrow_some-Within c p q want h)
