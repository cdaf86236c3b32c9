-- ===== src/Toolplane/Narrow.antt =====
-- internal/toolplane/narrow.go: a preview as a lesser principal.
pub mod Only
use garmd.Base.{
  ℕ, ◌≡◌, refl, String, Bool, true, false, not, ◌&&◌, Option, none, some, List, [], ◌∷◌, arith,
  ◌==◌, if◌then◌else◌, contains, str_eq, eq_iff, Bool-cases, inl, inr,
}
use garmd.Base.Result.{Result, ok, err, ◌>>=◌}
use garmd.Policy.{Policy, IsLattice}
use garmd.Principal.{Principal, has, new_verb_set}
use garmd.Principal.Verbs.{has-new_verb_set, elem}
use garmd.Toolplane.{Core}
use garmd.Toolplane.Visible.{ScopeWithin, ScopeWithin-refl, Within, sees_mono}

pub record ShapeRequest : Type 0 where
  pub clearance : ℕ
  pub has_clearance : Bool
  pub compartments : List String
  pub verbs : List ℕ
  pub tool_sets : List String

pub data NarrowError : Type 0 where
  no_principal : NarrowError
  wider_clearance : ℕ → NarrowError
  undeclared_compartment : NarrowError
  wider_compartments : NarrowError
  wider_verb : ℕ → NarrowError

abbrev pub Narrowed : Type 0 → Type 0
Narrowed A = Result NarrowError A

-- The first wanted verb that is not held.
unfoldable pub first_unheld : ℕ → List ℕ → Option ℕ
first_unheld held [] = none
first_unheld held (v ∷ vs) = if has held v then first_unheld held vs else some v

-- The loop that keeps, of the wanted sets, those already in scope.
unfoldable pub keep_held : List String → List String → List String
keep_held held [] = []
keep_held held (w ∷ want) =
    let rest = keep_held held want in if contains held w then w ∷ rest else rest

scope_within : Option (List String) → List String → Option (List String)
scope_within none want = some want
scope_within (some held) want = some (keep_held held want)

narrow_tool_sets : {C : Type 0} → Principal C → List String → Principal C → Principal C
unfolding scope_within keep_held
narrow_tool_sets p [] out = out
narrow_tool_sets p (s ∷ sets) out = record out { tool_sets = scope_within p.tool_sets (s ∷ sets) }

module _ {C R D : Type 0} (pol : Policy C R D) where
  narrow_clearance : Principal C → ShapeRequest → Principal C → Narrowed (Principal C)
  narrow_clearance p want out =
      if want.has_clearance && not (want.clearance == 0)
      then if pol.allows p.clearance want.clearance
        then ok (record out { clearance = want.clearance })
        else err (wider_clearance want.clearance)
      else ok out

  take_bits : Principal C → Option C → Principal C → Narrowed (Principal C)
  take_bits p none out = err undeclared_compartment
  take_bits p (some bits) out =
      if pol.covers p.compartments bits
      then ok (record out { compartments = bits })
      else err wider_compartments

  narrow_compartments : Core C R → Principal C → List String → Principal C → Narrowed (Principal C)
  unfolding take_bits
  narrow_compartments c p [] out = ok out
  narrow_compartments c p (n ∷ names) out = take_bits p (pol.set c.reg (n ∷ names)) out

  narrow_verbs : Principal C → List ℕ → Principal C → Narrowed (Principal C)
  unfolding first_unheld
  narrow_verbs p [] out = ok out
  narrow_verbs p (v ∷ vs) out = elim (first_unheld p.verbs (v ∷ vs)) [
    | none ↦ ok (record out { verbs = new_verb_set (v ∷ vs) })
    | some u ↦ err (wider_verb u)
  ]

  narrow_some : Core C R → Principal C → ShapeRequest → Narrowed (Principal C)
  unfolding narrow_clearance narrow_compartments narrow_verbs narrow_tool_sets
  narrow_some c p want = do
    with_clearance ← narrow_clearance p want p
    with_compartments ← narrow_compartments c p want.compartments with_clearance
    with_verbs ← narrow_verbs p want.verbs with_compartments
    ok (narrow_tool_sets p want.tool_sets with_verbs)

  unfoldable pub narrow : Core C R → Option (Principal C) → ShapeRequest → Narrowed (Principal C)
  unfolding narrow_some
  narrow c none want = err no_principal
  narrow c (some p) want = narrow_some c p want
