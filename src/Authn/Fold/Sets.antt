-- ===== src/Authn/Fold/Sets.antt =====
-- Tool-set scopes under intersectSets (internal/authn/principal.go).
use garmd.Base.{
  ◌≡◌, refl, String, true, ◌&&◌, Option, none, some, List, [], ◌∷◌, arith, contains, eq_iff,
}
use garmd.Toolplane.Visible.{ScopeWithin, ScopeWithin-refl}
use garmd.Authn.Fold.{keep_common, intersect_sets}

pub contains-keep_common :
    (have add : List String) (s : String)
    → contains (keep_common have add) s ≡ (contains have s && contains add s)
unfolding keep_common
contains-keep_common [] add s = refl
contains-keep_common (h ∷ have) add s = ground (arith, eq_iff h s, contains-keep_common have add s)

keep_common-left :
    (have add : List String) (s : String)
    → contains (keep_common have add) s ≡ true
    → contains have s ≡ true
keep_common-left have add s h = ground (arith, contains-keep_common have add s)

keep_common-right :
    (have add : List String) (s : String)
    → contains (keep_common have add) s ≡ true
    → contains add s ≡ true
keep_common-right have add s h = ground (arith, contains-keep_common have add s)

-- The intersection is within what was in scope before.
pub intersect_sets-left :
    (have : Option (List String)) (add : List String) → ScopeWithin (intersect_sets have add) have
unfolding intersect_sets
intersect_sets-left have [] = ScopeWithin-refl have
intersect_sets-left none (a ∷ add) = tt
intersect_sets-left (some have) (a ∷ add) = keep_common-left have (a ∷ add)

-- And within what the added claim alone would scope to.
pub intersect_sets-right :
    (have : Option (List String)) (add : List String)
    → ScopeWithin (intersect_sets have add) (intersect_sets none add)
unfolding intersect_sets
intersect_sets-right have [] = tt
intersect_sets-right none (a ∷ add) = ScopeWithin-refl (some (a ∷ add))
intersect_sets-right (some have) (a ∷ add) = keep_common-right have (a ∷ add)

pub ScopeWithin-trans :
    (a b c : Option (List String)) → ScopeWithin a b → ScopeWithin b c → ScopeWithin a c
ScopeWithin-trans a b none p q = tt
ScopeWithin-trans a none (some c) p q = absurd q
ScopeWithin-trans none (some b) (some c) p q = absurd p
ScopeWithin-trans (some a) (some b) (some c) p q = λ s h. q s (p s h)
