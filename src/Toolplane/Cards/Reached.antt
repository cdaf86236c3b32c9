-- ===== src/Toolplane/Cards/Reached.antt =====
-- What the card walk leaves is what the viewer reaches (internal/toolplane/sanitise.go).
use garmd.Base.{
  ℕ, ◌≡◌, refl, String, Bool, true, false, Option, none, some, List, arith, ltb, if◌then◌else◌,
}
use garmd.Policy.{Policy}
use garmd.Principal.{Principal}
use garmd.Toolplane.Cards.{
  RawLabel, Label, Access, undeclared, declared, Head, Node, node, Parts, no_part, one, many,
  mapped, Nodes, no_node, and, is_labelled, is_card, read_label, Floor, floor_inside, own_label,
  under, under_read, under_own, add_names, holds_section,
}
use garmd.Toolplane.Cards.Project.{covers_set, meets, meets_label, reaches_own, reaches}

-- The clearance and the compartments of the floor.
abbrev pub Bound : Type 0
Bound = ℕ × List String

abbrev pub bound_of : Floor → Bound
bound_of f = (f.clearance, f.compartments)

abbrev pub raised : Bound → Option Label → Bound
unfolding add_names
raised b none = b
raised b (some l) = (if ltb b.0 l.clearance then l.clearance else b.0, add_names b.1 l.compartments)

abbrev pub inside : Bound → Option RawLabel → Bound
unfolding read_label add_names
inside b none = b
inside b (some raw) = raised b (read_label raw)

bound_of-under_read :
    (f : Floor) (l : Option Label) (s : Bool) → bound_of (under_read f l s) ≡ raised (bound_of f) l
unfolding under add_names
bound_of-under_read f none s = refl
bound_of-under_read f (some l) s = refl

bound_of-under_own :
    (f : Floor) (l : Option RawLabel) (s : Bool)
    → bound_of (under_own f l s) ≡ inside (bound_of f) l
unfolding read_label add_names under
bound_of-under_own f none s = refl
bound_of-under_own f (some raw) s = bound_of-under_read f (read_label raw) s

pub bound_of-floor_inside :
    (f : Floor) (h : Head) (ps : Parts)
    → bound_of (floor_inside f h ps) ≡ inside (bound_of f) (own_label h)
unfolding floor_inside read_label add_names
bound_of-floor_inside f h ps = bound_of-under_own f (own_label h) (holds_section ps)

pub unlabelled :
    (a : Access)
    → elim a as (λ x. Bool) [ undeclared ↦ false | declared num raw ↦ true ] ≡ false
    → elim a as (λ x. Option RawLabel) [ undeclared ↦ none | declared num raw ↦ raw ] ≡ none
unlabelled undeclared h = refl
unlabelled (declared num raw) h = absurd (ground arith)

module _ {C R D : Type 0} (pol : Policy C R D) (reg : R) (p : Principal C) where
  -- Clearance at or above, and every compartment declared and held.
  pub record IsReached (b : Bound) : Type 0 where
    pub cleared : pol.allows p.clearance (b.0) ≡ true
    pub held :
        (need : C) × (pol.set reg (b.1) ≡ some need) × (pol.covers p.compartments need ≡ true)

  -- A label that is set and readable is reached; where none is set, the enclosing bound is.
  abbrev pub IsShown : Bound → Option RawLabel → Type 0
  unfolding read_label
  IsShown b none = IsReached b
  IsShown b (some raw) =
      (l : Label) × (read_label raw ≡ some l) × IsReached (l.clearance, l.compartments)

  unfoldable mutual
    unfolding read_label add_names

    pub IsSeen : Node → Bound → Type 0
    IsSeen (node h ps) b =
        (is_labelled h ≡ true → IsShown b (own_label h)) × AreSeen ps (inside b (own_label h))

    pub AreSeen : Parts → Bound → Type 0
    AreSeen no_part b = Unit
    AreSeen (one name n ps) b = IsSeen n b × AreSeen ps b
    AreSeen (many name ns ps) b = AllSeen ns b × AreSeen ps b
    AreSeen (mapped name ns ps) b = AreSeen ps b

    pub AllSeen : Nodes → Bound → Type 0
    AllSeen no_node b = Unit
    AllSeen (and n ns) b = IsSeen n b × AllSeen ns b

  -- The cards of an answer outside its map fields, with all that is in them outside map fields.
  unfoldable mutual
    unfolding read_label add_names IsSeen

    pub CardsSeen : Node → Bound → Type 0
    CardsSeen (node h ps) b =
        (is_card h ≡ true → IsShown b (own_label h) × AreSeen ps (inside b (own_label h)))
        × (is_card h ≡ false → PartsSeen ps b)

    pub PartsSeen : Parts → Bound → Type 0
    PartsSeen no_part b = Unit
    PartsSeen (one name n ps) b = CardsSeen n b × PartsSeen ps b
    PartsSeen (many name ns ps) b = ElementsSeen ns b × PartsSeen ps b
    PartsSeen (mapped name ns ps) b = PartsSeen ps b

    pub ElementsSeen : Nodes → Bound → Type 0
    ElementsSeen no_node b = Unit
    ElementsSeen (and n ns) b = CardsSeen n b × ElementsSeen ns b

  covers_set-held :
      (o : Option C)
      → covers_set pol reg p o ≡ true
      → (need : C) × (o ≡ some need) × (pol.covers p.compartments need ≡ true)
  covers_set-held none h = absurd (ground arith)
  covers_set-held (some need) h = (need, refl, h)

  pub meets-IsReached :
      (cl : ℕ) (cs : List String) → meets pol reg p cl cs ≡ true → IsReached (cl, cs)
  unfolding meets
  meets-IsReached cl cs h = record {
    cleared = ground arith;
    held = covers_set-held (pol.set reg cs) (ground arith);
  }

  read_label-IsReached :
      (o : Option Label)
      → meets_label pol reg p o ≡ true
      → (l : Label) × (o ≡ some l) × IsReached (l.clearance, l.compartments)
  unfolding meets
  read_label-IsReached none h = absurd (ground arith)
  read_label-IsReached (some l) h = (l, refl, meets-IsReached l.clearance l.compartments h)

  shown :
      (f : Floor) (o : Option RawLabel) → reaches_own pol reg p f o ≡ true → IsShown (bound_of f) o
  unfolding read_label meets
  shown f none h = meets-IsReached f.clearance f.compartments h
  shown f (some raw) h = read_label-IsReached (read_label raw) h

  pub reaches-IsShown :
      (h : Head) (f : Floor) → reaches pol reg p h f ≡ true → IsShown (bound_of f) (own_label h)
  unfolding reaches
  reaches-IsShown h f e = shown f (own_label h) e
