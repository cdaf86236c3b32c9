-- ===== src/Toolplane/Cards/Whole.antt =====
-- The card walk takes nothing from a viewer who reaches everything
-- (internal/toolplane/sanitise.go).
use garmd.Base.{
  ℕ, suc, ◌≡◌, refl, sym, ap, ◌∙◌, subst, String, true, false, ◌&&◌, Option, none, some, List, [],
  ◌∷◌, ◌++◌, arith, ltb, Bool-cases, inl, inr, ◌==◌,
}
use garmd.Policy.{Policy}
use garmd.Principal.{Principal}
use garmd.Toolplane.Cards.{
  RawLabel, Head, Node, node, Parts, no_part, one, many, mapped, Nodes, no_node, and, Place,
  name_path, index_path, is_labelled, is_card, read_label, Noted, Floor, floor_inside, own_label,
}
use garmd.Toolplane.Cards.Validate.{validate}
use garmd.Toolplane.Cards.Project.{
  Walked, meets, meets_label, reaches_own, reaches, project_node, project_child, project_children,
  project_list, disclosed, record_disclosure, project_card, for_each_card, for_each_part,
  for_each_element, projected, project_cards,
}
use garmd.Toolplane.Cards.Reached.{
  bound_of, inside, bound_of-floor_inside, unlabelled, IsReached, IsShown, IsSeen, AreSeen, AllSeen,
  CardsSeen, PartsSeen, ElementsSeen,
}

-- All of it is left, and nothing is noted.
record IsWhole {X : Type 0} (x : X) (w : Walked X) : Type 0 where
  left : w.left ≡ x
  kept : w.kept ≡ w.total
  noted : w.noted ≡ []

module _ {C R D : Type 0} (pol : Policy C R D) (reg : R) (p : Principal C) where
  IsReached-meets :
      (cl : ℕ) (cs : List String) → IsReached pol reg p (cl, cs) → meets pol reg p cl cs ≡ true
  unfolding meets
  IsReached-meets cl cs r = let (need, found, covered) = r.held in ground (arith, r.cleared)

  shown-reaches :
      (f : Floor) (o : Option RawLabel)
      → IsShown pol reg p (bound_of f) o
      → reaches_own pol reg p f o ≡ true
  unfolding meets read_label
  shown-reaches f none r = IsReached-meets f.clearance f.compartments r
  shown-reaches f (some raw) (l, e, r) =
      ap (meets_label pol reg p) e ∙ IsReached-meets l.clearance l.compartments r

  IsShown-reaches :
      (h : Head) (f : Floor)
      → IsShown pol reg p (bound_of f) (own_label h)
      → reaches pol reg p h f ≡ true
  unfolding reaches
  IsShown-reaches h f r = shown-reaches f (own_label h) r

  project_node-IsWhole :
      (h : Head) (path : Place) (f : Floor) (ps : Parts) (w : Walked Parts)
      → reaches pol reg p h f ≡ true
      → IsWhole ps w
      → IsWhole (some (node h ps)) (project_node pol reg p h path f w)
  unfolding project_node
  project_node-IsWhole h path f ps w hit whole =
      let some_left : (ltb 0 w.total && w.kept == 0) ≡ false = ground (arith, whole.kept) in
      rw hit (
        rw some_left (record {
          left = ap (λ x. some (node h x)) whole.left;
          kept = refl;
          noted = whole.noted;
        }))

  mutual
    unfolding project_child IsSeen

    project_child-IsWhole :
        (n : Node) (own path : Place) (f : Floor)
        → IsSeen pol reg p n (bound_of f)
        → IsWhole (some n) (project_child pol reg p n own path f)
    project_child-IsWhole (node h ps) own path f (here, below) = elim (Bool-cases (is_labelled h)) [
      | inl own_rule ↦ rw own_rule (
          project_node-IsWhole h own f ps _ (IsShown-reaches h f (here own_rule)) (
            project_children-IsWhole ps own (floor_inside f h ps)
              (subst (AreSeen pol reg p ps) (sym (bound_of-floor_inside f h ps)) below)))
      | inr no_rule ↦
          let whole : IsWhole ps (project_children pol reg p ps path f) =
            project_children-IsWhole ps path f (
              subst (λ o. AreSeen pol reg p ps (inside (bound_of f) o))
                (unlabelled h.access no_rule) below) in
          rw no_rule (record {
            left = ap (λ x. some (node h x)) whole.left;
            kept = whole.kept;
            noted = whole.noted;
          })
    ]

    project_children-IsWhole :
        (ps : Parts) (path : Place) (f : Floor)
        → AreSeen pol reg p ps (bound_of f)
        → IsWhole ps (project_children pol reg p ps path f)
    project_children-IsWhole no_part path f seen = record { left = refl; kept = refl; noted = refl }
    project_children-IsWhole (one name n ps) path f (here, below) =
        let whole = project_child-IsWhole n (name_path path name) path f here in
        let rest = project_children-IsWhole ps path f below in
        record {
          left = ground (arith, whole.left, rest.left);
          kept = ground (arith, whole.kept, rest.kept);
          noted = ground (arith, whole.noted, rest.noted);
        }
    project_children-IsWhole (many name ns ps) path f (here, below) =
        let whole = project_list-IsWhole ns name 0 path f here in
        let rest = project_children-IsWhole ps path f below in
        record {
          left = ground (arith, whole.left, rest.left);
          kept = ground (arith, whole.kept, rest.kept);
          noted = ground (arith, whole.noted, rest.noted);
        }
    project_children-IsWhole (mapped name ns ps) path f below =
        let rest = project_children-IsWhole ps path f below in
        record { left = ap (mapped name ns) rest.left; kept = rest.kept; noted = rest.noted }

    project_list-IsWhole :
        (ns : Nodes) (name : String) (i : ℕ) (path : Place) (f : Floor)
        → AllSeen pol reg p ns (bound_of f)
        → IsWhole ns (project_list pol reg p ns name i path f)
    project_list-IsWhole no_node name i path f seen = record {
      left = refl;
      kept = refl;
      noted = refl;
    }
    project_list-IsWhole (and n ns) name i path f (here, below) =
        let whole = project_child-IsWhole n (index_path path name i) path f here in
        let rest = project_list-IsWhole ns name (suc i) path f below in
        record {
          left = ground (arith, whole.left, rest.left);
          kept = ground (arith, whole.kept, rest.kept);
          noted = ground (arith, whole.noted, rest.noted);
        }

  append_nil : (xs : List Noted) → xs ++ [] ≡ xs
  append_nil [] = refl
  append_nil (x ∷ xs) = ap (λ ys. x ∷ ys) (append_nil xs)

  disclosed-nothing : (o : Option (List Noted)) → disclosed o [] ≡ o
  disclosed-nothing none = refl
  disclosed-nothing (some already) = ap some (append_nil already)

  -- A disclosure to which nothing is added is as the tool wrote it.
  record_disclosure-nothing : (h : Head) → record_disclosure h [] ≡ h
  unfolding record_disclosure
  record_disclosure-nothing h =
      ap (λ o. record h { withheld_fields = o }) (disclosed-nothing h.withheld_fields)

  project_card_whole :
      (h : Head) (ps : Parts) (path : Place) (f : Floor)
      → IsShown pol reg p (bound_of f) (own_label h)
      → AreSeen pol reg p ps (inside (bound_of f) (own_label h))
      → project_card pol reg p h ps path f ≡ (some (node h ps), [])
  unfolding project_card
  project_card_whole h ps path f here below =
      let whole =
        project_children-IsWhole ps [] (floor_inside f h ps)
          (subst (AreSeen pol reg p ps) (sym (bound_of-floor_inside f h ps)) below) in
      rw (IsShown-reaches h f here) (
        rw (whole.noted)
          (rw (whole.left) (ap (λ x. (some (node x ps), [])) (record_disclosure-nothing h))))

  mutual
    unfolding for_each_card CardsSeen

    for_each_card_whole :
        (n : Node) (path : Place) (f : Floor)
        → CardsSeen pol reg p n (bound_of f)
        → for_each_card pol reg p n path f ≡ (some n, [])
    for_each_card_whole (node h ps) path f (card_rule, other_rule) = elim (Bool-cases (is_card h)) [
      | inl card ↦
          let (here, below) = card_rule card in rw card (project_card_whole h ps path f here below)
      | inr other ↦ rw other (
          ap (λ out. (some (node h (out.0)), out.1))
            (for_each_part_whole ps path f (other_rule other)))
    ]

    for_each_part_whole :
        (ps : Parts) (path : Place) (f : Floor)
        → PartsSeen pol reg p ps (bound_of f)
        → for_each_part pol reg p ps path f ≡ (ps, [])
    for_each_part_whole no_part path f seen = refl
    for_each_part_whole (one name n ps) path f (here, below) =
        rw (for_each_card_whole n (name_path path name) f here)
          (ap (λ out. (one name n (out.0), out.1)) (for_each_part_whole ps path f below))
    for_each_part_whole (many name ns ps) path f (here, below) =
        rw (for_each_element_whole ns name 0 path f here)
          (ap (λ out. (many name ns (out.0), out.1)) (for_each_part_whole ps path f below))
    for_each_part_whole (mapped name ns ps) path f below =
        ap (λ out. (mapped name ns (out.0), out.1)) (for_each_part_whole ps path f below)

    for_each_element_whole :
        (ns : Nodes) (name : String) (i : ℕ) (path : Place) (f : Floor)
        → ElementsSeen pol reg p ns (bound_of f)
        → for_each_element pol reg p ns name i path f ≡ (ns, [])
    for_each_element_whole no_node name i path f seen = refl
    for_each_element_whole (and n ns) name i path f (here, below) =
        rw (for_each_card_whole n (index_path path name i) f here)
          (ap (λ out. (and n (out.0), out.1)) (for_each_element_whole ns name (suc i) path f below))

  -- A viewer who reaches every card of a valid answer, and every labelled element of its cards, is
  -- given the answer as the tool built it, with nothing noted as withheld.
  pub project_cards_whole :
      (resp : Node) (f : Floor)
      → validate resp [] f ≡ none
      → CardsSeen pol reg p resp (bound_of f)
      → project_cards pol reg p resp f ≡ projected resp []
  unfolding project_cards
  project_cards_whole resp f valid seen = rw valid (rw (for_each_card_whole resp [] f seen) refl)
