-- ===== src/Toolplane/Cards/Left.antt =====
-- The card walk leaves only what the viewer reaches (internal/toolplane/sanitise.go).
use garmd.Base.{
  ℕ, suc, ◌≡◌, sym, subst, String, true, ◌&&◌, Option, none, some, List, [], arith, ltb, Bool-cases,
  inl, inr, ◌==◌,
}
use garmd.Policy.{Policy}
use garmd.Principal.{Principal}
use garmd.Toolplane.Cards.{
  Head, Node, node, Parts, no_part, one, many, mapped, Nodes, no_node, and, Place, name_path,
  index_path, is_labelled, is_card, Invalid, Noted, Floor, floor_inside,
}
use garmd.Toolplane.Cards.Validate.{validate}
use garmd.Toolplane.Cards.Project.{
  Walked, collapse, one_left, and_left, reaches, project_node, project_child, project_children,
  project_list, record_disclosure, project_card, for_each_card, for_each_part, for_each_element,
  projected, card_answer, unless_invalid, project_cards,
}
use garmd.Toolplane.Cards.Reached.{
  Bound, bound_of, inside, bound_of-floor_inside, unlabelled, IsSeen, AreSeen, AllSeen, CardsSeen,
  PartsSeen, ElementsSeen, reaches-IsShown,
}

module _ {C R D : Type 0} (pol : Policy C R D) (reg : R) (p : Principal C) where
  OptSeen : Option Node → Bound → Type 0
  OptSeen none b = Unit
  OptSeen (some n) b = IsSeen pol reg p n b

  one_left-AreSeen :
      (name : String) (o : Option Node) (ps : Parts) (b : Bound)
      → OptSeen o b
      → AreSeen pol reg p ps b
      → AreSeen pol reg p (one_left name o ps) b
  unfolding IsSeen OptSeen
  one_left-AreSeen name none ps b h r = r
  one_left-AreSeen name (some n) ps b h r = (h, r)

  and_left-AllSeen :
      (o : Option Node) (ns : Nodes) (b : Bound)
      → OptSeen o b
      → AllSeen pol reg p ns b
      → AllSeen pol reg p (and_left o ns) b
  unfolding IsSeen OptSeen
  and_left-AllSeen none ns b h r = r
  and_left-AllSeen (some n) ns b h r = (h, r)

  collapse-OptSeen :
      (h : Head) (path : Place) (w : Walked Parts) (b : Bound)
      → IsSeen pol reg p (node h w.left) b
      → OptSeen ((collapse h path w).left) b
  unfolding OptSeen
  collapse-OptSeen h path w b seen = elim (Bool-cases (ltb 0 w.total && w.kept == 0)) [
    | inl all_gone ↦ rw all_gone tt
    | inr some_left ↦ rw some_left seen
  ]

  project_node-OptSeen :
      (h : Head) (path : Place) (f : Floor) (ps : Parts) (w : Walked Parts)
      → AreSeen pol reg p w.left (bound_of (floor_inside f h ps))
      → OptSeen ((project_node pol reg p h path f w).left) (bound_of f)
  unfolding project_node OptSeen IsSeen
  project_node-OptSeen h path f ps w seen = elim (Bool-cases (reaches pol reg p h f)) [
    | inl hit ↦ rw hit (
        collapse-OptSeen h path w (bound_of f) (
          λ e. reaches-IsShown pol reg p h f hit,
          subst (AreSeen pol reg p w.left) (bound_of-floor_inside f h ps) seen,
        ))
    | inr miss ↦ rw miss tt
  ]

  mutual
    unfolding project_child OptSeen IsSeen

    project_child-OptSeen :
        (n : Node) (own path : Place) (f : Floor)
        → OptSeen ((project_child pol reg p n own path f).left) (bound_of f)
    project_child-OptSeen (node h ps) own path f = elim (Bool-cases (is_labelled h)) [
      | inl own_rule ↦ rw own_rule (
          project_node-OptSeen h own f ps (project_children pol reg p ps own (floor_inside f h ps))
            (project_children-AreSeen ps own (floor_inside f h ps)))
      | inr no_rule ↦ rw no_rule (
        λ e. absurd (ground arith),
        subst
            (λ o.
              AreSeen pol reg p ((project_children pol reg p ps path f).left)
                (inside (bound_of f) o))
            (sym (unlabelled h.access no_rule)) (project_children-AreSeen ps path f),
      )
    ]

    project_children-AreSeen :
        (ps : Parts) (path : Place) (f : Floor)
        → AreSeen pol reg p ((project_children pol reg p ps path f).left) (bound_of f)
    project_children-AreSeen no_part path f = tt
    project_children-AreSeen (one name n ps) path f =
        one_left-AreSeen name _ _ (bound_of f)
          (project_child-OptSeen n (name_path path name) path f)
          (project_children-AreSeen ps path f)
    project_children-AreSeen (many name ns ps) path f =
        (project_list-AllSeen ns name 0 path f, project_children-AreSeen ps path f)
    project_children-AreSeen (mapped name ns ps) path f = project_children-AreSeen ps path f

    project_list-AllSeen :
        (ns : Nodes) (name : String) (i : ℕ) (path : Place) (f : Floor)
        → AllSeen pol reg p ((project_list pol reg p ns name i path f).left) (bound_of f)
    project_list-AllSeen no_node name i path f = tt
    project_list-AllSeen (and n ns) name i path f =
        and_left-AllSeen _ _ (bound_of f) (project_child-OptSeen n (index_path path name i) path f)
          (project_list-AllSeen ns name (suc i) path f)

  CardsOpt : Option Node → Bound → Type 0
  unfolding CardsSeen
  CardsOpt none b = Unit
  CardsOpt (some n) b = CardsSeen pol reg p n b

  one_left-PartsSeen :
      (name : String) (o : Option Node) (ps : Parts) (b : Bound)
      → CardsOpt o b
      → PartsSeen pol reg p ps b
      → PartsSeen pol reg p (one_left name o ps) b
  unfolding CardsSeen CardsOpt
  one_left-PartsSeen name none ps b h r = r
  one_left-PartsSeen name (some n) ps b h r = (h, r)

  and_left-ElementsSeen :
      (o : Option Node) (ns : Nodes) (b : Bound)
      → CardsOpt o b
      → ElementsSeen pol reg p ns b
      → ElementsSeen pol reg p (and_left o ns) b
  unfolding CardsSeen CardsOpt
  and_left-ElementsSeen none ns b h r = r
  and_left-ElementsSeen (some n) ns b h r = (h, r)

  project_card-CardsOpt :
      (h : Head) (ps : Parts) (path : Place) (f : Floor)
      → is_card h ≡ true
      → CardsOpt ((project_card pol reg p h ps path f).0) (bound_of f)
  unfolding project_card record_disclosure CardsSeen CardsOpt IsSeen
  project_card-CardsOpt h ps path f card = elim (Bool-cases (reaches pol reg p h f)) [
    | inl hit ↦ rw hit (
      λ e. (
        reaches-IsShown pol reg p h f hit,
        subst (AreSeen pol reg p ((project_children pol reg p ps [] (floor_inside f h ps)).left))
            (bound_of-floor_inside f h ps) (project_children-AreSeen ps [] (floor_inside f h ps)),
      ),
      λ e. absurd (ground arith),
    )
    | inr miss ↦ rw miss tt
  ]

  mutual
    unfolding for_each_card CardsSeen CardsOpt

    for_each_card-CardsOpt :
        (n : Node) (path : Place) (f : Floor)
        → CardsOpt ((for_each_card pol reg p n path f).0) (bound_of f)
    for_each_card-CardsOpt (node h ps) path f = elim (Bool-cases (is_card h)) [
      | inl card ↦ rw card (project_card-CardsOpt h ps path f card)
      | inr other ↦ rw other (λ e. absurd (ground arith), λ e. for_each_part-PartsSeen ps path f)
    ]

    for_each_part-PartsSeen :
        (ps : Parts) (path : Place) (f : Floor)
        → PartsSeen pol reg p ((for_each_part pol reg p ps path f).0) (bound_of f)
    for_each_part-PartsSeen no_part path f = tt
    for_each_part-PartsSeen (one name n ps) path f =
        one_left-PartsSeen name _ _ (bound_of f) (for_each_card-CardsOpt n (name_path path name) f)
          (for_each_part-PartsSeen ps path f)
    for_each_part-PartsSeen (many name ns ps) path f =
        (for_each_element-ElementsSeen ns name 0 path f, for_each_part-PartsSeen ps path f)
    for_each_part-PartsSeen (mapped name ns ps) path f = for_each_part-PartsSeen ps path f

    for_each_element-ElementsSeen :
        (ns : Nodes) (name : String) (i : ℕ) (path : Place) (f : Floor)
        → ElementsSeen pol reg p ((for_each_element pol reg p ns name i path f).0) (bound_of f)
    for_each_element-ElementsSeen no_node name i path f = tt
    for_each_element-ElementsSeen (and n ns) name i path f =
        and_left-ElementsSeen _ _ (bound_of f) (for_each_card-CardsOpt n (index_path path name i) f)
          (for_each_element-ElementsSeen ns name (suc i) path f)

  card_answer-CardsSeen :
      (o : Option Node) (noted : List Noted) (n : Node) (ws : List Noted) (b : Bound)
      → card_answer pol reg p o noted ≡ projected n ws
      → CardsOpt o b
      → CardsSeen pol reg p n b
  unfolding CardsOpt
  card_answer-CardsSeen none noted n ws b h seen = absurd (ground arith)
  card_answer-CardsSeen (some m) noted n ws b h seen =
      subst (λ x. CardsSeen pol reg p x b) (ground arith) seen

  unless_invalid-CardsSeen :
      (v : Option Invalid) (out : Option Node × List Noted) (n : Node) (ws : List Noted) (b : Bound)
      → unless_invalid pol reg p v out ≡ projected n ws
      → CardsOpt (out.0) b
      → CardsSeen pol reg p n b
  unless_invalid-CardsSeen none out n ws b h seen =
      card_answer-CardsSeen (out.0) (out.1) n ws b h seen
  unless_invalid-CardsSeen (some v) out n ws b h seen = absurd (ground arith)

  -- Outside its map fields, which the walk passes by, an answer that the walk lets through holds no
  -- card, and inside a card no labelled element, that the viewer does not reach: each one's own label, or the bound of what encloses it where none is
  -- set, is within the viewer's clearance, and its compartments are declared and held.
  pub project_cards-CardsSeen :
      (resp left : Node) (f : Floor) (withheld : List Noted)
      → project_cards pol reg p resp f ≡ projected left withheld
      → CardsSeen pol reg p left (bound_of f)
  unfolding project_cards
  project_cards-CardsSeen resp left f withheld h =
      unless_invalid-CardsSeen (validate resp [] f) (for_each_card pol reg p resp [] f) left
        withheld (bound_of f) h (for_each_card-CardsOpt resp [] f)
