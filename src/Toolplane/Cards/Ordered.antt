-- ===== src/Toolplane/Cards/Ordered.antt =====
-- What a validated answer is: validate of internal/toolplane/sanitise.go.
use garmd.Base.{
  ℕ, suc, ◌≤◌, ◌≡◌, refl, subst, String, true, Option, none, some, arith, contains,
  covers_names→contains,
}
use garmd.Toolplane.Cards.{
  RawLabel, Label, Node, node, Parts, no_part, one, many, mapped, Nodes, no_node, and, Place,
  name_path, index_path, read_label, pin_violation, Invalid, Floor, admits, floor_inside, own_label,
}
use garmd.Toolplane.Cards.Validate.{
  or_else, judged, label_violation, place_of, validate, validate_parts, validate_nodes,
}
use garmd.Toolplane.Cards.Reached.{Bound, bound_of, inside, bound_of-floor_inside}

-- At or above what encloses it: a clearance that is no lower, and every compartment.
pub record IsAbove (b : Bound) (l : Label) : Type 0 where
  pub no_lower : b.0 ≤ l.clearance
  pub no_wider : (s : String) → contains (b.1) s ≡ true → contains l.compartments s ≡ true

abbrev pub LabelAbove : Bound → Option RawLabel → Type 0
unfolding read_label
LabelAbove b none = Unit
LabelAbove b (some raw) = (l : Label) × (read_label raw ≡ some l) × IsAbove b l

-- Outside the map fields, every message has the `access` field where this build expects it, and a label that is set is
-- readable and at or above the endpoint's policy and every label that encloses it.
unfoldable mutual
  unfolding pin_violation read_label

  pub IsOrdered : Node → Bound → Type 0
  IsOrdered (node h ps) b =
      (pin_violation h ≡ none) × LabelAbove b (own_label h) × AreOrdered ps (inside b (own_label h))

  pub AreOrdered : Parts → Bound → Type 0
  AreOrdered no_part b = Unit
  AreOrdered (one name n ps) b = IsOrdered n b × AreOrdered ps b
  AreOrdered (many name ns ps) b = AllOrdered ns b × AreOrdered ps b
  AreOrdered (mapped name ns ps) b = AreOrdered ps b

  pub AllOrdered : Nodes → Bound → Type 0
  AllOrdered no_node b = Unit
  AllOrdered (and n ns) b = IsOrdered n b × AllOrdered ns b

or_else-none : (v next : Option Invalid) → or_else v next ≡ none → (v ≡ none) × (next ≡ none)
or_else-none none next h = (refl, h)
or_else-none (some v) next h = absurd (ground arith)

judged-IsAbove :
    (f : Floor) (path : Place) (o : Option Label)
    → judged f path o ≡ none
    → (l : Label) × (o ≡ some l) × IsAbove (bound_of f) l
unfolding admits
judged-IsAbove f path none h = absurd (ground arith)
judged-IsAbove f path (some l) h = (
  l,
  refl,
  record {
    no_lower = ground arith;
    no_wider = λ s e. covers_names→contains l.compartments f.compartments s (ground arith) e;
  },
)

label_violation-LabelAbove :
    (f : Floor) (path : Place) (o : Option RawLabel)
    → label_violation f path o ≡ none
    → LabelAbove (bound_of f) o
unfolding read_label admits
label_violation-LabelAbove f path none h = tt
label_violation-LabelAbove f path (some raw) h = judged-IsAbove f path (read_label raw) h

mutual
  unfolding validate IsOrdered

  validate-Ordered :
      (n : Node) (path : Place) (f : Floor) → validate n path f ≡ none → IsOrdered n (bound_of f)
  validate-Ordered (node h ps) path f e =
      let (pin, rest) = or_else-none (pin_violation h) _ e in
      let (label, parts) = or_else-none (label_violation f path (own_label h)) _ rest in
      (
        pin,
        label_violation-LabelAbove f path (own_label h) label,
        subst (AreOrdered ps) (bound_of-floor_inside f h ps)
            (validate_parts-Ordered ps path (floor_inside f h ps) parts),
      )

  validate_parts-Ordered :
      (ps : Parts) (path : Place) (f : Floor)
      → validate_parts ps path f ≡ none
      → AreOrdered ps (bound_of f)
  validate_parts-Ordered no_part path f e = tt
  validate_parts-Ordered (one name n ps) path f e =
      let (here, rest) = or_else-none (validate n (place_of n (name_path path name) path) f) _ e in
      (
        validate-Ordered n (place_of n (name_path path name) path) f here,
        validate_parts-Ordered ps path f rest,
      )
  validate_parts-Ordered (many name ns ps) path f e =
      let (here, rest) = or_else-none (validate_nodes ns name 0 path f) _ e in
      (validate_nodes-Ordered ns name 0 path f here, validate_parts-Ordered ps path f rest)
  validate_parts-Ordered (mapped name ns ps) path f e = validate_parts-Ordered ps path f e

  validate_nodes-Ordered :
      (ns : Nodes) (name : String) (i : ℕ) (path : Place) (f : Floor)
      → validate_nodes ns name i path f ≡ none
      → AllOrdered ns (bound_of f)
  validate_nodes-Ordered no_node name i path f e = tt
  validate_nodes-Ordered (and n ns) name i path f e =
      let (here, rest) =
        or_else-none (validate n (place_of n (index_path path name i) path) f) _ e in
      (
        validate-Ordered n (place_of n (index_path path name i) path) f here,
        validate_nodes-Ordered ns name (suc i) path f rest,
      )

-- A message that validates has its labels in order, outside its map fields, which validation passes
-- by: each label that is set there is readable, sits at its pinned number, and is no lower than the
-- floor it was validated at and than every label around it.
pub validate-IsOrdered :
    (n : Node) (path : Place) (f : Floor) → validate n path f ≡ none → IsOrdered n (bound_of f)
validate-IsOrdered n path f e = validate-Ordered n path f e
