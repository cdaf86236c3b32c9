-- ===== src/Toolplane/Cards/Validate.antt =====
-- validate of internal/toolplane/sanitise.go: the floors, over every labelled message.
use garmd.Base.{ℕ, suc, String, Option, none, some, if◌then◌else◌}
use garmd.Toolplane.Cards.{
  RawLabel, Label, Node, node, Parts, no_part, one, many, mapped, Nodes, no_node, and, Place,
  name_path, index_path, is_labelled, read_label, pin_violation, Invalid, unreadable_label,
  label_below, Floor, admits, floor_inside, own_label,
}

-- The first violation wins.
abbrev pub or_else : Option Invalid → Option Invalid → Option Invalid
or_else none next = next
or_else (some v) next = some v

abbrev pub judged : Floor → Place → Option Label → Option Invalid
unfolding admits
judged f path none = some (unreadable_label path)
judged f path (some l) = if admits f l then none else some (label_below f.check path)

abbrev pub label_violation : Floor → Place → Option RawLabel → Option Invalid
unfolding read_label
label_violation f path none = none
label_violation f path (some raw) = judged f path (read_label raw)

-- A message without a label of its own does not extend the path.
abbrev pub place_of : Node → Place → Place → Place
place_of (node h ps) own path = if is_labelled h then own else path

unfoldable mutual
  unfolding pin_violation floor_inside read_label admits

  pub validate : Node → Place → Floor → Option Invalid
  validate (node h ps) path f = or_else (pin_violation h) (
      or_else (label_violation f path (own_label h)) (validate_parts ps path (floor_inside f h ps)))

  pub validate_parts : Parts → Place → Floor → Option Invalid
  validate_parts no_part path f = none
  validate_parts (one name n ps) path f =
      or_else (validate n (place_of n (name_path path name) path) f) (validate_parts ps path f)
  validate_parts (many name ns ps) path f =
      or_else (validate_nodes ns name 0 path f) (validate_parts ps path f)
  validate_parts (mapped name ns ps) path f = validate_parts ps path f

  pub validate_nodes : Nodes → String → ℕ → Place → Floor → Option Invalid
  validate_nodes no_node name i path f = none
  validate_nodes (and n ns) name i path f =
      or_else (validate n (place_of n (index_path path name i) path) f)
        (validate_nodes ns name (suc i) path f)
