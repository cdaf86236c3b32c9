-- ===== src/Toolplane/Cards/Project.antt =====
-- The card walk of internal/toolplane/sanitise.go: reaches, projectNode, projectChildren,
-- projectCard, forEachCard and projectCards.
use garmd.Base.{
  ℕ, suc, ◌+◌, String, Bool, false, ◌&&◌, Option, none, some, List, [], ◌∷◌, ◌++◌, str_eq, ltb,
  ◌==◌, if◌then◌else◌,
}
use garmd.Policy.{Policy}
use garmd.Principal.{Principal}
use garmd.Toolplane.Cards.{
  RawLabel, Label, Head, Node, node, Parts, no_part, one, many, mapped, Nodes, no_node, and, Place,
  name_path, index_path, is_labelled, is_card, read_label, Invalid, Noted, at_place, source_field,
  Floor, floor_inside, own_label,
}
use garmd.Toolplane.Cards.Validate.{validate}

-- What is left of a message or of its fields, how many labelled children there were and survived,
-- and what was noted as withheld.
pub record Walked (X : Type 0) : Type 0 where
  pub left : X
  pub kept : ℕ
  pub total : ℕ
  pub noted : List Noted

abbrev pub note : Head → Place → List Noted
note h path = (if str_eq h.source "" then at_place path else source_field h.source) ∷ []

abbrev pub disclosed : Option (List Noted) → List Noted → Option (List Noted)
disclosed none noted = none
disclosed (some already) noted = some (already ++ noted)

unfoldable pub record_disclosure : Head → List Noted → Head
record_disclosure h noted = record {
  full_name = h.full_name;
  access = h.access;
  source = h.source;
  withheld_fields = disclosed h.withheld_fields noted;
}

-- filterList, for one element.
abbrev pub and_left : Option Node → Nodes → Nodes
and_left none ns = ns
and_left (some n) ns = and n ns

abbrev pub one_left : String → Option Node → Parts → Parts
one_left name none ps = ps
one_left name (some n) ps = one name n ps

abbrev pub withheld_at : Head → Place → Walked (Option Node)
withheld_at h path = record { left = none; kept = 0; total = 1; noted = note h path }

-- A message with labelled children is withheld whole when none of them survives.
abbrev pub collapse : Head → Place → Walked Parts → Walked (Option Node)
collapse h path w =
    if ltb 0 w.total && w.kept == 0
    then withheld_at h path
    else record { left = some (node h w.left); kept = 1; total = 1; noted = w.noted }

abbrev pub through : Head → Walked Parts → Walked (Option Node)
through h w = record {
  left = some (node h w.left);
  kept = w.kept;
  total = w.total;
  noted = w.noted;
}

abbrev pub with_one : String → Walked (Option Node) → Walked Parts → Walked Parts
with_one name here rest = record {
  left = one_left name here.left rest.left;
  kept = here.kept + rest.kept;
  total = here.total + rest.total;
  noted = here.noted ++ rest.noted;
}

abbrev pub with_many : String → Walked Nodes → Walked Parts → Walked Parts
with_many name here rest = record {
  left = many name here.left rest.left;
  kept = here.kept + rest.kept;
  total = here.total + rest.total;
  noted = here.noted ++ rest.noted;
}

-- A map is passed by, with all that is in it.
abbrev pub with_map : String → Nodes → Walked Parts → Walked Parts
with_map name ns rest = record {
  left = mapped name ns rest.left;
  kept = rest.kept;
  total = rest.total;
  noted = rest.noted;
}

abbrev pub with_node : Walked (Option Node) → Walked Nodes → Walked Nodes
with_node here rest = record {
  left = and_left here.left rest.left;
  kept = here.kept + rest.kept;
  total = here.total + rest.total;
  noted = here.noted ++ rest.noted;
}

abbrev pub nothing_in : {X : Type 0} → X → Walked X
nothing_in x = record { left = x; kept = 0; total = 0; noted = [] }

pub data CardResult : Type 0 where
  invalid_at : Invalid → CardResult
  gone : CardResult
  projected : Node → List Noted → CardResult

module _ {C R D : Type 0} (pol : Policy C R D) (reg : R) (p : Principal C) where
  abbrev pub covers_set : Option C → Bool
  covers_set none = false
  covers_set (some need) = pol.covers p.compartments need

  unfoldable pub meets : ℕ → List String → Bool
  meets clearance compartments =
      pol.allows p.clearance clearance && covers_set (pol.set reg compartments)

  abbrev pub meets_label : Option Label → Bool
  unfolding meets
  meets_label none = false
  meets_label (some l) = meets l.clearance l.compartments

  abbrev pub reaches_own : Floor → Option RawLabel → Bool
  unfolding meets read_label
  reaches_own f none = meets f.clearance f.compartments
  reaches_own f (some raw) = meets_label (read_label raw)

  unfoldable pub reaches : Head → Floor → Bool
  unfolding meets read_label
  reaches h f = reaches_own f (own_label h)

  -- projectNode, from the walk of its fields.
  unfoldable pub project_node : Head → Place → Floor → Walked Parts → Walked (Option Node)
  unfolding reaches
  project_node h path f inside = if reaches h f then collapse h path inside else withheld_at h path

  unfoldable mutual
    unfolding project_node floor_inside

    -- A child of projectChildren: `own` is its place when it is labelled, `path` where it is not.
    pub project_child : Node → Place → Place → Floor → Walked (Option Node)
    project_child (node h ps) own path f =
        if is_labelled h
        then project_node h own f (project_children ps own (floor_inside f h ps))
        else through h (project_children ps path f)

    pub project_children : Parts → Place → Floor → Walked Parts
    project_children no_part path f = nothing_in no_part
    project_children (one name n ps) path f =
        with_one name (project_child n (name_path path name) path f) (project_children ps path f)
    project_children (many name ns ps) path f =
        with_many name (project_list ns name 0 path f) (project_children ps path f)
    project_children (mapped name ns ps) path f = with_map name ns (project_children ps path f)

    pub project_list : Nodes → String → ℕ → Place → Floor → Walked Nodes
    project_list no_node name i path f = nothing_in no_node
    project_list (and n ns) name i path f =
        with_node (project_child n (index_path path name i) path f)
          (project_list ns name (suc i) path f)

  unfoldable pub project_card : Head → Parts → Place → Floor → Option Node × List Noted
  unfolding reaches project_children floor_inside record_disclosure
  project_card h ps path f =
      let w = project_children ps [] (floor_inside f h ps) in
      if reaches h f
      then (some (node (record_disclosure h w.noted) w.left), w.noted)
      else (none, note h path)

  -- forEachCard. The code skips a field whose type holds no card: there is no card to find in it.
  unfoldable mutual
    unfolding project_card

    pub for_each_card : Node → Place → Floor → Option Node × List Noted
    for_each_card (node h ps) path f =
        let rest = for_each_part ps path f in
        if is_card h then project_card h ps path f else (some (node h rest.0), rest.1)

    pub for_each_part : Parts → Place → Floor → Parts × List Noted
    for_each_part no_part path f = (no_part, [])
    for_each_part (one name n ps) path f =
        let here = for_each_card n (name_path path name) f in
        let rest = for_each_part ps path f in (one_left name here.0 rest.0, here.1 ++ rest.1)
    for_each_part (many name ns ps) path f =
        let here = for_each_element ns name 0 path f in
        let rest = for_each_part ps path f in (many name here.0 rest.0, here.1 ++ rest.1)
    for_each_part (mapped name ns ps) path f =
        let rest = for_each_part ps path f in (mapped name ns rest.0, rest.1)

    pub for_each_element : Nodes → String → ℕ → Place → Floor → Nodes × List Noted
    for_each_element no_node name i path f = (no_node, [])
    for_each_element (and n ns) name i path f =
        let here = for_each_card n (index_path path name i) f in
        let rest = for_each_element ns name (suc i) path f in
        (and_left here.0 rest.0, here.1 ++ rest.1)

  abbrev pub card_answer : Option Node → List Noted → CardResult
  card_answer none noted = gone
  card_answer (some n) noted = projected n noted

  abbrev pub unless_invalid : Option Invalid → Option Node × List Noted → CardResult
  unless_invalid (some v) out = invalid_at v
  unless_invalid none out = card_answer out.0 out.1

  -- The whole message is validated before anything is taken from it.
  unfoldable pub project_cards : Node → Floor → CardResult
  unfolding validate for_each_card
  project_cards resp f = unless_invalid (validate resp [] f) (for_each_card resp [] f)
