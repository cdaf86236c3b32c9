-- ===== src/Toolplane/Cards.antt =====
-- The data of internal/toolplane/sanitise.go: labels, floors, and messages as the card walk reads
-- them.
pub mod Validate
pub mod Project
pub mod Reached
pub mod Left
pub mod Ordered
pub mod Whole
use garmd.Base.{
  ℕ, String, Bool, true, false, ◌&&◌, ◌||◌, not, Option, none, some, List, [], ◌∷◌, ◌++◌, str_eq,
  ◌==◌, if◌then◌else◌, leb, ltb, contains, covers_names,
}

pub record Label : Type 0 where
  pub clearance : ℕ
  pub compartments : List String

-- A value of a message named garm.card.v1.Label. The two numbers are those of an enum field named
-- `clearance` and of a repeated string field named `compartments`, `none` where the type has no
-- such field.
pub record RawLabel : Type 0 where
  pub clearance_number : Option ℕ
  pub compartments_number : Option ℕ
  pub clearance : ℕ
  pub compartments : List String

-- A singular field named `access` of the label type: the message type has none, or it has one
-- under this number, with or without a value.
pub data Access : Type 0 where
  undeclared : Access
  declared : ℕ → Option RawLabel → Access

-- The scalars that the walk reads: `source` is the string field named `field`, "" where it is not
-- set or not declared; `withheld_fields` is the list that the disclosure holds, `none` where the
-- type has no disclosure.
pub data Noted : Type 0 where
  at_place : List (String × Option ℕ) → Noted
  source_field : String → Noted

pub record Head : Type 0 where
  pub full_name : String
  pub access : Access
  pub source : String
  pub withheld_fields : Option (List Noted)

-- The populated message fields in the order of the descriptor. The label and the well-known types
-- are not among them. A map has the messages among its values, which the walk passes by.
mutual
  pub data Node : Type 0 where
    node : Head → Parts → Node

  pub data Parts : Type 0 where
    no_part : Parts
    one : String → Node → Parts → Parts
    many : String → Nodes → Parts → Parts
    mapped : String → Nodes → Parts → Parts

  pub data Nodes : Type 0 where
    no_node : Nodes
    and : Node → Nodes → Nodes

abbrev pub Place : Type 0
Place = List (String × Option ℕ)

abbrev pub name_path : Place → String → Place
name_path path name = path ++ ((name, none) ∷ [])

abbrev pub index_path : Place → String → ℕ → Place
index_path path name i = path ++ ((name, some i) ∷ [])

abbrev pub is_card : Head → Bool
is_card h = str_eq h.full_name "garm.card.v1.Card"

-- accessFieldOf is not nil.
abbrev pub is_labelled : Head → Bool
is_labelled h = elim h.access [ undeclared ↦ false | declared num raw ↦ true ]

abbrev has_number : Option ℕ → ℕ → Bool
has_number none want = false
has_number (some num) want = num == want

unfoldable pub read_label : RawLabel → Option Label
read_label raw =
    if has_number raw.clearance_number 1 && has_number raw.compartments_number 2
    then some (record { clearance = raw.clearance; compartments = raw.compartments })
    else none

-- pinnedAccessNumbers
abbrev pub pinned_number : String → Option ℕ
pinned_number name =
    if str_eq name "garm.card.v1.Card" || str_eq name "garm.card.v1.Element"
    then some 10
    else if str_eq name "garm.card.v1.Fact"
    then some 4
    else if str_eq name "garm.card.v1.Choice"
    then some 3
    else none

pub data Invalid : Type 0 where
  no_access_label : String → Invalid
  access_field_moved : String → ℕ → Invalid
  unreadable_label : Place → Invalid
  label_below : String → Place → Invalid

abbrev pub agrees : Option ℕ → ℕ → Bool
agrees none num = true
agrees (some want) num = num == want

unfoldable pub pin_violation : Head → Option Invalid
pin_violation h = elim h.access [
  | undeclared ↦ if is_card h then some (no_access_label h.full_name) else none
  | declared num raw ↦
      if agrees (pinned_number h.full_name) num
      then none
      else some (access_field_moved h.full_name num)
]

pub record Floor : Type 0 where
  pub clearance : ℕ
  pub compartments : List String
  pub check : String

unfoldable pub add_names : List String → List String → List String
add_names held [] = held
add_names held (n ∷ names) = add_names (if contains held n then held else held ++ (n ∷ [])) names

unfoldable pub under : Floor → Label → Bool → Floor
unfolding add_names
under f l is_section = record {
  clearance = if ltb f.clearance l.clearance then l.clearance else f.clearance;
  compartments = add_names f.compartments l.compartments;
  check = if is_section then "label_below_section" else "label_below_element";
}

unfoldable pub admits : Floor → Label → Bool
admits f l = leb f.clearance l.clearance && covers_names l.compartments f.compartments

-- holdsASection: a singular field that is set holds a Section.
unfoldable pub holds_section : Parts → Bool
holds_section no_part = false
holds_section (one name (node h inner) ps) =
    str_eq h.full_name "garm.card.v1.Section" || holds_section ps
holds_section (many name ns ps) = holds_section ps
holds_section (mapped name ns ps) = holds_section ps

-- floorFor, from the gate of the tool and the default policy of the response message.
unfoldable pub floor_for : ℕ → List String → Option Label → Floor
unfolding add_names
floor_for clearance compartments none = record {
  clearance = clearance;
  compartments = compartments;
  check = "label_below_endpoint";
}
floor_for clearance compartments (some def) = record {
  clearance = if ltb clearance def.clearance then def.clearance else clearance;
  compartments = add_names compartments def.compartments;
  check = "label_below_endpoint";
}

-- The value of `access` where the message type declares it and the message sets it.
abbrev pub own_label : Head → Option RawLabel
own_label h = elim h.access [ undeclared ↦ none | declared num raw ↦ raw ]

abbrev pub under_read : Floor → Option Label → Bool → Floor
unfolding under
under_read f none is_section = f
under_read f (some l) is_section = under f l is_section

abbrev pub under_own : Floor → Option RawLabel → Bool → Floor
unfolding read_label
under_own f none is_section = f
under_own f (some raw) is_section = under_read f (read_label raw) is_section

-- floorInside
unfoldable pub floor_inside : Floor → Head → Parts → Floor
unfolding under read_label holds_section
floor_inside f h ps = under_own f (own_label h) (holds_section ps)
