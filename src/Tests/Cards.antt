-- ===== src/Tests/Cards.antt =====
-- A page of cards, walked.
use garmd.Base.{ℕ, ◌≡◌, refl, String, false, none, some, List, [], ◌∷◌, arith}
use garmd.Toolplane.Cards.{
  RawLabel, Label, Access, undeclared, declared, Head, Node, node, no_part, one, many, mapped,
  Nodes, no_node, and, Noted, at_place, source_field, Floor, floor_for, label_below,
}
use garmd.Toolplane.Cards.Validate.{validate}
use garmd.Toolplane.Cards.Project.{projected, invalid_at, project_cards}
use garmd.Toolplane.Cards.Reached.{bound_of, IsReached, IsSeen, CardsSeen}
use garmd.Toolplane.Cards.Left.{project_cards-CardsSeen}
use garmd.Toolplane.Cards.Ordered.{IsOrdered, validate-IsOrdered}
use garmd.Toolplane.Cards.Whole.{project_cards_whole}
use garmd.Tests.Toy.{toy, alice}

abbrev labelled_at : ℕ → List String → RawLabel
labelled_at cl cs = record {
  clearance_number = some 1;
  compartments_number = some 2;
  clearance = cl;
  compartments = cs;
}

abbrev head : String → Access → String → Head
head name access source = record {
  full_name = name;
  access = access;
  source = source;
  withheld_fields = some [];
}

abbrev fact : ℕ → List String → String → Node
fact cl cs source =
    node (head "garm.card.v1.Fact" (declared 4 (some (labelled_at cl cs))) source) no_part

abbrev element : ℕ → Nodes → Node
element cl facts = node (head "garm.card.v1.Element" (declared 10 (some (labelled_at cl []))) "") (
    one "facts" (node (head "garm.card.v1.FactSet" undeclared "") (many "facts" facts no_part))
      no_part)

abbrev card_of : Nodes → Node
card_of elements =
    node (head "garm.card.v1.Card" (declared 10 none) "") (many "body" elements no_part)

abbrev page_of : Nodes → Node
page_of cards = node (head "bank.ListReply" undeclared "") (many "cards" cards no_part)

abbrev floor : Floor
floor = record { clearance = 1; compartments = []; check = "label_below_endpoint" }

-- One fact that alice reaches and one that she does not; then an element of which she reaches nothing.
abbrev page : Node
page = page_of (
    and
      (card_of (
        and (element 1 (and (fact 2 [] "") (and (fact 9 [] "salary") no_node)))
          (and (element 1 (and (fact 9 [] "") no_node)) no_node)))
      no_node)

abbrev low_page : Node
low_page = page_of (and (card_of (and (element 2 (and (fact 1 [] "") no_node)) no_node)) no_node)

abbrev seen_page : Node
seen_page = page_of (and (card_of (and (element 1 (and (fact 2 [] "") no_node)) no_node)) no_node)

abbrev head_of_card : List Noted → Head
head_of_card noted = record {
  full_name = "garm.card.v1.Card";
  access = declared 10 none;
  source = "";
  withheld_fields = some noted;
}

abbrev withheld : List Noted
withheld = source_field "salary" ∷ at_place (("body", some 1) ∷ []) ∷ []

abbrev left : Node
left = page_of (
    and
      (node (head_of_card withheld)
        (many "body" (and (element 1 (and (fact 2 [] "") no_node)) no_node) no_part))
      no_node)

page_run : project_cards toy "finance" alice page floor ≡ projected left withheld
unfolding project_cards
page_run = refl

low_run :
    project_cards toy "finance" alice low_page floor
    ≡ invalid_at (
        label_below "label_below_element"
          (("cards", some 0) ∷ ("body", some 0) ∷ ("facts", some 0) ∷ []))
unfolding project_cards
low_run = refl

-- What is in a map is left, whoever sees it.
abbrev map_page : Node
map_page = node (head "bank.ListReply" undeclared "") (
    mapped "by_id"
      (and (node (head "garm.card.v1.Card" (declared 10 (some (labelled_at 9 []))) "") no_part)
        no_node)
      no_part)

map_run : project_cards toy "finance" alice map_page floor ≡ projected map_page []
unfolding project_cards
map_run = refl

seen_valid : validate seen_page [] floor ≡ none
unfolding validate
seen_valid = refl

clear_at_1 : IsReached toy "finance" alice (1, [])
clear_at_1 = record { cleared = refl; held = (false, refl, refl) }

clear_at_2 : IsReached toy "finance" alice (2, [])
clear_at_2 = record { cleared = refl; held = (false, refl, refl) }

label_at : ℕ → Label
label_at cl = record { clearance = cl; compartments = [] }

fact-IsSeen : IsSeen toy "finance" alice (fact 2 [] "") (1, [])
unfolding CardsSeen label_at
fact-IsSeen = (λ e. (label_at 2, refl, clear_at_2), tt)

element-IsSeen : IsSeen toy "finance" alice (element 1 (and (fact 2 [] "") no_node)) (1, [])
unfolding CardsSeen label_at
element-IsSeen = (
  λ e. (label_at 1, refl, clear_at_1),
  ((λ e. absurd (ground arith), ((fact-IsSeen, tt), tt)), tt),
)

seen_page-CardsSeen : CardsSeen toy "finance" alice seen_page (bound_of floor)
unfolding CardsSeen
seen_page-CardsSeen = (
  λ e. absurd (ground arith),
  λ e. (((λ c. (clear_at_1, ((element-IsSeen, tt), tt)), λ c. absurd (ground arith)), tt), tt),
)

floor_for_page : floor_for 1 [] none ≡ floor
unfolding floor_for
floor_for_page = refl

project_cards-CardsSeen_example : CardsSeen toy "finance" alice left (bound_of floor)
project_cards-CardsSeen_example =
    project_cards-CardsSeen toy "finance" alice page left floor withheld page_run

validate-IsOrdered_example : IsOrdered seen_page (bound_of floor)
validate-IsOrdered_example = validate-IsOrdered seen_page [] floor seen_valid

project_cards_whole_example :
    project_cards toy "finance" alice seen_page floor ≡ projected seen_page []
project_cards_whole_example =
    project_cards_whole toy "finance" alice seen_page floor seen_valid seen_page-CardsSeen
