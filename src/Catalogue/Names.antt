-- ===== src/Catalogue/Names.antt =====
-- assignClientNames and snake of internal/catalogue/catalogue.go.
pub mod Unique
use Prim.Native.Char.{Char, code}
use Prim.Native.String as Text
use garmd.Base.{
  ℕ, suc, ◌+◌, String, Bool, true, false, ◌&&◌, Option, none, some, List, [], ◌∷◌, str_eq, ◌==◌,
  leb, if◌then◌else◌,
}
use garmd.Base.Dict.{Dict, lookup, insert}
use garmd.ToolDef.{Def}

-- counts[d.Name]++ over all declarations, read at one name.
abbrev pub count_name : String → List Def → ℕ
count_name n [] = 0
count_name n (d ∷ defs) = (if str_eq d.name n then 1 else 0) + count_name n defs

-- strings.ReplaceAll(s, ".", "_")
abbrev pub dots_to_underscores : String → String
dots_to_underscores Text.[] = ""
dots_to_underscores (Text.◌∷◌ c s) =
    Text.◌∷◌ (if code c == b'.' then "_" else c) (dots_to_underscores s)

-- strings.TrimSuffix
abbrev pub trim_suffix : String → String → String
trim_suffix Text.[] suffix = ""
trim_suffix (Text.◌∷◌ c s) suffix =
    let rest = trim_suffix s suffix in if str_eq (Text.◌∷◌ c s) suffix then "" else Text.◌∷◌ c rest

-- The lower-case letter of an upper-case one: the letter at its place in the second alphabet.
abbrev pub swap_letter : String → String → Char → Char
swap_letter (Text.◌∷◌ u us) (Text.◌∷◌ l ls) c =
    let rest = swap_letter us ls c in if code u == code c then l else rest
swap_letter _ _ c = c

abbrev pub lower_letter : Char → Char
lower_letter = swap_letter "ABCDEFGHIJKLMNOPQRSTUVWXYZ" "abcdefghijklmnopqrstuvwxyz"

abbrev pub is_upper : Char → Bool
is_upper c = leb b'A' (code c) && leb (code c) b'Z'

-- The loop of snake; `first` is `i == 0`.
abbrev pub snake_from : Bool → String → String
snake_from first Text.[] = ""
snake_from first (Text.◌∷◌ c s) =
    let rest = snake_from false s in
    if is_upper c
    then (if first
        then Text.◌∷◌ (lower_letter c) rest
        else Text.◌∷◌ "_" (Text.◌∷◌ (lower_letter c) rest))
    else Text.◌∷◌ c rest

unfoldable pub snake : String → String
snake s = snake_from true s

-- The name shown for one tool among `all`.
unfoldable pub client_name_of : List Def → Def → String
client_name_of all d =
    if count_name d.name all == 1
    then d.name
    else Text.◌++◌ (dots_to_underscores (trim_suffix d.fqn (Text.◌++◌ "." d.name)))
        (Text.◌++◌ "_" d.name)

unfoldable pub name_all : List Def → List Def → List Def
unfolding client_name_of
name_all all [] = []
name_all all (d ∷ defs) = record d { client_name = client_name_of all d } ∷ name_all all defs

-- The second loop: the first tool whose client name is taken, with the tool that took it.
unfoldable pub first_clash : Dict String → List Def → Option (String × String)
first_clash seen [] = none
first_clash seen (d ∷ defs) = elim (lookup d.client_name seen) [
  | some prev ↦ some (prev, d.fqn)
  | none ↦ first_clash (insert d.client_name d.fqn seen) defs
]

abbrev unless_clash : Option (String × String) → List Def → Option (List Def)
unless_clash none defs = some defs
unless_clash (some clash) defs = none

-- assignClientNames: `none` where two tools would present alike.
unfoldable pub assign_client_names : List Def → Option (List Def)
unfolding name_all first_clash
assign_client_names defs = unless_clash (first_clash [] (name_all defs defs)) (name_all defs defs)
