-- ===== src/Toolplane/Violations.antt =====
-- internal/toolplane/violations.go: the violations of a request that its caller is told.
pub mod Rules
pub mod Refs
pub mod Listed
pub mod Safe
use Prim.Native.String.{◌++◌ as joined}
use text.Mathlib.Text.{find?}
use garmd.Base.{
  ℕ, ◌+◌, String, Bool, true, false, not, ◌&&◌, ◌||◌, Option, none, some, List, [], ◌∷◌, ◌++◌,
  str_eq, map, if◌then◌else◌,
}
use garmd.Base.Decimal.{decimal}
use garmd.Base.Ints.{ℤ, pos, negsuc}
use garmd.Toolplane.Schema.{Pool, Schema}
use garmd.Toolplane.Schema.Path.{admitted_path}

pub data Subscript : Type 0 where
  unsubscripted : Subscript
  index : ℕ → Subscript
  bool_key : Bool → Subscript
  int_key : ℤ → Subscript
  uint_key : ℕ → Subscript
  string_key : String → Subscript

-- validate.FieldPathElement
pub record Element : Type 0 where
  pub field_name : String
  pub field_number : ℕ
  pub subscript : Subscript

-- The value that a violation is on, as far as its text is looked for.
pub data Value : Type 0 where
  invalid : Value
  text_value : String → Value
  bytes_value : String → Value
  other_value : Value

-- protovalidate.Violation, of those that are not nil.
pub record Report : Type 0 where
  pub field : List Element
  pub rule : List Element
  pub rule_id : String
  pub reported : String
  pub value : Value

pub record Violation : Type 0 where
  pub field : String
  pub rule : String
  pub message : String

abbrev pub names_of : List Element → List String
names_of [] = []
names_of (el ∷ path) = el.field_name ∷ names_of path

abbrev pub print_bool : Bool → String
print_bool true = "true"
print_bool false = "false"

abbrev pub print_int : ℤ → String
print_int (pos n) = decimal n
print_int (negsuc n) = joined "-" (decimal (n + 1))

abbrev pub bracketed : String → String
bracketed s = joined "[" (joined s "]")

abbrev pub print_subscript : Subscript → String
print_subscript unsubscripted = ""
print_subscript (index i) = bracketed (decimal i)
print_subscript (bool_key b) = bracketed (print_bool b)
print_subscript (int_key z) = bracketed (print_int z)
print_subscript (uint_key n) = bracketed (decimal n)
print_subscript (string_key k) = "[*]"

abbrev pub print_element : Element → String
print_element el = joined el.field_name (print_subscript el.subscript)

unfoldable pub rest_of_path : List Element → String
rest_of_path [] = ""
rest_of_path (el ∷ path) = joined "." (joined (print_element el) (rest_of_path path))

-- pathString
unfoldable pub path_string : List Element → String
unfolding rest_of_path
path_string [] = ""
path_string (el ∷ path) = joined (print_element el) (rest_of_path path)

abbrev pub includes : String → String → Bool
includes msg val = elim (find? msg val) [ none ↦ false | some at ↦ true ]

abbrev pub value_in : Value → String → Bool
value_in invalid msg = false
value_in (text_value val) msg = not (str_eq val "") && includes msg val
value_in (bytes_value val) msg = not (str_eq val "") && includes msg val
value_in other_value msg = false

-- echoesValue
unfoldable pub echoes_value : Value → String → Bool
echoes_value val msg = not (str_eq msg "") && value_in val msg

unfoldable pub all_admitted : Schema → List String → List (List String) → Bool
unfolding admitted_path
all_admitted s path [] = true
all_admitted s path (ref ∷ refs) = admitted_path s (path ++ ref) && all_admitted s path refs
