-- ===== src/Toolplane/Message.antt =====
-- fieldIsSet of internal/toolplane/core.go, on the messages that it walks.
pub mod Reach
use garmd.Base.{
  ℕ, Bool, true, false, ◌||◌, Option, none, some, List, [], ◌∷◌, ◌++◌, ◌==◌, if◌then◌else◌,
}
use garmd.ToolDef.{Descriptor}

-- A message: its live descriptor, and its populated fields by number (a field that is not set has
-- no entry). The content of a scalar is not read here.
mutual
  pub data Msg : Type 0 where
    msg : Descriptor → Fields → Msg

  pub data Fields : Type 0 where
    no_field : Fields
    field : ℕ → Value → Fields → Fields

  -- A map keeps the messages among its values, in the order of the iteration.
  pub data Value : Type 0 where
    scalar : Value
    message : Msg → Value
    repeated : Msgs → Value
    mapped : Msgs → Value

  pub data Msgs : Type 0 where
    end : Msgs
    and : Msg → Msgs → Msgs

unfoldable pub to_list : Msgs → List Msg
to_list end = []
to_list (and m ms) = m ∷ to_list ms

abbrev pub descriptor : Msg → Descriptor
descriptor (msg d fs) = d

unfoldable pub value_at : ℕ → Fields → Option Value
value_at num no_field = none
value_at num (field n v fs) = if n == num then some v else value_at num fs

-- t.Has(fd), false for a number that the type does not have.
unfoldable pub has_field : ℕ → Msg → Bool
unfolding value_at
has_field num (msg d fs) = elim (value_at num fs) [ none ↦ false | some v ↦ true ]

-- The messages behind a field. A compiled path goes on behind messages only.
abbrev pub messages_in : Option Value → List Msg
messages_in none = []
messages_in (some scalar) = []
messages_in (some (message m)) = m ∷ []
messages_in (some (repeated ms)) = to_list ms
messages_in (some (mapped ms)) = to_list ms

unfoldable pub children : ℕ → Msg → List Msg
unfolding value_at to_list
children num (msg d fs) = messages_in (value_at num fs)

-- One round of the outer loop: from every target to all that the field reaches.
unfoldable pub expand : ℕ → List Msg → List Msg
unfolding children
expand num [] = []
expand num (t ∷ targets) = children num t ++ expand num targets

unfoldable pub any_has : ℕ → List Msg → Bool
unfolding has_field
any_has num [] = false
any_has num (t ∷ targets) = has_field num t || any_has num targets

-- The two loops, with the early return where no target is left.
unfoldable pub walk : List Msg → List ℕ → Bool
unfolding expand any_has
walk targets [] = false
walk targets (num ∷ []) = any_has num targets
walk targets (num ∷ n ∷ path) =
    let next = expand num targets in
    let rest = walk next (n ∷ path) in elim next [ [] ↦ false | t ∷ ts ↦ rest ]

unfoldable pub field_is_set : Msg → List ℕ → Bool
unfolding walk
field_is_set m path = walk (m ∷ []) path
