-- ===== src/Toolplane/Violations/Refs.antt =====
-- celFieldRefs and selectChain of internal/toolplane/violations.go: the fields that a rule's expression reads.
use mathlib.Core.List.{append-nil, append_assoc}
use garmd.Base.{
  ◌≡◌, refl, sym, ap, ◌∙◌, String, Bool, true, false, ◌||◌, Option, none, some, List, [], ◌∷◌, ◌++◌,
  str_eq, if◌then◌else◌, Bool-cases, inl, inr, arith, some-injective,
}

-- A parsed expression. A call, a list, a map, a struct or a literal is its parts in the order in which
-- they are visited.
mutual
  pub data Expr : Type 0 where
    ident : String → Expr
    select : Expr → String → Expr
    comprehension : Exprs → Expr
    composite : Exprs → Expr

  pub data Exprs : Type 0 where
    no_part : Exprs
    part : Expr → Exprs → Exprs

-- What the visitor has gathered.
pub record Visit : Type 0 where
  pub refs : List (List String)
  pub all_read : Bool

-- selectChain: the names after the ones in hand, and the root, "" where there is none.
unfoldable pub chain_onto : List String → Expr → List String × String
chain_onto names (ident root) = (names, root)
chain_onto names (select operand field) = chain_onto (field ∷ names) operand
chain_onto names (comprehension parts) = ([], "")
chain_onto names (composite parts) = ([], "")

abbrev pub is_bound : String → Bool
is_bound name = str_eq name "this" || str_eq name "rules" || str_eq name "rule" || str_eq name "now"

abbrev pub fail : Visit → Visit
fail v = record v { all_read = false }

abbrev pub gather : List String → String → Visit → Visit
gather chain root v =
    if str_eq root "this"
    then record v { refs = v.refs ++ (chain ∷ []) }
    else if is_bound root
    then v
    else fail v

unfoldable mutual
  unfolding chain_onto

  pub visit : Expr → Visit → Visit
  visit (ident name) v = if is_bound name then v else fail v
  visit (select operand field) v =
      let (chain, root) = chain_onto [] (select operand field) in
      visit operand (gather chain root v)
  visit (comprehension parts) v = visit_all parts (fail v)
  visit (composite parts) v = visit_all parts v

  pub visit_all : Exprs → Visit → Visit
  visit_all no_part v = v
  visit_all (part e es) v = visit_all es (visit e v)

abbrev pub read_in_full : Visit → Option (List (List String))
read_in_full v = if v.all_read then some v.refs else none

-- celFieldRefs, the expression being parsed by the CEL environment; `none` for !ok.
unfoldable pub cel_field_refs : Option Expr → Option (List (List String))
unfolding visit
cel_field_refs none = none
cel_field_refs (some e) = read_in_full (visit e (record { refs = []; all_read = true }))

read_in_full-some :
    (v : Visit) (refs : List (List String)) → read_in_full v ≡ some refs → refs ≡ v.refs
read_in_full-some v refs got = elim (Bool-cases v.all_read) [
  | inl full ↦ some-injective _ _ (sym (rw full at got))
  | inr cut ↦ absurd (ground (arith, rw cut at got))
]

-- The paths that an expression selects off `this`.
unfoldable mutual
  unfolding chain_onto

  pub reads : Expr → List (List String)
  reads (ident name) = []
  reads (select operand field) =
      let (chain, root) = chain_onto [] (select operand field) in
      (if str_eq root "this" then chain ∷ [] else []) ++ reads operand
  reads (comprehension parts) = reads_all parts
  reads (composite parts) = reads_all parts

  pub reads_all : Exprs → List (List String)
  reads_all no_part = []
  reads_all (part e es) = reads e ++ reads_all es

refs-fail : (b : Bool) (v : Visit) → (if b then v else fail v).refs ≡ v.refs
refs-fail true v = refl
refs-fail false v = refl

refs-gather :
    (chain : List String) (root : String) (v : Visit)
    → (gather chain root v).refs ≡ v.refs ++ (if str_eq root "this" then chain ∷ [] else [])
refs-gather chain root v = elim (Bool-cases (str_eq root "this")) [
  | inl this ↦ rw this refl
  | inr other ↦ rw other (refs-fail _ v ∙ sym (append-nil v.refs))
]

-- The visitor gathers what the expression reads, whether or not it can account for the rest.
mutual
  unfolding chain_onto visit reads

  refs-visit : (e : Expr) (v : Visit) → (visit e v).refs ≡ v.refs ++ reads e
  refs-visit (ident name) v = refs-fail (is_bound name) v ∙ sym (append-nil v.refs)
  refs-visit (select operand field) v =
      let (chain, root) = chain_onto [] (select operand field) in
      refs-visit operand (gather chain root v)
      ∙ ap (λ l. l ++ reads operand) (refs-gather chain root v)
      ∙ append_assoc v.refs _ (reads operand)
  refs-visit (comprehension parts) v = refs-visit_all parts (fail v)
  refs-visit (composite parts) v = refs-visit_all parts v

  refs-visit_all : (es : Exprs) (v : Visit) → (visit_all es v).refs ≡ v.refs ++ reads_all es
  refs-visit_all no_part v = sym (append-nil v.refs)
  refs-visit_all (part e es) v =
      refs-visit_all es (visit e v)
      ∙ ap (λ l. l ++ reads_all es) (refs-visit e v)
      ∙ append_assoc v.refs (reads e) (reads_all es)

-- The fields of an expression that is accounted for are those that it reads.
pub cel_field_refs-reads :
    (e : Expr) (refs : List (List String)) → cel_field_refs (some e) ≡ some refs → refs ≡ reads e
unfolding cel_field_refs visit reads
cel_field_refs-reads e refs got =
    read_in_full-some (visit e (record { refs = []; all_read = true })) refs got
    ∙ refs-visit e (record { refs = []; all_read = true })
