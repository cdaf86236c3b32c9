-- ===== src/ToolDef/Same.antt =====
-- sameDeclarationAs of internal/toolplane/tooldef.go: when a second declaration is the first again.
use garmd.Base.{
  ◌≡◌, refl, String, Bool, true, false, ◌&&◌, Option, none, some, List, [], ◌∷◌, arith, length,
  str_eq, eq_iff, eq_refl, ◌==◌,
}
use garmd.Base.Dict.{Dict, lookup}
use garmd.ToolDef.{Def, Descriptor}

-- slices.Equal
unfoldable pub slices_equal : List String → List String → Bool
slices_equal [] [] = true
slices_equal (a ∷ xs) (b ∷ ys) = str_eq a b && slices_equal xs ys
slices_equal _ _ = false

abbrev pub value_is : String → Option String → Bool
value_is v none = false
value_is v (some w) = str_eq v w

abbrev pub keys_agree : Dict String → Dict String → Bool
keys_agree [] n = true
keys_agree ((k, v) ∷ m) n = value_is v (lookup k n) && keys_agree m n

-- maps.Equal: as many keys, and each key of the first with its value in the second.
unfoldable pub maps_equal : Dict String → Dict String → Bool
maps_equal m n = length m == length n && keys_agree m n

-- The full name of a descriptor, empty for nil.
abbrev pub md_name : Option Descriptor → String
md_name none = ""
md_name (some d) = d.full_name

abbrev pub bool_eq : Bool → Bool → Bool
bool_eq true b = b
bool_eq false true = false
bool_eq false false = true

same_identity : Def → Def → Bool
same_identity t o =
    str_eq t.full_method o.full_method
    && str_eq t.name o.name
    && str_eq t.fqn o.fqn
    && str_eq t.title o.title
    && str_eq t.description o.description

same_access : Def → Def → Bool
unfolding slices_equal
same_access t o =
    t.verb == o.verb
    && t.min_clearance == o.min_clearance
    && slices_equal t.compartments o.compartments
    && slices_equal t.sets o.sets
    && slices_equal t.audience o.audience
    && str_eq (md_name t.input) (md_name o.input)
    && str_eq (md_name t.output) (md_name o.output)

same_approval : Def → Def → Bool
unfolding slices_equal
same_approval t o =
    t.approval_mode == o.approval_mode
    && t.approver_min_clearance == o.approver_min_clearance
    && slices_equal t.approver_compartments o.approver_compartments
    && t.max_grant_age == o.max_grant_age
    && slices_equal t.material_fields o.material_fields

same_audit : Def → Def → Bool
same_audit t o =
    t.audit_level == o.audit_level
    && bool_eq t.audit_record_request o.audit_record_request
    && bool_eq t.audit_record_response o.audit_record_response
    && t.audit_retain_days == o.audit_retain_days
    && bool_eq t.audit_fail_closed o.audit_fail_closed

same_effects : Def → Def → Bool
unfolding maps_equal
same_effects t o =
    bool_eq t.has_authorization o.has_authorization
    && bool_eq t.idempotent o.idempotent
    && t.reversibility == o.reversibility
    && bool_eq t.external o.external
    && str_eq t.when_to_use o.when_to_use
    && str_eq t.when_not_to_use o.when_not_to_use
    && str_eq t.on_error o.on_error
    && maps_equal t.field_docs o.field_docs

-- The comparison, its conjuncts grouped by the block of the declaration that they belong to.
unfoldable pub same_declaration_as : Def → Def → Bool
unfolding same_identity same_access same_approval same_audit same_effects
same_declaration_as t o =
    same_identity t o && same_access t o && same_approval t o && same_audit t o && same_effects t o

-- What two declarations that compare equal must share: the route, what step 2 reads, and the
-- supervision that a mount check reads.
pub record SameGate (t o : Def) : Type 0 where
  pub full_method : t.full_method ≡ o.full_method
  pub verb : t.verb ≡ o.verb
  pub min_clearance : t.min_clearance ≡ o.min_clearance
  pub compartments : t.compartments ≡ o.compartments
  pub sets : t.sets ≡ o.sets
  pub approval_mode : t.approval_mode ≡ o.approval_mode
  pub audit_level : t.audit_level ≡ o.audit_level
  pub audit_fail_closed : t.audit_fail_closed ≡ o.audit_fail_closed
  pub has_authorization : t.has_authorization ≡ o.has_authorization

pub slices_equal→eq : (xs ys : List String) → slices_equal xs ys ≡ true → xs ≡ ys
unfolding slices_equal
slices_equal→eq [] [] h = refl
slices_equal→eq [] (y ∷ ys) h = ground arith
slices_equal→eq (x ∷ xs) [] h = ground arith
slices_equal→eq (x ∷ xs) (y ∷ ys) h = ground (arith, eq_iff x y, slices_equal→eq xs ys)

pub slices_equal_refl : (xs : List String) → slices_equal xs xs ≡ true
unfolding slices_equal
slices_equal_refl [] = refl
slices_equal_refl (x ∷ xs) = ground (arith, eq_refl x, slices_equal_refl xs)

same_identity→ : (t o : Def) → same_identity t o ≡ true → t.full_method ≡ o.full_method
unfolding same_identity
same_identity→ t o h = ground (arith, eq_iff t.full_method o.full_method)

same_access→ :
    (t o : Def)
    → same_access t o ≡ true
    → (t.verb ≡ o.verb)
      × (t.min_clearance ≡ o.min_clearance)
      × (t.compartments ≡ o.compartments)
      × (t.sets ≡ o.sets)
unfolding same_access
same_access→ t o h =
    ground (arith, slices_equal→eq t.compartments o.compartments, slices_equal→eq t.sets o.sets)

same_approval→ : (t o : Def) → same_approval t o ≡ true → t.approval_mode ≡ o.approval_mode
unfolding same_approval
same_approval→ t o h = ground arith

same_audit→ :
    (t o : Def)
    → same_audit t o ≡ true
    → (t.audit_level ≡ o.audit_level) × (t.audit_fail_closed ≡ o.audit_fail_closed)
unfolding same_audit
same_audit→ t o h = ground arith

same_effects→ : (t o : Def) → same_effects t o ≡ true → t.has_authorization ≡ o.has_authorization
unfolding same_effects
same_effects→ t o h = ground arith

-- Declarations that compare equal are equal in all that gates a call.
pub same_declaration_as→SameGate : (t o : Def) → same_declaration_as t o ≡ true → SameGate t o
unfolding same_declaration_as
same_declaration_as→SameGate t o h =
    let p : same_identity t o ≡ true = ground arith in
    let q : same_access t o ≡ true = ground arith in
    let r : same_approval t o ≡ true = ground arith in
    let u : same_audit t o ≡ true = ground arith in
    let w : same_effects t o ≡ true = ground arith in
    ground (
      arith,
      same_identity→ t o p,
      same_access→ t o q,
      same_approval→ t o r,
      same_audit→ t o u,
      same_effects→ t o w,
    )
