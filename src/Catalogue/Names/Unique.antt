-- ===== src/Catalogue/Names/Unique.antt =====
-- Client names are unique once they are assigned (internal/catalogue/catalogue.go).
use garmd.Base.{
  ◌≡◌, refl, String, false, none, some, List, [], ◌∷◌, arith, eq_iff, contains, subst, Option-cases,
  inl, inr,
}
use garmd.Base.Dict.{Dict, lookup, insert, lookup-insert}
use garmd.ToolDef.{Def}
use garmd.Catalogue.Names.{first_clash, assign_client_names, name_all}

abbrev pub client_names : List Def → List String
client_names [] = []
client_names (d ∷ defs) = d.client_name ∷ client_names defs

-- No name stands twice in the list.
abbrev pub NoRepeat : List String → Type 0
NoRepeat [] = Unit {0}
NoRepeat (n ∷ names) = (contains names n ≡ false) × NoRepeat names

not-contains-seen :
    (seen : Dict String) (defs : List Def) (n v : String)
    → first_clash seen defs ≡ none
    → lookup n seen ≡ some v
    → contains (client_names defs) n ≡ false
unfolding first_clash
not-contains-seen seen [] n v h e = refl
not-contains-seen seen (d ∷ defs) n v h e = ground (
  arith,
  eq_iff d.client_name n,
  lookup-insert d.client_name n d.fqn seen,
  not-contains-seen (insert d.client_name d.fqn seen) defs n v,
)

first_clash-NoRepeat :
    (seen : Dict String) (defs : List Def)
    → first_clash seen defs ≡ none
    → NoRepeat (client_names defs)
unfolding first_clash
first_clash-NoRepeat seen [] h = tt
first_clash-NoRepeat seen (d ∷ defs) h =
    let rest : first_clash (insert d.client_name d.fqn seen) defs ≡ none = ground arith in
    (
      not-contains-seen (insert d.client_name d.fqn seen) defs d.client_name d.fqn rest (
          ground (
            arith,
            eq_iff d.client_name d.client_name,
            lookup-insert d.client_name d.client_name d.fqn seen,
          )),
      first_clash-NoRepeat (insert d.client_name d.fqn seen) defs rest,
    )

-- When names are assigned, no two tools of the catalogue present under one name.
pub assign_client_names-NoRepeat :
    (defs named : List Def) → assign_client_names defs ≡ some named → NoRepeat (client_names named)
unfolding assign_client_names
assign_client_names-NoRepeat defs named h =
    elim (Option-cases (first_clash [] (name_all defs defs))) [
      | inl fine ↦
          subst (λ ds. NoRepeat (client_names ds)) (ground arith)
            (first_clash-NoRepeat [] (name_all defs defs) fine)
      | inr (x, clash) ↦ absurd (ground arith)
    ]
