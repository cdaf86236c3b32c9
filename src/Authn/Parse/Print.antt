-- ===== src/Authn/Parse/Print.antt =====
-- Claims written as the JSON that ParseClaims of internal/authn/claims.go reads back.
use garmd.Base.{
  ℕ, zero, suc, ◌≡◌, refl, ap, String, Bool, true, false, Option, none, some, List, [], ◌∷◌, arith,
  str_eq, if◌then◌else◌, leb, All,
}
use garmd.Base.Result.{ok, err, ◌>>=◌}
use garmd.Authn.{Enums, GarmClaims, ExecClaim, Level, Claims, direct, acted, depth}
use garmd.Authn.Parse.{
  Json, null, number, quoted, array, object, Items, no_item, item, Fields, no_field, field, member,
  as_time, texts_of, too_deep, normalise_kind, normalise_clearance, exec_of, garm_claims, level_of,
  parse_level, parse_within, parse_claims,
}

abbrev items_of : List String → Items
items_of [] = no_item
items_of (s ∷ ss) = item (quoted s) (items_of ss)

abbrev time_of : Option ℕ → Json
time_of none = null
time_of (some n) = number n

abbrev print_garm : GarmClaims → Fields
print_garm g = field "clearance" (quoted g.clearance) (
    field "compartments" (array (items_of g.compartments)) (
      field "verbs" (array (items_of g.verbs))
        (field "tool_sets" (array (items_of g.tool_sets)) (field "kind" (quoted g.kind) no_field))))

abbrev print_exec : Option ExecClaim → Fields
print_exec none = no_field
print_exec (some e) =
    field "exec" (object (field "sub" (quoted e.subject) (field "iss" (quoted e.issuer) no_field)))
      no_field

abbrev print_level : Level → Json → Fields
print_level l act = field "iss" (quoted l.issuer) (
    field "sub" (quoted l.subject) (
      field "tenant" (quoted l.tenant) (
        field "jti" (quoted l.id) (
          field "aud" (array (items_of l.audience)) (
            field "exp" (time_of l.expires_at) (
              field "iat" (time_of l.issued_at) (
                field "garm" (object (print_garm l.garm))
                  (field "act" act (print_exec l.exec)))))))))

-- A party's own claims, and `act` for the party that acts for it.
unfoldable pub print : Claims → Fields
print (direct l) = print_level l null
print (acted l act) = print_level l (object (print act))

abbrev pub NamesAll : List String → Type 0
NamesAll ss = All (λ s. str_eq s "" ≡ false) ss

abbrev pub NamesSomeone : Option ExecClaim → Type 0
NamesSomeone none = Unit
NamesSomeone (some e) = str_eq e.subject "" ≡ false

module _ (enums : Enums) (shout : String → String) where
  -- The spellings that a parsed level has, and no name that is empty.
  pub record IsSpelled (l : Level) : Type 0 where
    pub clearance : normalise_clearance enums shout l.garm.clearance ≡ ok l.garm.clearance
    pub kind : normalise_kind enums shout l.garm.kind ≡ l.garm.kind
    pub audience : NamesAll l.audience
    pub compartments : NamesAll l.garm.compartments
    pub verbs : NamesAll l.garm.verbs
    pub tool_sets : NamesAll l.garm.tool_sets
    pub exec : NamesSomeone l.exec

  abbrev pub AllSpelled : Claims → Type 0
  AllSpelled (direct l) = IsSpelled l
  AllSpelled (acted l act) = IsSpelled l × AllSpelled act

  texts_of-items_of : (ss : List String) → NamesAll ss → texts_of (items_of ss) ≡ ss
  unfolding texts_of
  texts_of-items_of [] h = refl
  texts_of-items_of (s ∷ ss) (named, rest) = rw named (ap (λ t. s ∷ t) (texts_of-items_of ss rest))

  exec_of-print_level :
      (l : Level) (act : Json) → NamesSomeone l.exec → exec_of (print_level l act) ≡ ok l.exec
  unfolding exec_of member
  exec_of-print_level l act named = go l.exec named
    where
      go :
          (e : Option ExecClaim)
          → NamesSomeone e
          → exec_of (print_level (record l { exec = e }) act) ≡ ok e
      go none h = refl
      go (some e) h = rw h refl

  as_time-time_of : (t : Option ℕ) → as_time (some (time_of t)) ≡ t
  as_time-time_of none = refl
  as_time-time_of (some n) = refl

  level_of-print_level :
      (l : Level) (act : Json)
      → IsSpelled l
      → level_of
          (print_level l act)
          (garm_claims enums shout (print_garm l.garm) l.garm.clearance)
          l.exec
        ≡ l
  unfolding level_of garm_claims
  level_of-print_level l act s =
      rw
        (
          texts_of-items_of l.audience s.audience,
          texts_of-items_of l.garm.compartments s.compartments,
          texts_of-items_of l.garm.verbs s.verbs,
          texts_of-items_of l.garm.tool_sets s.tool_sets,
          as_time-time_of l.expires_at,
          as_time-time_of l.issued_at,
          s.kind,
        )
        refl

  parse_level-print_level :
      (l : Level) (act : Json) → IsSpelled l → parse_level enums shout (print_level l act) ≡ ok l
  unfolding parse_level member
  parse_level-print_level l act s =
      rw s.clearance (rw (exec_of-print_level l act s.exec) (ap ok (level_of-print_level l act s)))

  leb-suc : (a b : ℕ) → leb (suc a) (suc b) ≡ leb a b
  leb-suc a b = ground arith

  bind_if :
      (b : Bool) (l : Level) (act : Claims)
      → ((if b then ok act else err too_deep) >>= λ a. ok (acted l a))
        ≡ (if b then ok (acted l act) else err too_deep)
  bind_if true l act = refl
  bind_if false l act = refl

  parse_within-print :
      (n : ℕ) (c : Claims)
      → AllSpelled c
      → parse_within enums shout n (print c) ≡ (if leb (depth c) n then ok c else err too_deep)
  unfolding parse_within print depth
  parse_within-print zero (direct l) s = refl
  parse_within-print zero (acted l act) s = ground arith
  parse_within-print (suc n) (direct l) s = rw (parse_level-print_level l null s) (ground arith)
  parse_within-print (suc n) (acted l act) (s, rest) =
      rw (parse_level-print_level l (object (print act)) s) (
        rw (parse_within-print n act rest)
          (rw (leb-suc (depth act) n) (bind_if (leb (depth act) n) l act)))

  -- Claims as a parse gives them, printed and parsed, are the same claims up to 16 identities deep, and
  -- are refused where the chain is deeper: no identity is dropped from a chain.
  pub parse_claims-print :
      (c : Claims)
      → AllSpelled c
      → parse_claims enums shout (print c) ≡ (if leb (depth c) 16 then ok c else err too_deep)
  unfolding parse_claims
  parse_claims-print c s = parse_within-print 16 c s
