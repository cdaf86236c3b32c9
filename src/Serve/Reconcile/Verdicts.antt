-- ===== src/Serve/Reconcile/Verdicts.antt =====
-- Which packages are quarantined after a sweep (internal/serve/reconcile.go).
use garmd.Base.{
  ◌≡◌, refl, sym, ap, ◌∙◌, subst, String, Bool, true, false, not, ◌&&◌, ◌||◌, Option, none, some,
  List, [], ◌∷◌, arith, str_eq, eq_iff, if◌then◌else◌, contains, Bool-cases, inl, inr,
}
use garmd.Base.Dict.{Dict, lookup, insert, lookup-insert, has_key}
use garmd.Serve.Reconcile.{
  Service, Round, complete, Why, Reconciler, Current, Heard, hash_of, verdict, put_verdict,
  hear_pkg, hear_subjects, hear, keep_unanswered, packages, heard_in, sweep,
}

has_key-insert :
    {V : Type 0} (k j : String) (v : V) (m : Dict V)
    → has_key j (insert k v m) ≡ (str_eq k j || has_key j m)
has_key-insert k j v m = ground (arith, lookup-insert k j v m)

-- The service shows that it implements a contract: it advertises the hash that the catalogue has, and
-- there is one.
abbrev pub shows : String → Service → Bool
shows want svc = not (str_eq want "") && str_eq svc.identity want

abbrev is_why : Option Why → Bool
is_why none = false
is_why (some why) = true

is_why-verdict :
    (want pkg : String) (svc : Service) → is_why (verdict want pkg svc) ≡ not (shows want svc)
unfolding verdict
is_why-verdict want pkg svc = elim (Bool-cases (str_eq svc.identity want)) [
  | inl shown ↦
      let same : str_eq svc.identity "" ≡ str_eq want "" =
        ap (λ x. str_eq x "") ((eq_iff svc.identity want).0 shown) in
      ground (arith, same)
  | inr apart ↦ ground arith
]

-- The service serves the package by one of these subjects, and does not show that it implements it.
abbrev pub names_pkg : String → Option String → Bool
names_pkg pkg none = false
names_pkg pkg (some other) = str_eq other pkg

abbrev pub serves : Dict String → String → List String → Bool
serves pkg_of pkg [] = false
serves pkg_of pkg (s ∷ ss) = names_pkg pkg (lookup s pkg_of) || serves pkg_of pkg ss

module _ (cat : Current) (pkg_of : Dict String) (pkg : String) where
  unfoldable pub contradicts : Service → Bool
  contradicts svc =
      serves pkg_of pkg svc.subjects && not (shows (hash_of (lookup pkg cat.descriptor_hashes)) svc)

  abbrev pub any_contradicts : List Service → Bool
  unfolding contradicts
  any_contradicts [] = false
  any_contradicts (svc ∷ svcs) = contradicts svc || any_contradicts svcs

  put_verdict-has_key :
      (other : String) (o : Option Why) (bad : Dict Why)
      → has_key pkg (put_verdict other o bad) ≡ (str_eq other pkg && is_why o || has_key pkg bad)
  put_verdict-has_key other none bad = ground arith
  put_verdict-has_key other (some why) bad = ground (arith, has_key-insert other pkg why bad)

  abbrev fails : Service → Bool
  unfolding verdict
  fails svc = is_why (verdict (hash_of (lookup pkg cat.descriptor_hashes)) pkg svc)

  hear_pkg-has_key :
      (svc : Service) (o : Option String) (st : Heard)
      → has_key pkg (hear_pkg cat svc o st).bad
        ≡ (names_pkg pkg o && fails svc || has_key pkg st.bad)
  unfolding verdict
  hear_pkg-has_key svc none st = refl
  hear_pkg-has_key svc (some other) st =
      put_verdict-has_key other (verdict (hash_of (lookup other cat.descriptor_hashes)) other svc)
        st.bad
      ∙ elim (Bool-cases (str_eq other pkg)) [
        | inl same ↦
            ap
              (λ x.
                (str_eq other pkg
                  && is_why (verdict (hash_of (lookup x cat.descriptor_hashes)) x svc))
                || has_key pkg st.bad)
              ((eq_iff other pkg).0 same)
        | inr other_pkg ↦ rw other_pkg refl
      ]

  hear_subjects-has_key :
      (svc : Service) (ss : List String) (st : Heard)
      → has_key pkg (hear_subjects cat pkg_of svc ss st).bad
        ≡ (serves pkg_of pkg ss && fails svc || has_key pkg st.bad)
  unfolding hear_subjects verdict
  hear_subjects-has_key svc [] st = refl
  hear_subjects-has_key svc (s ∷ ss) st =
      hear_subjects-has_key svc ss (hear_pkg cat svc (lookup s pkg_of) st)
      ∙ ground (arith, hear_pkg-has_key svc (lookup s pkg_of) st)

  fails-shows :
      (svc : Service) → fails svc ≡ not (shows (hash_of (lookup pkg cat.descriptor_hashes)) svc)
  unfolding verdict
  fails-shows svc = is_why-verdict (hash_of (lookup pkg cat.descriptor_hashes)) pkg svc

  hear-has_key :
      (svcs : List Service) (st : Heard)
      → has_key pkg (hear cat pkg_of svcs st).bad ≡ (any_contradicts svcs || has_key pkg st.bad)
  unfolding hear contradicts
  hear-has_key [] st = refl
  hear-has_key (svc ∷ svcs) st =
      hear-has_key svcs (hear_subjects cat pkg_of svc svc.subjects st)
      ∙ ground (arith, hear_subjects-has_key svc svc.subjects st, fails-shows svc)

-- The service that is heard last among those that serve the package.
abbrev pub last_serving : Dict String → String → List Service → Option String → Option String
last_serving pkg_of pkg [] earlier = earlier
last_serving pkg_of pkg (svc ∷ svcs) earlier =
    last_serving pkg_of pkg svcs (if serves pkg_of pkg svc.subjects then some svc.name else earlier)

module _ (cat : Current) (pkg_of : Dict String) (pkg : String) where
  hear_pkg-service :
      (svc : Service) (o : Option String) (st : Heard)
      → lookup pkg (hear_pkg cat svc o st).service
        ≡ (if names_pkg pkg o then some svc.name else lookup pkg st.service)
  unfolding verdict
  hear_pkg-service svc none st = refl
  hear_pkg-service svc (some other) st = lookup-insert other pkg svc.name st.service

  hear_subjects-service :
      (svc : Service) (ss : List String) (st : Heard)
      → lookup pkg (hear_subjects cat pkg_of svc ss st).service
        ≡ (if serves pkg_of pkg ss then some svc.name else lookup pkg st.service)
  unfolding hear_subjects verdict
  hear_subjects-service svc [] st = refl
  hear_subjects-service svc (s ∷ ss) st =
      hear_subjects-service svc ss (hear_pkg cat svc (lookup s pkg_of) st)
      ∙ ground (arith, hear_pkg-service svc (lookup s pkg_of) st)

  hear-service :
      (svcs : List Service) (st : Heard)
      → lookup pkg (hear cat pkg_of svcs st).service
        ≡ last_serving pkg_of pkg svcs (lookup pkg st.service)
  unfolding hear
  hear-service [] st = refl
  hear-service (svc ∷ svcs) st =
      hear-service svcs (hear_subjects cat pkg_of svc svc.subjects st)
      ∙ ap (last_serving pkg_of pkg svcs) (hear_subjects-service svc svc.subjects st)

or_false : (b : Bool) → b ≡ (b || false)
or_false true = refl
or_false false = refl

has_key-cons :
    (pkg other : String) (why : Why) (prev : Dict Why)
    → has_key pkg ((other, why) ∷ prev) ≡ (str_eq other pkg || has_key pkg prev)
unfolding lookup
has_key-cons pkg other why prev = ground arith

merged :
    (a b h c stays : Bool)
    → (b ≡ true → stays ≡ c)
    → ((a || (b && stays)) || (h && c)) ≡ (a || ((b || h) && c))
merged a true h c stays same = rw (same refl) (ground arith)
merged a false h c stays same = ground arith

abbrev kept : String → Why → Bool → Dict Why → Dict Why
kept other why stays bad =
    if has_key other bad then bad else if stays then insert other why bad else bad

kept-has_key :
    (pkg other : String) (why : Why) (stays : Bool) (bad : Dict Why)
    → has_key pkg (kept other why stays bad) ≡ (has_key pkg bad || (str_eq other pkg && stays))
kept-has_key pkg other why stays bad = elim (Bool-cases (has_key other bad)) [
  | inl known ↦ rw known (elim (Bool-cases (str_eq other pkg)) [
    | inl same ↦
        let there : has_key pkg bad ≡ true =
          subst (λ x. has_key x bad ≡ true) ((eq_iff other pkg).0 same) known in
        rw there refl
    | inr apart ↦ rw apart (or_false (has_key pkg bad))
  ])
  | inr new ↦ rw new (go stays)
]
  where
    go :
        (b : Bool)
        → has_key pkg (if b then insert other why bad else bad)
          ≡ (has_key pkg bad || (str_eq other pkg && b))
    go false = ground arith
    go true = has_key-insert other pkg why bad ∙ ground arith

keep_unanswered-has_key :
    (round : Round) (service : Dict String) (pkg : String) (prev bad : Dict Why)
    → has_key pkg (keep_unanswered round service prev bad) ≡ (
        has_key pkg bad
        || (has_key pkg prev && not (complete round (hash_of (lookup pkg service)))))
unfolding keep_unanswered lookup
keep_unanswered-has_key round service pkg [] bad = or_false (has_key pkg bad)
keep_unanswered-has_key round service pkg ((other, why) ∷ prev) bad =
    let stays = not (complete round (hash_of (lookup other service))) in
    keep_unanswered-has_key round service pkg prev (kept other why stays bad)
    ∙ ap (λ b. b || (has_key pkg prev && not (complete round (hash_of (lookup pkg service)))))
        (kept-has_key pkg other why stays bad)
    ∙ merged (has_key pkg bad) (str_eq other pkg) (has_key pkg prev) _ stays (λ same.
      ap (λ x. not (complete round (hash_of (lookup x service)))) ((eq_iff other pkg).0 same))
    ∙ ap (λ b. has_key pkg bad || (b && not (complete round (hash_of (lookup pkg service)))))
        (sym (has_key-cons pkg other why prev))

-- The enumeration or the round of this service was cut short.
abbrev pub is_short : Round → String → Bool
is_short round name = round.cut_short || contains round.partial name

not-complete : (round : Round) (name : String) → not (complete round name) ≡ is_short round name
not-complete round name = ground arith

-- A package is quarantined after a sweep that was answered exactly where some service that was heard
-- serves it without showing that it implements the catalogue's contract, or where it was quarantined
-- before and the round was cut short, in whole or for the service that was last heard to serve it.
pub sweep-quarantines :
    (subject_of : String → String) (cat : Current) (round : Round) (r : Reconciler) (pkg : String)
    → has_key pkg (sweep subject_of (some cat) (some round) r).quarantined ≡ (
        any_contradicts cat (packages subject_of cat.defs []) pkg round.services
        || (has_key pkg r.quarantined
            && is_short round
                (hash_of (last_serving (packages subject_of cat.defs []) pkg round.services none))))
unfolding sweep heard_in lookup
sweep-quarantines subject_of cat round r pkg =
    let h = heard_in subject_of cat round in
    keep_unanswered-has_key round h.service pkg r.quarantined h.bad
    ∙ ap
        (λ b.
          b || (has_key pkg r.quarantined && not (complete round (hash_of (lookup pkg h.service)))))
        (hear-has_key cat (packages subject_of cat.defs []) pkg round.services
            (record { bad = []; seen = []; service = [] })
          ∙ sym
              (or_false (any_contradicts cat (packages subject_of cat.defs []) pkg round.services)))
    ∙ ap
        (λ b.
          any_contradicts cat (packages subject_of cat.defs []) pkg round.services
          || (has_key pkg r.quarantined && b))
        (not-complete round (hash_of (lookup pkg h.service))
          ∙ ap (λ o. is_short round (hash_of o))
              (hear-service cat (packages subject_of cat.defs []) pkg round.services
                (record { bad = []; seen = []; service = [] })))
