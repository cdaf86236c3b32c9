-- ===== src/Grants/Signed.antt =====
-- What a grant's token and its material were held against (internal/grants/verify.go and claims.go).
use garmd.Base.{
  eq_iff, ℕ, String, ◌≡◌, refl, ap, ◌∙◌, ◌≢◌, true, inl, inr, Option, none, some, List, [], ◌∷◌,
  arith, str_eq, Bool-cases, Option-cases,
}
use garmd.Grants.{
  KeyAnswer, found, no_such_key, unread, keyed, parsed, compare_material, Claims, Outside, Verifier,
  parse, check_material,
}

module _ {T K G M : Type 0} (out : Outside T K G M) (v : Verifier) (now : ℕ) where
  -- The grant carries the material that the request has now, where the tool names fields.
  pub data BindsMaterial (c : Claims G) (fields : List String) (req : Option M) : Type 0 where
    binds_none : fields ≡ [] → BindsMaterial c fields req
    binds :
        (m : M) (values : List String)
        → req ≡ some m
        → out.materialise m fields ≡ some values
        → out.same_material c.rest values ≡ true
        → BindsMaterial c fields req

  compared :
      (c : Claims G) (fields : List String) (m : M) (o : Option (List String))
      → out.materialise m fields ≡ o
      → compare_material out v now c o ≡ none
      → BindsMaterial c fields (some m)
  compared c fields m none e h = absurd (ground arith)
  compared c fields m (some values) e h = binds m values refl e (ground arith)

  pub check_material-BindsMaterial :
      (c : Claims G) (fields : List String) (req : Option M)
      → check_material out v now c fields req ≡ none
      → BindsMaterial c fields req
  check_material-BindsMaterial c [] req h = binds_none refl
  check_material-BindsMaterial c (f ∷ fields) none h = absurd (ground arith)
  check_material-BindsMaterial c (f ∷ fields) (some m) h =
      compared c (f ∷ fields) m (out.materialise m (f ∷ fields)) refl h

  -- The token is signed once, by the key that it names, and these are its claims.
  pub record IsSigned (raw : String) (c : Claims G) : Type 0 where
    pub token : T
    pub a_key : K
    pub is_token : out.parse_signed raw ≡ some token
    pub one_signature : out.signatures token ≡ 1
    pub names_key : out.kid token ≢ ""
    pub has_key : out.key (out.kid token) ≡ found a_key
    pub signed : out.verify token a_key ≡ some c

  keyed-IsSigned :
      (raw : String) (t : T) (c : Claims G) (a : KeyAnswer K)
      → out.parse_signed raw ≡ some t
      → out.signatures t ≡ 1
      → out.kid t ≢ ""
      → out.key (out.kid t) ≡ a
      → keyed out v now t a ≡ inr c
      → IsSigned raw c
  keyed-IsSigned raw t c no_such_key e one named at h = absurd (ground arith)
  keyed-IsSigned raw t c unread e one named at h = absurd (ground arith)
  keyed-IsSigned raw t c (found k) e one named at h = elim (Option-cases (out.verify t k)) [
    | inl bad ↦ absurd (ground (arith, rw (bad, keyed) at h))
    | inr (d, good) ↦
        let same : d ≡ c = ground (arith, rw (good, keyed) at h) in
        record {
          token = t;
          a_key = k;
          is_token = e;
          one_signature = one;
          names_key = named;
          has_key = at;
          signed = good ∙ ap some same;
        }
  ]

  pub parse-IsSigned : (raw : String) (c : Claims G) → parse out v now raw ≡ inr c → IsSigned raw c
  unfolding parse
  parse-IsSigned raw c h = elim (Option-cases (out.parse_signed raw)) [
    | inl bad ↦ absurd (ground (arith, rw bad at h))
    | inr (t, good) ↦
        let read : parsed out v now (some t) ≡ inr c = rw good at h in
        elim (Bool-cases (str_eq (out.kid t) "")) [
          | inl blank ↦ absurd (ground arith)
          | inr named ↦
              keyed-IsSigned raw t c (out.key (out.kid t)) good (ground arith)
                (λ e. absurd (ground (arith, (eq_iff (out.kid t) "").1 e))) refl (ground arith)
        ]
  ]
