-- ===== src/Authn/Verify/Stages.antt =====
-- The stages of Verify of internal/authn/verify.go: what each has checked where it passes.
use garmd.Base.{
  ℕ, ◌+◌, ◌*◌, ◌≤◌, ◌≡◌, refl, ap, ◌∙◌, subst, String, Bool, true, false, not, ◌&&◌, Option, none,
  some, List, [], ◌∷◌, arith, str_eq, eq_iff, contains, Bool-cases, inl, inr,
}
use garmd.Base.Result.{ok, err, or_fail, ensure, passed, passed_or_fail, passed_ensure, ok-inj}
use garmd.Policy.{Policy}
use garmd.Principal.{Principal}
use garmd.Authn.{Enums, Claims, outermost}
use garmd.Authn.Fold.{fold}
use garmd.Authn.KeySet.{Found, found, no_such_key, not_refreshed, key}
use garmd.Authn.Parse.{Fields, member, Parsed, parse_claims}
use garmd.Authn.Verify.{
  TrustedIssuer, ConfigError, Verifier, Jose, Checked, is_set, is_empty, first_trusted, trusted_for,
  allowed, begins_after, check_expiry, check_registered, compartments, only_kid, Presented,
  unless_misconfigured, registry_for, configured, presented, key_of, claims_of, accept,
  issuer_not_allowed, not_configured, not_a_token, bad_signature, bad_body, other_issuer,
  other_audience, expired, not_yet_valid, chain_too_deep,
}

-- An entry of the list.
pub data IsOneOf (t : TrustedIssuer) : List TrustedIssuer → Type 0 where
  here : {ts : List TrustedIssuer} → IsOneOf t (t ∷ ts)
  there : {u : TrustedIssuer} {ts : List TrustedIssuer} → IsOneOf t ts → IsOneOf t (u ∷ ts)

first_trusted-IsOneOf :
    (ts : List TrustedIssuer) (iss : String) (t : TrustedIssuer)
    → first_trusted ts iss ≡ some t
    → IsOneOf t ts × (is_set t.key_set ≡ true)
unfolding first_trusted
first_trusted-IsOneOf [] iss t h = absurd (ground arith)
first_trusted-IsOneOf (u ∷ ts) iss t h =
    elim (Bool-cases (str_eq u.issuer iss && is_set u.key_set)) [
      | inl hit ↦
          let same : u ≡ t = ground arith in
          subst (λ x. IsOneOf x (u ∷ ts) × (is_set x.key_set ≡ true)) same (here, ground arith)
      | inr miss ↦ let (at, set) = first_trusted-IsOneOf ts iss t (ground arith) in (there at, set)
    ]

module _ {C R D T B K : Type 0} (pol : Policy C R D) (enums : Enums) (shout : String → String)
    (jose : Jose T B K) (v : Verifier R) where
  trusted_for-IsOneOf :
      (ts : List TrustedIssuer) (iss : Option String) (t : TrustedIssuer)
      → trusted_for ts iss ≡ some t
      → IsOneOf t ts
  unfolding first_trusted
  trusted_for-IsOneOf ts none t h = absurd (ground arith)
  trusted_for-IsOneOf ts (some iss) t h = elim (Bool-cases (str_eq iss "")) [
    | inl blank ↦ absurd (ground arith)
    | inr named ↦ (first_trusted-IsOneOf ts iss t (ground arith)).0
  ]

  only_kid-one : (kids : List String) (kid : String) → only_kid kids ≡ ok kid → kids ≡ kid ∷ []
  only_kid-one [] kid h = absurd (ground arith)
  only_kid-one (k ∷ []) kid h = ground arith
  only_kid-one (k ∷ l ∷ kids) kid h = absurd (ground arith)

  registry_for-compartments :
      (pinned : Option R) (reg : R)
      → registry_for v.cfg pinned ≡ ok reg
      → compartments v.cfg pinned ≡ some reg
  registry_for-compartments pinned reg h =
      let (at, a, e) = passed _ (or_fail (compartments v.cfg pinned) not_configured) h in
      let (done, b, k) =
        passed _
          (ensure (not (is_empty v.cfg.trusted) && not (str_eq v.cfg.audience "")) not_configured)
          a in
      passed_or_fail _ not_configured e ∙ ap some (ok-inj b)

  unless_misconfigured-later :
      (e : Option ConfigError) (later : Checked R) (reg : R)
      → unless_misconfigured e later ≡ ok reg
      → later ≡ ok reg
  unless_misconfigured-later (some e) later reg h = absurd (ground arith)
  unless_misconfigured-later none later reg h = h

  pub record IsPresented (pinned : Option R) (token : T) (q : Presented R B) : Type 0 where
    pub registry : compartments v.cfg pinned ≡ some q.reg
    pub parsed : jose.parse_signed token ≡ some q.signed
    pub one_kid : q.signed.kids ≡ q.kid ∷ []
    pub trusted : IsOneOf q.trusted v.cfg.trusted

  pub presented-IsPresented :
      (pinned : Option R) (token : T) (q : Presented R B)
      → presented pol enums shout jose v pinned token ≡ ok q
      → IsPresented pinned token q
  unfolding presented first_trusted
  presented-IsPresented pinned token q h =
      let (reg, a, er) = passed _ (configured v pinned) h in
      let (signed, b, es) = passed _ (or_fail (jose.parse_signed token) not_a_token) a in
      let (kid, c, ek) = passed _ (only_kid signed.kids) b in
      let (trusted, d, et) =
        passed _
          (or_fail (trusted_for v.cfg.trusted (jose.issuer_of signed.unverified))
            issuer_not_allowed)
          c in
      subst (IsPresented pinned token) (ok-inj d) (record {
        registry =
            registry_for-compartments pinned reg
              (unless_misconfigured-later v.cfg_err (registry_for v.cfg pinned) reg er);
        parsed = passed_or_fail _ not_a_token es;
        one_kid = only_kid-one signed.kids kid ek;
        trusted =
            trusted_for-IsOneOf _ (jose.issuer_of signed.unverified) trusted
              (passed_or_fail _ issuer_not_allowed et);
      })

  checked-expiry :
      (now skew : ℕ) (at : Option ℕ) {done : Unit {0}}
      → check_expiry now skew at ≡ ok done
      → (exp : ℕ) × (at ≡ some exp) × (now ≤ exp * 1000000000 + skew)
  checked-expiry now skew none h = absurd (ground arith)
  checked-expiry now skew (some exp) h =
      let in_time = passed_ensure _ expired h in (exp, refl, ground arith)

  key_of-found : (answer : Found K) (k : K) → key_of answer ≡ ok k → answer ≡ found k
  key_of-found (found key) k h = ap found (ok-inj h)
  key_of-found no_such_key k h = absurd (ground arith)
  key_of-found (not_refreshed why) k h = absurd (ground arith)

  claims_of-parsed : (parsed : Parsed Claims) (c : Claims) → claims_of parsed ≡ ok c → parsed ≡ ok c
  claims_of-parsed (ok claims) c h = ap ok (ok-inj h)
  claims_of-parsed (err e) c h = absurd (ground arith)

  unnegated : {b : Bool} → not b ≡ true → b ≡ false
  unnegated h = ground arith

  -- What is checked once the key set has answered, which it did with a key.
  pub record IsAccepted (now : ℕ) (q : Presented R B) (answer : Found K) (p : Principal C)
      (dropped : List String) : Type 0 where
    pub key : K
    pub payload : B
    pub raw : Fields
    pub claims : Claims
    pub exp : ℕ
    pub served : answer ≡ found key
    pub verified : jose.verify_signature key q.signed ≡ some payload
    pub body : jose.unmarshal payload ≡ some raw
    pub read : parse_claims enums shout raw ≡ ok claims
    pub issued : (outermost claims).issuer ≡ q.trusted.issuer
    pub addressed : contains (outermost claims).audience v.cfg.audience ≡ true
    pub expires : (outermost claims).expires_at ≡ some exp
    pub not_expired : now ≤ exp * 1000000000 + v.cfg.skew
    pub begun : begins_after (now + v.cfg.skew) (member "nbf" raw) ≡ false
    pub folded : fold pol enums q.reg claims ≡ some (p, dropped)

  pub accept-IsAccepted :
      (now : ℕ) (q : Presented R B) (answer : Found K) (p : Principal C) (dropped : List String)
      → accept pol enums shout jose v now q answer ≡ ok (p, dropped)
      → IsAccepted now q answer p dropped
  unfolding accept check_registered parse_claims fold
  accept-IsAccepted now q answer p dropped h =
      let (k, a, ek) = passed _ (key_of answer) h in
      let (payload, b, ep) =
        passed _ (or_fail (jose.verify_signature k q.signed) bad_signature) a in
      let (raw, c, er) = passed _ (or_fail (jose.unmarshal payload) bad_body) b in
      let (claims, d, ec) = passed _ (claims_of (parse_claims enums shout raw)) c in
      let (own, e, ei) =
        passed _ (ensure (str_eq (outermost claims).issuer q.trusted.issuer) other_issuer) d in
      let (registered, f, eg) = passed _ (check_registered v.cfg now (outermost claims) raw) e in
      let (known, g, el) =
        passed _ (ensure (allowed v.cfg.trusted (outermost claims).issuer) issuer_not_allowed) eg in
      let (addressed, i, ea) =
        passed _ (ensure (contains (outermost claims).audience v.cfg.audience) other_audience) g in
      let (in_time, begun, ex) =
        passed _ (check_expiry now v.cfg.skew (outermost claims).expires_at) i in
      let (exp, expires, not_expired) = checked-expiry now v.cfg.skew _ ex in
      let started = passed_ensure _ not_yet_valid begun in
      record {
        key = k;
        payload = payload;
        raw = raw;
        claims = claims;
        exp = exp;
        served = key_of-found answer k ek;
        verified = passed_or_fail _ bad_signature ep;
        body = passed_or_fail _ bad_body er;
        read = claims_of-parsed _ claims ec;
        issued =
            (eq_iff (outermost claims).issuer q.trusted.issuer).0 (passed_ensure _ other_issuer ei);
        addressed = passed_ensure _ other_audience ea;
        expires = expires;
        not_expired = not_expired;
        begun = unnegated started;
        folded = passed_or_fail _ chain_too_deep f;
      }
