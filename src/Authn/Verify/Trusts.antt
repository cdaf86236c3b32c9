-- ===== src/Authn/Verify/Trusts.antt =====
-- What a token that Verify of internal/authn/verify.go accepts has been held against.
use garmd.Base.{
  ℕ, ◌+◌, ◌*◌, ◌≤◌, ◌≡◌, refl, ap, ◌∙◌, String, true, false, Option, none, some, List, [], ◌∷◌,
  arith, contains,
}
use garmd.Base.Result.{ok, err}
use garmd.Policy.{Policy}
use garmd.Principal.{Principal}
use garmd.Authn.{Enums, Claims, outermost}
use garmd.Authn.Fold.{fold}
use garmd.Authn.KeySet.{KeySet, Lookup, no_such_key, key}
use garmd.Authn.KeySet.Served.{IsServed, key-IsServed}
use garmd.Authn.Parse.{Fields, member, parse_claims}
use garmd.Authn.Verify.{
  Config, source_or, TrustedIssuer, Verifier, Signed, Jose, Checked, begins_after, compartments,
  Presented, presented, accept, ask, verify_presented, verify,
}
use garmd.Authn.Verify.Stages.{IsOneOf, IsPresented, presented-IsPresented, accept-IsAccepted}

-- The registry is the pinned one; without one, what the source has now; without a source, the fixed
-- one.
pub data IsRegistry {R : Type 0} (cfg : Config R) (pinned : Option R) (reg : R) : Type 0 where
  from_request : pinned ≡ some reg → IsRegistry cfg pinned reg
  from_source : pinned ≡ none → cfg.source ≡ some (some reg) → IsRegistry cfg pinned reg
  from_config :
      pinned ≡ none → cfg.source ≡ none → cfg.compartments ≡ some reg → IsRegistry cfg pinned reg

compartments-IsRegistry :
    {R : Type 0} (cfg : Config R) (pinned : Option R) (reg : R)
    → compartments cfg pinned ≡ some reg
    → IsRegistry cfg pinned reg
compartments-IsRegistry cfg (some r) reg h = from_request h
compartments-IsRegistry {R = R} cfg none reg h = source_or-IsRegistry cfg.source refl h
  where
    source_or-IsRegistry :
        (o : Option (Option R))
        → cfg.source ≡ o
        → source_or o cfg.compartments ≡ some reg
        → IsRegistry cfg none reg
    source_or-IsRegistry none e h = from_config refl e h
    source_or-IsRegistry (some r) e h = from_source refl (e ∙ ap some h)

module _ {C R D T B K : Type 0} (pol : Policy C R D) (enums : Enums) (shout : String → String)
    (jose : Jose T B K) (v : Verifier R) where
  -- The claims are those that a key of the issuer they name has signed, for this audience, now.
  pub record IsTrusted (pinned : Option R) (now : ℕ) (sets : ℕ → KeySet K) (c : Lookup) (token : T)
      (p : Principal C) (dropped : List String) : Type 0 where
    pub signed : Signed B
    pub kid : String
    pub trusted : TrustedIssuer
    pub set : ℕ
    pub key : K
    pub payload : B
    pub raw : Fields
    pub claims : Claims
    pub reg : R
    pub exp : ℕ
    pub parsed : jose.parse_signed token ≡ some signed
    pub one_kid : signed.kids ≡ kid ∷ []
    pub configured : IsOneOf trusted v.cfg.trusted
    pub own_set : trusted.key_set ≡ some set
    pub served :
        (next : KeySet K) × IsServed jose.unmarshal_set (sets set) (record c { kid = kid }) key next
    pub verified : jose.verify_signature key signed ≡ some payload
    pub body : jose.unmarshal payload ≡ some raw
    pub read : parse_claims enums shout raw ≡ ok claims
    pub issued : (outermost claims).issuer ≡ trusted.issuer
    pub addressed : contains (outermost claims).audience v.cfg.audience ≡ true
    pub expires : (outermost claims).expires_at ≡ some exp
    pub not_expired : now ≤ exp * 1000000000 + v.cfg.skew
    pub begun : begins_after (now + v.cfg.skew) (member "nbf" raw) ≡ false
    pub registry : IsRegistry v.cfg pinned reg
    pub folded : fold pol enums reg claims ≡ some (p, dropped)

  from_set :
      (pinned : Option R) (now : ℕ) (sets : ℕ → KeySet K) (c : Lookup) (token : T) (p : Principal C)
      (dropped : List String) (q : Presented R B) (i : Option ℕ)
      → q.trusted.key_set ≡ i
      → IsPresented pol enums shout jose v pinned token q
      → accept pol enums shout jose v now q ((ask pol enums shout jose sets c q.kid i).0)
        ≡ ok (p, dropped)
      → IsTrusted pinned now sets c token p dropped
  unfolding key
  from_set pinned now sets c token p dropped q none at pres h =
      let acc = accept-IsAccepted pol enums shout jose v now q no_such_key p dropped h in
      absurd (ground (arith, acc.served))
  from_set pinned now sets c token p dropped q (some i) at pres h =
      let answered = key jose.unmarshal_set (sets i) (record c { kid = q.kid }) in
      let acc = accept-IsAccepted pol enums shout jose v now q answered.answer p dropped h in
      record {
        signed = q.signed;
        kid = q.kid;
        trusted = q.trusted;
        set = i;
        key = acc.key;
        payload = acc.payload;
        raw = acc.raw;
        claims = acc.claims;
        reg = q.reg;
        exp = acc.exp;
        parsed = pres.parsed;
        one_kid = pres.one_kid;
        configured = pres.trusted;
        own_set = at;
        served = (
          answered.next,
          key-IsServed jose.unmarshal_set (sets i) (record c { kid = q.kid }) acc.key acc.served,
        );
        verified = acc.verified;
        body = acc.body;
        read = acc.read;
        issued = acc.issued;
        addressed = acc.addressed;
        expires = acc.expires;
        not_expired = acc.not_expired;
        begun = acc.begun;
        registry = compartments-IsRegistry v.cfg pinned q.reg pres.registry;
        folded = acc.folded;
      }

  from_presented :
      (pinned : Option R) (now : ℕ) (sets : ℕ → KeySet K) (c : Lookup) (token : T) (p : Principal C)
      (dropped : List String) (r : Checked (Presented R B))
      → presented pol enums shout jose v pinned token ≡ r
      → (verify_presented pol enums shout jose v now sets c r).0 ≡ ok (p, dropped)
      → IsTrusted pinned now sets c token p dropped
  unfolding accept key
  from_presented pinned now sets c token p dropped (err e) at h = absurd (ground arith)
  from_presented pinned now sets c token p dropped (ok q) at h =
      from_set pinned now sets c token p dropped q q.trusted.key_set refl
        (presented-IsPresented pol enums shout jose v pinned token q at) h

  -- A principal that Verify gives is the fold of claims that one key signed: a key that the key set of
  -- a configured issuer serves under the token's kid, where the issuer of the claims is that issuer.
  -- The claims are for this audience, not expired and begun, up to the skew, and are folded against the
  -- registry that the request is pinned to; where there is none, that of the source; and where there is
  -- no source, the configured one.
  pub verify-IsTrusted :
      (pinned : Option R) (now : ℕ) (sets : ℕ → KeySet K) (c : Lookup) (token : T) (p : Principal C)
      (dropped : List String)
      → (verify pol enums shout jose v pinned now sets c token).0 ≡ ok (p, dropped)
      → IsTrusted pinned now sets c token p dropped
  unfolding verify
  verify-IsTrusted pinned now sets c token p dropped h =
      from_presented pinned now sets c token p dropped
        (presented pol enums shout jose v pinned token) refl h
