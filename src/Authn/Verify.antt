-- ===== src/Authn/Verify.antt =====
-- internal/authn/verify.go: a bearer token, verified and folded into a principal.
pub mod Stages
pub mod Trusts
use garmd.Base.{
  ℕ, ◌+◌, ◌*◌, String, Bool, true, false, not, ◌||◌, ◌&&◌, Option, none, some, List, [], ◌∷◌, ◌++◌,
  str_eq, ◌==◌, ltb, if◌then◌else◌, contains, map,
}
use garmd.Base.Result.{Result, ok, err, ◌>>=◌, or_fail, ensure}
use garmd.Policy.{Policy}
use garmd.Principal.{Principal}
use garmd.Authn.{Enums, Level, Claims, outermost}
use garmd.Authn.Fold.{fold}
use garmd.Authn.KeySet.{KeySet, Lookup, Found, found, no_such_key, not_refreshed, Answered, key}
use garmd.Authn.Parse.{Json, number, Fields, member, Parsed, parse_claims}

-- `key_set` is the number of a key set, as a pointer to it; `none` for nil.
pub record TrustedIssuer : Type 0 where
  pub issuer : String
  pub key_set : Option ℕ

-- Durations and the reading of the clock are nanoseconds. A compartment source answers with its
-- registry of the moment, or with none.
pub record Config (R : Type 0) : Type 0 where
  pub trusted : List TrustedIssuer
  pub key_set : Option ℕ
  pub issuers : List String
  pub audience : String
  pub compartments : Option R
  pub source : Option (Option R)
  pub skew : ℕ

pub data ConfigError : Type 0 where
  two_taxonomies two_forms no_issuer no_key_set trusted_twice : ConfigError

pub record Verifier (R : Type 0) : Type 0 where
  pub cfg : Config R
  pub cfg_err : Option ConfigError

abbrev pub default_skew : ℕ
default_skew = 60000000000

abbrev pub is_set : {A : Type 0} → Option A → Bool
is_set none = false
is_set (some a) = true

abbrev pub is_empty : {A : Type 0} → List A → Bool
is_empty [] = true
is_empty (x ∷ xs) = false

-- checkTrusted, over the issuers seen so far.
unfoldable pub check_trusted_from : List String → List TrustedIssuer → Option ConfigError
check_trusted_from seen [] = none
check_trusted_from seen (t ∷ ts) =
    let rest = check_trusted_from (t.issuer ∷ seen) ts in
    if str_eq t.issuer ""
    then some no_issuer
    else if not (is_set t.key_set)
    then some no_key_set
    else if contains seen t.issuer
    then some trusted_twice
    else rest

unfoldable pub check_trusted : List TrustedIssuer → Option ConfigError
unfolding check_trusted_from
check_trusted ts = check_trusted_from [] ts

-- The single-pair form is the trusted form, with one key set for every issuer.
abbrev pub trusted_of : List TrustedIssuer → Option ℕ → List String → List TrustedIssuer
trusted_of [] (some ks) issuers = map (λ iss. record { issuer = iss; key_set = some ks }) issuers
trusted_of [] none issuers = []
trusted_of (t ∷ ts) key_set issuers = t ∷ ts

-- NewVerifier
unfoldable pub new_verifier : {R : Type 0} → Config R → Verifier R
unfolding check_trusted
new_verifier given =
    let cfg = record given {
      trusted = trusted_of given.trusted given.key_set given.issuers;
      skew = if given.skew == 0 then default_skew else given.skew;
    } in
    record {
      cfg = cfg;
      cfg_err =
          if is_set given.compartments && is_set given.source
          then some two_taxonomies
          else if not (is_empty given.trusted)
              && (is_set given.key_set || not (is_empty given.issuers))
          then some two_forms
          else check_trusted cfg.trusted;
    }

-- A parsed JWS: the kid of each signature, and the payload before any verification.
pub record Signed (B : Type 0) : Type 0 where
  pub kids : List String
  pub unverified : B

-- What verify.go calls of go-jose and of encoding/json. `issuer_of` reads `iss` of a payload.
pub record Jose (T B K : Type 0) : Type 0 where
  pub parse_signed : T → Option (Signed B)
  pub verify_signature : K → Signed B → Option B
  pub unmarshal : B → Option Fields
  pub issuer_of : B → Option String
  pub unmarshal_set : List ℕ → Option (List (String × K))

pub data VerifyError : Type 0 where
  misconfigured not_configured not_a_token not_one_signature no_kid issuer_not_allowed : VerifyError
  key_unknown key_unavailable bad_signature bad_body bad_claims other_issuer : VerifyError
  other_audience expired no_exp not_yet_valid chain_too_deep : VerifyError

abbrev pub Checked : Type 0 → Type 0
Checked A = Result VerifyError A

-- The first entry with the issuer and a key set.
unfoldable pub first_trusted : List TrustedIssuer → String → Option TrustedIssuer
first_trusted [] iss = none
first_trusted (t ∷ ts) iss =
    let rest = first_trusted ts iss in
    if str_eq t.issuer iss && is_set t.key_set then some t else rest

-- trustedFor
abbrev pub trusted_for : List TrustedIssuer → Option String → Option TrustedIssuer
unfolding first_trusted
trusted_for ts none = none
trusted_for ts (some iss) = if str_eq iss "" then none else first_trusted ts iss

unfoldable pub allowed : List TrustedIssuer → String → Bool
allowed [] issuer = false
allowed (t ∷ ts) issuer = str_eq t.issuer issuer || allowed ts issuer

-- `nbf` counts where it is a number.
abbrev pub begins_after : ℕ → Option Json → Bool
begins_after now (some (number n)) = ltb now (n * 1000000000)
begins_after now _ = false

abbrev pub check_expiry : ℕ → ℕ → Option ℕ → Checked (Unit {0})
check_expiry now skew none = err no_exp
check_expiry now skew (some exp) = ensure (not (ltb (exp * 1000000000 + skew) now)) expired

-- checkRegistered
unfoldable pub check_registered : {R : Type 0} → Config R → ℕ → Level → Fields → Checked (Unit {0})
unfolding allowed member
check_registered cfg now l raw = ensure (allowed cfg.trusted l.issuer) issuer_not_allowed >>= λ a.
    ensure (contains l.audience cfg.audience) other_audience >>= λ b.
    check_expiry now cfg.skew l.expires_at >>= λ c.
    ensure (not (begins_after (now + cfg.skew) (member "nbf" raw))) not_yet_valid

-- compartments: the registry that the request is pinned to, else the source's, else the fixed one.
abbrev pub source_or : {R : Type 0} → Option (Option R) → Option R → Option R
source_or (some reg) fixed = reg
source_or none fixed = fixed

abbrev pub compartments : {R : Type 0} → Config R → Option R → Option R
compartments cfg none = source_or cfg.source cfg.compartments
compartments cfg (some reg) = some reg

abbrev pub only_kid : List String → Checked String
only_kid (kid ∷ []) = if str_eq kid "" then err no_kid else ok kid
only_kid _ = err not_one_signature

-- What is read of a token before its key is looked up.
pub record Presented (R B : Type 0) : Type 0 where
  pub reg : R
  pub signed : Signed B
  pub kid : String
  pub trusted : TrustedIssuer

abbrev pub unless_misconfigured : {A : Type 0} → Option ConfigError → Checked A → Checked A
unless_misconfigured (some e) later = err misconfigured
unless_misconfigured none later = later

abbrev pub registry_for : {R : Type 0} → Config R → Option R → Checked R
registry_for cfg pinned = or_fail (compartments cfg pinned) not_configured >>= λ reg.
    ensure (not (is_empty cfg.trusted) && not (str_eq cfg.audience "")) not_configured >>= λ a.
    ok reg

abbrev pub configured : {R : Type 0} → Verifier R → Option R → Checked R
configured v pinned = unless_misconfigured v.cfg_err (registry_for v.cfg pinned)

-- Another key set is as it was.
abbrev pub put : {K : Type 0} → (ℕ → KeySet K) → ℕ → KeySet K → ℕ → KeySet K
put sets i ks j = if i == j then ks else sets j

abbrev pub key_of : {K : Type 0} → Found K → Checked K
key_of (found k) = ok k
key_of no_such_key = err key_unknown
key_of (not_refreshed why) = err key_unavailable

abbrev pub claims_of : Parsed Claims → Checked Claims
claims_of (ok c) = ok c
claims_of (err e) = err bad_claims

module _ {C R D T B K : Type 0} (pol : Policy C R D) (enums : Enums) (shout : String → String)
    (jose : Jose T B K) where
  unfoldable pub presented : Verifier R → Option R → T → Checked (Presented R B)
  unfolding first_trusted
  presented v pinned token = configured v pinned >>= λ reg.
      or_fail (jose.parse_signed token) not_a_token >>= λ signed. only_kid signed.kids >>= λ kid.
      or_fail (trusted_for v.cfg.trusted (jose.issuer_of signed.unverified)) issuer_not_allowed
      >>= λ trusted. ok (record { reg = reg; signed = signed; kid = kid; trusted = trusted })

  -- What is decided once the key set has answered.
  unfoldable pub accept :
      Verifier R → ℕ → Presented R B → Found K → Checked (Principal C × List String)
  unfolding parse_claims check_registered fold
  accept v now q answer = key_of answer >>= λ k.
      or_fail (jose.verify_signature k q.signed) bad_signature >>= λ payload.
      or_fail (jose.unmarshal payload) bad_body >>= λ raw.
      claims_of (parse_claims enums shout raw) >>= λ claims.
      ensure (str_eq (outermost claims).issuer q.trusted.issuer) other_issuer >>= λ a.
      check_registered v.cfg now (outermost claims) raw >>= λ b.
      or_fail (fold pol enums q.reg claims) chain_too_deep

  -- The key sets, and the answer of the one that the token's issuer is trusted with.
  abbrev pub ask : (ℕ → KeySet K) → Lookup → String → Option ℕ → Found K × (ℕ → KeySet K)
  unfolding key
  ask sets c kid none = (no_such_key, sets)
  ask sets c kid (some i) =
      let a = key jose.unmarshal_set (sets i) (record c { kid = kid }) in
      (a.answer, put sets i a.next)

  abbrev pub verify_presented :
      Verifier R
      → ℕ
      → (ℕ → KeySet K)
      → Lookup
      → Checked (Presented R B)
      → Checked (Principal C × List String) × (ℕ → KeySet K)
  unfolding accept key
  verify_presented v now sets c (err e) = (err e, sets)
  verify_presented v now sets c (ok q) =
      let asked = ask sets c q.kid q.trusted.key_set in (accept v now q (asked.0), asked.1)

  -- Verify: the principal and the compartments that were dropped, and the key sets then. `c` has the
  -- clock and the endpoint's response of the lookup; the kid is the token's.
  unfoldable pub verify :
      Verifier R
      → Option R
      → ℕ
      → (ℕ → KeySet K)
      → Lookup
      → T
      → Checked (Principal C × List String) × (ℕ → KeySet K)
  unfolding accept key presented
  verify v pinned now sets c token = verify_presented v now sets c (presented v pinned token)
