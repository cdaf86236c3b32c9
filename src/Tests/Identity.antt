-- ===== src/Tests/Identity.antt =====
-- A signed token, its key set, and its claims as JSON.
use garmd.Base.{
  ℕ, ◌+◌, ◌*◌, ◌≤◌, ◌≡◌, refl, String, Bool, true, false, Option, none, some, List, [], ◌∷◌, arith,
  str_eq, if◌then◌else◌, leb,
}
use garmd.Base.Dict.{Dict, lookup}
use garmd.Base.Result.{ok, err}
use garmd.Principal.{Principal, new_verb_set}
use garmd.Authn.{Enums, Claims, direct, acted, Level, depth}
use garmd.Authn.Fold.{fold}
use garmd.Authn.KeySet.{KeySet, Lookup, found, key, fetch, done}
use garmd.Authn.KeySet.Served.{IsServed, key-IsServed}
use garmd.Authn.KeySet.Traffic.{run, StaysFresh, run-cooldown}
use garmd.Authn.Parse.{Fields, parse_claims, too_deep}
use garmd.Authn.Parse.Print.{print, AllSpelled, parse_claims-print}
use garmd.Authn.Verify.{Config, Jose, new_verifier, verify}
use garmd.Authn.Verify.Trusts.{IsTrusted, verify-IsTrusted}
use garmd.Tests.Toy.{toy}

abbrev enums : Enums
enums = record { clearance_value = λ n. some 3; verb_value = λ n. some 3; kind_value = λ n. some 1 }

-- The spellings of these tests are upper-case already.
abbrev shout : String → String
shout s = s

abbrev level : String → Level
level subject = record {
  issuer = "idp";
  subject = subject;
  tenant = "acme";
  id = "t1";
  audience = "garmd" ∷ [];
  expires_at = some 100;
  issued_at = some 0;
  garm = record {
    clearance = "CLEARANCE_SECRET";
    compartments = "finance" ∷ [];
    verbs = "WRITE" ∷ [];
    tool_sets = "payments" ∷ [];
    kind = "PRINCIPAL_KIND_AGENT";
  };
  exec = none;
}

abbrev token : Claims
token = acted (level "alice") (direct (level "agent"))

token-AllSpelled : AllSpelled enums shout token
unfolding garmd.Authn.Parse.normalise_clearance garmd.Authn.Parse.normalise_kind
token-AllSpelled = (
  record {
    clearance = refl;
    kind = refl;
    audience = (refl, tt);
    compartments = (refl, tt);
    verbs = (refl, tt);
    tool_sets = (refl, tt);
    exec = tt;
  },
  record {
    clearance = refl;
    kind = refl;
    audience = (refl, tt);
    compartments = (refl, tt);
    verbs = (refl, tt);
    tool_sets = (refl, tt);
    exec = tt;
  },
)

parse_claims-print_example :
    parse_claims enums shout (print token)
    ≡ (if leb (depth token) 16 then ok token else err too_deep)
parse_claims-print_example = parse_claims-print enums shout token token-AllSpelled

-- The key set of the issuer, fetched 5 seconds ago; a key is the number of the party that signs.
abbrev held : KeySet ℕ
held = record {
  ttl = 600;
  refresh_cooldown = 60;
  keys = some (("k1", 7) ∷ []);
  fetched_at = 10;
  last_attempt = some 10;
}

-- The endpoint publishes k2 from now on.
abbrev unmarshal_set : List ℕ → Option (List (String × ℕ))
unmarshal_set body = some (("k2", 8) ∷ [])

abbrev asked_at : ℕ → String → Lookup
asked_at t kid = record {
  kid = kid;
  freshness_at = t;
  cooldown_at = t;
  attempt_at = t;
  stored_at = t;
  response = some (record { status = 200; body = some (1 ∷ []) });
}

cached : (key unmarshal_set held (asked_at 15 "k1")).answer ≡ found 7
unfolding key lookup
cached = refl

rotated : fetch unmarshal_set (asked_at 80 "k2").response ≡ done (("k2", 8) ∷ [])
unfolding fetch garmd.Base.Dict.insert
rotated = refl

key-IsServed_example :
    IsServed unmarshal_set held
      (asked_at 15 "k1")
      7
      (key unmarshal_set held (asked_at 15 "k1")).next
key-IsServed_example = key-IsServed unmarshal_set held (asked_at 15 "k1") 7 cached

-- A kid that nobody publishes, asked for twice: one fetch.
abbrev garbage : List Lookup
garbage = asked_at 80 "k9" ∷ asked_at 100 "k9" ∷ []

garbage-StaysFresh : StaysFresh unmarshal_set garbage held
unfolding key lookup garmd.Base.Dict.insert
garbage-StaysFresh =
    ((("k1", 7) ∷ [], refl), refl, omega arith, ((("k2", 8) ∷ [], refl), refl, omega arith, tt))

run-cooldown_example :
    (at : ℕ) × ((run unmarshal_set garbage held).1.last_attempt ≡ some at)
    × ((run unmarshal_set garbage held).0 * 60 + 10 ≤ at)
run-cooldown_example =
    run-cooldown unmarshal_set garbage held 10 refl (omega arith) garbage-StaysFresh

abbrev config : Config String
config = record {
  trusted = [];
  key_set = some 0;
  issuers = "idp" ∷ [];
  audience = "garmd";
  compartments = some "finance";
  source = none;
  skew = 0;
}

abbrev jose : Jose String String ℕ
jose = record {
  parse_signed = λ t. some (record { kids = "k1" ∷ []; unverified = t });
  verify_signature = λ k s. some s.unverified;
  unmarshal = λ b. some (print token);
  issuer_of = λ b. some "idp";
  unmarshal_set = unmarshal_set;
}

abbrev folded : Principal Bool
folded = record {
  subject = "alice";
  actor = "agent";
  kind = 1;
  chain = record { subject = "alice"; kind = 1 } ∷ record { subject = "agent"; kind = 1 } ∷ [];
  tenant = "acme";
  clearance = 3;
  compartments = true;
  verbs = 8;
  token_id = "t1";
  execution = "";
  tool_sets = some ("payments" ∷ []);
}

verified :
    (verify toy enums shout jose
      (new_verifier config)
      none
      50000000000
      (λ i. held)
      (asked_at 15 "")
      "t").0
    ≡ ok (folded, [])
unfolding verify new_verifier lookup print garmd.Authn.Fold.principal_of garmd.Authn.Fold.fold_chain
    garmd.Authn.Fold.fold_rest garmd.Authn.Fold.narrow_by garmd.Authn.Fold.enter
    garmd.Authn.Fold.verb_set_from_names new_verb_set
verified = refl

verify-IsTrusted_example :
    IsTrusted toy enums shout jose
      (new_verifier config)
      none
      50000000000
      (λ i. held)
      (asked_at 15 "")
      "t"
      folded
      []
verify-IsTrusted_example =
    verify-IsTrusted toy enums shout jose (new_verifier config) none 50000000000 (λ i. held)
      (asked_at 15 "") "t" folded [] verified
