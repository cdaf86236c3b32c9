-- ===== src/Tests/Approvals.antt =====
-- Approvals that are checked and spent.
use garmd.Base.{
  ℕ, ◌/◌, ◌%◌, ◌≤◌, ◌≡◌, refl, ◌≢◌, true, Option, String, none, some, List, [], ◌∷◌, arith, All,
}
use garmd.Replay.{
  check_retention, Bucket, spent, already_spent, Identifier, key, hex_digit, is_kept, spend_all,
}
use garmd.Replay.Keys.{IsPlain, key-inj, key-escape_collides}
use garmd.Replay.Once.{times_spent, spend_all-once}
use garmd.Grants.{Outside, Verifier, found, verify}
use garmd.Grants.Spends.{Ended, verify-Ended, verify-verify_once}
use garmd.Tests.Toy.{pay}

-- The bytes of ":a".
abbrev colon_a : Identifier
colon_a = 58 ∷ 97 ∷ []

key-escape_collides_example :
    key (58 ∷ 97 ∷ []) ≡ key (46 ∷ hex_digit (58 / 16) ∷ hex_digit (58 % 16) ∷ 97 ∷ [])
key-escape_collides_example = key-escape_collides 58 (97 ∷ []) (omega arith) refl

colon_a-IsPlain : All IsPlain colon_a
colon_a-IsPlain = ((omega arith, λ e. omega arith), ((omega arith, λ e. omega arith), tt))

key-inj_example : colon_a ≡ colon_a
key-inj_example = key-inj colon_a colon_a colon_a-IsPlain colon_a-IsPlain refl

abbrev bucket : Bucket
bucket = record { ttl = 900; stored = [] }

abbrev calls : List (Option ℕ × Identifier)
calls = (some 100, colon_a) ∷ (none, colon_a) ∷ (some 399, colon_a) ∷ []

outlasts : check_retention (some 900) 300 ≡ true
unfolding check_retention
outlasts = refl

spend_all-once_example : times_spent colon_a calls (spend_all calls bucket).0 ≤ 1
spend_all-once_example =
    spend_all-once 100 300 colon_a calls bucket
      ((omega arith, omega arith), (tt, ((omega arith, omega arith), tt))) outlasts

-- The bucket forgets an entry that is as old as its TTL.
forgotten :
    (spend_all ((some 100, colon_a) ∷ (some 999, colon_a) ∷ (some 1000, colon_a) ∷ []) bucket).0
    ≡ spent ∷ already_spent ∷ spent ∷ []
unfolding spend_all
forgotten = refl

-- Tokens that are their own text; every check of the contract passes.
abbrev outside : Outside String ℕ ℕ ℕ
outside = record {
  parse_signed = λ raw. some raw;
  signatures = λ t. 1;
  kid = λ t. "k1";
  key = λ kid. found 1;
  verify = λ t k.
      some (record {
        issuer = "sts";
        audience = "garmd" ∷ [];
        id = colon_a;
        task = "task-1";
        rest = 0;
      });
  has_no_act = λ g. true;
  for_tool = λ g fqn. true;
  for_subject = λ g s. true;
  is_fresh = λ g now skew age. true;
  by_approver = λ g c cs. true;
  materialise = λ m fields. some fields;
  same_material = λ g values. true;
}

abbrev verifier : Verifier
verifier = record {
  has_keys = true;
  issuers = "sts" ∷ [];
  audience = "garmd";
  has_spent = true;
  skew = 0;
}

verify-Ended_example :
    Ended outside verifier 5
      (some 100)
      "token"
      (some "alice")
      pay
      (some 1)
      bucket
      (verify outside verifier 5 4 (some 100) "token" (some "alice") pay (some 1) bucket)
verify-Ended_example =
    verify-Ended outside verifier 5 4 (some 100) "token" (some "alice") pay (some 1) bucket refl

first_passes :
    (verify outside verifier 5 4 (some 100) "token" (some "alice") pay (some 1) bucket).failure
    ≡ none
unfolding verify garmd.Replay.spend
first_passes = refl

verify-verify_once_example :
    (verify outside verifier 6 4
      (some 200)
      "token"
      (some "alice")
      pay
      (some 1)
      (verify outside verifier 5 4
        (some 100)
        "token"
        (some "alice")
        pay
        (some 1)
        bucket).bucket).failure
    ≢ none
verify-verify_once_example =
    verify-verify_once outside verifier 4 5 6 100 300 (some 200) "token" (some "alice")
      (some "alice") pay pay (some 1) (some 1) bucket refl refl outlasts (omega arith, omega arith)
      first_passes
