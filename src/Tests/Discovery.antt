-- ===== src/Tests/Discovery.antt =====
-- Rounds of discovery, and sweeps on them.
use garmd.Base.{
  ℕ, ◌≡◌, refl, String, Bool, true, false, not, ◌&&◌, ◌||◌, Option, none, some, List, [], ◌∷◌,
  arith,
}
use garmd.Base.Dict.{lookup, has_key}
use garmd.Serve.Reconcile.{
  Service, Round, another_contract, Reconciler, Current, hash_of, packages, sweep, pkg_of_fqn,
  quarantined,
}
use garmd.Serve.Reconcile.Verdicts.{any_contradicts, is_short, last_serving, sweep-quarantines}
use garmd.Transport.{heard, nobody_more, Collected, collect, Ping, Info, pinged, services}
use garmd.Transport.Heard.{IsHeard, services-IsHeard}
use garmd.Tests.Toy.{pay}

abbrev service : String → Service
service identity = record {
  name = "payments";
  identity = identity;
  subjects = "/bank.Payments/Pay" ∷ [];
}

abbrev catalogue : Current
catalogue = record { defs = pay ∷ []; descriptor_hashes = ("bank", "h1") ∷ [] }

abbrev same : String → String
same method = method

abbrev clear : Reconciler
clear = record { quarantined = []; seen = [] }

abbrev round_with : List Service → List String → Round
round_with heard_services partial = record {
  services = heard_services;
  cut_short = false;
  partial = partial;
}

abbrev suspect : Reconciler
suspect = record {
  quarantined = ("bank", another_contract "payments" "h2" "h1") ∷ [];
  seen = ("bank", true) ∷ [];
}

package_of_pay : pkg_of_fqn "bank.v1.pay" ≡ "bank.v1"
unfolding pkg_of_fqn
package_of_pay = refl

mismatch :
    quarantined
      (sweep same (some catalogue) (some (round_with (service "h2" ∷ []) [])) clear)
      "bank"
    ≡ some (another_contract "payments" "h2" "h1")
unfolding sweep lookup garmd.Base.Dict.insert pkg_of_fqn
mismatch = refl

unheard_plane :
    quarantined (sweep same (some catalogue) none suspect) "bank"
    ≡ some (another_contract "payments" "h2" "h1")
unfolding sweep lookup
unheard_plane = refl

-- The service was counted by the ping and answered nothing for itself: its verdict is lifted.
silent_service :
    quarantined
      (sweep same (some catalogue) (some (round_with [] ("payments" ∷ []))) suspect)
      "bank"
    ≡ none
unfolding sweep lookup
silent_service = refl

sweep-quarantines_example :
    has_key "bank"
      (sweep same
        (some catalogue)
        (some (round_with (service "h1" ∷ []) ("payments" ∷ [])))
        suspect).quarantined
    ≡ (any_contradicts catalogue (packages same catalogue.defs []) "bank" (service "h1" ∷ [])
        || (has_key "bank" suspect.quarantined
            && is_short (round_with (service "h1" ∷ []) ("payments" ∷ [])) (
                hash_of (
                  last_serving (packages same catalogue.defs []) "bank" (service "h1" ∷ []) none))))
sweep-quarantines_example =
    sweep-quarantines same catalogue (round_with (service "h1" ∷ []) ("payments" ∷ [])) suspect
      "bank"

abbrev read_ping : String → Option Ping
read_ping id = some (record { name = "payments"; id = id })

abbrev read_info : String → Option Info
read_info id = some (record { id = id; service = service "h1" })

abbrev answers : List String → Collected String
answers ids = record { replies = ids; incomplete = false; failed = false }

heard_round :
    services read_ping read_info false false
      (λ svcs. svcs)
      (answers ("i1" ∷ "i2" ∷ []))
      (λ name. answers ("i2" ∷ "i1" ∷ []))
    ≡ some (round_with (service "h1" ∷ service "h1" ∷ []) [])
unfolding services lookup garmd.Base.Dict.insert
heard_round = refl

-- The ping counted an instance, and no answer came: the round is whole, and names the service.
silent_round :
    services read_ping read_info false false
      (λ svcs. svcs)
      (answers ("i1" ∷ []))
      (λ name. answers [])
    ≡ some (round_with [] ("payments" ∷ []))
unfolding services lookup garmd.Base.Dict.insert
silent_round = refl

-- The ping counted i1 and i2, and i2 and i3 answer: the round is complete without i1.
masked_round :
    services read_ping read_info false false
      (λ svcs. svcs)
      (answers ("i1" ∷ "i2" ∷ []))
      (λ name. answers ("i2" ∷ "i3" ∷ []))
    ≡ some (round_with (service "h1" ∷ service "h1" ∷ []) [])
unfolding services lookup garmd.Base.Dict.insert
masked_round = refl

collected : collect false (some (heard "a" ∷ nobody_more ∷ [])) ≡ answers ("a" ∷ [])
unfolding collect
collected = refl

pinged_twice :
    lookup "payments" (pinged read_ping read_info ("i1" ∷ "i2" ∷ []) []) ≡ some ("i1" ∷ "i2" ∷ [])
unfolding pinged lookup garmd.Base.Dict.insert
pinged_twice = refl

services-IsHeard_example :
    IsHeard read_ping read_info ("i1" ∷ "i2" ∷ []) (answers ("i2" ∷ "i1" ∷ []))
services-IsHeard_example =
    services-IsHeard read_ping read_info false false (λ svcs. svcs) (answers ("i1" ∷ "i2" ∷ []))
      (λ name. answers ("i2" ∷ "i1" ∷ [])) (round_with (service "h1" ∷ service "h1" ∷ []) [])
      "payments" ("i1" ∷ "i2" ∷ []) heard_round pinged_twice refl
