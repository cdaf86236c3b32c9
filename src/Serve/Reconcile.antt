-- ===== src/Serve/Reconcile.antt =====
-- The Reconciler of internal/serve/reconcile.go, on a discovery round of
-- internal/transport/transport.go.
pub mod Verdicts
use Prim.Native.Char.{code}
use Prim.Native.String as Text
use garmd.Base.{
  ℕ, String, Bool, true, false, not, ◌&&◌, ◌||◌, Option, none, some, List, [], ◌∷◌, str_eq, ◌==◌,
  if◌then◌else◌, contains,
}
use garmd.Base.Dict.{Dict, lookup, insert, has_key}
use garmd.ToolDef.{Def}

pub record Service : Type 0 where
  pub name : String
  pub identity : String
  pub subjects : List String

-- `cut_short` is whether Enumeration is set, and `partial` has the keys of Partial.
pub record Round : Type 0 where
  pub services : List Service
  pub cut_short : Bool
  pub partial : List String

abbrev pub concludes_absence : Round → Bool
concludes_absence r = not r.cut_short

abbrev pub complete : Round → String → Bool
complete r name = not r.cut_short && not (contains r.partial name)

pub data Why : Type 0 where
  no_hash_recorded : String → Why
  no_hash_advertised : String → Why
  another_contract : String → String → String → Why

-- `seen` has the packages that something serves.
pub record Reconciler : Type 0 where
  pub quarantined : Dict Why
  pub seen : Dict Bool

pub record Current : Type 0 where
  pub defs : List Def
  pub descriptor_hashes : Dict String

-- The text before the last dot, `none` where there is no dot.
unfoldable pub before_last_dot : String → Option String
before_last_dot Text.[] = none
before_last_dot (Text.◌∷◌ c s) =
    let rest = before_last_dot s in
    elim rest [ none ↦ if code c == b'.' then some "" else none | some p ↦ some (Text.◌∷◌ c p) ]

-- pkgOfFQN
unfoldable pub pkg_of_fqn : String → String
unfolding before_last_dot
pkg_of_fqn fqn = elim (before_last_dot fqn) [ none ↦ fqn | some p ↦ p ]

-- What the loop over the services has collected: `bad`, `seen` and `pkgService`.
pub record Heard : Type 0 where
  pub bad : Dict Why
  pub seen : Dict Bool
  pub service : Dict String

abbrev pub hash_of : Option String → String
hash_of none = ""
hash_of (some h) = h

-- The switch: why this service does not show that it implements the package.
unfoldable pub verdict : String → String → Service → Option Why
verdict want pkg svc =
    if str_eq want ""
    then some (no_hash_recorded svc.name)
    else if str_eq svc.identity ""
    then some (no_hash_advertised svc.name)
    else if not (str_eq svc.identity want)
    then some (another_contract svc.name svc.identity want)
    else none

abbrev pub put_verdict : String → Option Why → Dict Why → Dict Why
put_verdict pkg none bad = bad
put_verdict pkg (some why) bad = insert pkg why bad

abbrev pub hear_pkg : Current → Service → Option String → Heard → Heard
unfolding verdict
hear_pkg cat svc none st = st
hear_pkg cat svc (some pkg) st = record {
  bad = put_verdict pkg (verdict (hash_of (lookup pkg cat.descriptor_hashes)) pkg svc) st.bad;
  seen = insert pkg true st.seen;
  service = insert pkg svc.name st.service;
}

unfoldable pub hear_subjects : Current → Dict String → Service → List String → Heard → Heard
unfolding verdict
hear_subjects cat pkg_of svc [] st = st
hear_subjects cat pkg_of svc (s ∷ ss) st =
    hear_subjects cat pkg_of svc ss (hear_pkg cat svc (lookup s pkg_of) st)

unfoldable pub hear : Current → Dict String → List Service → Heard → Heard
unfolding hear_subjects
hear cat pkg_of [] st = st
hear cat pkg_of (svc ∷ svcs) st =
    hear cat pkg_of svcs (hear_subjects cat pkg_of svc svc.subjects st)

-- The verdicts in force that the round does not answer stay.
unfoldable pub keep_unanswered : Round → Dict String → Dict Why → Dict Why → Dict Why
keep_unanswered round service [] bad = bad
keep_unanswered round service ((pkg, why) ∷ prev) bad = keep_unanswered round service prev (
    if has_key pkg bad
    then bad
    else if not (complete round (hash_of (lookup pkg service)))
    then insert pkg why bad
    else bad)

unfoldable pub add_seen : Dict Bool → Dict Bool → Dict Bool
add_seen [] seen = seen
add_seen ((pkg, served) ∷ prev) seen = add_seen prev (insert pkg true seen)

-- `subject_of` is wire.Subject of the contract module.
module _ (subject_of : String → String) where
  unfoldable pub packages : List Def → Dict String → Dict String
  packages [] pkg_of = pkg_of
  packages (d ∷ defs) pkg_of =
      packages defs (insert (subject_of d.full_method) (pkg_of_fqn d.fqn) pkg_of)

  unfoldable pub heard_in : Current → Round → Heard
  unfolding packages hear
  heard_in cat round =
      hear cat (packages cat.defs []) round.services (record { bad = []; seen = []; service = [] })

  abbrev pub swept : Current → Round → Reconciler → Reconciler
  unfolding heard_in keep_unanswered add_seen
  swept cat round r =
      let h = heard_in cat round in
      record {
        quarantined = keep_unanswered round h.service r.quarantined h.bad;
        seen = if concludes_absence round then h.seen else add_seen r.seen h.seen;
      }

  abbrev pub sweep_heard : Current → Option Round → Reconciler → Reconciler
  unfolding heard_in keep_unanswered add_seen
  sweep_heard cat none r = r
  sweep_heard cat (some round) r = swept cat round r

  -- sweep: `none` for a catalogue that is not loaded, and for a discovery that failed.
  unfoldable pub sweep : Option Current → Option Round → Reconciler → Reconciler
  unfolding heard_in keep_unanswered add_seen
  sweep none round r = r
  sweep (some cat) round r = sweep_heard cat round r

-- Quarantined
abbrev pub quarantined : Reconciler → String → Option Why
quarantined r pkg = lookup pkg r.quarantined
