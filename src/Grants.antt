-- ===== src/Grants.antt =====
-- internal/grants: step 5, the check of the approval that a caller presents.
pub mod Signed
pub mod Spends
use garmd.Base.{
  ℕ, String, Bool, true, false, not, ◌&&◌, ◌||◌, ◌⊎◌, inl, inr, Option, none, some, List, [], ◌∷◌,
  contains, str_eq, ◌==◌, if◌then◌else◌,
}
use garmd.ToolDef.{Def}
use garmd.Replay.{Identifier, Bucket, Spent, spent, already_spent, spend}

-- The claims of a grant, as far as garmd reads them itself. `id` is the jti in bytes; `rest` is
-- what the contract's own checks read.
pub record Claims (G : Type 0) : Type 0 where
  pub issuer : String
  pub audience : List String
  pub id : Identifier
  pub task : String
  pub rest : G

-- What the key set answers for a kid.
pub data KeyAnswer (K : Type 0) : Type 0 where
  found : K → KeyAnswer K
  no_such_key unread : KeyAnswer K

-- What the verifier calls outside its package: go-jose, the key set, and the checks of the contract
-- module on claims, each true where it passes. A token that does not parse is `none`.
pub record Outside (T K G M : Type 0) : Type 0 where
  pub parse_signed : String → Option T
  pub signatures : T → ℕ
  pub kid : T → String
  pub key : String → KeyAnswer K
  pub verify : T → K → Option (Claims G)
  pub has_no_act : G → Bool
  pub for_tool : G → String → Bool
  pub for_subject : G → String → Bool
  pub is_fresh : G → ℕ → ℕ → ℕ → Bool
  pub by_approver : G → ℕ → List String → Bool
  pub materialise : M → List String → Option (List String)
  pub same_material : G → List String → Bool

pub record Verifier : Type 0 where
  pub has_keys : Bool
  pub issuers : List String
  pub audience : String
  pub has_spent : Bool
  pub skew : ℕ

-- The errors of verify: the three that a surface tells apart, with the refusals by what failed.
pub data Failure : Type 0 where
  grant_required : Failure
  not_configured keys_unread reuse_unchecked : Failure
  malformed signature_count no_kid key_unknown bad_signature : Failure
  delegated untrusted_issuer wrong_audience no_jti wrong_tool no_caller wrong_subject : Failure
  stale wrong_approver no_request unreadable_material other_material used : Failure

-- The sentinels that Verify wraps with.
pub data Sentinel : Type 0 where
  required refused unavailable : Sentinel

-- Verify's classification: what is neither of the two that pass through is the caller's fault.
unfoldable pub sentinel_of : Failure → Sentinel
sentinel_of grant_required = required
sentinel_of not_configured = unavailable
sentinel_of keys_unread = unavailable
sentinel_of reuse_unchecked = unavailable
sentinel_of f = refused

-- A result with the bucket of spent grants, and the task that was noted.
pub record Verified : Type 0 where
  pub failure : Option Failure
  pub bucket : Bucket
  pub task : String

abbrev pub is_nil : List String → Bool
is_nil [] = true
is_nil (s ∷ ss) = false

abbrev pub is_empty : Identifier → Bool
is_empty [] = true
is_empty (c ∷ id) = false

module _ {T K G M : Type 0} (out : Outside T K G M) (v : Verifier) (now : ℕ) where
  abbrev pub keyed : T → KeyAnswer K → Failure ⊎ Claims G
  keyed t no_such_key = inl key_unknown
  keyed t unread = inl keys_unread
  keyed t (found k) = elim (out.verify t k) [ none ↦ inl bad_signature | some c ↦ inr c ]

  abbrev pub parsed : Option T → Failure ⊎ Claims G
  parsed none = inl malformed
  parsed (some t) =
      if not (out.signatures t == 1)
      then inl signature_count
      else if str_eq (out.kid t) ""
      then inl no_kid
      else keyed t (out.key (out.kid t))

  -- parse
  unfoldable pub parse : String → Failure ⊎ Claims G
  parse raw = parsed (out.parse_signed raw)

  abbrev pub check_caller : Claims G → Option String → Def → Option Failure
  check_caller c none t = some no_caller
  check_caller c (some subject) t =
      if not (out.for_subject c.rest subject)
      then some wrong_subject
      else if not (out.is_fresh c.rest now v.skew t.max_grant_age)
      then some stale
      else if not (out.by_approver c.rest t.approver_min_clearance t.approver_compartments)
      then some wrong_approver
      else none

  -- checkShape
  unfoldable pub check_shape : Claims G → Option String → Def → Option Failure
  check_shape c p t =
      if not (out.has_no_act c.rest)
      then some delegated
      else if not (contains v.issuers c.issuer)
      then some untrusted_issuer
      else if not (contains c.audience v.audience)
      then some wrong_audience
      else if is_empty c.id
      then some no_jti
      else if not (out.for_tool c.rest t.fqn)
      then some wrong_tool
      else check_caller c p t

  abbrev pub compare_material : Claims G → Option (List String) → Option Failure
  compare_material c none = some unreadable_material
  compare_material c (some values) =
      if out.same_material c.rest values then none else some other_material

  -- checkMaterial
  abbrev pub check_material : Claims G → List String → Option M → Option Failure
  check_material c [] req = none
  check_material c (f ∷ fields) none = some no_request
  check_material c (f ∷ fields) (some m) = compare_material c (out.materialise m (f ∷ fields))

  abbrev pub spend_failure : Spent → Option Failure
  spend_failure spent = none
  spend_failure already_spent = some used
  spend_failure s = some reuse_unchecked

  -- Spending, the last thing.
  abbrev pub spend_grant : Option ℕ → Identifier → String → Bucket → Verified
  spend_grant answers id task bucket = record {
    failure = spend_failure (spend answers id bucket).0;
    bucket = (spend answers id bucket).1;
    task = task;
  }

  abbrev pub unless : Option Failure → String → Bucket → Verified → Verified
  unless none task bucket next = next
  unless (some f) task bucket next = record { failure = some f; bucket = bucket; task = task }

  abbrev pub judged :
      Option ℕ → Option String → Def → Option M → Bucket → Failure ⊎ Claims G → Verified
  judged answers p t req bucket (inl f) = record { failure = some f; bucket = bucket; task = "" }
  judged answers p t req bucket (inr c) = unless (check_shape c p t) c.task bucket (
      unless (check_material c t.material_fields req) c.task bucket
        (spend_grant answers c.id c.task bucket))

  abbrev pub is_configured : Bool
  is_configured = v.has_keys && v.has_spent && not (is_nil v.issuers) && not (str_eq v.audience "")

  -- verify, of a caller by its subject (`none` for a nil principal): `raw` is the grant on the
  -- context, empty for none, and `answers` is when the replay cache answers by its own clock, `none`
  -- where it does not.
  unfoldable pub verify : ℕ → Option ℕ → String → Option String → Def → Option M → Bucket → Verified
  unfolding check_shape parse
  verify mode_grant answers raw p t req bucket =
      if not (t.approval_mode == mode_grant)
      then record { failure = none; bucket = bucket; task = "" }
      else if not is_configured
      then record { failure = some not_configured; bucket = bucket; task = "" }
      else if str_eq raw ""
      then record { failure = some grant_required; bucket = bucket; task = "" }
      else judged answers p t req bucket (parse raw)
