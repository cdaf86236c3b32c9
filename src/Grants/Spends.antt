-- ===== src/Grants/Spends.antt =====
-- When an approval is spent, and what it was checked for (internal/grants/verify.go).
use garmd.Base.{
  some-injective, ℕ, String, ◌≡◌, refl, sym, ap, ◌∙◌, ◌≢◌, true, false, ◌⊎◌, inl, inr, Option, none,
  some, List, [], ◌∷◌, arith, contains, str_eq, ◌==◌, Bool-cases, Option-cases,
}
use garmd.ToolDef.{Def}
use garmd.Replay.{Identifier, Stored, Bucket, key, has_entry, put, spend, check_retention}
use garmd.Replay.Once.{same_key_refl, has_since, has_since-has_entry, IsWithin}
use garmd.Grants.Signed.{IsSigned, BindsMaterial, parse-IsSigned, check_material-BindsMaterial}
use garmd.Grants.{
  found, Claims, Outside, Verifier, Failure, grant_required, not_configured, reuse_unchecked, used,
  Verified, parse, check_shape, check_material, spend_grant, judged, is_configured, verify,
}

module _ {T K G M : Type 0} (out : Outside T K G M) (v : Verifier) (now : ℕ) where
  -- What is asked of the claims, of the caller by its subject.
  pub record HasShape (caller : Option String) (t : Def) (c : Claims G) : Type 0 where
    pub subject : String
    pub has_caller : caller ≡ some subject
    pub trusted : contains v.issuers c.issuer ≡ true
    pub here : contains c.audience v.audience ≡ true
    pub undelegated : out.has_no_act c.rest ≡ true
    pub this_tool : out.for_tool c.rest t.fqn ≡ true
    pub this_caller : out.for_subject c.rest subject ≡ true
    pub fresh : out.is_fresh c.rest now v.skew t.max_grant_age ≡ true
    pub approver : out.by_approver c.rest t.approver_min_clearance t.approver_compartments ≡ true

  -- What a grant is known to be when the bucket changes, or the call goes on.
  pub record IsApproved (raw : String) (caller : Option String) (t : Def) (req : Option M)
      (c : Claims G) : Type 0 where
    pub signed : IsSigned out v now raw c
    pub shape : HasShape caller t c
    pub material : BindsMaterial out v now c t.material_fields req

  check_shape-HasShape :
      (caller : Option String) (t : Def) (c : Claims G)
      → check_shape out v now c caller t ≡ none
      → HasShape caller t c
  unfolding check_shape
  check_shape-HasShape none t c h = absurd (ground arith)
  check_shape-HasShape (some s) t c h = record {
    subject = s;
    has_caller = refl;
    trusted = ground arith;
    here = ground arith;
    undelegated = ground arith;
    this_tool = ground arith;
    this_caller = ground arith;
    fresh = ground arith;
    approver = ground arith;
  }

  -- The end of a check: it refuses and spends nothing, or it approves one grant and spends that.
  pub data Ended (answers : Option ℕ) (raw : String) (caller : Option String) (t : Def)
      (req : Option M) (bucket : Bucket) (r : Verified) : Type 0 where
    refuses :
        (f : Failure)
        → r.failure ≡ some f
        → r.bucket ≡ bucket
        → Ended answers raw caller t req bucket r
    approves :
        (c : Claims G)
        → r.failure ≡ none
        → IsApproved raw caller t req c
        → (at : ℕ) → answers ≡ some at
        → has_entry bucket.ttl at bucket.stored (key c.id) ≡ false
        → r.bucket ≡ put at (key c.id) bucket
        → r.task ≡ c.task
        → Ended answers raw caller t req bucket r

  spend_grant-Ended :
      (answers : Option ℕ) (raw : String) (caller : Option String) (t : Def) (req : Option M)
      (bucket : Bucket) (c : Claims G) (id : Identifier)
      → c.id ≡ id
      → IsApproved raw caller t req c
      → Ended answers raw caller t req bucket (spend_grant out v now answers id c.task bucket)
  unfolding spend
  spend_grant-Ended answers raw caller t req bucket c [] e ok = refuses reuse_unchecked refl refl
  spend_grant-Ended (some at) raw caller t req bucket c (b ∷ id) e ok =
      elim (Bool-cases (has_entry bucket.ttl at bucket.stored (key (b ∷ id)))) [
        | inl there ↦ rw there (refuses used refl refl)
        | inr absent ↦ rw absent (
            approves c refl ok at refl
              (ap (λ x. has_entry bucket.ttl at bucket.stored (key x)) e ∙ absent)
              (ap (λ x. put at (key x) bucket) (sym e)) refl)
      ]
  spend_grant-Ended none raw caller t req bucket c (b ∷ id) e ok = refuses reuse_unchecked refl refl

  judged-Ended :
      (answers : Option ℕ) (raw : String) (caller : Option String) (t : Def) (req : Option M)
      (bucket : Bucket) (r : Failure ⊎ Claims G)
      → parse out v now raw ≡ r
      → Ended answers raw caller t req bucket (judged out v now answers caller t req bucket r)
  judged-Ended answers raw caller t req bucket (inl f) e = refuses f refl refl
  judged-Ended answers raw caller t req bucket (inr c) e =
      elim (Option-cases (check_shape out v now c caller t)) [
        | inl fine ↦
            rw fine (elim (Option-cases (check_material out v now c t.material_fields req)) [
              | inl bound ↦ rw bound (
                  spend_grant-Ended answers raw caller t req bucket c c.id refl (record {
                    signed = parse-IsSigned out v now raw c e;
                    shape = check_shape-HasShape caller t c fine;
                    material = check_material-BindsMaterial out v now c t.material_fields req bound;
                  }))
              | inr (f, bad) ↦ rw bad (refuses f refl refl)
            ])
        | inr (f, bad) ↦ rw bad (refuses f refl refl)
      ]

  -- A call of an approval-gated tool is either refused, and no approval is spent, or it is let
  -- through on one presented grant: signed once, by the key that it names, from a trusted issuer, for
  -- this deployment, undelegated, for this tool and this caller, fresh, from an entitled approver and
  -- over the values that the tool's material fields have in this request. The replay cache answered
  -- and had no live entry of that grant, and it alone is spent.
  pub verify-Ended :
      (mode_grant : ℕ) (answers : Option ℕ) (raw : String) (caller : Option String) (t : Def)
      (req : Option M) (bucket : Bucket)
      → t.approval_mode ≡ mode_grant
      → Ended answers raw caller t req bucket
          (verify out v now mode_grant answers raw caller t req bucket)
  unfolding verify
  verify-Ended mode_grant answers raw caller t req bucket gated =
      rw (mode_eq t.approval_mode mode_grant gated) (elim (Bool-cases (is_configured out v now)) [
        | inl ready ↦ rw ready (elim (Bool-cases (str_eq raw "")) [
          | inl e ↦ rw e (refuses grant_required refl refl)
          | inr e ↦ rw e (judged-Ended answers raw caller t req bucket (parse out v now raw) refl)
        ])
        | inr bare ↦ rw bare (refuses not_configured refl refl)
      ])
    where
      mode_eq : (a b : ℕ) → a ≡ b → (a == b) ≡ true
      mode_eq a b e = ground arith

module _ {T K G M : Type 0} (out : Outside T K G M) (v : Verifier) where
  same_grant :
      (now later : ℕ) (raw : String) (caller other : Option String) (t u : Def)
      (req req2 : Option M) (c d : Claims G)
      → IsApproved out v now raw caller t req c
      → IsApproved out v later raw other u req2 d
      → c ≡ d
  same_grant now later raw caller other t u req req2 c d a b =
      let token : a.signed.token ≡ b.signed.token =
        some-injective _ _ (sym a.signed.is_token ∙ b.signed.is_token) in
      let one_key : a.signed.a_key ≡ b.signed.a_key =
        found-inj (sym a.signed.has_key ∙ ap (λ x. out.key (out.kid x)) token ∙ b.signed.has_key) in
      some-injective _ _ (
        sym a.signed.signed
        ∙ ap (λ x. out.verify x a.signed.a_key) token
        ∙ ap (λ x. out.verify b.signed.token x) one_key
        ∙ b.signed.signed)
    where
      found-inj : {x y : K} → found x ≡ found y → x ≡ y
      found-inj e = ground arith

  entry_there :
      (at : ℕ) (k : Identifier) (es : List Stored)
      → has_since at k (record { name = k; at = at } ∷ es) ≡ true
  unfolding has_since
  entry_there at k es = ground (arith, same_key_refl k)

  clash :
      (now later at longest : ℕ) (again : Option ℕ) (raw : String) (caller other : Option String)
      (t u : Def) (req req2 : Option M) (bucket : Bucket) (r s : Verified)
      → check_retention (some bucket.ttl) longest ≡ true
      → IsWithin at longest again
      → Ended out v now (some at) raw caller t req bucket r
      → Ended out v later again raw other u req2 r.bucket s
      → r.failure ≡ none
      → s.failure ≢ none
  clash now later at longest again raw caller other t u req req2 bucket r s kept within
        (refuses f e same) b h k =
      ground arith
  clash now later at longest again raw caller other t u req req2 bucket r s kept within a
        (refuses f e same) h k =
      ground arith
  clash now later at longest none raw caller other t u req req2 bucket r s kept within a
        (approves d e2 ok2 at2 said new2 on2 task2) h k =
      absurd (ground arith)
  clash now later at longest (some asked) raw caller other t u req req2 bucket r s kept within
        (approves c e ok at1 said1 new on task) (approves d e2 ok2 at2 said2 new2 on2 task2) h k =
      let is : d ≡ c = sym (same_grant now later raw caller other t u req req2 c d ok ok2) in
      let there : has_entry bucket.ttl asked (put at (key c.id) bucket).stored (key c.id) ≡ true =
        has_since-has_entry bucket.ttl longest at asked (key c.id) _ kept (within.1)
          (entry_there at (key c.id) bucket.stored) in
      let first : at1 ≡ at = some-injective _ _ (sym said1) in
      let second : at2 ≡ asked = some-injective _ _ (sym said2) in
      let here : has_entry r.bucket.ttl at2 r.bucket.stored (key d.id) ≡ true =
        ap (λ b. has_entry b.ttl at2 b.stored (key d.id)) on
        ∙ ap
            (λ (x : Claims G).
              has_entry bucket.ttl at2 (put at1 (key c.id) bucket).stored (key x.id))
            is
        ∙ ap (λ x. has_entry bucket.ttl at2 (put x (key c.id) bucket).stored (key c.id)) first
        ∙ ap (λ x. has_entry bucket.ttl x (put at (key c.id) bucket).stored (key c.id)) second
        ∙ there in
      ground arith

  -- A grant that a call was let through on refuses the next call of a gated tool that presents it,
  -- for whatever tool, caller and request, where CheckRetention accepts the bucket's TTL for the
  -- longest grant, and the replay cache answers the next call within that long of the first one, or
  -- not at all.
  pub verify-verify_once :
      (mode_grant now later at longest : ℕ) (again : Option ℕ) (raw : String)
      (caller other : Option String) (t u : Def) (req req2 : Option M) (bucket : Bucket)
      → t.approval_mode ≡ mode_grant
      → u.approval_mode ≡ mode_grant
      → check_retention (some bucket.ttl) longest ≡ true
      → IsWithin at longest again
      → (verify out v now mode_grant (some at) raw caller t req bucket).failure ≡ none
      → (verify out v later mode_grant again raw other u req2
          (verify out v now mode_grant (some at) raw caller t req bucket).bucket).failure
        ≢ none
  verify-verify_once mode_grant now later at longest again raw caller other t u req req2 bucket
        gated gated2 kept within h =
      clash now later at longest again raw caller other t u req req2 bucket _ _ kept within
        (verify-Ended out v now mode_grant (some at) raw caller t req bucket gated)
        (verify-Ended out v later mode_grant again raw other u req2 _ gated2) h
