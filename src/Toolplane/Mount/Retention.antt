-- ===== src/Toolplane/Mount/Retention.antt =====
-- Retention that a tool promises and a sink keeps (unimplementedGovernance).
use garmd.Base.{
  ℕ, ◌*◌, ◌≤◌, ◌<◌, ◌≡◌, refl, ◌≢◌, true, not, ◌&&◌, ◌||◌, ◌⊎◌, Option, none, some, List, [], ◌∷◌,
  ◌++◌, arith,
}
use native.Mathlib.Nat.{mod-eq_of_lt}
use garmd.ToolDef.{Def}
use garmd.Toolplane.{Core}
use garmd.Toolplane.Mount.{
  Levels, unimplemented_governance, missing_approval, missing_level, missing_fail_closed,
  missing_retention, duration_of_days, retained, when, is_set, payload_recording, no_fga_checker,
}

append-nil : {A : Type 0} (xs ys : List A) → xs ++ ys ≡ [] → (xs ≡ []) × (ys ≡ [])
append-nil [] ys h = (refl, h)
append-nil (x ∷ xs) ys h = absurd (ground arith)

module _ {C R : Type 0} (levels : Levels) (c : Core C R) where
  -- The parts of the answer that none is missing from.
  record NothingMissing (t : Def) : Type 0 where
    approval : missing_approval levels c t ≡ []
    level : missing_level levels c t ≡ []
    closed : missing_fail_closed levels c t ≡ []
    retention : missing_retention levels c t ≡ []
    authorization : when (t.has_authorization && not c.has_fga) no_fga_checker ≡ []

  nothing_missing : (t : Def) → unimplemented_governance levels c t ≡ [] → NothingMissing t
  unfolding unimplemented_governance
  nothing_missing t h =
      let (h1, z) = append-nil _ (when (t.has_authorization && not c.has_fga) no_fga_checker) h in
      let (h2, y) =
        append-nil _ (when (t.audit_record_request || t.audit_record_response) payload_recording)
          h1 in
      let (h3, d) = append-nil _ (missing_retention levels c t) h2 in
      let (h4, e) = append-nil _ (missing_fail_closed levels c t) h3 in
      let (a, b) = append-nil (missing_approval levels c t) (missing_level levels c t) h4 in
      record { approval = a; level = b; closed = e; retention = d; authorization = z }

  -- The supervision that a declaration asks for is there.
  pub record IsHonoured (t : Def) : Type 0 where
    pub gated :
        t.approval_mode ≡ levels.mode_grant
        → levels.mode_grant ≢ levels.mode_unspecified
        → levels.mode_grant ≢ levels.mode_none
        → levels.mode_grant ≢ levels.mode_notify
        → c.has_grants ≡ true
    pub closed :
        t.audit_fail_closed ≡ true
        → (t.audit_level ≡ levels.level_audit) × (is_set c.audit_retention ≡ true)
    pub authorized : t.has_authorization ≡ true → c.has_fga ≡ true
    pub retained :
        0 < t.audit_retain_days
        → t.audit_retain_days ≤ 106751
        → (kept : ℕ) × (c.audit_retention ≡ some kept)
          × ((kept ≡ 0) ⊎ (t.audit_retain_days * 86400000000000 ≤ kept))

  fits : (days : ℕ) → days ≤ 106751 → duration_of_days days ≡ days * 86400000000000
  fits days h = mod-eq_of_lt (omega arith)

  kept_long_enough :
      (days : ℕ) (sink : Option ℕ)
      → days ≤ 106751
      → retained levels c (duration_of_days days) sink ≡ []
      → (kept : ℕ) × (sink ≡ some kept) × ((kept ≡ 0) ⊎ (days * 86400000000000 ≤ kept))
  kept_long_enough days none small h = absurd (ground arith)
  kept_long_enough days (some kept) small h = (kept, refl, ground (arith, fits days small))

  -- A declaration that nothing is missing from has the verifier of its grants, the sink that a
  -- fail_closed one needs, the instance check, and, up to 106751 days, a sink that keeps rows for
  -- as long as it promises.
  pub unimplemented_governance-IsHonoured :
      (t : Def) → unimplemented_governance levels c t ≡ [] → IsHonoured t
  unfolding missing_approval missing_fail_closed missing_retention
  unimplemented_governance-IsHonoured t h =
      let n = nothing_missing t h in
      record {
        gated = λ e d1 d2 d3. gated_lem n e d1 d2 d3;
        closed = λ e. closed_lem n e;
        authorized = λ e. authorized_lem n e;
        retained = λ some_days few_days. retained_lem n some_days few_days;
      }
    where
      gated_lem :
          NothingMissing t
          → t.approval_mode ≡ levels.mode_grant
          → levels.mode_grant ≢ levels.mode_unspecified
          → levels.mode_grant ≢ levels.mode_none
          → levels.mode_grant ≢ levels.mode_notify
          → c.has_grants ≡ true
      gated_lem n e d1 d2 d3 = let a = n.approval in ground arith

      closed_lem :
          NothingMissing t
          → t.audit_fail_closed ≡ true
          → (t.audit_level ≡ levels.level_audit) × (is_set c.audit_retention ≡ true)
      closed_lem n e = let a = n.closed in ground arith

      authorized_lem : NothingMissing t → t.has_authorization ≡ true → c.has_fga ≡ true
      authorized_lem n e = let a = n.authorization in ground arith

      retained_lem :
          NothingMissing t
          → 0 < t.audit_retain_days
          → t.audit_retain_days ≤ 106751
          → (kept : ℕ) × (c.audit_retention ≡ some kept)
            × ((kept ≡ 0) ⊎ (t.audit_retain_days * 86400000000000 ≤ kept))
      retained_lem n some_days few_days =
          kept_long_enough t.audit_retain_days c.audit_retention few_days
            (let a = n.retention in ground arith)
