-- ===== src/Replay/Once.antt =====
-- What Spend of internal/replay/jetstream.go answers over a run of calls.
use garmd.Base.{
  leb, ◌||◌, ◌<◌, Option, none, some, All, ℕ, ◌+◌, ◌≤◌, ◌≡◌, refl, sym, ap, ◌∙◌, ◌≢◌, Bool, true,
  false, ◌&&◌, List, [], ◌∷◌, arith, if◌then◌else◌, Bool-cases, inl, inr,
}
use garmd.Replay.{
  Stored, Bucket, check_retention, Identifier, key, same_key, has_entry, Spent, spent,
  no_identifier, already_spent, unrecorded, spend, spend_all,
}

pub same_key_refl : (k : Identifier) → same_key k k ≡ true
same_key_refl [] = refl
same_key_refl (c ∷ k) = ground (arith, same_key_refl k)

-- The bucket has the key from a time at or after `start`.
unfoldable pub has_since : ℕ → Identifier → List Stored → Bool
has_since start k [] = false
has_since start k (e ∷ es) = leb start e.at && same_key e.name k || has_since start k es

-- A cache that CheckRetention accepts has what it was given since `start`, for that long.
pub has_since-has_entry :
    (ttl longest start now : ℕ) (k : Identifier) (es : List Stored)
    → check_retention (some ttl) longest ≡ true
    → now < start + longest
    → has_since start k es ≡ true
    → has_entry ttl now es k ≡ true
unfolding has_since has_entry check_retention
has_since-has_entry ttl longest start now k [] kept before h = absurd (ground arith)
has_since-has_entry ttl longest start now k (e ∷ es) kept before h =
    elim (Bool-cases (leb start e.at && same_key e.name k)) [
      | inl here ↦ ground arith
      | inr there ↦
          ground (arith, has_since-has_entry ttl longest start now k es kept before (ground arith))
    ]

spend-ttl :
    (answers : Option ℕ) (id : Identifier) (bucket : Bucket)
    → (spend answers id bucket).1.ttl ≡ bucket.ttl
unfolding spend
spend-ttl answers [] bucket = refl
spend-ttl none (c ∷ id) bucket = refl
spend-ttl (some now) (c ∷ id) bucket =
    elim (Bool-cases (has_entry bucket.ttl now bucket.stored (key (c ∷ id)))) [
      | inl there ↦ rw there refl
      | inr absent ↦ rw absent refl
    ]

-- An entry of the bucket is not taken out by a call.
has_since-spend :
    (answers : Option ℕ) (id k : Identifier) (bucket : Bucket) (start : ℕ)
    → has_since start k bucket.stored ≡ true
    → has_since start k (spend answers id bucket).1.stored ≡ true
unfolding spend has_since
has_since-spend answers [] k bucket start h = h
has_since-spend none (c ∷ id) k bucket start h = h
has_since-spend (some now) (c ∷ id) k bucket start h =
    elim (Bool-cases (has_entry bucket.ttl now bucket.stored (key (c ∷ id)))) [
      | inl there ↦ rw there h
      | inr absent ↦ rw absent (ground arith)
    ]

-- The call is answered within this long from `start`, or not at all.
abbrev pub IsWithin : ℕ → ℕ → Option ℕ → Type 0
IsWithin start longest none = Unit
IsWithin start longest (some now) = (start ≤ now) × (now < start + longest)

spent-has_since :
    (answers : Option ℕ) (id : Identifier) (bucket : Bucket) (start longest : ℕ)
    → IsWithin start longest answers
    → (spend answers id bucket).0 ≡ spent
    → has_since start (key id) (spend answers id bucket).1.stored ≡ true
unfolding spend has_since
spent-has_since answers [] bucket start longest within h = absurd (ground arith)
spent-has_since none (c ∷ id) bucket start longest within h = absurd (ground arith)
spent-has_since (some now) (c ∷ id) bucket start longest within h =
    elim (Bool-cases (has_entry bucket.ttl now bucket.stored (key (c ∷ id)))) [
      | inl there ↦ absurd (ground (arith, rw there at h))
      | inr absent ↦ rw absent (ground (arith, same_key_refl (key (c ∷ id)), within.0))
    ]

refused :
    (answers : Option ℕ) (id : Identifier) (bucket : Bucket) (start longest : ℕ)
    → IsWithin start longest answers
    → check_retention (some bucket.ttl) longest ≡ true
    → has_since start (key id) bucket.stored ≡ true
    → (spend answers id bucket).0 ≢ spent
unfolding spend
refused answers [] bucket start longest within kept there e = ground arith
refused none (c ∷ id) bucket start longest within kept there e = ground arith
refused (some now) (c ∷ id) bucket start longest within kept there e =
    let still =
      has_since-has_entry bucket.ttl longest start now (key (c ∷ id)) bucket.stored kept (within.1)
        there in
    ground (arith, rw still at e)

-- How often an identifier was spent in a run.
abbrev pub is_spent : Spent → Bool
is_spent spent = true
is_spent no_identifier = false
is_spent already_spent = false
is_spent unrecorded = false

unfoldable pub times_spent : Identifier → List (Option ℕ × Identifier) → List Spent → ℕ
times_spent id [] answers = 0
times_spent id (call ∷ calls) [] = 0
times_spent id ((asked, other) ∷ calls) (a ∷ answers) =
    (if same_key other id && is_spent a then 1 else 0) + times_spent id calls answers

same_key→eq : (a b : Identifier) → same_key a b ≡ true → a ≡ b
same_key→eq [] [] h = refl
same_key→eq [] (d ∷ b) h = ground arith
same_key→eq (c ∷ a) [] h = ground arith
same_key→eq (c ∷ a) (d ∷ b) h = ground (arith, same_key→eq a b)

module _ (start longest : ℕ) (id : Identifier) where
  -- One call of a run: its answer is not a success for an identifier that is in the bucket.
  not_again :
      (answers : Option ℕ) (other : Identifier) (bucket : Bucket)
      → IsWithin start longest answers
      → check_retention (some bucket.ttl) longest ≡ true
      → has_since start (key id) bucket.stored ≡ true
      → (same_key other id && is_spent (spend answers other bucket).0) ≡ false
  not_again answers other bucket within kept there = elim (Bool-cases (same_key other id)) [
    | inl same ↦ rw same (
        unspent (spend answers other bucket).0 (
          refused answers other bucket start longest within kept
            (ap (λ x. has_since start (key x) bucket.stored) (same_key→eq other id same) ∙ there)))
    | inr differs ↦ rw differs refl
  ]
    where
      unspent : (s : Spent) → s ≢ spent → is_spent s ≡ false
      unspent spent ne = absurd (ne refl)
      unspent no_identifier ne = refl
      unspent already_spent ne = refl
      unspent unrecorded ne = refl

  abbrev pub AllWithin : List (Option ℕ × Identifier) → Type 0
  AllWithin = All (λ call. IsWithin start longest call.0)

  never_again :
      (calls : List (Option ℕ × Identifier)) (bucket : Bucket)
      → AllWithin calls
      → check_retention (some bucket.ttl) longest ≡ true
      → has_since start (key id) bucket.stored ≡ true
      → times_spent id calls (spend_all calls bucket).0 ≡ 0
  unfolding times_spent spend_all
  never_again [] bucket within kept there = refl
  never_again ((answers, other) ∷ calls) bucket (now, later) kept there =
      rw (not_again answers other bucket now kept there) (
        omega (
          arith,
          never_again calls (spend answers other bucket).1 later
              (ap (λ t. check_retention (some t) longest) (spend-ttl answers other bucket) ∙ kept)
              (has_since-spend answers other (key id) bucket start there),
        ))

  -- A cache that CheckRetention accepts for the longest grant spends an identifier at most once in any
  -- run of calls that it answers within that long, in whatever order and with whatever outages, and
  -- over whatever bucket whose TTL it reports.
  pub spend_all-once :
      (calls : List (Option ℕ × Identifier)) (bucket : Bucket)
      → AllWithin calls
      → check_retention (some bucket.ttl) longest ≡ true
      → times_spent id calls (spend_all calls bucket).0 ≤ 1
  unfolding times_spent spend_all
  spend_all-once [] bucket within kept = omega arith
  spend_all-once ((answers, other) ∷ calls) bucket (here, later) kept =
      let kept_next =
        ap (λ t. check_retention (some t) longest) (spend-ttl answers other bucket) ∙ kept in
      elim (Bool-cases (same_key other id && is_spent (spend answers other bucket).0)) [
        | inl now ↦
            let is : (spend answers other bucket).0 ≡ spent =
              is_success (spend answers other bucket).0 (ground arith) in
            let never = never_again calls (spend answers other bucket).1 later kept_next (
              ap (λ x. has_since start (key x) (spend answers other bucket).1.stored)
                (sym (same_key→eq other id (ground arith)))
              ∙ spent-has_since answers other bucket start longest here is) in
            rw now (omega (arith, never))
        | inr not_now ↦
            rw not_now
              (omega (arith, spend_all-once calls (spend answers other bucket).1 later kept_next))
      ]
    where
      is_success : (s : Spent) → is_spent s ≡ true → s ≡ spent
      is_success spent h = refl
      is_success no_identifier h = absurd (ground arith)
      is_success already_spent h = absurd (ground arith)
      is_success unrecorded h = absurd (ground arith)
