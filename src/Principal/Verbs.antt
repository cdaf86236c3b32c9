-- ===== src/Principal/Verbs.antt =====
-- The bitset of verbs (internal/toolplane/principal.go) is a set of the verb numbers 1 to 7.
use Prim.Native.Nat.{bit_and, bit_or}
use Prim.Native.Nat.pow
use garmd.Base.{
  ℕ, zero, suc, ◌+◌, ◌^◌, ◌≤◌, ◌<◌, ◌≡◌, refl, ap, ◌∙◌, Bool, false, ◌&&◌, ◌||◌, List, [], ◌∷◌,
  arith, ltb, ◌==◌, if◌then◌else◌, ◌-◌, inl, inr, Bool-cases,
}
use garmd.Base.Bits.{
  test_bit, test_bit_zero, test_bit-bit_and, test_bit-bit_or, test_bit-pow, bit_and-pow,
  bit_and_zero_right,
}
use garmd.Principal.{verb_bit, add_verbs, new_verb_set, has, intersect}

verb_bit_low : (v : ℕ) → v < 8 → verb_bit v ≡ 2 ^ v
verb_bit_low zero h = refl
verb_bit_low (suc zero) h = refl
verb_bit_low (suc (suc zero)) h = refl
verb_bit_low (suc (suc (suc zero))) h = refl
verb_bit_low (suc (suc (suc (suc zero)))) h = refl
verb_bit_low (suc (suc (suc (suc (suc zero))))) h = refl
verb_bit_low (suc (suc (suc (suc (suc (suc zero)))))) h = refl
verb_bit_low (suc (suc (suc (suc (suc (suc (suc zero))))))) h = refl
verb_bit_low (suc (suc (suc (suc (suc (suc (suc (suc v)))))))) h = absurd (omega arith)

verb_bit_high : (v : ℕ) → verb_bit (v + 8) ≡ 0
verb_bit_high v = omega (
  arith,
  ap (λ k. 2 ^ k) (eight v),
  pow.suc 2 v,
  pow.suc 2 (suc v),
  pow.suc 2 (suc (suc v)),
  pow.suc 2 (suc (suc (suc v))),
  pow.suc 2 (suc (suc (suc (suc v)))),
  pow.suc 2 (suc (suc (suc (suc (suc v))))),
  pow.suc 2 (suc (suc (suc (suc (suc (suc v)))))),
  pow.suc 2 (suc (suc (suc (suc (suc (suc (suc v))))))),
)
  where
    eight : (k : ℕ) → k + 8 ≡ suc (suc (suc (suc (suc (suc (suc (suc k)))))))
    eight k = omega arith

verb_bit_cases : (v : ℕ) → verb_bit v ≡ (if ltb v 8 then 2 ^ v else 0)
verb_bit_cases v = elim (Bool-cases (ltb v 8)) [
  | inl low ↦ rw low (verb_bit_low v (ground arith))
  | inr high ↦ rw high (ap verb_bit (more high) ∙ verb_bit_high (v - 8))
]
  where
    more : ltb v 8 ≡ false → v ≡ v - 8 + 8
    more h = ground arith

pow_pos : (v : ℕ) → 1 ≤ 2 ^ v
pow_pos zero = omega arith
pow_pos (suc v) = omega (arith, pow.suc 2 v, pow_pos v)

-- Membership reads bit `v`, for the verbs that the byte has room for.
pub has-eq : (s v : ℕ) → has s v ≡ (ltb 0 v && (ltb v 8 && test_bit s v))
unfolding has
has-eq s v = elim (Bool-cases (ltb v 8)) [
  | inl low ↦ ground (arith, verb_bit_cases v, bit_and-pow v s, pow_pos v)
  | inr high ↦ ground (arith, verb_bit_cases v, bit_and_zero_right s s (omega arith))
]

-- The intersection of two verb sets has exactly the verbs that both have.
pub has-intersect : (s o v : ℕ) → has (intersect s o) v ≡ (has s v && has o v)
has-intersect s o v =
    ground (arith, has-eq s v, has-eq o v, has-eq (bit_and s o) v, test_bit-bit_and v s o)

abbrev pub elem : List ℕ → ℕ → Bool
elem [] v = false
elem (w ∷ vs) v = w == v || elem vs v

has-add :
    (out w v : ℕ)
    → has (if w == 0 then out else bit_or out (verb_bit w)) v
      ≡ (has out v || (ltb 0 v && (ltb v 8 && w == v)))
has-add out w v = ground (
  arith,
  has-eq out v,
  has-eq (bit_or out (verb_bit w)) v,
  verb_bit_cases w,
  test_bit-bit_or v out (verb_bit w),
  test_bit-pow w v,
  test_bit_zero v,
)

has-add_verbs :
    (out : ℕ) (vs : List ℕ) (v : ℕ)
    → has (add_verbs out vs) v ≡ (has out v || (ltb 0 v && (ltb v 8 && elem vs v)))
unfolding add_verbs
has-add_verbs out [] v = ground arith
has-add_verbs out (w ∷ vs) v =
    has-add_verbs (if w == 0 then out else bit_or out (verb_bit w)) vs v
    ∙ ground (arith, has-add out w v)

-- The set of a list of verbs has exactly the verbs 1 to 7 of the list: VERB_UNSPECIFIED is in no set.
pub has-new_verb_set :
    (vs : List ℕ) (v : ℕ) → has (new_verb_set vs) v ≡ (ltb 0 v && (ltb v 8 && elem vs v))
unfolding new_verb_set
has-new_verb_set vs v = has-add_verbs 0 vs v ∙ ground (arith, has-eq 0 v, test_bit_zero v)
