-- ===== src/Replay/Keys.antt =====
-- Which identifiers key of internal/replay/jetstream.go tells apart.
use garmd.Base.{
  ℕ, ◌/◌, ◌%◌, ◌<◌, ◌≡◌, refl, sym, ◌≢◌, true, false, List, [], ◌∷◌, arith, All, Bool-cases, inl,
  inr,
}
use garmd.Replay.{Identifier, hex_digit, is_kept, key}

hex_digit-is_kept : (b : ℕ) → b < 16 → is_kept (hex_digit b) ≡ true
hex_digit-is_kept b h = ground arith

hex_digit-inj : (a b : ℕ) → a < 16 → b < 16 → hex_digit a ≡ hex_digit b → a ≡ b
hex_digit-inj a b h k e = ground arith

-- The key of an identifier with an escaped byte is also the key of the identifier that spells the
-- escape out: a dot, and the two digits.
pub key-escape_collides :
    (c : ℕ) (id : Identifier)
    → c < 256
    → is_kept c ≡ false
    → key (c ∷ id) ≡ key (46 ∷ hex_digit (c / 16) ∷ hex_digit (c % 16) ∷ id)
unfolding key
key-escape_collides c id small escaped =
    rw (escaped, hex_digit-is_kept (c / 16) (omega arith), hex_digit-is_kept (c % 16) (omega arith))
      refl

abbrev pub IsPlain : ℕ → Type 0
IsPlain c = (c < 256) × (c ≢ 46)

cons-inj : {A : Type 0} {x y : A} {xs ys : List A} → x ∷ xs ≡ y ∷ ys → (x ≡ y) × (xs ≡ ys)
cons-inj e = (ground arith, ground arith)

nibbles : (c d : ℕ) → c / 16 ≡ d / 16 → c % 16 ≡ d % 16 → c ≡ d
nibbles c d h k = omega arith

-- Identifiers without a dot are told apart: the same key is the same identifier.
pub key-inj : (a b : Identifier) → All IsPlain a → All IsPlain b → key a ≡ key b → a ≡ b
unfolding key
key-inj [] [] p q e = refl
key-inj [] (d ∷ b) p q e = absurd (ground arith)
key-inj (c ∷ a) [] p q e = absurd (ground arith)
key-inj (c ∷ a) (d ∷ b) p q e = elim (Bool-cases (is_kept c)) [
  | inl kc ↦ elim (Bool-cases (is_kept d)) [
    | inl kd ↦
        let both : c ∷ key a ≡ d ∷ key b = ground arith in
        cong_cons (cons-inj both).0 (key-inj a b p.1 q.1 (cons-inj both).1)
    | inr kd ↦
        let both : c ∷ key a ≡ 46 ∷ hex_digit (d / 16) ∷ hex_digit (d % 16) ∷ key b =
          ground arith in
        absurd (p.0.1 (cons-inj both).0)
  ]
  | inr kc ↦ elim (Bool-cases (is_kept d)) [
    | inl kd ↦
        let both : 46 ∷ hex_digit (c / 16) ∷ hex_digit (c % 16) ∷ key a ≡ d ∷ key b =
          ground arith in
        absurd (q.0.1 (sym (cons-inj both).0))
    | inr kd ↦
        let both : 46 ∷ hex_digit (c / 16) ∷ hex_digit (c % 16) ∷ key a
            ≡ 46 ∷ hex_digit (d / 16) ∷ hex_digit (d % 16) ∷ key b =
          ground arith in
        let (h, t) = cons-inj (cons-inj both).1 in
        let (l, rest) = cons-inj t in
        let high = hex_digit-inj (c / 16) (d / 16) (omega arith) (omega arith) h in
        let low = hex_digit-inj (c % 16) (d % 16) (omega arith) (omega arith) l in
        cong_cons (nibbles c d high low) (key-inj a b p.1 q.1 rest)
  ]
]
  where
    cong_cons : {x y : ℕ} {xs ys : List ℕ} → x ≡ y → xs ≡ ys → x ∷ xs ≡ y ∷ ys
    cong_cons e f = ground arith
