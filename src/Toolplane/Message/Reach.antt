-- ===== src/Toolplane/Message/Reach.antt =====
-- What fieldIsSet finds, without the loops over all targets (internal/toolplane/core.go).
use garmd.Base.{
  subst, Option, none, some, Option-cases, ℕ, ◌≡◌, refl, sym, ◌∙◌, ◌↔◌, ◌⊎◌, inl, inr, Bool, true,
  false, List, [], ◌∷◌, ◌++◌, arith, Bool-cases,
}
use garmd.Toolplane.Message.{
  Value, scalar, message, repeated, mapped, Msgs, end, and, msg, value_at, to_list, messages_in,
  Msg, has_field, children, expand, any_has, walk, field_is_set,
}

abbrev pub Any : {A : Type 0} → (A → Type 0) → List A → Type 0
Any P [] = ⊥
Any P (x ∷ xs) = P x ⊎ Any P xs

Any-append :
    {A : Type 0} (P : A → Type 0) (xs ys : List A) → Any P (xs ++ ys) ↔ (Any P xs ⊎ Any P ys)
Any-append P [] ys = (λ h. inr h, λ h. elim h [ inl x ↦ absurd x | inr y ↦ y ])
Any-append P (x ∷ xs) ys = (
  λ h. elim h [
    | inl p ↦ inl (inl p)
    | inr q ↦ elim ((Any-append P xs ys).0 q) [ inl a ↦ inl (inr a) | inr b ↦ inr b ]
  ],
  λ h. elim h [
    | inl a ↦ elim a [ inl p ↦ inl p | inr q ↦ inr ((Any-append P xs ys).1 (inl q)) ]
    | inr b ↦ inr ((Any-append P xs ys).1 (inr b))
  ],
)

abbrev pub value_of : ℕ → Msg → Option Value
unfolding value_at
value_of num (msg d fs) = value_at num fs

-- The message is an element of the list or map.
abbrev pub InMsgs : Msg → Msgs → Type 0
InMsgs child end = ⊥
InMsgs child (and m ms) = (child ≡ m) ⊎ InMsgs child ms

-- The message is the value of a field, or an element of it.
abbrev pub Behind : Msg → Option Value → Type 0
Behind child none = ⊥
Behind child (some scalar) = ⊥
Behind child (some (message m)) = child ≡ m
Behind child (some (repeated ms)) = InMsgs child ms
Behind child (some (mapped ms)) = InMsgs child ms

-- The path leads, by some choice of an element at every repeated or map field, to a populated field.
pub IsPopulated : List ℕ → Msg → Type 0
unfolding value_at
IsPopulated [] m = ⊥
IsPopulated (num ∷ []) m = (v : Value) × (value_of num m ≡ some v)
IsPopulated (num ∷ n ∷ path) m =
    (child : Msg) × Behind child (value_of num m) × IsPopulated (n ∷ path) child

AnyPopulated : List ℕ → Msg → Type 0
AnyPopulated [] m = ⊥
AnyPopulated (num ∷ []) m = has_field num m ≡ true
AnyPopulated (num ∷ n ∷ path) m = Any (AnyPopulated (n ∷ path)) (children num m)

to_list-Any :
    (P Q : Msg → Type 0) (ms : Msgs)
    → ((m : Msg) → P m ↔ Q m)
    → Any P (to_list ms) ↔ ((child : Msg) × InMsgs child ms × Q child)
unfolding to_list
to_list-Any P Q end same = (λ h. absurd h, λ h. absurd (h.1))
to_list-Any P Q (and m ms) same = (
  λ h. elim h [
    | inl p ↦ (m, inl refl, (same m).0 p)
    | inr q ↦ let (child, i, r) = (to_list-Any P Q ms same).0 q in (child, inr i, r)
  ],
  λ h.
      let (child, i, r) = h in
      elim i [
        | inl e ↦ inl ((same m).1 (subst Q e r))
        | inr j ↦ inr ((to_list-Any P Q ms same).1 (child, j, r))
      ],
)

messages_in-Any :
    (P Q : Msg → Type 0) (v : Option Value)
    → ((m : Msg) → P m ↔ Q m)
    → Any P (messages_in v) ↔ ((child : Msg) × Behind child v × Q child)
unfolding to_list
messages_in-Any P Q none same = (λ h. absurd h, λ h. absurd (h.1))
messages_in-Any P Q (some scalar) same = (λ h. absurd h, λ h. absurd (h.1))
messages_in-Any P Q (some (message m)) same = (
  λ h. elim h [ inl p ↦ (m, refl, (same m).0 p) | inr q ↦ absurd q ],
  λ h. let (child, e, r) = h in inl ((same m).1 (subst Q e r)),
)
messages_in-Any P Q (some (repeated ms)) same = to_list-Any P Q ms same
messages_in-Any P Q (some (mapped ms)) same = to_list-Any P Q ms same

has_field-value_of :
    (num : ℕ) (m : Msg) → (has_field num m ≡ true) ↔ ((v : Value) × (value_of num m ≡ some v))
unfolding has_field
has_field-value_of num (msg d fs) = elim (Option-cases (value_at num fs)) [
  | inl e ↦ rw (e, has_field) (λ h. absurd (ground arith), λ h. absurd (ground (arith, h.1)))
  | inr (v, e) ↦ rw (e, has_field) (λ h. (v, refl), λ h. refl)
]

AnyPopulated-IsPopulated :
    (num : ℕ) (path : List ℕ) (m : Msg) → AnyPopulated (num ∷ path) m ↔ IsPopulated (num ∷ path) m
unfolding AnyPopulated IsPopulated children
AnyPopulated-IsPopulated num [] m = has_field-value_of num m
AnyPopulated-IsPopulated num (n ∷ path) (msg d fs) =
    messages_in-Any (AnyPopulated (n ∷ path)) (IsPopulated (n ∷ path)) (value_at num fs)
      (AnyPopulated-IsPopulated n path)

any_has-Any :
    (num : ℕ) (ts : List Msg) → (any_has num ts ≡ true) ↔ Any (λ m. has_field num m ≡ true) ts
unfolding any_has
any_has-Any num [] = (λ h. ground arith, λ h. absurd h)
any_has-Any num (t ∷ ts) = elim (Bool-cases (has_field num t)) [
  | inl here ↦ rw here (λ h. inl refl, λ h. refl)
  | inr there ↦ rw there (
    λ h. inr ((any_has-Any num ts).0 h),
    λ h. elim h [ inl x ↦ absurd (ground arith) | inr r ↦ (any_has-Any num ts).1 r ],
  )
]

expand-Any :
    (P : Msg → Type 0) (num : ℕ) (ts : List Msg)
    → Any P (expand num ts) ↔ Any (λ m. Any P (children num m)) ts
unfolding expand
expand-Any P num [] = (λ h. h, λ h. h)
expand-Any P num (t ∷ ts) = (
  λ h. elim ((Any-append P (children num t) (expand num ts)).0 h) [
    | inl a ↦ inl a
    | inr b ↦ inr ((expand-Any P num ts).0 b)
  ],
  λ h.
      (Any-append P (children num t) (expand num ts)).1
        (elim h [ inl a ↦ inl a | inr b ↦ inr ((expand-Any P num ts).1 b) ]),
)

walk-none : (path : List ℕ) → walk [] path ≡ false
unfolding walk expand any_has
walk-none [] = refl
walk-none (num ∷ []) = refl
walk-none (num ∷ n ∷ path) = refl

walk-step :
    (ts : List Msg) (num n : ℕ) (path : List ℕ)
    → walk ts (num ∷ n ∷ path) ≡ walk (expand num ts) (n ∷ path)
unfolding walk
walk-step ts num n path = go (expand num ts)
  where
    go :
        (next : List Msg)
        → elim next as (λ l. Bool) [ [] ↦ false | t ∷ us ↦ walk next (n ∷ path) ]
          ≡ walk next (n ∷ path)
    go [] = ground (arith, walk-none (n ∷ path))
    go (t ∷ us) = refl

walk-Any :
    (ts : List Msg) (num : ℕ) (path : List ℕ)
    → (walk ts (num ∷ path) ≡ true) ↔ Any (AnyPopulated (num ∷ path)) ts
unfolding walk AnyPopulated
walk-Any ts num [] = any_has-Any num ts
walk-Any ts num (n ∷ path) = (
  λ h.
      (expand-Any (AnyPopulated (n ∷ path)) num ts).0
        ((walk-Any (expand num ts) n path).0 (sym (walk-step ts num n path) ∙ h)),
  λ h.
      walk-step ts num n path
      ∙ (walk-Any (expand num ts) n path).1 ((expand-Any (AnyPopulated (n ∷ path)) num ts).1 h),
)

-- A field counts as set exactly where some choice of an element at every list and map on the path
-- leads to a populated field, so a value nested in any element is found.
pub field_is_set-IsPopulated :
    (m : Msg) (path : List ℕ) → (field_is_set m path ≡ true) ↔ IsPopulated path m
unfolding field_is_set IsPopulated AnyPopulated walk
field_is_set-IsPopulated m [] = (λ h. ground arith, λ h. absurd h)
field_is_set-IsPopulated m (num ∷ path) = (
  λ h. elim ((walk-Any (m ∷ []) num path).0 h) [
    | inl x ↦ (AnyPopulated-IsPopulated num path m).0 x
    | inr x ↦ absurd x
  ],
  λ h. (walk-Any (m ∷ []) num path).1 (inl ((AnyPopulated-IsPopulated num path m).1 h)),
)
