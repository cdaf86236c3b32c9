-- ===== src/Toolplane/Refusal/Codes.antt =====
-- That the refusals of the chain are classified (internal/toolplane/errors.go).
use garmd.Base.{
  String, ◌≡◌, refl, sym, ap, ◌∙◌, ◌≢◌, inl, inr, Bool, true, false, Option, none, some, [], ◌∷◌,
  arith, str_eq, Bool-cases, Option-cases,
}
use garmd.Base.Dict.{Dict, lookup}
use garmd.Toolplane.Refusal.{
  Code, Fault, tool_refusal, validation_refusal, foreign, tool_refusals, is_tool_code,
  code_of_answer, code_for,
}

-- The codes of a table are none of two.
abbrev Answers : Dict (Code × String) → Type 0
Answers [] = Unit
Answers ((k, (c, text)) ∷ m) = (c ≢ Code.internal) × (c ≢ Code.unknown) × Answers m

Answers-lookup :
    (m : Dict (Code × String)) (code : String) (r : Code × String)
    → Answers m
    → lookup code m ≡ some r
    → (r.0 ≢ Code.internal) × (r.0 ≢ Code.unknown)
unfolding lookup
Answers-lookup [] code r a h = absurd (ground arith)
Answers-lookup ((k, (c, text)) ∷ m) code (d, said) a h = elim (Bool-cases (str_eq k code)) [
  | inl e ↦ (λ f. a.0 (ground arith), λ f. a.1 (ground arith))
  | inr e ↦ Answers-lookup m code (d, said) a.2 (ground arith)
]

tool_refusals-Answers : Answers tool_refusals
tool_refusals-Answers = (
  λ e. ground arith,
  λ e. ground arith,
  (
    λ e. ground arith,
    λ e. ground arith,
    (
      λ e. ground arith,
      λ e. ground arith,
      (
        λ e. ground arith,
        λ e. ground arith,
        (
          λ e. ground arith,
          λ e. ground arith,
          (
            λ e. ground arith,
            λ e. ground arith,
            (
              λ e. ground arith,
              λ e. ground arith,
              (λ e. ground arith, λ e. ground arith, (λ e. ground arith, λ e. ground arith, tt)),
            ),
          ),
        ),
      ),
    ),
  ),
)

tool_refusal-inj :
    {V : Type 0} {a b : String} → ◌≡◌ {A = Fault V} (tool_refusal a) (tool_refusal b) → a ≡ b
tool_refusal-inj e = ground arith

unlisted : (a b : String) → lookup a tool_refusals ≡ none → a ≡ b → is_tool_code b ≡ true → ⊥
unlisted a b e f h =
    no_entry (lookup b tool_refusals) (ap (λ k. lookup k tool_refusals) (sym f) ∙ e) h
  where
    no_entry :
        (o : Option (Code × String))
        → o ≡ none
        → (elim o as (λ x. Bool) [ none ↦ false | some v ↦ true ]) ≡ true
        → ⊥
    no_entry none e h = ground arith
    no_entry (some r) e h = ground arith

-- Every error of the chain's own has a code, which is never the code of an error without one. What
-- a tool answers with a code of the table is never classified as the daemon's own internal error.
pub code_for-IsClassified :
    {V : Type 0} (f : Fault V)
    → ((code : Code) (text : String) → f ≢ foreign code text)
    → (c : Code) × (code_for f ≡ some c)
      × (c ≢ Code.unknown)
      × ((tool : String) → f ≡ tool_refusal tool → is_tool_code tool ≡ true → c ≢ Code.internal)
unfolding code_for
code_for-IsClassified Fault.err_not_found own =
    (Code.not_found, refl, λ e. ground arith, λ t e. absurd (ground arith))
code_for-IsClassified Fault.err_permission_denied own =
    (Code.permission_denied, refl, λ e. ground arith, λ t e. absurd (ground arith))
code_for-IsClassified Fault.err_unauthenticated own =
    (Code.unauthenticated, refl, λ e. ground arith, λ t e. absurd (ground arith))
code_for-IsClassified Fault.err_unimplemented own =
    (Code.unimplemented, refl, λ e. ground arith, λ t e. absurd (ground arith))
code_for-IsClassified Fault.err_internal own =
    (Code.internal, refl, λ e. ground arith, λ t e. absurd (ground arith))
code_for-IsClassified Fault.err_invalid_argument own =
    (Code.invalid_argument, refl, λ e. ground arith, λ t e. absurd (ground arith))
code_for-IsClassified Fault.err_unavailable own =
    (Code.unavailable, refl, λ e. ground arith, λ t e. absurd (ground arith))
code_for-IsClassified (tool_refusal code) own = elim (Option-cases (lookup code tool_refusals)) [
  | inl e ↦ (
    Code.internal,
    ap (λ o. some (code_of_answer o)) e,
    λ f. ground arith,
    λ t f h. absurd (unlisted code t e (tool_refusal-inj f) h),
  )
  | inr (r, e) ↦
      let a = Answers-lookup tool_refusals code r tool_refusals-Answers e in
      (r.0, ap (λ o. some (code_of_answer o)) e, a.1, λ t f h. a.0)
]
code_for-IsClassified (validation_refusal vs) own =
    (Code.invalid_argument, refl, λ e. ground arith, λ t e. absurd (ground arith))
code_for-IsClassified (foreign code text) own = absurd (own code text refl)
