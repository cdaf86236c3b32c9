-- ===== src/Serve/Scrubbed.antt =====
-- The status of a refused call (writeChainErr of internal/serve/serve.go).
use garmd.Base.{ℕ, ◌≤◌, String, ◌||◌, Option, none, some, arith, Bool-cases, inl, inr}
use garmd.ToolDef.{Def}
use garmd.Toolplane.Refusal.{Code, Fault, tool_refusal, validation_refusal, foreign, code_of}
use garmd.Serve.{
  Answer, error, grant_required, violations, tool_refused, listed, replied, ChainError,
  http_status_for, known_or_internal, refuse, status_of, other_error, by_fault, write_chain_err,
}

-- The status line of an answer.
pub status : {V P M : Type 0} → Answer V P M → ℕ
status (error n code text) = n
status (grant_required fqn fields age) = 403
status (violations text vs) = 400
status (tool_refused n code) = n
status (listed p) = 200
status (replied json digest m) = 200

pub IsRefusal : ℕ → Type 0
IsRefusal n = (400 ≤ n) × (n ≤ 599)

http_status_for-IsRefusal : (c : Code) → IsRefusal (http_status_for c)
unfolding http_status_for IsRefusal
http_status_for-IsRefusal c = ground arith

status_of-IsRefusal : (o : Option ℕ) → IsRefusal (status_of o)
unfolding IsRefusal
status_of-IsRefusal none = ground arith
status_of-IsRefusal (some n) = ground arith

module _ {V : Type 0} (P M : Type 0) where
  pub IsRefused : Answer V P M → Type 0
  IsRefused a = IsRefusal (status a)

  refuse-IsRefused : (f : Fault V) → IsRefused (refuse {P = P} {M = M} f)
  unfolding refuse IsRefused status
  refuse-IsRefused f = http_status_for-IsRefusal (known_or_internal (code_of f))

  other_error-IsRefused :
      (def : Def) (e : ChainError V) → IsRefused (other_error {P = P} {M = M} def e)
  unfolding other_error IsRefused status IsRefusal
  other_error-IsRefused def e =
      elim (Bool-cases (e.marks.grant_refused || e.marks.grant_unavailable)) [
        | inl grant ↦ rw grant (http_status_for-IsRefusal Code.permission_denied)
        | inr other ↦ elim (Bool-cases e.marks.unreachable) [
          | inl away ↦ rw other (rw away (ground arith))
          | inr fault ↦ rw other (rw fault (refuse-IsRefused e.fault))
        ]
      ]

  by_fault-IsRefused :
      (parse : String → Option ℕ) (def : Def) (e : ChainError V) (f : Fault V)
      → IsRefused (by_fault {P = P} {M = M} parse def e f)
  unfolding by_fault IsRefused status IsRefusal
  by_fault-IsRefused parse def e (tool_refusal code) = status_of-IsRefusal (parse code)
  by_fault-IsRefused parse def e (validation_refusal vs) = ground arith
  by_fault-IsRefused parse def e Fault.err_not_found = other_error-IsRefused def e
  by_fault-IsRefused parse def e Fault.err_permission_denied = other_error-IsRefused def e
  by_fault-IsRefused parse def e Fault.err_unauthenticated = other_error-IsRefused def e
  by_fault-IsRefused parse def e Fault.err_unimplemented = other_error-IsRefused def e
  by_fault-IsRefused parse def e Fault.err_internal = other_error-IsRefused def e
  by_fault-IsRefused parse def e Fault.err_invalid_argument = other_error-IsRefused def e
  by_fault-IsRefused parse def e Fault.err_unavailable = other_error-IsRefused def e
  by_fault-IsRefused parse def e (foreign code text) = other_error-IsRefused def e

  -- A refused call is answered with a status of 400 to 599, whatever the error, and whatever number
  -- a tool's own code reads as.
  pub write_chain_err-IsRefused :
      (parse : String → Option ℕ) (def : Def) (e : ChainError V)
      → IsRefused (write_chain_err {P = P} {M = M} parse def e)
  unfolding write_chain_err IsRefused status IsRefusal
  write_chain_err-IsRefused parse def e = elim (Bool-cases e.marks.needs_grant) [
    | inl grant ↦ rw grant (ground arith)
    | inr other ↦ rw other (by_fault-IsRefused parse def e e.fault)
  ]
