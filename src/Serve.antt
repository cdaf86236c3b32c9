-- ===== src/Serve.antt =====
-- internal/serve/serve.go: what the HTTP surface answers when the chain refuses a call.
pub mod Handler
pub mod Scrubbed
pub mod Order
pub mod Planes
pub mod ListTools
pub mod Reconcile
use Prim.Native.String.{◌++◌ as joined}
use garmd.Base.{
  ℕ, ◌/◌, String, Bool, true, false, ◌||◌, ◌&&◌, Option, none, some, List, str_eq, ltb,
  if◌then◌else◌,
}
use garmd.ToolDef.{Def}
use garmd.Toolplane.Refusal.{
  Code, Fault, tool_refusal, validation_refusal, foreign, code_of, static_message,
}

-- An answer: the error shapes of writeErr, writeGrantRequired, writeViolations and
-- writeToolRefused, the catalogue's listing, and a reply of a tool with its media type and the
-- digest of the catalogue it was served from.
pub data Answer (V P M : Type 0) : Type 0 where
  error : ℕ → String → String → Answer V P M
  grant_required : String → List String → ℕ → Answer V P M
  violations : String → List V → Answer V P M
  tool_refused : ℕ → String → Answer V P M
  listed : P → Answer V P M
  replied : Bool → String → M → Answer V P M

-- What errors.Is finds in the chain of an error besides its code.
pub record Marks : Type 0 where
  pub needs_grant : Bool
  pub grant_refused : Bool
  pub grant_unavailable : Bool
  pub unreachable : Bool

pub record ChainError (V : Type 0) : Type 0 where
  pub fault : Fault V
  pub marks : Marks

-- Code.String
abbrev pub code_name : Code → String
code_name Code.not_found = "not_found"
code_name Code.permission_denied = "permission_denied"
code_name Code.unauthenticated = "unauthenticated"
code_name Code.unimplemented = "unimplemented"
code_name Code.internal = "internal"
code_name Code.invalid_argument = "invalid_argument"
code_name Code.unavailable = "unavailable"
code_name Code.aborted = "aborted"
code_name Code.resource_exhausted = "resource_exhausted"
code_name Code.deadline_exceeded = "deadline_exceeded"
code_name Code.unknown = "unknown"

-- httpStatusFor
unfoldable pub http_status_for : Code → ℕ
http_status_for Code.invalid_argument = 400
http_status_for Code.unauthenticated = 401
http_status_for Code.permission_denied = 403
http_status_for Code.not_found = 404
http_status_for Code.unimplemented = 404
http_status_for Code.unavailable = 503
http_status_for Code.internal = 500
http_status_for Code.aborted = 500
http_status_for Code.resource_exhausted = 500
http_status_for Code.deadline_exceeded = 500
http_status_for Code.unknown = 500

abbrev pub known_or_internal : Code → Code
known_or_internal Code.unknown = Code.internal
known_or_internal Code.not_found = Code.not_found
known_or_internal Code.permission_denied = Code.permission_denied
known_or_internal Code.unauthenticated = Code.unauthenticated
known_or_internal Code.unimplemented = Code.unimplemented
known_or_internal Code.internal = Code.internal
known_or_internal Code.invalid_argument = Code.invalid_argument
known_or_internal Code.unavailable = Code.unavailable
known_or_internal Code.aborted = Code.aborted
known_or_internal Code.resource_exhausted = Code.resource_exhausted
known_or_internal Code.deadline_exceeded = Code.deadline_exceeded

-- writeToolRefused. `parse` is strconv.Atoi, `none` on an error.
abbrev pub status_of : Option ℕ → ℕ
status_of none = 500
status_of (some n) = if ltb n 400 || ltb 599 n then 500 else n

module _ {V P M : Type 0} where
  abbrev pub error_of : Code → Answer V P M
  unfolding http_status_for static_message
  error_of c = error (http_status_for c) (code_name c) (static_message c)

  -- refuse, and codeToAnswerWith
  unfoldable pub refuse : Fault V → Answer V P M
  unfolding code_of http_status_for static_message
  refuse f = error_of (known_or_internal (code_of f))

  -- The cases of writeChainErr behind the refusal of a grant and the broken request.
  unfoldable pub other_error : Def → ChainError V → Answer V P M
  unfolding refuse static_message http_status_for
  other_error def e =
      if e.marks.grant_refused || e.marks.grant_unavailable
      then error_of Code.permission_denied
      else if e.marks.unreachable
      then error 503 "unavailable" (joined def.fqn " is declared but no service is serving it")
      else refuse e.fault

  module _ (parse : String → Option ℕ) where
    unfoldable pub by_fault : Def → ChainError V → Fault V → Answer V P M
    unfolding other_error static_message
    by_fault def e (tool_refusal code) = tool_refused (status_of (parse code)) code
    by_fault def e (validation_refusal vs) = violations (static_message Code.invalid_argument) vs
    by_fault def e f = other_error def e

    -- writeChainErr
    unfoldable pub write_chain_err : Def → ChainError V → Answer V P M
    unfolding by_fault
    write_chain_err def e =
        if e.marks.needs_grant
        then grant_required def.fqn def.material_fields (def.max_grant_age / 1000000000)
        else by_fault def e e.fault
