-- ===== src/Toolplane/Refusal.antt =====
-- internal/toolplane/errors.go: the refusals of the chain, and what each is on the wire.
pub mod Codes
use garmd.Base.{String, Bool, true, false, Option, none, some, List, [], ◌∷◌, str_eq, if◌then◌else◌}
use garmd.Base.Dict.{Dict, lookup, has_key}

-- connect.Code, as far as the chain uses it; `unknown` is what an error without a code has.
pub data Code : Type 0 where
  not_found permission_denied unauthenticated unimplemented internal : Code
  invalid_argument unavailable aborted resource_exhausted deadline_exceeded unknown : Code

-- An error that Invoke returns: the sentinels, a tool's own refusal, a validation refusal with
-- the violations it lists, and any other error (a resolver's or a verifier's) with its code.
pub data Fault (V : Type 0) : Type 0 where
  err_not_found err_permission_denied err_unauthenticated err_unimplemented : Fault V
  err_internal err_invalid_argument err_unavailable : Fault V
  tool_refusal : String → Fault V
  validation_refusal : List V → Fault V
  foreign : Code → String → Fault V

-- toolRefusals: the codes that a tool may answer with.
abbrev pub tool_refusals : Dict (Code × String)
tool_refusals =
    ("400", (Code.invalid_argument, "the tool rejected the request as malformed"))
    ∷ ("403", (Code.permission_denied, "the tool refused this request"))
    ∷ ("404", (Code.not_found, "the tool found nothing for this request"))
    ∷ ("409", (Code.aborted, "the tool reports a conflict with its current state"))
    ∷ ("415", (Code.invalid_argument, "the tool does not accept the media type it was given"))
    ∷ ("422", (Code.invalid_argument, "the tool could not process the request as given"))
    ∷ ("429", (Code.resource_exhausted, "the tool is limiting its rate; retry later"))
    ∷ ("502", (Code.unavailable, "the tool's upstream answered with an error"))
    ∷ ("504", (Code.deadline_exceeded, "the tool's upstream did not answer in time"))
    ∷ []

-- The test of toolRefusalOf on the code of an answer.
abbrev pub is_tool_code : String → Bool
is_tool_code code = has_key code tool_refusals

abbrev pub code_of_answer : Option (Code × String) → Code
code_of_answer none = Code.internal
code_of_answer (some (c, text)) = c

module _ {V : Type 0} where
  -- codeFor. A ValidationRefusal unwraps to errInvalidArgument.
  unfoldable pub code_for : Fault V → Option Code
  code_for Fault.err_not_found = some Code.not_found
  code_for Fault.err_permission_denied = some Code.permission_denied
  code_for Fault.err_unauthenticated = some Code.unauthenticated
  code_for Fault.err_unimplemented = some Code.unimplemented
  code_for Fault.err_internal = some Code.internal
  code_for Fault.err_invalid_argument = some Code.invalid_argument
  code_for Fault.err_unavailable = some Code.unavailable
  code_for (tool_refusal code) = some (code_of_answer (lookup code tool_refusals))
  code_for (validation_refusal vs) = some Code.invalid_argument
  code_for (foreign code text) = none

  -- CodeOf: connect.CodeOf behind asConnectError, where a foreign error keeps its own code.
  unfoldable pub code_of : Fault V → Code
  unfolding code_for
  code_of (foreign code text) = code
  code_of f = elim (code_for f) [ none ↦ Code.unknown | some c ↦ c ]

-- ScrubError, of an error that carries this code: staticMessages, with the fallback.
unfoldable pub static_message : Code → String
static_message Code.not_found = "not found"
static_message Code.permission_denied = "permission denied"
static_message Code.invalid_argument = "invalid argument"
static_message Code.internal = "internal error"
static_message Code.unavailable = "unavailable"
static_message Code.unauthenticated = "unauthenticated"
static_message Code.unimplemented = "unimplemented"
static_message Code.aborted = "aborted"
static_message Code.resource_exhausted = "resource exhausted"
static_message Code.deadline_exceeded = "deadline exceeded"
static_message Code.unknown = "request failed"
