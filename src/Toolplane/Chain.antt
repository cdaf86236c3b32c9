-- ===== src/Toolplane/Chain.antt =====
-- Invoke of internal/toolplane/core.go: the chain around one call of a tool.
pub mod Steps
pub mod Leaves
pub mod Passes
pub mod Invoke
use garmd.Base.{
  ℕ, String, Bool, true, false, not, ◌&&◌, Option, none, some, List, [], ◌∷◌, ◌++◌, length, str_eq,
  ◌==◌, if◌then◌else◌,
}
use garmd.Base.Dict.{lookup}
use garmd.Policy.{Policy}
use garmd.Principal.{Principal, has}
use garmd.ToolDef.{Def}
use garmd.Toolplane.{Action, Plan, Core, plan_for, need_of, visible}
use garmd.Toolplane.Message.{Msg, descriptor, field_is_set}
use garmd.Toolplane.Refusal.{Code, Fault, is_tool_code}
use garmd.Toolplane.Ledger.{
  Recorded, Detail, Event, InvocationContext, Trace, noted_event_id, asked_pre, asked_grant,
  asked_availability, asked_post, wrote_intent, resolved, noted_redactions, recorded, notified,
  wrote_outcome, new_event, invocation_context,
}

-- What a resolver does: it replies (with no message for a nil), answers with a code of its own,
-- fails, panics, or aborts the connection.
pub data Answer : Type 0 where
  replied : Option Msg → Answer
  answered_code : String → String → Answer
  failed : Code → String → Answer
  panicked : String → Answer
  aborted : Answer

-- The validator: a request in order, the violations it found, or a rule that could not be run.
pub data Validity (V : Type 0) : Type 0 where
  valid : Validity V
  violates : List V → Validity V
  broken : Validity V

-- The instance check behind the resolver: an error, no message, another message, or the same
-- one, filtered in place.
pub data PostAnswer : Type 0 where
  refused_by : String → PostAnswer
  nothing replaced : PostAnswer
  filtered : Msg → PostAnswer

-- What the chain reads of the card walk (Toolplane.Cards): an invalid label, the whole card withheld,
-- or what is left, with the places as the ledger prints them.
pub data CardsAnswer : Type 0 where
  invalid_at : String → CardsAnswer
  gone : CardsAnswer
  projected : Msg → List String → CardsAnswer

pub record Verdict (V : Type 0) : Type 0 where
  pub task_id : String
  pub refusal : Option (Fault V)
  pub text : String

pub record Sanitized : Type 0 where
  pub message : Msg
  pub paths : List String
  pub hash : String
  pub disclosed : ℕ

-- The steps whose implementation may vary, and the others that stand outside core.go. A step
-- that is not declared is `none`; of a check that refuses the answer is its text. `level_audit` is
-- the number of Audit_LEVEL_AUDIT.
pub record Seams (C V : Type 0) : Type 0 where
  pub validate : Msg → Validity V
  pub admitted : Option Def → Principal C → List V → List V
  pub pre : Option (Principal C → Option Def → Msg → Option String)
  pub verify : Option (Principal C → Option Def → Msg → Verdict V)
  pub availability : Option (String → Option String)
  pub audit : Option (Event → Option String)
  pub post : Option (Principal C → Option Def → Msg → PostAnswer)
  pub sanitize : Plan C → Principal C → Msg → Sanitized
  pub has_cards : Msg → Bool
  pub project_cards : Principal C → Option Def → Msg → CardsAnswer
  pub notifies : Bool
  pub level_audit : ℕ

pub record Call : Type 0 where
  pub event : Event
  pub traces : List Trace

-- How a step ends.
pub data End (V A : Type 0) : Type 0 where
  done : A → End V A
  stop : Fault V → End V A
  panic : String → End V A
  abort : End V A

abbrev pub Chain : Type 0 → Type 0 → Type 0
Chain V A = Call → End V A × Call

module _ {V A B : Type 0} where
  abbrev pub continue : (A → Chain V B) → End V A × Call → End V B × Call
  continue f (done a, c) = f a c
  continue f (stop e, c) = (stop e, c)
  continue f (panic text, c) = (panic text, c)
  continue f (abort, c) = (abort, c)

  infixl 5 ◌>>=◌
  abbrev pub ◌>>=◌ : Chain V A → (A → Chain V B) → Chain V B
  (m >>= f) c = continue f (m c)

module _ {V : Type 0} where
  abbrev pub leave : Trace → Chain V Unit
  leave t c = (done tt, record c { traces = t ∷ c.traces })

  -- A return with the row's outcome as it is.
  abbrev pub refuse : {A : Type 0} → Detail → Fault V → Chain V A
  refuse d f c = (stop f, record c { event = record c.event { detail = d } })

  -- A return that sets the outcome too.
  abbrev pub fail : {A : Type 0} → Recorded → Detail → Fault V → Chain V A
  fail o d f c = (stop f, record c { event = record c.event { outcome = o; detail = d } })

  abbrev pub give : {A : Type 0} → A → Chain V A
  give a c = (done a, c)

  abbrev pub pass : Chain V Unit
  pass = give tt

  abbrev pub panics : {A : Type 0} → String → Chain V A
  panics text c = (panic text, c)

  abbrev pub aborts : {A : Type 0} → Chain V A
  aborts c = (abort, c)

  -- What follows a test for nil.
  abbrev pub on_option : {A B : Type 0} → Option A → Chain V B → (A → Chain V B) → Chain V B
  on_option none m f = m
  on_option (some a) m f = f a

  -- The row's tool, once it is known.
  abbrev pub named : {A : Type 0} → String → Chain V A → Chain V A
  named tool m c = m (record c { event = record c.event { tool = tool } })

  -- The row's ErrorKind, before a return.
  abbrev pub of_kind : {A : Type 0} → String → Chain V A → Chain V A
  of_kind kind m c = m (record c { event = record c.event { error_kind = kind } })
