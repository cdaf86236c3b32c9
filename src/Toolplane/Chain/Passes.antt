-- ===== src/Toolplane/Chain/Passes.antt =====
-- What a step of internal/toolplane/core.go lets through, and before it the resolver does not run.
pub mod Each
pub mod Intent
use garmd.Base.{
  String, ◌≡◌, refl, sym, subst, ap, ◌∙◌, Bool, true, false, not, ◌&&◌, Option, none, some, List,
  [], ◌∷◌, arith, if◌then◌else◌, str_eq, All, Bool-cases, Option-cases, inl, inr,
}
use garmd.Base.Dict.{lookup}
use garmd.Policy.{Policy}
use garmd.Principal.{Principal}
use garmd.ToolDef.{Def}
use garmd.Toolplane.{Action, Plan, Core, plan_for, visible}
use garmd.Toolplane.Message.{Msg, descriptor, field_is_set}
use garmd.Toolplane.Refusal.{Fault}
use garmd.Toolplane.Ledger.{
  Recorded, Detail, Event, InvocationContext, Trace, resolved, asked_pre, asked_grant,
  asked_availability, wrote_intent, recorded, notified, wrote_outcome, new_event,
  invocation_context,
}
use garmd.Toolplane.Chain.{
  Answer, Verdict, Validity, valid, violates, broken, Seams, Call, End, done, stop, panic, abort,
  Chain, continue, ◌>>=◌, leave, refuse, fail, named, give, on_option, pass,
}
use garmd.Toolplane.Chain.Steps.{
  unwritable, check_input_writes, validated, validate_input, fga_pre, tag_task, verify_grant,
  check_availability, fails_closed, is_audited, as_intent, intent_written, write_intent,
  audit_intent, resolve,
}

pub some-inj : {A : Type 0} {a b : A} → some a ≡ some b → a ≡ b
some-inj e = ground arith

-- The resolver ran.
abbrev pub ran : List Trace → Bool
ran [] = false
ran (resolved ic ∷ ts) = true
ran (t ∷ ts) = ran ts

unheard :
    (t : Trace) (ts : List Trace) → ran (t ∷ []) ≡ false → ran ts ≡ false → ran (t ∷ ts) ≡ false
unheard (resolved ic) ts e quiet = absurd (ground arith)
unheard t ts e quiet = ground arith

-- The row is still that of the call, and as it was opened but for the task.
pub record IsOf (who ev : Event) : Type 0 where
  pub same_id : ev.id ≡ who.id
  pub same_tool : ev.tool ≡ who.tool
  pub same_attribution : ev.attribution ≡ who.attribution
  pub is_open : ev.outcome ≡ Recorded.denied

abbrev pub IsBefore : Event → Call → Type 0
IsBefore who c = (ran c.traces ≡ false) × IsOf who c.event

-- A step that runs no resolver, and goes on only where P holds.
abbrev pub PassedOr : {V A : Type 0} → Event → Type 0 → End V A × Call → Type 0
PassedOr who P (done a, c) = P × IsBefore who c
PassedOr who P (e, c) = ran c.traces ≡ false

pub record Passes {V A : Type 0} (who : Event) (P : Type 0) (m : Chain V A) : Type 0 where
  pub run : (c : Call) → IsBefore who c → PassedOr who P (m c)

-- A step that runs the resolver only where Q holds of the traces that it ends with.
pub record Needs {V A : Type 0} (who : Event) (Q : List Trace → Type 0) (m : Chain V A)
    : Type 0 where
  pub from : (c : Call) → IsBefore who c → ran (m c).1.traces ≡ true → Q (m c).1.traces

module _ {V : Type 0} {who : Event} where
  pub continue-Needs :
      {A B P : Type 0} {Q : List Trace → Type 0} (e : End V A × Call) (f : A → Chain V B)
      → PassedOr who P e
      → (P → (a : A) → Needs who Q (f a))
      → ran (continue f e).1.traces ≡ true
      → Q (continue f e).1.traces
  continue-Needs (done a, c) f was k r = (k was.0 a).from c was.1 r
  continue-Needs (stop x, c) f was k r = absurd (ground arith)
  continue-Needs (panic x, c) f was k r = absurd (ground arith)
  continue-Needs (abort, c) f was k r = absurd (ground arith)

  pub >>=-Needs :
      {A B P : Type 0} {Q : List Trace → Type 0} (m : Chain V A) (f : A → Chain V B)
      → Passes who P m
      → (P → (a : A) → Needs who Q (f a))
      → Needs who Q (m >>= f)
  >>=-Needs m f h k = record { from = λ c quiet r. continue-Needs (m c) f (h.run c quiet) k r }

  pub on_option-Passes :
      {A B : Type 0} (P : Type 0) (x : Option A) (m : Chain V B) (f : A → Chain V B)
      → (x ≡ none → Passes who P m)
      → ((a : A) → x ≡ some a → Passes who P (f a))
      → Passes who P (on_option x m f)
  on_option-Passes P none m f h k = h refl
  on_option-Passes P (some a) m f h k = k a refl

  pub if-Passes :
      {A : Type 0} (P : Type 0) (b : Bool) (m n : Chain V A)
      → (b ≡ true → Passes who P m)
      → (b ≡ false → Passes who P n)
      → Passes who P (if b then m else n)
  if-Passes P true m n h k = h refl
  if-Passes P false m n h k = k refl

  pub give-Passes : {A : Type 0} (P : Type 0) (a : A) → P → Passes {V = V} who P (give a)
  give-Passes P a h = record { run = λ c quiet. (h, quiet) }

  pub refuse-Passes :
      {A : Type 0} (P : Type 0) (d : Detail) (f : Fault V) → Passes {A = A} who P (refuse d f)
  refuse-Passes P d f = record { run = λ c quiet. quiet.0 }

  pub fail-Passes :
      {A : Type 0} (P : Type 0) (o : Recorded) (d : Detail) (f : Fault V)
      → Passes {A = A} who P (fail o d f)
  fail-Passes P o d f = record { run = λ c quiet. quiet.0 }

  -- A check of an optional answer: none lets the call go on.
  pub check-Passes :
      {A : Type 0} (P : Type 0) (x : Option A) (d : A → Detail) (f : A → Fault V)
      → (x ≡ none → P)
      → Passes who P (on_option x pass λ a. refuse (d a) (f a))
  check-Passes P x d f h =
      on_option-Passes P x _ _ (λ e. give-Passes P tt (h e)) (λ a e. refuse-Passes P (d a) (f a))

  pub asked-Passes :
      {A : Type 0} (P : Type 0) (t : Trace) (m : Chain V A)
      → ran (t ∷ []) ≡ false
      → Passes who P m
      → Passes who P (leave t >>= λ u. m)
  asked-Passes P t m e h = record {
    run = λ c quiet.
        h.run (record c { traces = t ∷ c.traces }) (unheard t c.traces e (quiet.0), quiet.1);
  }

  pub never-Needs :
      {A : Type 0} (Q : List Trace → Type 0) (m : Chain V A)
      → ((c : Call) → (m c).1.traces ≡ c.traces)
      → Needs who Q m
  never-Needs Q m same = record { from = λ c quiet r. absurd (ground (arith, same c, quiet.0)) }
