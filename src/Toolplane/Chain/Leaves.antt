-- ===== src/Toolplane/Chain/Leaves.antt =====
-- What every step of internal/toolplane/core.go leaves alone: the row of the call.
pub mod Each
use garmd.Base.{
  ◌++◌, String, ◌≡◌, refl, sym, ap, ◌∙◌, ◌≢◌, ◌↔◌, ◌⊎◌, inl, inr, Bool, true, false, not, Option,
  none, some, List, [], ◌∷◌, arith, if◌then◌else◌, Bool-cases, Option-cases, str_eq,
}
use garmd.Base.Dict.{lookup}
use garmd.Policy.{Policy}
use garmd.Principal.{Principal}
use garmd.ToolDef.{Def}
use garmd.Toolplane.{Core, plan_for, visible}
use garmd.Toolplane.Message.{Msg, descriptor}
use garmd.Toolplane.Refusal.{Code, Fault, is_tool_code}
use garmd.Toolplane.Ledger.{
  Recorded, Detail, Event, Attribution, InvocationContext, Trace, noted_event_id, asked_pre,
  asked_grant, asked_availability, asked_post, wrote_intent, resolved, noted_redactions, recorded,
  notified, wrote_outcome, new_event, invocation_context,
}
use garmd.Toolplane.Chain.{
  Answer, replied, answered_code, failed, panicked, aborted, Validity, valid, violates, broken,
  PostAnswer, refused_by, nothing, replaced, filtered, CardsAnswer, invalid_at, gone, projected,
  Sanitized, Seams, Call, End, done, stop, panic, abort, Chain, continue, ◌>>=◌, leave, refuse,
  fail, named, give, on_option, pass, panics, aborts, of_kind,
}
use garmd.Toolplane.Chain.Steps.{
  unwritable, check_input_writes, validated, validate_input, fga_pre, tag_task, verify_grant,
  check_availability, intent_written, write_intent, audit_intent, as_intent, answer, resolve,
  post_answered, fga_post, note_redactions, cards_projected, sanitize_with, sanitize, is_audited,
  fails_closed,
}

-- The rows among the traces.
abbrev pub rows : List Trace → List Event
rows [] = []
rows (recorded ev ∷ ts) = ev ∷ rows ts
rows (t ∷ ts) = rows ts

abbrev pub outcomes : List Trace → List Event
outcomes [] = []
outcomes (wrote_outcome ev ∷ ts) = ev ∷ outcomes ts
outcomes (t ∷ ts) = outcomes ts

-- The outcome that the row has where a step ends.
abbrev pub OutcomeIs : {V A : Type 0} → Recorded → End V A × Call → Type 0
OutcomeIs o (done a, c) = c.event.outcome ≡ o
OutcomeIs o (e, c) = c.event.outcome ≢ Recorded.ok

-- The latest traces are first, and these are the earlier ones with more on top.
abbrev pub IsGrown : List Trace → List Trace → Type 0
IsGrown earlier ts = (later : List Trace) × (ts ≡ later ++ earlier)

pub IsGrown-further : (ts us vs : List Trace) → IsGrown ts us → IsGrown us vs → IsGrown ts vs
IsGrown-further ts us vs (xs, e) (ys, f) =
    (ys ++ xs, f ∙ ap (λ zs. ys ++ zs) e ∙ sym (append_assoc ys xs ts))
  where
    append_assoc : (xs ys zs : List Trace) → (xs ++ ys) ++ zs ≡ xs ++ (ys ++ zs)
    append_assoc [] ys zs = refl
    append_assoc (x ∷ xs) ys zs = ap (λ rest. x ∷ rest) (append_assoc xs ys zs)

-- A step writes no row of its own, takes no trace away, keeps whose call the row is, and sets the outcome.
pub record Ends {V A : Type 0} (o : Recorded) (c : Call) (e : End V A × Call) : Type 0 where
  pub rows_kept : rows e.1.traces ≡ rows c.traces
  pub outcomes_kept : outcomes e.1.traces ≡ outcomes c.traces
  pub id_kept : e.1.event.id ≡ c.event.id
  pub attribution_kept : e.1.event.attribution ≡ c.event.attribution
  pub grown : IsGrown c.traces e.1.traces
  pub outcome : OutcomeIs o e

abbrev pub Leaves : {V A : Type 0} → Recorded → Chain V A → Type 0
Leaves o m = (c : Call) → c.event.outcome ≡ Recorded.denied → Ends o c (m c)

module _ {V : Type 0} where
  continue-Ends :
      {A B : Type 0} (o : Recorded) (c : Call) (f : A → Chain V B) (e : End V A × Call)
      → Ends Recorded.denied c e
      → ((a : A) → Leaves o (f a))
      → Ends o c (continue f e)
  continue-Ends o c f (done a, d) was h =
      let is = h a d was.outcome in
      record {
        rows_kept = is.rows_kept ∙ was.rows_kept;
        outcomes_kept = is.outcomes_kept ∙ was.outcomes_kept;
        id_kept = is.id_kept ∙ was.id_kept;
        attribution_kept = is.attribution_kept ∙ was.attribution_kept;
        grown = IsGrown-further c.traces d.traces (f a d).1.traces was.grown is.grown;
        outcome = is.outcome;
      }
  continue-Ends o c f (stop x, d) was h = record {
    rows_kept = was.rows_kept;
    outcomes_kept = was.outcomes_kept;
    id_kept = was.id_kept;
    attribution_kept = was.attribution_kept;
    grown = was.grown;
    outcome = was.outcome;
  }
  continue-Ends o c f (panic x, d) was h = record {
    rows_kept = was.rows_kept;
    outcomes_kept = was.outcomes_kept;
    id_kept = was.id_kept;
    attribution_kept = was.attribution_kept;
    grown = was.grown;
    outcome = was.outcome;
  }
  continue-Ends o c f (abort, d) was h = record {
    rows_kept = was.rows_kept;
    outcomes_kept = was.outcomes_kept;
    id_kept = was.id_kept;
    attribution_kept = was.attribution_kept;
    grown = was.grown;
    outcome = was.outcome;
  }

  pub >>=-Leaves :
      {A B : Type 0} (o : Recorded) (m : Chain V A) (f : A → Chain V B)
      → Leaves Recorded.denied m
      → ((a : A) → Leaves o (f a))
      → Leaves o (m >>= f)
  >>=-Leaves o m f h k c d = continue-Ends o c f (m c) (h c d) k

  pub give-Leaves : {A : Type 0} (a : A) → Leaves {V = V} Recorded.denied (give a)
  give-Leaves a c d = record {
    rows_kept = refl;
    outcomes_kept = refl;
    id_kept = refl;
    attribution_kept = refl;
    grown = ([], refl);
    outcome = d;
  }

  pub refuse-Leaves :
      {A : Type 0} (o : Recorded) (d : Detail) (f : Fault V) → Leaves {A = A} o (refuse d f)
  refuse-Leaves o d f c h = record {
    rows_kept = refl;
    outcomes_kept = refl;
    id_kept = refl;
    attribution_kept = refl;
    grown = ([], refl);
    outcome = λ e. ground arith;
  }

  pub fail-Leaves :
      {A : Type 0} (o x : Recorded) (d : Detail) (f : Fault V)
      → x ≢ Recorded.ok
      → Leaves {A = A} o (fail x d f)
  fail-Leaves o x d f ne c h = record {
    rows_kept = refl;
    outcomes_kept = refl;
    id_kept = refl;
    attribution_kept = refl;
    grown = ([], refl);
    outcome = ne;
  }

  pub of_kind-Leaves :
      {A : Type 0} (o : Recorded) (k : String) (m : Chain V A) → Leaves o m → Leaves o (of_kind k m)
  of_kind-Leaves o k m h c d =
      let is = h (record c { event = record c.event { error_kind = k } }) d in
      record {
        rows_kept = is.rows_kept;
        outcomes_kept = is.outcomes_kept;
        id_kept = is.id_kept;
        attribution_kept = is.attribution_kept;
        grown = is.grown;
        outcome = is.outcome;
      }

  pub named-Leaves :
      {A : Type 0} (o : Recorded) (k : String) (m : Chain V A) → Leaves o m → Leaves o (named k m)
  named-Leaves o k m h c d =
      let is = h (record c { event = record c.event { tool = k } }) d in
      record {
        rows_kept = is.rows_kept;
        outcomes_kept = is.outcomes_kept;
        id_kept = is.id_kept;
        attribution_kept = is.attribution_kept;
        grown = is.grown;
        outcome = is.outcome;
      }

  pub leave-Leaves :
      (t : Trace)
      → rows (t ∷ []) ≡ []
      → outcomes (t ∷ []) ≡ []
      → Leaves {V = V} Recorded.denied (leave t)
  leave-Leaves t quiet no_outcome c d = record {
    rows_kept = rows_append t quiet;
    outcomes_kept = outcomes_append t no_outcome;
    id_kept = refl;
    attribution_kept = refl;
    grown = (t ∷ [], refl);
    outcome = d;
  }
    where
      rows_append : (x : Trace) → rows (x ∷ []) ≡ [] → rows (x ∷ c.traces) ≡ rows c.traces
      rows_append (recorded ev) e = absurd (ground arith)
      rows_append (noted_event_id i) e = refl
      rows_append asked_pre e = refl
      rows_append asked_grant e = refl
      rows_append asked_availability e = refl
      rows_append asked_post e = refl
      rows_append (wrote_intent ev) e = refl
      rows_append (resolved ic) e = refl
      rows_append (noted_redactions ps h) e = refl
      rows_append (notified ev) e = refl
      rows_append (wrote_outcome ev) e = refl

      outcomes_append :
          (x : Trace) → outcomes (x ∷ []) ≡ [] → outcomes (x ∷ c.traces) ≡ outcomes c.traces
      outcomes_append (recorded ev) e = refl
      outcomes_append (noted_event_id i) e = refl
      outcomes_append asked_pre e = refl
      outcomes_append asked_grant e = refl
      outcomes_append asked_availability e = refl
      outcomes_append asked_post e = refl
      outcomes_append (wrote_intent ev) e = refl
      outcomes_append (resolved ic) e = refl
      outcomes_append (noted_redactions ps h) e = refl
      outcomes_append (notified ev) e = refl
      outcomes_append (wrote_outcome ev) e = absurd (ground arith)

  pub on_option-Leaves :
      {A B : Type 0} (o : Recorded) (x : Option A) (m : Chain V B) (f : A → Chain V B)
      → Leaves o m
      → ((a : A) → Leaves o (f a))
      → Leaves o (on_option x m f)
  on_option-Leaves o none m f h k = h
  on_option-Leaves o (some a) m f h k = k a

  pub if-Leaves :
      {A : Type 0} (o : Recorded) (b : Bool) (m n : Chain V A)
      → Leaves o m
      → Leaves o n
      → Leaves o (if b then m else n)
  if-Leaves o true m n h k = h
  if-Leaves o false m n h k = k

  -- A step that asks, and refuses on an answer.
  pub asks-Leaves :
      {A : Type 0} (t : Trace) (m : Chain V A) (o : Recorded)
      → rows (t ∷ []) ≡ []
      → outcomes (t ∷ []) ≡ []
      → Leaves o m
      → Leaves o (leave t >>= λ u. m)
  asks-Leaves t m o quiet silent h =
      >>=-Leaves o (leave t) (λ u. m) (leave-Leaves t quiet silent) (λ u. h)
