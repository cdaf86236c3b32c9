-- ===== src/Toolplane/Chain/Invoke/Intent.antt =====
-- Where the intent of an audited call stands among its traces (internal/toolplane/core.go).
use garmd.Base.{◌≡◌, String, true, false, Option, none, some, List, ◌∷◌, ◌++◌, arith, ap, ◌∙◌}
use garmd.Policy.{Policy}
use garmd.Principal.{Principal}
use garmd.ToolDef.{Def}
use garmd.Toolplane.{Core}
use garmd.Toolplane.Message.{Msg}
use garmd.Toolplane.Ledger.{
  Recorded, Event, InvocationContext, Trace, wrote_intent, resolved, new_event, attribution_of,
  invocation_context,
}
use garmd.Toolplane.Chain.{Answer, Seams, Call, End, done, stop, panic, abort, continue, ◌>>=◌}
use garmd.Toolplane.Chain.Steps.{resolve}
use garmd.Toolplane.Chain.Leaves.{IsGrown, IsGrown-further, >>=-Leaves}
use garmd.Toolplane.Chain.Leaves.Each.{answer-Leaves}
use garmd.Toolplane.Chain.Passes.{ran, some-inj}
use garmd.Toolplane.Chain.Passes.Intent.{Intended, IntendedOr}
use garmd.Toolplane.Chain.Invoke.{Request, after_resolver}
use garmd.Toolplane.Chain.Invoke.Rows.{after_resolver-Leaves}

module _ {C R D V : Type 0} (pol : Policy C R D) (core : Core C R) (steps : Seams C V) where
  -- The sink took the intent of this call of the tool, and the resolver of the call ran right after that.
  pub record HasIntent (r : Request) (p : Principal C) (t : Def) (write : Event → Option String)
      (ts : List Trace) : Type 0 where
    pub ev : Event
    pub before : List Trace
    pub own_id : ev.id ≡ r.event_id
    pub own_tool : ev.tool ≡ t.name
    pub own_caller : ev.attribution ≡ attribution_of pol core.reg (some p)
    pub is_intent : ev.outcome ≡ Recorded.intent
    pub taken : write ev ≡ none
    pub in_order :
        IsGrown
          (resolved (invocation_context p r.event_id r.fresh_correlation r.correlation)
            ∷ wrote_intent ev
            ∷ before)
          ts

  -- Of a tool that is audited and fails closed, where there is a sink.
  abbrev pub OnRecord : Request → Principal C → Option Def → List Trace → Type 0
  OnRecord r p tool ts =
      (t : Def)
      → tool ≡ some t
      → (write : Event → Option String) → steps.audit ≡ some write
      → t.audit_level ≡ steps.level_audit
      → t.audit_fail_closed ≡ true
      → HasIntent r p t write ts

  pub OnRecord-grown :
      (r : Request) (p : Principal C) (tool : Option Def) (ts us : List Trace)
      → IsGrown ts us
      → OnRecord r p tool ts
      → OnRecord r p tool us
  OnRecord-grown r p tool ts us more h t e write f audited closed =
      let is = h t e write f audited closed in
      record {
        ev = is.ev;
        before = is.before;
        own_id = is.own_id;
        own_tool = is.own_tool;
        own_caller = is.own_caller;
        is_intent = is.is_intent;
        taken = is.taken;
        in_order = IsGrown-further _ ts us is.in_order more;
      }

  -- The row of a call once its tool is known.
  unfoldable pub row_of : Request → Principal C → Option Def → Event
  unfolding new_event
  row_of r p none = new_event pol core.reg r.event_id (some p) r.procedure
  row_of r p (some t) = record (new_event pol core.reg r.event_id (some p) r.procedure) {
    tool = t.name;
  }

  resolve-IsGrown :
      (fn : Option (InvocationContext → Msg → Answer)) (ic : InvocationContext) (req : Msg)
      (p : Principal C) (tool : Option Def) (c : Call)
      → ran c.traces ≡ false
      → c.event.outcome ≡ Recorded.denied
      → ran
          ((resolve pol core steps fn ic req >>= λ resp. after_resolver pol core steps p tool resp)
            c).1.traces
        ≡ true
      → IsGrown
          (resolved ic ∷ c.traces)
          ((resolve pol core steps fn ic req >>= λ resp. after_resolver pol core steps p tool resp)
            c).1.traces
  unfolding resolve
  resolve-IsGrown none ic req p tool c quiet d h = absurd (ground arith)
  resolve-IsGrown (some fn) ic req p tool c quiet d h =
      (>>=-Leaves Recorded.ok _ _ (answer-Leaves pol core steps (fn ic req))
        (λ resp. after_resolver-Leaves pol core steps p tool resp)
        (record c { traces = resolved ic ∷ c.traces }) d).grown

  Intended-OnRecord :
      (r : Request) (p : Principal C) (tool : Option Def) (earlier ts : List Trace)
      → Intended pol core steps (row_of r p tool) tool earlier
      → IsGrown
          (resolved (invocation_context p r.event_id r.fresh_correlation r.correlation) ∷ earlier)
          ts
      → OnRecord r p tool ts
  unfolding row_of
  Intended-OnRecord r p none earlier ts h more t e write f audited closed = absurd (ground arith)
  Intended-OnRecord r p (some u) earlier ts h (later, is) t e write f audited closed =
      let same : u ≡ t = some-inj e in
      let (ev, own, taken, before, top) =
        h write f (ground (arith, audited, ap (λ (d : Def). d.audit_level) same))
          (ap (λ (d : Def). d.audit_fail_closed) same ∙ closed) in
      record {
        ev = ev;
        before = before;
        own_id = own.same_id;
        own_tool = own.same_tool ∙ ap (λ (d : Def). d.name) same;
        own_caller = own.same_attribution;
        is_intent = own.is_intent;
        taken = taken;
        in_order = (
          later,
          is
              ∙ ap
                  (λ x.
                    later
                    ++ (resolved (invocation_context p r.event_id r.fresh_correlation r.correlation)
                        ∷ x))
                  top,
        );
      }

  -- The end of a call whose intent step ended like this.
  pub intent_then :
      (r : Request) (p : Principal C) (tool : Option Def) (req : Msg) (e : End V Unit × Call)
      → IntendedOr pol core steps (row_of r p tool) tool e
      → ran
          (continue
            (λ x.
              resolve pol core steps r.resolver
                (invocation_context p r.event_id r.fresh_correlation r.correlation)
                req
              >>= λ resp. after_resolver pol core steps p tool resp)
            e).1.traces
        ≡ true
      → OnRecord r p tool
          (continue
            (λ x.
              resolve pol core steps r.resolver
                (invocation_context p r.event_id r.fresh_correlation r.correlation)
                req
              >>= λ resp. after_resolver pol core steps p tool resp)
            e).1.traces
  intent_then r p tool req (done a, c) (own, h) has = Intended-OnRecord r p tool c.traces _ h (
      resolve-IsGrown r.resolver (invocation_context p r.event_id r.fresh_correlation r.correlation)
        req p tool c (own.0) own.1.is_open has)
  intent_then r p tool req (stop x, c) quiet has = absurd (ground arith)
  intent_then r p tool req (panic x, c) quiet has = absurd (ground arith)
  intent_then r p tool req (abort, c) quiet has = absurd (ground arith)
