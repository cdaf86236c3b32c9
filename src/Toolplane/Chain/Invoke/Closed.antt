-- ===== src/Toolplane/Chain/Invoke/Closed.antt =====
-- The traces of a call around the deferred function of invoke (internal/toolplane/core.go).
use garmd.Base.{◌≡◌, refl, Option, List, [], ◌∷◌, Bool-cases, Option-cases, inl, inr}
use garmd.Policy.{Policy}
use garmd.ToolDef.{Def}
use garmd.Toolplane.{Core}
use garmd.Toolplane.Message.{Msg}
use garmd.Toolplane.Ledger.{Event, Trace, recorded, notified, wrote_outcome}
use garmd.Toolplane.Chain.{Seams, Call, End, done, stop, panic, abort}
use garmd.Toolplane.Chain.Steps.{is_audited}
use garmd.Toolplane.Chain.Invoke.{Reply, recovered, closed, with_notice}
use garmd.Toolplane.Chain.Passes.{ran}
use garmd.Toolplane.Chain.Leaves.{IsGrown, IsGrown-further}

-- What the deferred function leaves on top is no run of a resolver.
pub record IsClosed (ts us : List Trace) : Type 0 where
  pub grown : IsGrown ts us
  pub same_run : ran us ≡ ran ts

module _ {C R D V : Type 0} (pol : Policy C R D) (core : Core C R) (steps : Seams C V) where
  pub traces-recovered :
      (e : End V (Option Msg) × Call) → (recovered pol core steps e).2 ≡ e.1.traces
  unfolding recovered
  traces-recovered (done m, c) = refl
  traces-recovered (stop f, c) = refl
  traces-recovered (panic t, c) = refl
  traces-recovered (abort, c) = refl

  noticed-IsClosed :
      (ev : Event) (ts : List Trace)
      → IsClosed ts (with_notice pol core steps ev (recorded ev ∷ ts))
  noticed-IsClosed ev ts = elim (Bool-cases steps.notifies) [
    | inl e ↦ rw e (record { grown = (notified ev ∷ recorded ev ∷ [], refl); same_run = refl })
    | inr e ↦ rw e (record { grown = (recorded ev ∷ [], refl); same_run = refl })
  ]

  pub closed-IsClosed :
      (tool : Option Def) (x : Reply V × Event × List Trace)
      → IsClosed x.2 (closed pol core steps tool x).1
  unfolding closed
  closed-IsClosed tool (reply, ev, ts) =
      let noticed = noticed-IsClosed ev ts in
      elim (Option-cases steps.audit) [
        | inl e ↦ rw e noticed
        | inr (w, e) ↦ rw e (elim (Bool-cases (is_audited pol core steps tool)) [
          | inl f ↦ rw f (record {
            grown =
                IsGrown-further ts (with_notice pol core steps ev (recorded ev ∷ ts)) _
                  noticed.grown (wrote_outcome ev ∷ [], refl);
            same_run = noticed.same_run;
          })
          | inr f ↦ rw f noticed
        ])
      ]
