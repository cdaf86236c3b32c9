-- ===== src/Toolplane/Chain/Passes/Intent.antt =====
-- What the intent step of internal/toolplane/core.go writes before a call goes on.
use garmd.Base.{
  if◌then◌else◌, Option-cases, false, String, ◌≡◌, refl, sym, ap, ◌∙◌, true, Option, none, some,
  List, ◌∷◌, arith, Bool-cases, inl, inr,
}
use garmd.Policy.{Policy}
use garmd.ToolDef.{Def}
use garmd.Toolplane.{Core}
use garmd.Toolplane.Ledger.{Trace, Recorded, Event, wrote_intent}
use garmd.Toolplane.Chain.{Seams, on_option, pass, Call, End, done}
use garmd.Toolplane.Chain.Steps.{fails_closed, is_audited, as_intent, write_intent, audit_intent}
use garmd.Toolplane.Chain.Passes.{ran, IsBefore, some-inj}

module _ {C R D V : Type 0} (pol : Policy C R D) (core : Core C R) (steps : Seams C V)
    (who : Event) where
  -- The intent that is written for the call: its own row, with that outcome.
  pub record IsIntent (ev : Event) : Type 0 where
    pub same_id : ev.id ≡ who.id
    pub same_tool : ev.tool ≡ who.tool
    pub same_attribution : ev.attribution ≡ who.attribution
    pub is_intent : ev.outcome ≡ Recorded.intent

  -- Of an audited tool that fails closed, the sink took the intent of the call, and that is the last
  -- trace so far.
  abbrev pub Intended : Option Def → List Trace → Type 0
  Intended tool ts =
      (write : Event → Option String)
      → steps.audit ≡ some write
      → is_audited pol core steps tool ≡ true
      → fails_closed pol core steps tool ≡ true
      → (ev : Event) × IsIntent ev
        × (write ev ≡ none)
        × (before : List Trace) × (ts ≡ wrote_intent ev ∷ before)

  abbrev pub IntendedOr : Option Def → End V Unit × Call → Type 0
  IntendedOr tool (done a, c) = IsBefore who c × Intended tool c.traces
  IntendedOr tool (e, c) = ran c.traces ≡ false

  write_intent-IntendedOr :
      (tool : Option Def) (write : Event → Option String) (c : Call)
      → steps.audit ≡ some write
      → IsBefore who c
      → IntendedOr tool (write_intent pol core steps tool write c)
  unfolding write_intent
  write_intent-IntendedOr tool write c e own =
      elim (Option-cases (write (as_intent pol core steps c.event))) [
        | inl taken ↦
            rw (taken, write_intent)
              (
                own,
                λ other f audited closed. (
                  as_intent pol core steps c.event,
                  record {
                    same_id = own.1.same_id;
                    same_tool = own.1.same_tool;
                    same_attribution = own.1.same_attribution;
                    is_intent = refl;
                  },
                  ap (λ g. g (as_intent pol core steps c.event)) (some-inj (sym f ∙ e)) ∙ taken,
                  c.traces,
                  refl,
                ),
              )
        | inr (text, lost) ↦ elim (Bool-cases (fails_closed pol core steps tool)) [
          | inl closed ↦ rw (lost, write_intent) (rw closed (own.0))
          | inr goes_on ↦
              rw (lost, write_intent)
                (rw goes_on (own, λ other f audited closed. absurd (ground arith)))
        ]
      ]

  pub audit_intent-IntendedOr :
      (tool : Option Def) (c : Call)
      → IsBefore who c
      → IntendedOr tool (audit_intent pol core steps tool c)
  unfolding audit_intent
  audit_intent-IntendedOr tool c own = go steps.audit refl
    where
      go :
          (o : Option (Event → Option String))
          → steps.audit ≡ o
          → IntendedOr tool (
              on_option o pass
                (λ write.
                  if is_audited pol core steps tool
                  then write_intent pol core steps tool write
                  else pass)
                c)
      go none e = (own, λ write f. absurd (ground arith))
      go (some write) e = elim (Bool-cases (is_audited pol core steps tool)) [
        | inl audited ↦ rw audited (write_intent-IntendedOr tool write c e own)
        | inr not_audited ↦ rw not_audited (own, λ other f audited closed. absurd (ground arith))
      ]
