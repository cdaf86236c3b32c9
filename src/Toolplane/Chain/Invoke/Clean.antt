-- ===== src/Toolplane/Chain/Invoke/Clean.antt =====
-- What the caller of internal/toolplane/core.go learns.
use garmd.Base.{
  String, ◌≡◌, refl, subst, ◌∙◌, ◌⊎◌, inl, inr, false, Option, none, some, List, ◌++◌, arith,
  Bool-cases, Option-cases,
}
use garmd.Base.Dict.{lookup}
use garmd.Policy.{Policy}
use garmd.Principal.{Principal}
use garmd.ToolDef.{Def}
use garmd.Toolplane.{Plan, Core, plan_for, visible}
use garmd.Toolplane.Message.{Msg, descriptor}
use garmd.Toolplane.Ledger.{invocation_context}
use garmd.Toolplane.Chain.{
  CardsAnswer, invalid_at, gone, projected, Sanitized, Seams, Call, End, done, stop, panic, abort,
  Chain, continue, ◌>>=◌,
}
use garmd.Toolplane.Chain.Steps.{
  check_input_writes, validate_input, fga_pre, verify_grant, check_availability, audit_intent,
  resolve, fga_post, note_redactions, cards_projected, sanitize_with, sanitize,
}
use garmd.Toolplane.Chain.Invoke.{
  Request, answered, after_resolver, governed, planned, with_message, found, body, recovered,
  closed, opened, invoke,
}

-- A step that ends with a value ends with one that has Q.
record Gives {V A : Type 0} (Q : A → Type 0) (m : Chain V A) : Type 0 where
  from : (c : Call) (a : A) → (m c).0 ≡ done a → Q a

done-inj : {V A : Type 0} {a b : A} → ◌≡◌ {A = End V A} (done a) (done b) → a ≡ b
done-inj e = ground arith

some-inj : {A : Type 0} {a b : A} → some a ≡ some b → a ≡ b
some-inj e = ground arith

module _ {V : Type 0} where
  continue-Gives :
      {A B : Type 0} (P : A → Type 0) (Q : B → Type 0) (e : End V A × Call) (f : A → Chain V B)
      (b : B)
      → ((a : A) → e.0 ≡ done a → P a)
      → ((a : A) → P a → Gives Q (f a))
      → (continue f e).0 ≡ done b
      → Q b
  continue-Gives P Q (done a, c) f b h k r = (k a (h a refl)).from c b r
  continue-Gives P Q (stop x, c) f b h k r = absurd (ground arith)
  continue-Gives P Q (panic x, c) f b h k r = absurd (ground arith)
  continue-Gives P Q (abort, c) f b h k r = absurd (ground arith)

  >>=-Gives :
      {A B : Type 0} (P : A → Type 0) (Q : B → Type 0) (m : Chain V A) (f : A → Chain V B)
      → Gives P m
      → ((a : A) → P a → Gives Q (f a))
      → Gives Q (m >>= f)
  >>=-Gives P Q m f h k = record { from = λ c b r. continue-Gives P Q (m c) f b (h.from c) k r }

  -- A step whose value does not matter.
  then-Gives :
      {A B : Type 0} (Q : B → Type 0) (m : Chain V A) (f : A → Chain V B)
      → ((a : A) → Gives Q (f a))
      → Gives Q (m >>= f)
  then-Gives Q m f k = >>=-Gives (λ a. Unit) Q m f (record { from = λ c a r. tt }) (λ a u. k a)

module _ {C R D V : Type 0} (pol : Policy C R D) (core : Core C R) (steps : Seams C V) where
  -- The message is what the plan of some live reply, and the card walk where it applies, left.
  pub record IsClean (p : Principal C) (tool : Option Def) (m : Msg) : Type 0 where
    pub reply : Msg
    pub plan : Plan C
    pub classified : plan_for pol core (descriptor reply) ≡ some plan
    pub left :
        ((steps.has_cards (steps.sanitize plan p reply).message ≡ false)
          × (m ≡ (steps.sanitize plan p reply).message))
        ⊎ ((paths : List String) × (steps.project_cards p tool (steps.sanitize plan p reply).message
              ≡ projected m paths))

  note_redactions-Gives :
      (Q : Msg → Type 0) (m : Msg) (paths : List String) (s : Sanitized)
      → Q m
      → Gives {V = V} Q (note_redactions pol core steps m paths s)
  unfolding note_redactions
  note_redactions-Gives Q m paths s h = record { from = λ c a r. subst Q (done-inj r) h }

  cards_projected-Gives :
      (Q : Msg → Type 0) (s : Sanitized) (a : CardsAnswer)
      → ((m : Msg) (paths : List String) → a ≡ projected m paths → Q m)
      → Gives {V = V} Q (cards_projected pol core steps s a)
  unfolding cards_projected
  cards_projected-Gives Q s (invalid_at path) h = record { from = λ c a r. absurd (ground arith) }
  cards_projected-Gives Q s gone h = record { from = λ c a r. absurd (ground arith) }
  cards_projected-Gives Q s (projected m paths) h =
      note_redactions-Gives Q m (s.paths ++ paths) s (h m paths refl)

  sanitize_with-Gives :
      (p : Principal C) (tool : Option Def) (reply : Msg) (plan : Plan C)
      → plan_for pol core (descriptor reply) ≡ some plan
      → Gives (IsClean p tool) (sanitize_with pol core steps p tool (steps.sanitize plan p reply))
  unfolding sanitize_with
  sanitize_with-Gives p tool reply plan e =
      let s = steps.sanitize plan p reply in
      elim (Bool-cases (steps.has_cards s.message)) [
        | inl cards ↦
            rw (cards, sanitize_with)
              (cards_projected-Gives (IsClean p tool) s (steps.project_cards p tool s.message)
                (λ m paths f. record {
                  reply = reply;
                  plan = plan;
                  classified = e;
                  left = inr (paths, f);
                }))
        | inr plain ↦
            rw (plain, sanitize_with)
              (note_redactions-Gives (IsClean p tool) s.message s.paths s
                (record { reply = reply; plan = plan; classified = e; left = inl (plain, refl) }))
      ]

  sanitize-Gives :
      (p : Principal C) (tool : Option Def) (resp : Msg)
      → Gives (IsClean p tool) (sanitize pol core steps p tool resp)
  unfolding sanitize
  sanitize-Gives p tool resp = elim (Option-cases (plan_for pol core (descriptor resp))) [
    | inl e ↦ rw (e, sanitize) (record { from = λ c a r. absurd (ground arith) })
    | inr (plan, e) ↦ rw (e, sanitize) (sanitize_with-Gives p tool resp plan e)
  ]

  abbrev AllClean : Principal C → Option Def → Option Msg → Type 0
  AllClean p tool out = (m : Msg) → out ≡ some m → IsClean p tool m

  after_resolver-Gives :
      (p : Principal C) (tool : Option Def) (m : Option Msg)
      → Gives (AllClean p tool) (after_resolver pol core steps p tool m)
  unfolding after_resolver
  after_resolver-Gives p tool none = record { from = λ c a r m e. absurd (ground arith) }
  after_resolver-Gives p tool (some resp) =
      then-Gives (AllClean p tool) (fga_post pol core steps p tool resp) _ λ kept.
        >>=-Gives (IsClean p tool) (AllClean p tool) _ _ (sanitize-Gives p tool kept) λ clean is.
          record { from = λ c a r m e. subst (IsClean p tool) (some-inj (done-inj r ∙ e)) is }

  governed-Gives :
      (r : Request) (p : Principal C) (tool : Option Def) (req : Msg)
      → Gives (AllClean p tool) (governed pol core steps r p tool req)
  unfolding governed
  governed-Gives r p tool req =
      then-Gives (AllClean p tool) (check_input_writes pol core steps p req) _ λ writable.
        then-Gives (AllClean p tool) (validate_input pol core steps p tool req) _ λ well_formed.
          then-Gives (AllClean p tool) (fga_pre pol core steps p tool req) _ λ permitted.
            then-Gives (AllClean p tool) (verify_grant pol core steps p tool req) _ λ approved.
              then-Gives (AllClean p tool) (check_availability pol core steps tool) _ λ reachable.
                then-Gives (AllClean p tool) (audit_intent pol core steps tool) _ λ intended.
                  then-Gives (AllClean p tool)
                    (resolve pol core steps r.resolver
                      (invocation_context p r.event_id r.fresh_correlation r.correlation) req)
                    _ λ resp. after_resolver-Gives p tool resp

  planned-Gives :
      (r : Request) (p : Principal C) (tool : Option Def) (req : Msg)
      → Gives (AllClean p tool) (planned pol core steps r p tool req)
  unfolding planned
  planned-Gives r p none req = elim (Option-cases (plan_for pol core (descriptor req))) [
    | inl e ↦ rw (e, planned) (record { from = λ c a r. absurd (ground arith) })
    | inr (plan, e) ↦ rw (e, planned) (governed-Gives r p none req)
  ]
  planned-Gives r p (some t) req = governed-Gives r p (some t) req

  with_message-Gives :
      (r : Request) (p : Principal C) (tool : Option Def) (m : Option Msg)
      → Gives (AllClean p tool) (with_message pol core steps r p tool m)
  unfolding with_message
  with_message-Gives r p tool none = record { from = λ c a r. absurd (ground arith) }
  with_message-Gives r p tool (some req) = planned-Gives r p tool req

  found-Gives :
      (r : Request) (p : Principal C) (tool : Option Def)
      → Gives (AllClean p tool) (found pol core steps r p tool)
  unfolding found
  found-Gives r p none = with_message-Gives r p none r.message
  found-Gives r p (some t) = elim (Bool-cases (visible pol core (some p) t)) [
    | inl seen ↦
        rw (seen, found)
          (record {
            from = λ c a e.
                (with_message-Gives r p (some t) r.message).from
                  (record c { event = record c.event { tool = t.name } }) a e;
          })
    | inr hidden ↦ rw (hidden, found) (record { from = λ c a r. absurd (ground arith) })
  ]

  answered-recovered :
      (e : End V (Option Msg) × Call) (m : Msg)
      → (recovered pol core steps e).0 ≡ answered (some m)
      → e.0 ≡ done (some m)
  unfolding recovered
  answered-recovered (done a, c) m h = ground arith
  answered-recovered (stop f, c) m h = absurd (ground arith)
  answered-recovered (panic t, c) m h = absurd (ground arith)
  answered-recovered (abort, c) m h = absurd (ground arith)

  -- Every message that a caller is answered with is what the compiled plan of its own live type
  -- left, further projected by the card walk where its type carries cards.
  pub invoke-IsClean :
      (r : Request) (p : Principal C) (m : Msg)
      → (invoke pol core steps r (some p)).0 ≡ answered (some m)
      → IsClean p (lookup r.procedure core.tools) m
  unfolding invoke closed body
  invoke-IsClean r p m h =
      (found-Gives r p (lookup r.procedure core.tools)).from (opened pol core steps r (some p))
        (some m)
        (answered-recovered (body pol core steps r (some p) (opened pol core steps r (some p))) m h)
        m refl
