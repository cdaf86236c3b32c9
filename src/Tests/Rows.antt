-- ===== src/Tests/Rows.antt =====
-- Rows on their way to the ledger: batches that fill, a broker that refuses one, and a drain.
use garmd.Base.{◌≡◌, refl, true, false, String, List, [], ◌∷◌, str_eq, arith, none}
use garmd.Recorder.{
  Event, Config, fresh_recorder, Action, recording, sealing, taking, closing, landing, land, run,
  drain,
}
use garmd.Recorder.Weighs.{kept, weigh}
use garmd.Recorder.Drained.{recorded_by, drain-keeps}
use garmd.Recorder.Bounds.{IsBounded}
use garmd.Recorder.Bounded.{run-IsBounded}

abbrev config : Config
config = record {
  max_events = 2;
  max_bytes = 100;
  max_buffered = 4;
  framed_size = λ ev. 40;
  subject_for = λ tenant app. tenant;
}

abbrev row : String → String → Event
row id tenant = record { id = id; tenant = tenant; app = "pay"; row = "called" }

-- The third row of a tenant seals the first two; the broker refuses them.
abbrev actions : List Action
actions =
    recording "e1" "b1" (row "" "acme")
    ∷ recording "e2" "b2" (row "r2" "acme")
    ∷ recording "e3" "b3" (row "r3" "other")
    ∷ recording "e4" "b4" (row "r4" "acme")
    ∷ taking
    ∷ recording "e5" "b5" (row "r5" "acme")
    ∷ landing false
    ∷ sealing
    ∷ taking
    ∷ closing
    ∷ recording "e6" "b6" (row "r6" "acme")
    ∷ []

drained :
    drain (λ b. str_eq b.subject "other") (land true (run config actions fresh_recorder)) ≡ record {
      opened = [];
      ready = [];
      buffered = 0;
      closed = true;
      flying = none;
      published =
          record { subject = "acme"; id = "b4"; events = row "r4" "acme" ∷ []; bytes = 40 }
          ∷ record { subject = "other"; id = "b3"; events = row "r3" "other" ∷ []; bytes = 40 }
          ∷ [];
      fallback = row "r5" "acme" ∷ row "e1" "acme" ∷ row "r2" "acme" ∷ row "r6" "acme" ∷ [];
    }
unfolding drain run
drained = refl

drain-keeps_example :
    kept (λ ev. 1) (drain (λ b. false) (land true (run config actions fresh_recorder)))
    ≡ weigh (λ ev. 1) (recorded_by actions)
drain-keeps_example = drain-keeps (λ ev. 1) config actions true (λ b. false)

run-IsBounded_example : IsBounded config (run config actions fresh_recorder)
run-IsBounded_example = run-IsBounded config (omega arith) actions
