-- ===== src/Recorder/Drained.antt =====
-- No row is lost or doubled by the recorder (internal/record/jetstream/recorder.go), whatever happens in
-- which order.
use garmd.Base.{
  ℕ, ◌+◌, ◌≡◌, refl, ◌∙◌, String, Bool, true, false, ◌||◌, Option, none, some, List, [], ◌∷◌, leb,
  arith, Bool-cases, inl, inr,
}
use garmd.Recorder.Weighs.{
  weigh, weigh-append, waiting, kept, waiting-put_in, waiting-take_from, waiting-land_from,
  waiting-seal_all,
}
use garmd.Recorder.{
  Event, Batch, Config, State, fresh_recorder, stamped, take_from, take_ready, land_from, land,
  record_event, seal_all, Action, recording, sealing, taking, closing, landing, act, run,
  publish_ready, drain,
}

-- A landing after a take leaves the flusher free and the rest of the batches.
after_landing :
    (accepted : Bool) (s : State) (flying : Option Batch) (ready : List Batch) (b : Batch)
    (bs : List Batch)
    → flying ≡ none
    → ready ≡ b ∷ bs
    → ((land accepted (take_from s flying ready)).ready ≡ bs)
      × ((land accepted (take_from s flying ready)).flying ≡ none)
      × ((land accepted (take_from s flying ready)).opened ≡ s.opened)
after_landing accepted s (some c) ready b bs f r = absurd (ground arith)
after_landing accepted s none [] b bs f r = absurd (ground arith)
after_landing true s none (c ∷ cs) b bs f r = (ground arith, refl, refl)
after_landing false s none (c ∷ cs) b bs f r = (ground arith, refl, refl)

landed :
    (accepted : Bool) (s : State) (flying : Option Batch)
    → s.flying ≡ flying
    → (land_from accepted s flying).flying ≡ none
landed accepted s none f = f
landed true s (some b) f = refl
landed false s (some b) f = refl

-- The events that a sequence of actions records.
abbrev pub recorded_by : List Action → List Event
recorded_by [] = []
recorded_by (recording fresh id ev ∷ acts) = stamped fresh ev ∷ recorded_by acts
recorded_by (sealing ∷ acts) = recorded_by acts
recorded_by (taking ∷ acts) = recorded_by acts
recorded_by (closing ∷ acts) = recorded_by acts
recorded_by (landing accepted ∷ acts) = recorded_by acts

module _ (w : Event → ℕ) where
  -- What is settled and what waits, together.
  abbrev total : State → ℕ
  unfolding waiting kept
  total s = waiting w s + kept w s

  total_split : (s : State) → total s ≡ waiting w s + kept w s
  unfolding waiting kept total
  total_split s = refl

  total-record_event :
      (cfg : Config) (fresh id : String) (ev : Event) (s : State)
      → total (record_event cfg fresh id ev s) ≡ total s + w (stamped fresh ev)
  unfolding record_event waiting kept total
  total-record_event cfg fresh id ev s =
      elim (Bool-cases (s.closed || leb cfg.max_buffered s.buffered)) [
        | inl refused ↦
            rw refused (omega (arith, weigh-append w s.fallback (stamped fresh ev ∷ [])))
        | inr admitted ↦ rw admitted (
            let after =
              waiting-put_in w cfg
                (cfg.subject_for (stamped fresh ev).tenant (stamped fresh ev).app) id
                (stamped fresh ev) s _ refl in
            omega (arith, after.0, after.1))
      ]

  total-take_ready : (s : State) → total (take_ready s) ≡ total s
  unfolding total
  total-take_ready s =
      let same = waiting-take_from w s s.flying s.ready refl refl in omega (arith, same.0, same.1)

  total-land : (accepted : Bool) (s : State) → total (land accepted s) ≡ total s
  unfolding total
  total-land accepted s =
      let moved = waiting-land_from w accepted s s.flying refl in omega (arith, moved.0, moved.1)

  total-seal_all : (s : State) → total (seal_all s) ≡ total s
  unfolding total
  total-seal_all s = let same = waiting-seal_all w s in omega (arith, same.0, same.1)

  closing_lem : (s : State) → total (record s { closed = true }) ≡ total s
  unfolding waiting kept total
  closing_lem s = refl

  total-run :
      (cfg : Config) (acts : List Action) (s : State)
      → total (run cfg acts s) ≡ total s + weigh w (recorded_by acts)
  unfolding run act
  total-run cfg [] s = omega arith
  total-run cfg (recording fresh id ev ∷ acts) s = omega (
    arith,
    total-run cfg acts (record_event cfg fresh id ev s),
    total-record_event cfg fresh id ev s,
  )
  total-run cfg (sealing ∷ acts) s =
      omega (arith, total-run cfg acts (seal_all s), total-seal_all s)
  total-run cfg (taking ∷ acts) s =
      omega (arith, total-run cfg acts (take_ready s), total-take_ready s)
  total-run cfg (closing ∷ acts) s =
      omega (arith, total-run cfg acts (record s { closed = true }), closing_lem s)
  total-run cfg (landing accepted ∷ acts) s =
      omega (arith, total-run cfg acts (land accepted s), total-land accepted s)

  total_fresh : total fresh_recorder ≡ 0
  unfolding waiting kept total
  total_fresh = refl

  -- A flush settles all that is ready, and what is neither ready nor open nor flying is settled.
  total-publish_ready :
      (accepts : Batch → Bool) (bs : List Batch) (s : State)
      → total (publish_ready accepts bs s) ≡ total s
  unfolding publish_ready
  total-publish_ready accepts [] s = refl
  total-publish_ready accepts (b ∷ bs) s = omega (
    arith,
    total-publish_ready accepts bs (land (accepts b) (take_ready s)),
    total-land (accepts b) (take_ready s),
    total-take_ready s,
  )

  waiting-publish_ready :
      (accepts : Batch → Bool) (bs : List Batch) (s : State)
      → s.ready ≡ bs
      → s.flying ≡ none
      → s.opened ≡ []
      → waiting w (publish_ready accepts bs s) ≡ 0
  unfolding publish_ready waiting
  waiting-publish_ready accepts [] s r f o = rw r (rw f (rw o refl))
  waiting-publish_ready accepts (b ∷ bs) s r f o =
      let (ready, flying, opened) = after_landing (accepts b) s s.flying s.ready b bs f r in
      waiting-publish_ready accepts bs (land (accepts b) (take_ready s)) ready flying (opened ∙ o)

  -- Every row that was recorded, in whatever order rows, the flusher and the broker's answers came, is in a
  -- published batch or in the fallback when the recorder has been drained, and no row is there twice:
  -- whatever rows are counted for, what is kept counts for as much as what was recorded.
  pub drain-keeps :
      (cfg : Config) (acts : List Action) (accepted : Bool) (accepts : Batch → Bool)
      → kept w (drain accepts (land accepted (run cfg acts fresh_recorder)))
        ≡ weigh w (recorded_by acts)
  unfolding drain seal_all
  drain-keeps cfg acts accepted accepts =
      let s = run cfg acts fresh_recorder in
      let t = land accepted s in
      omega (
        arith,
        waiting-publish_ready accepts ((seal_all t).ready) (seal_all t) refl
            (landed accepted s s.flying refl) refl,
        total-publish_ready accepts ((seal_all t).ready) (seal_all t),
        total-seal_all t,
        total-land accepted s,
        total-run cfg acts fresh_recorder,
        total_fresh,
        total_split (drain accepts t),
      )
