-- ===== src/Recorder/Weighs.antt =====
-- How many rows wait in the recorder (internal/record/jetstream/recorder.go), and how many are settled.
use garmd.Base.{
  ℕ, ◌+◌, ◌≡◌, refl, String, Bool, true, false, Option, none, some, List, [], ◌∷◌, ◌++◌, arith,
  Bool-cases, inl, inr,
}
use garmd.Base.Dict.{Dict, lookup, insert}
use garmd.Recorder.{
  Event, Batch, Config, State, with_sealed, batches_of, take_from, land_from, with_event,
  would_overflow, new_batch, put, put_in, seal_all,
}

-- A weight of events: 1 for each to count them, or 1 for those of a kind.
module _ (w : Event → ℕ) where
  abbrev pub weigh : List Event → ℕ
  weigh [] = 0
  weigh (ev ∷ evs) = w ev + weigh evs

  abbrev pub weigh_batches : List Batch → ℕ
  weigh_batches [] = 0
  weigh_batches (b ∷ bs) = weigh b.events + weigh_batches bs

  abbrev pub weigh_open : Dict Batch → ℕ
  weigh_open [] = 0
  weigh_open ((subject, b) ∷ rest) = weigh b.events + weigh_open rest

  abbrev pub weigh_one : Option Batch → ℕ
  weigh_one none = 0
  weigh_one (some b) = weigh b.events

  -- The events that wait, and those that are settled.
  unfoldable pub waiting : State → ℕ
  waiting s = weigh_open s.opened + weigh_batches s.ready + weigh_one s.flying

  unfoldable pub kept : State → ℕ
  kept s = weigh_batches s.published + weigh s.fallback

  pub weigh-append : (xs ys : List Event) → weigh (xs ++ ys) ≡ weigh xs + weigh ys
  weigh-append [] ys = omega arith
  weigh-append (x ∷ xs) ys = omega (arith, weigh-append xs ys)

  weigh_batches-append :
      (xs ys : List Batch) → weigh_batches (xs ++ ys) ≡ weigh_batches xs + weigh_batches ys
  weigh_batches-append [] ys = omega arith
  weigh_batches-append (x ∷ xs) ys = omega (arith, weigh_batches-append xs ys)

  weigh_batches-with_sealed :
      (evs : List Event) (b : Batch) (rest : List Batch)
      → b.events ≡ evs
      → weigh_batches (with_sealed b rest) ≡ weigh b.events + weigh_batches rest
  weigh_batches-with_sealed [] b rest e = rw e (omega arith)
  weigh_batches-with_sealed (ev ∷ evs) b rest e = rw e refl

  weigh_batches-batches_of : (m : Dict Batch) → weigh_batches (batches_of m) ≡ weigh_open m
  unfolding batches_of
  weigh_batches-batches_of [] = refl
  weigh_batches-batches_of ((subject, b) ∷ rest) = omega (
    arith,
    weigh_batches-with_sealed b.events b (batches_of rest) refl,
    weigh_batches-batches_of rest,
  )

  weigh_open-insert :
      (k : String) (b : Batch) (m : Dict Batch)
      → weigh_open (insert k b m) + weigh_one (lookup k m) ≡ weigh b.events + weigh_open m
  unfolding insert lookup
  weigh_open-insert k b [] = omega arith
  weigh_open-insert k b ((j, old) ∷ m) = ground (arith, weigh_open-insert k b m)

  waiting-put :
      (cfg : Config) (subject : String) (ev : Event) (b : Batch) (ready : List Batch) (s : State)
      → weigh_batches ready + weigh b.events
        ≡ weigh_batches s.ready + weigh_one (lookup subject s.opened)
      → (waiting (put cfg subject ev b ready s) ≡ waiting s + w ev)
        × (kept (put cfg subject ev b ready s) ≡ kept s)
  unfolding waiting kept
  waiting-put cfg subject ev b ready s same = (
    omega (
      arith,
      weigh_open-insert subject (with_event cfg ev b) s.opened,
      weigh-append b.events (ev ∷ []),
      same,
    ),
    refl,
  )

  pub waiting-put_in :
      (cfg : Config) (subject id : String) (ev : Event) (s : State) (found : Option Batch)
      → lookup subject s.opened ≡ found
      → (waiting (put_in cfg subject id ev s found) ≡ waiting s + w ev)
        × (kept (put_in cfg subject id ev s found) ≡ kept s)
  waiting-put_in cfg subject id ev s none e =
      waiting-put cfg subject ev (new_batch cfg subject id) s.ready s (rw e refl)
  waiting-put_in cfg subject id ev s (some b) e = elim (Bool-cases (would_overflow cfg ev b)) [
    | inl full ↦ rw full (
        waiting-put cfg subject ev (new_batch cfg subject id) (s.ready ++ (b ∷ [])) s
          (rw e (omega (arith, weigh_batches-append s.ready (b ∷ [])))))
    | inr room ↦ rw room (waiting-put cfg subject ev b s.ready s (rw e refl))
  ]

  pub waiting-take_from :
      (s : State) (flying : Option Batch) (ready : List Batch)
      → s.flying ≡ flying
      → s.ready ≡ ready
      → (waiting (take_from s flying ready) ≡ waiting s)
        × (kept (take_from s flying ready) ≡ kept s)
  unfolding waiting kept
  waiting-take_from s none [] e f = (refl, refl)
  waiting-take_from s none (b ∷ bs) e f = (rw e (rw f (omega arith)), refl)
  waiting-take_from s (some b) ready e f = (refl, refl)

  pub waiting-land_from :
      (accepted : Bool) (s : State) (flying : Option Batch)
      → s.flying ≡ flying
      → (waiting (land_from accepted s flying) + weigh_one flying ≡ waiting s)
        × (kept (land_from accepted s flying) ≡ kept s + weigh_one flying)
  unfolding waiting kept
  waiting-land_from accepted s none e = (omega arith, omega arith)
  waiting-land_from true s (some b) e =
      (rw e (omega arith), omega (arith, weigh_batches-append s.published (b ∷ [])))
  waiting-land_from false s (some b) e =
      (rw e (omega arith), omega (arith, weigh-append s.fallback b.events))

  pub waiting-seal_all :
      (s : State) → (waiting (seal_all s) ≡ waiting s) × (kept (seal_all s) ≡ kept s)
  unfolding waiting kept seal_all
  waiting-seal_all s = (
    omega (
      arith,
      weigh_batches-append s.ready (batches_of s.opened),
      weigh_batches-batches_of s.opened,
    ),
    refl,
  )
